-- ===== src/Tree/Shape.antt =====
-- Maps of nodes that differ in the state and the bookkeeping of the nodes at most.
use graph_agent_dev_kit.Common.{
  String, ◌==◌, eq_iff, Bool-cases, inl, inr, some, ◌≡◌, refl, sym, ◌∙◌, subst, arith,
}
use graph_agent_dev_kit.Common.Dict.{Dict, get, put, get-put, get-put_cases}
use graph_agent_dev_kit.Types.Node.{Node}

-- Two nodes that differ in state and bookkeeping at most.
pub record Alike (n m : Node) : Type 0 where
  pub id : n.id ≡ m.id
  pub parent_id : n.parent_id ≡ m.parent_id
  pub message : n.message ≡ m.message
  pub depth : n.depth ≡ m.depth
  pub branch_id : n.branch_id ≡ m.branch_id

-- The entry of `d` at `k` that is alike.
pub record HasAlike (d : Dict Node) (k : String) (n : Node) : Type 0 where
  pub node : Node
  pub found : get d k ≡ some node
  pub alike : Alike n node

pub record SameShape (a b : Dict Node) : Type 0 where
  pub forth : (k : String) (n : Node) → get a k ≡ some n → HasAlike b k n
  pub back : (k : String) (n : Node) → get b k ≡ some n → HasAlike a k n

Alike-refl : (n : Node) → Alike n n
Alike-refl n = record {
  id = refl;
  parent_id = refl;
  message = refl;
  depth = refl;
  branch_id = refl;
}

pub SameShape-refl : (a : Dict Node) → SameShape a a
SameShape-refl a = record {
  forth = λ k n e. record { node = n; found = e; alike = Alike-refl n };
  back = λ k n e. record { node = n; found = e; alike = Alike-refl n };
}

Alike-sym : {n m : Node} → Alike n m → Alike m n
Alike-sym a = record {
  id = sym a.id;
  parent_id = sym a.parent_id;
  message = sym a.message;
  depth = sym a.depth;
  branch_id = sym a.branch_id;
}

Alike-trans : {n m o : Node} → Alike n m → Alike m o → Alike n o
Alike-trans a b = record {
  id = a.id ∙ b.id;
  parent_id = a.parent_id ∙ b.parent_id;
  message = a.message ∙ b.message;
  depth = a.depth ∙ b.depth;
  branch_id = a.branch_id ∙ b.branch_id;
}

HasAlike-trans :
    {d : Dict Node} {k : String} {n m : Node} → Alike n m → HasAlike d k m → HasAlike d k n
HasAlike-trans a h = record { node = h.node; found = h.found; alike = Alike-trans a h.alike }

pub SameShape-trans : {a b c : Dict Node} → SameShape a b → SameShape b c → SameShape a c
SameShape-trans s t = record {
  forth = λ k n e. let h = s.forth k n e in HasAlike-trans h.alike (t.forth k h.node h.found);
  back = λ k n e. let h = t.back k n e in HasAlike-trans h.alike (s.back k h.node h.found);
}

-- A node is written over by one that is alike.
pub SameShape-put :
    (d : Dict Node) (n m : Node) → get d n.id ≡ some n → Alike n m → SameShape d (put d n.id m)
SameShape-put d n m e a = record {
  forth = λ k x q. elim (Bool-cases (n.id == k)) [
    | inl same ↦ record {
      node = m;
      found = ground (arith, get-put d n.id k m);
      alike = subst (λ y. Alike y m) (ground (arith, eq_iff n.id k)) a;
    }
    | inr other ↦ record {
      node = x;
      found = ground (arith, get-put d n.id k m);
      alike = Alike-refl x;
    }
  ];
  back = λ k x q. elim (get-put_cases d n.id k m q) [
    | inl (same, new) ↦ record {
      node = n;
      found = subst (λ i. get d i ≡ some n) same e;
      alike = subst (λ y. Alike y n) new (Alike-sym a);
    }
    | inr (_, old) ↦ (SameShape-refl d).forth k x old
  ];
}

-- Every node stands under its own id.
abbrev pub IsKeyed : Dict Node → Type 0
IsKeyed d = (k : String) (n : Node) → get d k ≡ some n → n.id ≡ k

pub SameShape-IsKeyed : {a b : Dict Node} → SameShape a b → IsKeyed a → IsKeyed b
SameShape-IsKeyed s v k n e = let h = s.back k n e in h.alike.id ∙ v k h.node h.found
