-- ===== src/Tree/Walks.antt =====
-- About Archive and Restore of agent/tree/tree.go and the well-formedness of the Tree.
use graph_agent_dev_kit.Common.{
  ℕ, zero, suc, String, ◌==◌, Bool, true, Bool-cases, Option-cases, inl, inr, some, List, [], ◌∷◌,
  Exec, Result-cases, elem, ◌≡◌, refl, sym, ◌∙◌, subst, arith,
}
use graph_agent_dev_kit.Common.Dict.{Dict, get, put}
use graph_agent_dev_kit.Types.Errors.{Error}
use graph_agent_dev_kit.Types.Node.{Node}
use graph_agent_dev_kit.Tree.State.{Tree, find_node, or_empty, children_of, get_node}
use graph_agent_dev_kit.Tree.Archive.{
  walk, for_children, archive, restore, mark_archived, mark_active, on_nodes,
}
use graph_agent_dev_kit.Tree.Valid.{IsTree, Has}
use graph_agent_dev_kit.Tree.Shape.{
  Alike, SameShape, SameShape-refl, SameShape-trans, SameShape-put, IsKeyed, SameShape-IsKeyed,
}

for_children-SameShape :
    (visit : Node → Exec (Dict Node) Error (Unit {0}))
    → ((n : Node) (d : Dict Node) → IsKeyed d → get d n.id ≡ some n → SameShape d (visit n d).1)
    → (ids : List String) (d : Dict Node) → IsKeyed d
    → SameShape d (for_children visit ids d).1
unfolding for_children
for_children-SameShape visit keeps [] d v = SameShape-refl d
for_children-SameShape visit keeps (id ∷ ids) d v = elim (Option-cases (get d id)) [
  | inl e ↦ rw (e, find_node, for_children) (SameShape-refl d)
  | inr (n, e) ↦
      let first = keeps n d v (subst (λ i. get d i ≡ some n) (sym (v id n e)) e) in
      let rest = for_children-SameShape visit keeps ids (visit n d).1 (SameShape-IsKeyed first v) in
      elim (Result-cases (visit n d).0) [
        | inl (u, done) ↦ rw (e, find_node, for_children, done) (SameShape-trans first rest)
        | inr (x, failed) ↦ rw (e, find_node, for_children, failed) first
      ]
]

module _ (mark : Node → Node) (marks : (n : Node) → Alike n (mark n))
    (children : Dict (List String)) where
  walk-SameShape :
      (f : ℕ) (recursive : Bool) (n : Node) (d : Dict Node)
      → IsKeyed d
      → get d n.id ≡ some n
      → SameShape d (walk mark children f recursive n d).1
  unfolding walk
  walk-SameShape zero recursive n d v e = SameShape-refl d
  walk-SameShape (suc f) recursive n d v e =
      let first = SameShape-put d n (mark n) e (marks n) in
      let rest =
        for_children-SameShape (walk mark children f true) (walk-SameShape f true)
          (or_empty (get children n.id)) (put d n.id (mark n)) (SameShape-IsKeyed first v) in
      elim (Bool-cases recursive) [
        | inl all ↦ rw all (SameShape-trans first rest)
        | inr one ↦ rw one first
      ]

module _ {W : Type 0} where
  -- A tree keeps its well-formedness when its nodes keep its shape.
  IsTree-reshape :
      {t : Tree W} {d : Dict Node}
      → SameShape t.nodes d
      → IsTree t
      → IsTree (record t { nodes = d })
  IsTree-reshape {t} {d} s v = record {
    ranked = record {
      named = λ k n e. let h = s.back k n e in v.ranked.named k h.node h.found;
      parented = λ k n e ne.
          let h = s.back k n e in
          let (p, found, less) =
            v.ranked.parented k h.node h.found (λ q. ne (h.alike.parent_id ∙ q)) in
          let h' = s.forth h.node.parent_id p found in
          (
            h'.node,
            subst (λ i. get d i ≡ some h'.node) (sym h.alike.parent_id) h'.found,
            omega (arith, h.alike.depth, h'.alike.depth),
          );
    };
    keyed = SameShape-IsKeyed s v.keyed;
    rooted = λ k n e top.
        let h = s.back k n e in v.rooted k h.node h.found (sym h.alike.parent_id ∙ top);
    listed = λ k n e ne.
        let h = s.back k n e in
        subst (λ i. elem k (children_of t i) ≡ true) (sym h.alike.parent_id)
          (v.listed k h.node h.found (λ q. ne (h.alike.parent_id ∙ q)));
    children_found = λ p k e. has k (v.children_found p k e);
    children_below = λ p k n e q.
        let h = s.back k n q in h.alike.parent_id ∙ v.children_below p k h.node e h.found;
    tips_found = λ b k e. has k (v.tips_found b k e);
    active_found = v.active_found;
    saved_found = λ c cp e. has cp.node_id (v.saved_found c cp e);
  }
    where
      has : (k : String) → Has t.nodes k → Has d k
      has k h = let x = s.forth k h.value h.found in record { value = x.node; found = x.found }

  on_nodes-IsTree :
      (mark : Node → Node) (marks : (n : Node) → Alike n (mark n)) (recursive : Bool) (n : Node)
      (t : Tree W)
      → IsTree t
      → get t.nodes n.id ≡ some n
      → IsTree (on_nodes mark recursive n t).1
  on_nodes-IsTree mark marks recursive n t v e =
      IsTree-reshape (walk-SameShape mark marks t.children _ recursive n t.nodes v.keyed e) v

mark_archived-Alike : (by : String) (now : ℕ) (n : Node) → Alike n (mark_archived by now n)
unfolding mark_archived
mark_archived-Alike by now n = record {
  id = refl;
  parent_id = refl;
  message = refl;
  depth = refl;
  branch_id = refl;
}

mark_active-Alike : (now : ℕ) (n : Node) → Alike n (mark_active now n)
unfolding mark_active
mark_active-Alike now n = record {
  id = refl;
  parent_id = refl;
  message = refl;
  depth = refl;
  branch_id = refl;
}

module _ {W : Type 0} where
  own_id :
      (t : Tree W) (id : String) (n : Node)
      → IsTree t
      → get t.nodes id ≡ some n
      → get t.nodes n.id ≡ some n
  own_id t id n v e = subst (λ i. get t.nodes i ≡ some n) (sym (v.keyed id n e)) e

  pub archive-IsTree :
      (id by : String) (recursive : Bool) (now : ℕ) (t : Tree W)
      → IsTree t
      → IsTree (archive id by recursive now t).1
  archive-IsTree id by recursive now t v = elim (Option-cases (get t.nodes id)) [
    | inl e ↦ unfold archive get_node in rw (e, find_node) v
    | inr (n, e) ↦ elim (Bool-cases (n.parent_id == "")) [
      | inl top ↦ unfold archive get_node in rw (e, find_node, top) v
      | inr below ↦
          unfold archive get_node in
          rw (e, find_node, below)
            (on_nodes-IsTree _ (mark_archived-Alike by now) recursive n t v (own_id t id n v e))
    ]
  ]

  pub restore-IsTree :
      (id : String) (recursive : Bool) (now : ℕ) (t : Tree W)
      → IsTree t
      → IsTree (restore id recursive now t).1
  restore-IsTree id recursive now t v = elim (Option-cases (get t.nodes id)) [
    | inl e ↦ unfold restore get_node in rw (e, find_node) v
    | inr (n, e) ↦
        unfold restore get_node in
        rw (e, find_node)
          (on_nodes-IsTree _ (mark_active-Alike now) recursive n t v (own_id t id n v e))
  ]
