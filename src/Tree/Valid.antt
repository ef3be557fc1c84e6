-- ===== src/Tree/Valid.antt =====
-- The well-formedness of the Tree of agent/tree/tree.go, and the three writes of a growing operation.
use graph_agent_dev_kit.Common.{
  ◌<◌, String, ◌==◌, eq_iff, Bool-cases, inl, inr, true, none, some, [], ◌∷◌, ◌++◌, ◌||◌, ◌&&◌, ap,
  sym, ◌∙◌, elem, elem-append, ◌≡◌, ◌≢◌, arith, subst, if◌then◌else◌, eq_of_test, Option,
}
use graph_agent_dev_kit.Common.Dict.{Dict, get, put, get-put, get-put_cases, get-put_self}
use graph_agent_dev_kit.Types.Node.{Node, Checkpoint}
use graph_agent_dev_kit.Tree.State.{Tree, children_of, attach, link}
use graph_agent_dev_kit.Tree.Lineage.{IsRanked}

-- The map has an entry at `id`.
pub record Has {ℓ} {V : Type ℓ} (d : Dict V) (id : String) : Type ℓ where
  pub value : V
  pub found : get d id ≡ some value

module _ {W : Type 0} where
  pub record IsTree (t : Tree W) : Type 0 where
    pub ranked : IsRanked t.nodes
    pub keyed : (k : String) (n : Node) → get t.nodes k ≡ some n → n.id ≡ k
    pub rooted : (k : String) (n : Node) → get t.nodes k ≡ some n → n.parent_id ≡ "" → k ≡ t.root_id
    pub listed :
        (k : String) (n : Node)
        → get t.nodes k ≡ some n
        → n.parent_id ≢ ""
        → elem k (children_of t n.parent_id) ≡ true
    pub children_found : (p k : String) → elem k (children_of t p) ≡ true → Has t.nodes k
    pub children_below :
        (p k : String) (n : Node)
        → elem k (children_of t p) ≡ true
        → get t.nodes k ≡ some n
        → n.parent_id ≡ p
    pub tips_found : (b k : String) → get t.branches b ≡ some k → Has t.nodes k
    pub active_found : Has t.branches t.active_branch
    pub saved_found :
        (c : String) (cp : Checkpoint) → get t.checkpoints c ≡ some cp → Has t.nodes cp.node_id

pub Has-put {ℓ} :
    {V : Type ℓ} {d : Dict V} {id : String} (new : String) (v : V) → Has d id → Has (put d new v) id
Has-put {d = d} {id = id} new v h = elim (Bool-cases (new == id)) [
  | inl same ↦ record { value = v; found = ground (arith, get-put d new id v) }
  | inr other ↦ record { value = h.value; found = ground (arith, get-put d new id v, h.found) }
]

-- A node that may be linked: its id is new, and its parent is there and less deep.
pub record IsLinkable (nodes : Dict Node) (child : Node) : Type 0 where
  pub named : child.id ≢ ""
  pub fresh : get nodes child.id ≡ none
  pub parent : Node
  pub parent_found : get nodes child.parent_id ≡ some parent
  pub deeper : parent.depth < child.depth

IsRanked-put :
    {nodes : Dict Node} {child : Node}
    → IsRanked nodes
    → IsLinkable nodes child
    → IsRanked (put nodes child.id child)
IsRanked-put {nodes} {child} r l = record {
  named = λ k n e. elim (get-put_cases nodes child.id k child e) [
    | inl (same, _) ↦ subst (λ i. i ≢ "") same l.named
    | inr (other, old) ↦ r.named k n old
  ];
  parented = λ k n e ne. elim (get-put_cases nodes child.id k child e) [
    | inl (_, same) ↦
        subst
          (λ m.
            (p : Node) × (get (put nodes child.id child) m.parent_id ≡ some p)
            × (p.depth < m.depth))
          same (l.parent, kept child.parent_id l.parent l.parent_found, l.deeper)
    | inr (_, old) ↦
        let (p, found, less) = r.parented k n old ne in (p, kept n.parent_id p found, less)
  ];
}
  where
    kept :
        (k : String) (n : Node) → get nodes k ≡ some n → get (put nodes child.id child) k ≡ some n
    kept k n e = ground (arith, get-put nodes child.id k child, eq_iff child.id k, l.fresh)

module _ {W : Type 0} where
  -- Only the log changes.
  pub IsTree-wal : {t : Tree W} (w : Option W) → IsTree t → IsTree (record t { wal = w })
  IsTree-wal w v = record {
    ranked = v.ranked;
    keyed = v.keyed;
    rooted = v.rooted;
    listed = v.listed;
    children_found = v.children_found;
    children_below = v.children_below;
    tips_found = v.tips_found;
    active_found = v.active_found;
    saved_found = v.saved_found;
  }

  children_of-attach :
      (t : Tree W) (child : Node) (p : String)
      → children_of (attach child t) p
        ≡ (if child.parent_id == p then children_of t p ++ child.id ∷ [] else children_of t p)
  unfolding attach
  children_of-attach t child p = ground (
    arith,
    eq_iff child.parent_id p,
    get-put t.children child.parent_id p (children_of t child.parent_id ++ child.id ∷ []),
  )

  elem-attach :
      (t : Tree W) (child : Node) (p k : String)
      → elem k (children_of (attach child t) p)
        ≡ (elem k (children_of t p) || (child.parent_id == p && k == child.id))
  elem-attach t child p k =
      ground (arith, children_of-attach t child p, elem-append k (children_of t p) (child.id ∷ []))

  -- What stands in a list of children after the writes, if it is the new node, stands under its
  -- parent.
  attached_below :
      (t : Tree W) (child : Node) (p k : String) (n : Node)
      → IsTree t
      → get t.nodes child.id ≡ none
      → elem k (children_of (attach child t) p) ≡ true
      → child.id ≡ k
      → child ≡ n
      → n.parent_id ≡ p
  attached_below t child p k n v fresh e same new = elim (Bool-cases (elem k (children_of t p))) [
    | inl old ↦ let h = v.children_found p k old in ground (arith, h.found)
    | inr added ↦
        ap (λ (m : Node). m.parent_id) (sym new)
        ∙ eq_of_test child.parent_id p (ground (arith, elem-attach t child p k))
  ]

  -- A new node under a node that is there keeps a tree well-formed.
  pub attach-IsTree :
      (t : Tree W) (child : Node) → IsTree t → IsLinkable t.nodes child → IsTree (attach child t)
  unfolding attach
  attach-IsTree t child v l = record {
    ranked = IsRanked-put v.ranked l;
    keyed = λ k n e. elim (get-put_cases t.nodes child.id k child e) [
      | inl (same, new) ↦ subst (λ m. m.id ≡ k) new same
      | inr (_, old) ↦ v.keyed k n old
    ];
    rooted = λ k n e top. elim (get-put_cases t.nodes child.id k child e) [
      | inl (same, new) ↦
          absurd (
            v.ranked.named child.parent_id l.parent l.parent_found
              (ap (λ m. m.parent_id) new ∙ top))
      | inr (_, old) ↦ v.rooted k n old top
    ];
    listed = λ k n e ne. elim (get-put_cases t.nodes child.id k child e) [
      | inl (same, new) ↦ ground (
        arith,
        elem-attach t child n.parent_id k,
        eq_iff child.parent_id n.parent_id,
        eq_iff k child.id,
        ap (λ (m : Node). m.parent_id) new,
      )
      | inr (_, old) ↦ ground (arith, elem-attach t child n.parent_id k, v.listed k n old ne)
    ];
    children_found = λ p k e. elim (Bool-cases (elem k (children_of t p))) [
      | inl old ↦ Has-put child.id child (v.children_found p k old)
      | inr new ↦ record {
        value = child;
        found = ground (
          arith,
          elem-attach t child p k,
          eq_iff k child.id,
          get-put_self t.nodes child.id child,
        );
      }
    ];
    children_below = λ p k n e q. elim (get-put_cases t.nodes child.id k child q) [
      | inl (same, new) ↦ attached_below t child p k n v l.fresh e same new
      | inr (other, old) ↦
          v.children_below p k n (ground (arith, elem-attach t child p k, eq_iff k child.id)) old
    ];
    tips_found = λ b k e. Has-put child.id child (v.tips_found b k e);
    active_found = v.active_found;
    saved_found = λ c cp e. Has-put child.id child (v.saved_found c cp e);
  }

  -- A branch name is pointed at a node that is there.
  pub move_branch-IsTree :
      (b k : String) (t : Tree W)
      → IsTree t
      → Has t.nodes k
      → IsTree (record t { branches = put t.branches b k })
  move_branch-IsTree b k t v h = record {
    ranked = v.ranked;
    keyed = v.keyed;
    rooted = v.rooted;
    listed = v.listed;
    children_found = v.children_found;
    children_below = v.children_below;
    tips_found = λ c j q. elim (get-put_cases t.branches b c k q) [
      | inl (_, new) ↦ subst (Has t.nodes) new h
      | inr (_, old) ↦ v.tips_found c j old
    ];
    active_found = Has-put b k v.active_found;
    saved_found = v.saved_found;
  }

  -- The writes of a growing operation keep a tree well-formed.
  pub link-IsTree :
      (t : Tree W) (child : Node) → IsTree t → IsLinkable t.nodes child → IsTree (link child t)
  unfolding link
  link-IsTree t child v l =
      move_branch-IsTree child.branch_id child.id (attach child t) (attach-IsTree t child v l)
        (record { value = child; found = get-put_self t.nodes child.id child })
