-- ===== src/Tree/Load/Rebuilt.antt =====
-- About FromStore of agent/tree/tree.go on the nodes of a tree: the lists of children come back.
use graph_agent_dev_kit.Common.{
  String, ◌==◌, Bool, true, false, ◌||◌, ◌&&◌, Bool-cases, inl, inr, none, some, List, [], ◌∷◌,
  ◌++◌, ok, elem, elem-append, ◌≡◌, ◌≢◌, refl, sym, ap, ◌∙◌, subst, arith, eq_iff,
}
use graph_agent_dev_kit.Common.Dict.{Dict, get, put, get-put}
use graph_agent_dev_kit.Types.Node.{Node}
use graph_agent_dev_kit.Tree.State.{Tree, or_empty, children_of}
use graph_agent_dev_kit.Types.Wal.{Wal}
use graph_agent_dev_kit.Tree.Valid.{IsTree}
use graph_agent_dev_kit.Tree.History.{Reached, Reached-IsTree}
use graph_agent_dev_kit.Tree.Serialize.Kept.{Reached-IsStored}
use graph_agent_dev_kit.Tree.Serialize.Trees.{put_all}
use graph_agent_dev_kit.Tree.Serialize.Stored.{IsMap, IsStored}
use graph_agent_dev_kit.Tree.Serialize.RoundTrip.{put_all_id, get-first, get-later}
use graph_agent_dev_kit.Tree.Load.{put_nodes, list_child, list_children, from_store}

-- The nodes of a map, in its order.
unfoldable pub values : Dict Node → List Node
values [] = []
values ((k, n) ∷ d) = n ∷ values d

-- Whether a node with an id stands under a parent.
unfoldable stands : String → String → List Node → Bool
stands k p [] = false
stands k p (n ∷ ns) = (n.parent_id == p && k == n.id) || stands k p ns

child_listed :
    (c : Dict (List String)) (n : Node) (k p : String)
    → p ≢ ""
    → elem k (or_empty (get (list_child c n) p))
      ≡ (elem k (or_empty (get c p)) || (n.parent_id == p && k == n.id))
unfolding list_child
child_listed c n k p ne = elim (Bool-cases (n.parent_id == "")) [
  | inl top ↦ rw top (ground (arith, eq_iff n.parent_id "", eq_iff n.parent_id p))
  | inr below ↦ rw below (
      ground (
        arith,
        get-put c n.parent_id p (or_empty (get c n.parent_id) ++ n.id ∷ []),
        eq_iff n.parent_id p,
        elem-append k (or_empty (get c p)) (n.id ∷ []),
      ))
]

children_listed :
    (ns : List Node) (c : Dict (List String)) (k p : String)
    → p ≢ ""
    → elem k (or_empty (get (list_children c ns) p))
      ≡ (elem k (or_empty (get c p)) || stands k p ns)
unfolding list_children stands
children_listed [] c k p ne = ground arith
children_listed (n ∷ ns) c k p ne =
    ground (arith, children_listed ns (list_child c n) k p ne, child_listed c n k p ne)

same_truth : (a b : Bool) → (a ≡ true → b ≡ true) → (b ≡ true → a ≡ true) → a ≡ b
same_truth true b f g = sym (f refl)
same_truth false true f g = g refl
same_truth false false f g = refl

stands_found :
    (d : Dict Node) (k p : String)
    → IsMap d
    → ((j : String) (n : Node) → get d j ≡ some n → n.id ≡ j)
    → stands k p (values d) ≡ true
    → (n : Node) × (get d k ≡ some n) × (n.parent_id ≡ p)
unfolding stands values IsMap
stands_found [] k p h keyed e = absurd cc
stands_found ((j, n) ∷ d) k p (fresh, h) keyed e =
    elim (Bool-cases (n.parent_id == p && k == n.id)) [
      | inl here ↦
          let id : n.id ≡ j = keyed j n (get-first j n d) in
          let at : k ≡ j = (eq_iff k n.id).0 (ground arith) ∙ id in
          (n, ap (get ((j, n) ∷ d)) at ∙ get-first j n d, (eq_iff n.parent_id p).0 (ground arith))
      | inr there ↦
          let (m, found, below) =
            stands_found d k p h (λ i x q. keyed i x (get-later j i n x d fresh q))
              (ground arith) in
          (m, get-later j k n m d fresh found, below)
    ]

found_stands :
    (d : Dict Node) (k p : String) (n : Node)
    → get d k ≡ some n
    → n.id ≡ k
    → n.parent_id ≡ p
    → stands k p (values d) ≡ true
unfolding stands values get
found_stands [] k p n e id below = absurd cc
found_stands ((j, m) ∷ d) k p n e id below = elim (Bool-cases (j == k)) [
  | inl same ↦
      let now : some m ≡ some n = rw same at e in
      let here : m ≡ n = cc in
      ground (
        arith,
        eq_iff m.parent_id p,
        eq_iff k m.id,
        ap (λ (x : Node). x.parent_id) here,
        ap (λ (x : Node). x.id) here,
      )
  | inr other ↦ let later = found_stands d k p n (rw other at e) id below in ground arith
]

put_nodes-eq :
    (d m : Dict Node)
    → IsMap d
    → ((j : String) (n : Node) → get d j ≡ some n → n.id ≡ j)
    → put_nodes m (values d) ≡ put_all m d
unfolding put_nodes put_all values IsMap
put_nodes-eq [] m h keyed = refl
put_nodes-eq ((k, n) ∷ d) m (fresh, h) keyed =
    put_nodes-eq d (put m n.id n) h (λ j x e. keyed j x (get-later k j n x d fresh e))
    ∙ ap (λ i. put_all (put m i n) d) (keyed k n (get-first k n d))

-- A map that has an entry has a first one.
values-cons :
    (d : Dict Node) (k : String) (n : Node)
    → get d k ≡ some n
    → (m : Node) × (ms : List Node) × (values d ≡ m ∷ ms)
unfolding values get
values-cons [] k n e = absurd cc
values-cons ((j, m) ∷ d) k n e = (m, values d, refl)

module _ {W : Type 0} where
  stands-children :
      (t : Tree W) (k p : String)
      → IsTree t
      → IsMap t.nodes
      → p ≢ ""
      → stands k p (values t.nodes) ≡ elem k (children_of t p)
  stands-children t k p v h ne =
      same_truth (stands k p (values t.nodes)) (elem k (children_of t p))
        (λ e.
          let (n, found, below) = stands_found t.nodes k p h v.keyed e in
          subst (λ q. elem k (children_of t q) ≡ true) below
            (v.listed k n found (λ top. ne (sym below ∙ top))))
        (λ e.
          let at = v.children_found p k e in
          found_stands t.nodes k p at.value at.found (v.keyed k at.value at.found)
            (v.children_below p k at.value e at.found))

  rebuilt :
      (t : Tree W) (k p : String)
      → IsTree t
      → IsStored t
      → p ≢ ""
      → (u : Tree W) × (from_store
            (values t.nodes)
            t.branches
            t.checkpoints
            t.root_id
            t.active_branch
          ≡ ok u)
        × (u.nodes ≡ t.nodes)
        × (u.branches ≡ t.branches)
        × (u.checkpoints ≡ t.checkpoints)
        × (elem k (children_of u p) ≡ elem k (children_of t p))
  unfolding from_store get
  rebuilt t k p v s ne =
      let tip = v.active_found in
      let at = v.tips_found t.active_branch tip.value tip.found in
      let (m, ms, e) = values-cons t.nodes tip.value at.value at.found in
      let nodes : put_nodes [] (m ∷ ms) ≡ t.nodes =
        ap (put_nodes []) (sym e)
        ∙ put_nodes-eq t.nodes [] s.nodes_map v.keyed
        ∙ put_all_id t.nodes s.nodes_map in
      let kids : elem k (or_empty (get (list_children [] (m ∷ ms)) p)) ≡ elem k (children_of t p) =
        ap (λ ns. elem k (or_empty (get (list_children [] ns) p))) (sym e)
        ∙ children_listed (values t.nodes) [] k p ne
        ∙ stands-children t k p v s.nodes_map ne in
      let u : Tree W = record {
        nodes = put_nodes [] (m ∷ ms);
        children = list_children [] (m ∷ ms);
        root_id = t.root_id;
        branches = put_all [] t.branches;
        active_branch = t.active_branch;
        checkpoints = put_all [] t.checkpoints;
        wal = none;
      } in
      (
        u,
        rw (e, from_store) refl,
        nodes,
        put_all_id t.branches s.branches_map,
        put_all_id t.checkpoints s.checkpoints_map,
        kids,
      )

  -- Of the nodes, branches and checkpoints of every tree that calls reach from a new tree,
  -- FromStore makes a tree with the same nodes, branches and checkpoints, and with the same
  -- children under every id that is not empty.
  pub Reached-from_store :
      ⦃log : Wal W⦄ (t : Tree W) (k p : String)
      → Reached t
      → p ≢ ""
      → (u : Tree W) × (from_store
            (values t.nodes)
            t.branches
            t.checkpoints
            t.root_id
            t.active_branch
          ≡ ok u)
        × (u.nodes ≡ t.nodes)
        × (u.branches ≡ t.branches)
        × (u.checkpoints ≡ t.checkpoints)
        × (elem k (children_of u p) ≡ elem k (children_of t p))
  Reached-from_store t k p r ne = rebuilt t k p (Reached-IsTree r) (Reached-IsStored r) ne
