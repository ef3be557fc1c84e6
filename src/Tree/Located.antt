-- ===== src/Tree/Located.antt =====
-- About NodePath of agent/tree/tree.go: the child indices that lead from the root to a node.
use mathlib.Core.List.{append-nil, reverse-cons, append_assoc}
use graph_agent_dev_kit.Common.{
  ℕ, zero, suc, String, ◌==◌, true, Bool-cases, inl, inr, Option, none, some, List, [], ◌∷◌, ◌++◌,
  reverse, ok, and_then, elem, ◌≡◌, ◌≢◌, refl, sym, ap, ◌∙◌, arith, eq_iff,
}
use graph_agent_dev_kit.Common.Dict.{get}
use graph_agent_dev_kit.Types.Node.{Node, TreePath}
use graph_agent_dev_kit.Tree.State.{Tree, children_of}
use graph_agent_dev_kit.Tree.Paths.{index_of, found_index, child_indices, node_path}
use graph_agent_dev_kit.Tree.Lineage.{Climb, stop, up, path-total}
use graph_agent_dev_kit.Tree.Valid.{IsTree}

-- xs[i]
unfoldable pub get_elem? : List String → ℕ → Option String
get_elem? [] i = none
get_elem? (x ∷ xs) zero = some x
get_elem? (x ∷ xs) (suc i) = get_elem? xs i

-- A child that is listed has an index, at which it stands.
index_found :
    (k : String) (ids : List String)
    → elem k ids ≡ true
    → (i : ℕ) × (index_of k ids ≡ some i) × (get_elem? ids i ≡ some k)
unfolding index_of get_elem?
index_found k [] h = absurd cc
index_found k (x ∷ ids) h = elim (Bool-cases (x == k)) [
  | inl same ↦ (0, rw same refl, ap (λ y. some y) ((eq_iff x k).0 same))
  | inr other ↦
      let (i, found, at) = index_found k ids (ground (arith, eq_iff x k, eq_iff k x)) in
      (suc i, rw (other, found) refl, at)
]

module _ {W : Type 0} where
  -- From a node, down along child indices.
  unfoldable pub follow : Tree W → String → TreePath → Option String
  unfolding get_elem?
  follow t id [] = some id
  follow t id (i ∷ is) = elim (get_elem? (children_of t id) i) [
    | none ↦ none
    | some child ↦ follow t child is
  ]

  child_indices-step :
      (t : Tree W) (p k : String) (rest : List String) (i : ℕ) (is : TreePath)
      → index_of k (children_of t p) ≡ some i
      → child_indices t (k ∷ rest) ≡ ok is
      → child_indices t (p ∷ k ∷ rest) ≡ ok (i ∷ is)
  unfolding child_indices found_index
  child_indices-step t p k rest i is found h = rw (found, found_index, and_then, h) refl

  follow-step :
      (t : Tree W) (p k : String) (i : ℕ) (is : TreePath)
      → get_elem? (children_of t p) i ≡ some k
      → follow t p (i ∷ is) ≡ follow t k is
  unfolding follow
  follow-step t p k i is at = rw (at, follow) refl

  -- The indices from a node on, with those that lead to it in front.
  indices_above :
      (t : Tree W) (k : String) (ids rest : List String) (is : TreePath)
      → IsTree t
      → Climb t.nodes k ids
      → k ≢ ""
      → child_indices t (k ∷ rest) ≡ ok is
      → (js : TreePath) × (child_indices t (reverse ids ++ rest) ≡ ok js)
        × (follow t t.root_id js ≡ follow t k is)
  indices_above t k ids rest is v (stop top) ne h = absurd (ne top)
  indices_above t k ids rest is v (up n ne e (stop top)) ne' h =
      (is, h, ap (λ r. follow t r is) (sym (v.rooted k n e top)))
  indices_above t k ids rest is v (up n ne e (up {ids = above} p below e' c)) ne' h =
      let (i, found, at) = index_found k (children_of t n.parent_id) (v.listed k n e below) in
      let step : child_indices t (n.parent_id ∷ k ∷ rest) ≡ ok (i ∷ is) =
        child_indices-step t n.parent_id k rest i is found h in
      let (js, all, same) =
        indices_above t n.parent_id (n.parent_id ∷ above) (k ∷ rest) (i ∷ is) v (up p below e' c)
          below step in
      (
        js,
        ap (child_indices t) (
              ap (λ l. l ++ rest) (reverse-cons k (n.parent_id ∷ above))
              ∙ append_assoc (reverse (n.parent_id ∷ above)) (k ∷ []) rest)
            ∙ all,
        same ∙ follow-step t n.parent_id k i is at,
      )

  -- In a well-formed tree NodePath of every node returns indices, and following them from the
  -- root, child by child, leads to the node.
  pub node_path-follow :
      (t : Tree W) (id : String) (n : Node)
      → IsTree t
      → get t.nodes id ≡ some n
      → (is : TreePath) × (node_path id t ≡ ok is) × (follow t t.root_id is ≡ some id)
  unfolding node_path
  node_path-follow t id n v e =
      let (ids, c, found) = path-total t id n v.ranked e in
      let (js, all, same) =
        indices_above t id ids [] [] v c (v.ranked.named id n e) (unfold child_indices in refl) in
      (
        js,
        rw (found, and_then) (ap (child_indices t) (sym (append-nil (reverse ids))) ∙ all),
        same ∙ (unfold follow in refl),
      )
