-- ===== src/Tree/Split.antt =====
-- What a diff of two nodes says of their paths.
use mathlib.Core.List.{reverse-cons}
use graph_agent_dev_kit.Common.{
  ℕ, zero, suc, String, ◌==◌, eq_refl, eq_of_test, ne_of_test, some, List, [], ◌∷◌, ◌++◌, map,
  reverse, take, drop, ok, and_then, Bool-cases, inl, inr, ◌≡◌, ◌≢◌, refl, sym, ap, ap₂, ◌∙◌, subst,
}
use graph_agent_dev_kit.Common.Dict.{Dict, get}
use graph_agent_dev_kit.Types.Node.{Node}
use graph_agent_dev_kit.Tree.State.{Tree}
use graph_agent_dev_kit.Tree.Paths.{path, node_path}
use graph_agent_dev_kit.Tree.Diff.{
  DiffOp, added, removed, NodeDiff, TreeDiff, common_len, last?, or_root_path, node_diffs,
  diff_paths, diff,
}
use graph_agent_dev_kit.Tree.Lineage.{Climb, stop, up, path-total}
use graph_agent_dev_kit.Tree.Valid.{IsTree}
use graph_agent_dev_kit.Tree.Messages.{AllFound, Climb-AllFound}

-- The ids that a list of reported nodes names.
abbrev ids_of : List NodeDiff → List String
ids_of = map (λ d. d.node_id)

take-drop : (n : ℕ) (xs : List String) → take n xs ++ drop n xs ≡ xs
take-drop zero xs = refl
take-drop (suc n) [] = refl
take-drop (suc n) (x ∷ xs) = ap (λ l. x ∷ l) (take-drop n xs)

-- The common prefix is one of both paths.
take-common_len : (xs ys : List String) → take (common_len xs ys) xs ≡ take (common_len xs ys) ys
unfolding common_len
take-common_len [] [] = refl
take-common_len [] (y ∷ ys) = refl
take-common_len (x ∷ xs) [] = refl
take-common_len (x ∷ xs) (y ∷ ys) = elim (Bool-cases (x == y)) [
  | inl same ↦ rw same (ap₂ ◌∷◌ (eq_of_test x y same) (take-common_len xs ys))
  | inr other ↦ rw other refl
]

-- Where both paths go on behind the common prefix, they go on apart.
abbrev pub Parted : List String → List String → Type 0
Parted (x ∷ xs) (y ∷ ys) = x ≢ y
Parted _ _ = Unit {0}

Parted-common_len :
    (xs ys : List String) → Parted (drop (common_len xs ys) xs) (drop (common_len xs ys) ys)
unfolding common_len
Parted-common_len [] [] = tt
Parted-common_len [] (y ∷ ys) = tt
Parted-common_len (x ∷ xs) [] = tt
Parted-common_len (x ∷ xs) (y ∷ ys) = elim (Bool-cases (x == y)) [
  | inl same ↦ rw same (Parted-common_len xs ys)
  | inr other ↦ rw other (ne_of_test x y other)
]

AllFound-drop :
    (nodes : Dict Node) (n : ℕ) (ids : List String)
    → AllFound nodes ids
    → AllFound nodes (drop n ids)
AllFound-drop nodes zero ids f = f
AllFound-drop nodes (suc n) [] f = tt
AllFound-drop nodes (suc n) (id ∷ ids) f = AllFound-drop nodes n ids f.1

-- What Diff promises of two paths: it splits both at the end of their longest common prefix.
pub record IsSplit (from to : List String) (d : TreeDiff) : Type 0 where
  pub removed_follow : d.common_path ++ ids_of d.removed_nodes ≡ from
  pub added_follow : d.common_path ++ ids_of d.added_nodes ≡ to
  pub parted : Parted (ids_of d.removed_nodes) (ids_of d.added_nodes)
  pub ancestor : last? d.common_path ≡ some d.common_ancestor

last?-cons : (x : String) (xs : List String) → (y : String) × (last? (x ∷ xs) ≡ some y)
last?-cons x [] = (x, refl)
last?-cons x (y ∷ xs) = last?-cons y xs

-- Two paths that start at the same node have a last common node.
ancestor-exists :
    (r : String) (xs ys : List String)
    → (y : String) × (last? (take (common_len (r ∷ xs) (r ∷ ys)) (r ∷ xs)) ≡ some y)
unfolding common_len
ancestor-exists r xs ys =
    let (y, e) = last?-cons r (take (common_len xs ys) xs) in (y, rw (eq_refl r) e)

module _ {W : Type 0} where
  -- One reported node.
  abbrev reported : DiffOp → Tree W → String → Node → NodeDiff
  reported op t id n = record {
    op = op;
    node_id = id;
    path = or_root_path (node_path id t);
    message = n.message;
    depth = n.depth;
  }

  node_diffs-cons :
      (op : DiffOp) (t : Tree W) (id : String) (ids : List String) (n : Node)
      → get t.nodes id ≡ some n
      → node_diffs op t (id ∷ ids)
        ≡ and_then (node_diffs op t ids) (λ rest. ok (reported op t id n ∷ rest))
  unfolding node_diffs
  node_diffs-cons op t id ids n e = rw (e, node_diffs)

  -- Where every id has a node, all of them are reported, in order.
  node_diffs-ids :
      (op : DiffOp) (t : Tree W) (ids : List String)
      → AllFound t.nodes ids
      → (ds : List NodeDiff) × (node_diffs op t ids ≡ ok ds) × (ids_of ds ≡ ids)
  node_diffs-ids op t [] f = ([], unfold node_diffs in refl, refl)
  node_diffs-ids op t (id ∷ ids) f =
      let (ds, q, same) = node_diffs-ids op t ids f.1 in
      (
        reported op t id f.0.value ∷ ds,
        node_diffs-cons op t id ids f.0.value f.0.found
            ∙ ap (λ r. and_then r (λ rest. ok (reported op t id f.0.value ∷ rest))) q,
        ap (λ l. id ∷ l) same,
      )

  diff_paths-IsSplit :
      (t : Tree W) (from to : List String) (ancestor : String)
      → AllFound t.nodes from
      → AllFound t.nodes to
      → last? (take (common_len from to) from) ≡ some ancestor
      → (d : TreeDiff) × (diff_paths t from to ≡ ok d) × IsSplit from to d
  unfolding diff_paths
  diff_paths-IsSplit t from to ancestor f g e =
      let n = common_len from to in
      let (gone, q, gone_ids) =
        node_diffs-ids removed t (drop n from) (AllFound-drop t.nodes n from f) in
      let (fresh, q', fresh_ids) =
        node_diffs-ids added t (drop n to) (AllFound-drop t.nodes n to g) in
      (
        record {
          common_ancestor = ancestor;
          common_path = take n from;
          added_nodes = fresh;
          removed_nodes = gone;
        },
        rw (e, diff_paths, q, q') refl,
        record {
          removed_follow = ap (λ l. take n from ++ l) gone_ids ∙ take-drop n from;
          added_follow = ap₂ ◌++◌ (take-common_len from to) fresh_ids ∙ take-drop n to;
          parted =
              subst (λ l. Parted l (ids_of fresh)) (sym gone_ids)
                (subst (Parted (drop n from)) (sym fresh_ids) (Parted-common_len from to));
          ancestor = e;
        },
      )

  -- A path of a well-formed tree starts at the root.
  Climb-root :
      (t : Tree W) {id : String} {ids : List String}
      → IsTree t
      → id ≢ ""
      → Climb t.nodes id ids
      → (rest : List String) × (reverse ids ≡ t.root_id ∷ rest)
  Climb-root t v ne (stop e) = absurd (ne e)
  Climb-root t {id = id} v ne (up n ne' e (stop top)) =
      ([], reverse-cons id [] ∙ ap (λ i. i ∷ []) (v.rooted id n e top))
  Climb-root t {id = id} v ne (up n ne' e (up {ids = above} m below e' c)) =
      let (rest, q) = Climb-root t v below (up m below e' c) in
      (rest ++ id ∷ [], reverse-cons id (n.parent_id ∷ above) ∙ ap (λ l. l ++ id ∷ []) q)

  -- In a well-formed tree every two nodes have a diff: the common path followed by the removed
  -- nodes is the path of the first node, the common path followed by the added nodes is the path
  -- of the second, the two go on apart, and the common ancestor is the last node of the common
  -- path.
  pub diff-IsSplit :
      (t : Tree W) (from_id to_id : String) (n m : Node)
      → IsTree t
      → get t.nodes from_id ≡ some n
      → get t.nodes to_id ≡ some m
      → (from to : List String) × (d : TreeDiff) × (path from_id t ≡ ok from)
        × (path to_id t ≡ ok to)
        × (diff from_id to_id t ≡ ok d)
        × IsSplit from to d
  unfolding diff
  diff-IsSplit t from_id to_id n m v e e' =
      let (up_from, c, p) = path-total t from_id n v.ranked e in
      let (up_to, c', p') = path-total t to_id m v.ranked e' in
      let (xs, q) = Climb-root t v (v.ranked.named from_id n e) c in
      let (ys, q') = Climb-root t v (v.ranked.named to_id m e') c' in
      let (y, common) = ancestor-exists t.root_id xs ys in
      let (d, made, split) =
        diff_paths-IsSplit t (reverse up_from) (reverse up_to) y (Climb-AllFound c)
          (Climb-AllFound c') (rw (q, q') common) in
      (reverse up_from, reverse up_to, d, p, p', rw (p, p') made, split)
