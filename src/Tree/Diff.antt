-- ===== src/Tree/Diff.antt =====
-- agent/tree/diff.go
use graph_agent_dev_kit.Common.{
  ℕ, suc, String, ◌==◌, none, some, List, [], ◌∷◌, take, drop, Result, ok, err, and_then,
  if◌then◌else◌, Option,
}
use graph_agent_dev_kit.Common.Dict.{get}
use graph_agent_dev_kit.Types.Content.{Message}
use graph_agent_dev_kit.Types.Errors.{Error, opaque_error, panics}
use graph_agent_dev_kit.Types.Node.{TreePath}
use graph_agent_dev_kit.Tree.State.{Tree}
use graph_agent_dev_kit.Tree.Paths.{path, node_path, branch_tip}

pub data DiffOp : Type 0 where
  added removed : DiffOp

pub record NodeDiff : Type 0 where
  pub op : DiffOp
  pub node_id : String
  pub path : TreePath
  pub message : Message
  pub depth : ℕ

pub record TreeDiff : Type 0 where
  pub common_ancestor : String
  pub common_path : List String
  pub added_nodes : List NodeDiff
  pub removed_nodes : List NodeDiff

-- The loop for commonLen.
unfoldable pub common_len : List String → List String → ℕ
common_len [] to = 0
common_len (a ∷ from) [] = 0
common_len (a ∷ from) (b ∷ to) = let more = common_len from to in if a == b then suc more else 0

-- commonPath[commonLen-1]
abbrev pub last? : List String → Option String
last? [] = none
last? (a ∷ []) = some a
last? (a ∷ b ∷ ids) = last? (b ∷ ids)

-- tp, _ := t.nodePathUnlocked(nid): an error gives the empty path.
abbrev pub or_root_path : Result Error TreePath → TreePath
or_root_path (ok p) = p
or_root_path (err e) = []

module _ {W : Type 0} where
  -- The two loops that report the nodes of a path after the common prefix.
  unfoldable pub node_diffs : DiffOp → Tree W → List String → Result Error (List NodeDiff)
  node_diffs op t [] = ok []
  node_diffs op t (id ∷ ids) = elim (get t.nodes id) [
    | none ↦ err panics
    | some n ↦ and_then (node_diffs op t ids) (λ rest. ok (
        record {
          op = op;
          node_id = id;
          path = or_root_path (node_path id t);
          message = n.message;
          depth = n.depth;
        }
        ∷ rest))
  ]

  -- What diffUnlocked does with the two paths.
  unfoldable pub diff_paths : Tree W → List String → List String → Result Error TreeDiff
  unfolding common_len node_diffs
  diff_paths t from_path to_path =
      let n = common_len from_path to_path in
      elim (last? (take n from_path)) [
        | none ↦ err (opaque_error "nodes share no common ancestor")
        | some ancestor ↦ and_then (node_diffs removed t (drop n from_path)) (λ gone.
            and_then (node_diffs added t (drop n to_path)) (λ fresh. ok (record {
              common_ancestor = ancestor;
              common_path = take n from_path;
              added_nodes = fresh;
              removed_nodes = gone;
            })))
      ]

  -- diffUnlocked
  unfoldable pub diff : String → String → Tree W → Result Error TreeDiff
  unfolding diff_paths
  diff from_id to_id t =
      and_then (path from_id t)
        (λ from_path. and_then (path to_id t) (λ to_path. diff_paths t from_path to_path))

  -- DiffBranches
  unfoldable pub diff_branches : String → String → Tree W → Result Error TreeDiff
  unfolding branch_tip
  diff_branches a b t =
      and_then (branch_tip a t) (λ tip_a. and_then (branch_tip b t) (λ tip_b. diff tip_a tip_b t))
