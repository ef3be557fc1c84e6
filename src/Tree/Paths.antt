-- ===== src/Tree/Paths.antt =====
-- agent/tree/tree.go (Tip, Path, NodePath, Children, Feedback) and agent/tree/flatten.go.
use graph_agent_dev_kit.Common.{
  ℕ, zero, suc, String, ◌<>◌, ◌==◌, Option, none, some, List, [], ◌∷◌, length, reverse, Result, ok,
  err, and_then, if◌then◌else◌,
}
use graph_agent_dev_kit.Common.Dict.{Dict, get}
use graph_agent_dev_kit.Types.Content.{Message}
use graph_agent_dev_kit.Types.Errors.{
  Error, sentinel_at, opaque_error, diverges, panics, branch_not_found,
}
use graph_agent_dev_kit.Types.Node.{Node, NodeState, TreePath, archived, feedback}
use graph_agent_dev_kit.Tree.State.{Tree, find_node, get_node, children_of}

-- The climbing loop of pathUnlocked, on fuel: `current`, then its parents up to the empty id.
unfoldable pub ancestors : ℕ → Dict Node → String → Result Error (List String)
unfolding find_node
ancestors zero nodes current = if current == "" then ok [] else err diverges
ancestors (suc f) nodes current =
    let climbed =
      and_then (find_node nodes current)
        (λ n. and_then (ancestors f nodes n.parent_id) (λ rest. ok (current ∷ rest))) in
    if current == "" then ok [] else climbed

abbrev pub later : Option ℕ → Option ℕ
later none = none
later (some i) = some (suc i)

-- for idx, sid := range siblings { if sid == childID … }
unfoldable pub index_of : String → List String → Option ℕ
index_of id [] = none
index_of id (sid ∷ siblings) = if sid == id then some 0 else later (index_of id siblings)

abbrev pub shown : Node → List Message → List Message
shown n ms = elim n.state [ archived ↦ ms | _ ↦ n.message ∷ ms ]

-- The messages of a path that are not archived, root first.
unfoldable pub visible_messages : Dict Node → List String → Result Error (List Message)
visible_messages nodes [] = ok []
visible_messages nodes (id ∷ ids) = elim (get nodes id) [
  | none ↦ err panics
  | some n ↦ and_then (visible_messages nodes ids) (λ ms. ok (shown n ms))
]

pub record AnnotatedMessage : Type 0 where
  pub message : Message
  pub node_id : String
  pub path : TreePath
  pub depth : ℕ
  pub branch_id : String
  pub state : NodeState

-- Children: ids without a node are passed over.
found_nodes : Dict Node → List String → List Node
found_nodes nodes [] = []
found_nodes nodes (id ∷ ids) = elim (get nodes id) [
  | none ↦ found_nodes nodes ids
  | some n ↦ n ∷ found_nodes nodes ids
]

module _ {W : Type 0} where
  -- pathUnlocked. A climb that never meets an id twice ends within one round per node, and one
  -- that does never ends: the fuel is one more than the number of nodes.
  unfoldable pub path : String → Tree W → Result Error (List String)
  unfolding ancestors
  path node_id t =
      and_then (ancestors (suc (length t.nodes)) t.nodes node_id) (λ ids. ok (reverse ids))

  unfoldable pub branch_tip : String → Tree W → Result Error String
  branch_tip branch t = elim (get t.branches branch) [
    | none ↦ err (sentinel_at branch_not_found branch)
    | some tip_id ↦ ok tip_id
  ]

  -- Tip
  unfoldable pub tip : String → Tree W → Result Error Node
  unfolding branch_tip
  tip branch t = and_then (branch_tip branch t) (λ tip_id. get_node tip_id t)

  unfoldable pub found_index : Tree W → String → String → Result Error ℕ
  found_index t parent_id child_id = elim (index_of child_id (children_of t parent_id)) [
    | none ↦
        err (
          opaque_error
            ("child " <> child_id <> " not found in parent " <> parent_id <> " children"))
    | some i ↦ ok i
  ]

  -- The loop of nodePathUnlocked over the neighbours of a path.
  unfoldable pub child_indices : Tree W → List String → Result Error TreePath
  unfolding found_index index_of
  child_indices t [] = ok []
  child_indices t (id ∷ []) = ok []
  child_indices t (parent_id ∷ child_id ∷ ids) =
      and_then (found_index t parent_id child_id)
        (λ i. and_then (child_indices t (child_id ∷ ids)) (λ is. ok (i ∷ is)))

  -- nodePathUnlocked
  unfoldable pub node_path : String → Tree W → Result Error TreePath
  unfolding child_indices
  node_path node_id t = and_then (path node_id t) (child_indices t)

  unfoldable pub children : String → Tree W → Result Error (List Node)
  unfolding found_nodes
  children node_id t =
      and_then (get_node node_id t) (λ n. ok (found_nodes t.nodes (children_of t node_id)))

  -- flattenUnlocked
  unfoldable pub flatten : String → Tree W → Result Error (List Message)
  flatten node_id t = and_then (path node_id t) (visible_messages t.nodes)

  -- FlattenBranch
  unfoldable pub flatten_branch : String → Tree W → Result Error (List Message)
  unfolding branch_tip
  flatten_branch branch t = and_then (branch_tip branch t) (λ tip_id. flatten tip_id t)

  -- The loop of flattenAnnotatedUnlocked.
  annotate : Tree W → List String → Result Error (List AnnotatedMessage)
  annotate t [] = ok []
  annotate t (id ∷ ids) = elim (get t.nodes id) [
    | none ↦ err panics
    | some n ↦ elim n.state [
      | archived ↦ annotate t ids
      | _ ↦ and_then (node_path id t) (λ tree_path. and_then (annotate t ids) (λ rest. ok (
          record {
            message = n.message;
            node_id = n.id;
            path = tree_path;
            depth = n.depth;
            branch_id = n.branch_id;
            state = n.state;
          }
          ∷ rest)))
    ]
  ]

  -- flattenAnnotatedUnlocked
  unfoldable pub flatten_annotated : String → Tree W → Result Error (List AnnotatedMessage)
  unfolding annotate
  flatten_annotated node_id t = and_then (path node_id t) (annotate t)

  -- FlattenBranchAnnotated
  unfoldable pub flatten_branch_annotated : String → Tree W → Result Error (List AnnotatedMessage)
  unfolding branch_tip
  flatten_branch_annotated branch t =
      and_then (branch_tip branch t) (λ tip_id. flatten_annotated tip_id t)

-- Feedback: the feedback nodes, in the order in which the map gives them.
unfoldable pub feedback_nodes : Dict Node → List Node
feedback_nodes [] = []
feedback_nodes ((id, n) ∷ nodes) = elim n.state [
  | feedback ↦ n ∷ feedback_nodes nodes
  | _ ↦ feedback_nodes nodes
]
