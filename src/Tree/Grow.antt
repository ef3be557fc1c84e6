-- ===== src/Tree/Grow.antt =====
-- agent/tree/tree.go: the operations that grow a tree or move its branches. An id that
-- types.NewID would make (a UUID, from github.com/google/uuid) is an argument, and so is the time.
use graph_agent_dev_kit.Common.{
  ℕ, ◌+◌, String, ◌<>◌, ◌==◌, none, some, List, Result, ok, err, Exec, ◌>>=◌, pure, reading, modify,
  and_then, if◌then◌else◌,
}
use graph_agent_dev_kit.Common.Dict.{get, put}
use graph_agent_dev_kit.Types.Content.{Message, UserContent, user}
use graph_agent_dev_kit.Types.Errors.{
  Error, sentinel_at, branch_not_found, checkpoint_not_found, root_immutable, invalid_branch_point,
}
use graph_agent_dev_kit.Types.Node.{Node, Checkpoint, active, feedback}
use graph_agent_dev_kit.Types.Wal.{Wal}
use graph_agent_dev_kit.Tree.State.{
  Tree, fresh_node, short_id, get_node, open_parent, link, wal_add_node,
}

-- The guards of UpdateUserMessage on the node that is edited.
check_editable : Node → Result Error Node
check_editable n =
    if n.parent_id == ""
    then err (sentinel_at root_immutable "cannot update root")
    else elim n.message [
      | user content ↦ ok n
      | _ ↦ err (sentinel_at invalid_branch_point "node is not a user message")
    ]

module _ {W : Type 0} where
  -- SetActive
  unfoldable pub set_active : String → Exec (Tree W) Error (Unit {0})
  set_active branch t = elim (get t.branches branch) [
    | none ↦ (err (sentinel_at branch_not_found branch), t)
    | some tip_id ↦ (ok tt, record t { active_branch = branch })
  ]

  -- Checkpoint
  unfoldable pub checkpoint : String → String → String → ℕ → Exec (Tree W) Error String
  checkpoint branch name id now t = elim (get t.branches branch) [
    | none ↦ (err (sentinel_at branch_not_found branch), t)
    | some tip_id ↦
        let cp : Checkpoint = record {
          id = id;
          branch = branch;
          node_id = tip_id;
          name = name;
          created_at = now;
        } in
        (ok id, record t { checkpoints = put t.checkpoints id cp })
  ]

  -- The node that UpdateUserMessage edits.
  unfoldable pub editable : String → Tree W → Result Error Node
  unfolding check_editable
  editable node_id t = and_then (get_node node_id t) check_editable

  unfoldable pub find_checkpoint : String → Tree W → Result Error Checkpoint
  find_checkpoint id t = elim (get t.checkpoints id) [
    | none ↦ err (sentinel_at checkpoint_not_found id)
    | some cp ↦ ok cp
  ]

  -- Rewind: `new_id` is the id whose first eight bytes end the branch's name.
  unfoldable pub rewind : String → String → Exec (Tree W) Error String
  unfolding find_checkpoint
  rewind cp_id new_id = do
    cp ← reading (find_checkpoint cp_id)
    node ← reading (get_node cp.node_id)
    let branch_id = "rewind-" <> cp.name <> "-" <> short_id new_id
    modify (λ t. record t { branches = put t.branches branch_id cp.node_id }) branch_id

module _ {W : Type 0} ⦃log : Wal W⦄ where
  -- The write-ahead step, then the three writes.
  unfoldable pub persist : Node → Exec (Tree W) Error Node
  persist child = do written ← wal_add_node child; modify (link child) child

  -- AddChild
  unfoldable pub add_child : String → Message → String → ℕ → Exec (Tree W) Error Node
  unfolding persist
  add_child parent_id msg id now = do
    parent ← reading (open_parent parent_id)
    persist (fresh_node id parent_id msg active (parent.depth + 1) parent.branch_id now)

  -- AddFeedback: `branch_uuid` is the first id that it makes, `id` the second.
  unfoldable pub add_feedback : String → Message → String → String → ℕ → Exec (Tree W) Error Node
  unfolding persist
  add_feedback parent_id msg branch_uuid id now = do
    parent ← reading (open_parent parent_id)
    let branch_id = "feedback-" <> short_id branch_uuid
    persist (fresh_node id parent_id msg feedback (parent.depth + 1) branch_id now)

  -- The name of Branch's new branch: a name that is taken gets a random end.
  unfoldable pub branch_name : String → String → Tree W → String
  branch_name name branch_uuid t = elim (get t.branches name) [
    | none ↦ name
    | some tip_id ↦ name <> "-" <> short_id branch_uuid
  ]

  -- Branch
  unfoldable pub branch :
      String → String → Message → String → String → ℕ → Exec (Tree W) Error (String × Node)
  unfolding persist branch_name
  branch from_id name msg branch_uuid id now = do
    from ← reading (open_parent from_id)
    branch_id ← reading (λ t. ok (branch_name name branch_uuid t))
    child ← persist (fresh_node id from_id msg active (from.depth + 1) branch_id now)
    pure (branch_id, child)

  -- UpdateUserMessage
  unfoldable pub update_user_message :
      String → List UserContent → String → String → ℕ → Exec (Tree W) Error (String × Node)
  unfolding persist editable
  update_user_message node_id content branch_uuid id now = do
    node ← reading (editable node_id)
    parent ← reading (get_node node.parent_id)
    let branch_id = "edit-" <> short_id branch_uuid
    child ←
        persist
          (fresh_node id node.parent_id (user content) active (parent.depth + 1) branch_id now)
    pure (branch_id, child)
