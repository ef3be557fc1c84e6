-- ===== src/Tree/Reopened.antt =====
-- Restore and the leaves that hold feedback.
use graph_agent_dev_kit.Common.{ℕ, String, some, false, ok, err, ◌≡◌, arith, eq_iff}
use graph_agent_dev_kit.Common.Dict.{get, get-put}
use graph_agent_dev_kit.Types.Errors.{sentinel_at, node_is_leaf}
use graph_agent_dev_kit.Types.Node.{Node, feedback}
use graph_agent_dev_kit.Tree.State.{Tree, find_node, open_parent}
use graph_agent_dev_kit.Tree.Archive.{restore, mark_active}
use graph_agent_dev_kit.Tree.Valid.{IsTree}

module _ {W : Type 0} where
  -- A feedback node of a well-formed tree refuses children, and after a Restore of it that is
  -- not recursive it is an active node that accepts them.
  pub restore_reopens_feedback :
      (t : Tree W) (id : String) (n : Node) (now : ℕ)
      → IsTree t
      → get t.nodes id ≡ some n
      → n.state ≡ feedback
      → (open_parent id t ≡ err (sentinel_at node_is_leaf id))
        × (open_parent id (restore id false now t).1 ≡ ok (mark_active now n))
  unfolding restore open_parent mark_active
  restore_reopens_feedback t id n now v e s = (
    rw (e, find_node) (ground arith),
    rw (e, find_node)
        (ground
          (arith, get-put t.nodes n.id id (mark_active now n), eq_iff n.id id, v.keyed id n e)),
  )
