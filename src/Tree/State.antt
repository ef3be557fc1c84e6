-- ===== src/Tree/State.antt =====
-- agent/tree/tree.go: the state of a Tree, the lookup of a node, and the write-ahead step that all
-- growing operations share. The log is any implementation `Wal W`; a tree without one has `none`.
-- The mutex is held over each operation, so an operation is one step on the state.
use graph_agent_dev_kit.Common.{
  ℕ, String, slice, Option, none, some, List, [], ◌∷◌, ◌++◌, Result, ok, err, Exec, continue,
  and_then,
}
use graph_agent_dev_kit.Common.Dict.{Dict, get, put}
use graph_agent_dev_kit.Types.Content.{Message, SystemContent, system}
use graph_agent_dev_kit.Types.Errors.{
  Error, sentinel_at, node_not_found, node_archived, node_is_leaf,
}
use graph_agent_dev_kit.Types.Node.{Node, NodeState, Checkpoint, active, archived, feedback}
use graph_agent_dev_kit.Types.Wal.{Wal, TxOp, add_node}

pub record Tree (W : Type 0) : Type 0 where
  pub nodes : Dict Node
  pub children : Dict (List String)
  pub root_id : String
  pub branches : Dict String
  pub active_branch : String
  pub checkpoints : Dict Checkpoint
  pub wal : Option W

-- types.NewID()[:8]: the first eight bytes of a new id.
abbrev pub short_id : String → String
short_id id = slice id 0 8

-- A node as the growing operations build it.
abbrev pub fresh_node : String → String → Message → NodeState → ℕ → String → ℕ → Node
fresh_node id parent_id message state depth branch_id now = record {
  id = id;
  parent_id = parent_id;
  message = message;
  state = state;
  version = 1;
  depth = depth;
  branch_id = branch_id;
  created_at = now;
  updated_at = now;
  archived_at = none;
  archived_by = "";
  summary_of = [];
}

-- tree.New: `id` is the new root's id.
unfoldable pub new : {W : Type 0} → List SystemContent → String → ℕ → Option W → Tree W
new content id now wal = record {
  nodes = put [] id (fresh_node id "" (system content) active 0 "main" now);
  children = [];
  root_id = id;
  branches = put [] "main" id;
  active_branch = "main";
  checkpoints = [];
  wal = wal;
}

unfoldable pub find_node : Dict Node → String → Result Error Node
find_node nodes id = elim (get nodes id) [
  | none ↦ err (sentinel_at node_not_found id)
  | some n ↦ ok n
]

-- A node that may get a child: AddChild, AddFeedback and Branch refuse an archived node and a
-- feedback leaf.
abbrev pub check_open : Node → String → Result Error Node
check_open n id = elim n.state [
  | archived ↦ err (sentinel_at node_archived id)
  | feedback ↦ err (sentinel_at node_is_leaf id)
  | _ ↦ ok n
]

abbrev pub or_empty : Option (List String) → List String
or_empty none = []
or_empty (some ids) = ids

module _ {W : Type 0} where
  -- getNode
  unfoldable pub get_node : String → Tree W → Result Error Node
  unfolding find_node
  get_node id t = find_node t.nodes id

  unfoldable pub open_parent : String → Tree W → Result Error Node
  unfolding get_node
  open_parent id t = and_then (get_node id t) (λ n. check_open n id)

  -- t.children[id], which is nil for a missing key.
  abbrev pub children_of : Tree W → String → List String
  children_of t id = or_empty (get t.children id)

  -- A new node and its place among its parent's children.
  unfoldable pub attach : Node → Tree W → Tree W
  attach child t = record t {
    nodes = put t.nodes child.id child;
    children = put t.children child.parent_id (children_of t child.parent_id ++ child.id ∷ []);
  }

  -- The three writes at the end of a growing operation: the node is its branch's tip.
  unfoldable pub link : Node → Tree W → Tree W
  unfolding attach
  link child t = record (attach child t) { branches = put t.branches child.branch_id child.id }

-- types.TxOp{Kind: types.TxOpAddNode, Node: node}
abbrev pub add_node_op : Node → TxOp
add_node_op n = record {
  kind = add_node;
  node_id = "";
  parent_id = "";
  node = some n;
  branch_id = "";
  tip_id = "";
  checkpoint = none;
}

module _ {W : Type 0} ⦃log : Wal W⦄ where
  -- The error branch of Append: the transaction is aborted, and the abort's own error dropped.
  commit_or_abort : String → Result Error (Unit {0}) × W → Result Error (Unit {0}) × W
  commit_or_abort tx (ok u, w) = log.commit tx w
  commit_or_abort tx (err e, w) = (err e, (log.abort tx w).1)

  unfoldable pub log_node : Node → Exec W Error (Unit {0})
  unfolding commit_or_abort
  log_node n w =
      continue (λ tx w'. commit_or_abort tx (log.append tx (add_node_op n) w')) (log.begin w)

  -- A tree without a log writes nothing.
  unfoldable pub write_log : Option W → Node → Result Error (Unit {0}) × Option W
  write_log none n = (ok tt, none)
  write_log (some w) n = let (r, w') = log_node n w in (r, some w')

  -- walAddNode
  unfoldable pub wal_add_node : Node → Exec (Tree W) Error (Unit {0})
  wal_add_node n t = ((write_log t.wal n).0, record t { wal = (write_log t.wal n).1 })
