-- ===== src/Tree/Archive.antt =====
-- agent/tree/tree.go: Archive and Restore. Nodes are shared pointers in the source, and a write to
-- one is a write to the map's entry, whose key is its id. Where a child is missing the walk stops
-- with an error, and what was written stays.
use Prim.Native.Nat.{◌%◌, ◌^◌}
use graph_agent_dev_kit.Common.{
  ℕ, zero, suc, ◌+◌, String, ◌==◌, Bool, true, none, some, List, [], ◌∷◌, length, ok, err, Exec,
  if◌then◌else◌, ◌>>=◌, reading, continue,
}
use graph_agent_dev_kit.Common.Dict.{Dict, get, put}
use graph_agent_dev_kit.Types.Errors.{Error, sentinel_at, root_immutable, diverges}
use graph_agent_dev_kit.Types.Node.{Node, active, archived}
use graph_agent_dev_kit.Tree.State.{Tree, find_node, get_node, or_empty}

-- node.Version++ on a uint64.
abbrev pub next_version : ℕ → ℕ
next_version v = (v + 1) % 2 ^ 64

-- The writes of archiveNode and of restoreNode to one node.
unfoldable pub mark_archived : String → ℕ → Node → Node
mark_archived archived_by now n = record n {
  state = archived;
  archived_at = some now;
  archived_by = archived_by;
  version = next_version n.version;
  updated_at = now;
}

unfoldable pub mark_active : ℕ → Node → Node
mark_active now n = record n {
  state = active;
  archived_at = none;
  archived_by = "";
  version = next_version n.version;
  updated_at = now;
}

-- for _, childID := range t.children[node.ID]: look the child up, then go on below it.
unfoldable pub for_children :
    (Node → Exec (Dict Node) Error (Unit {0})) → List String → Exec (Dict Node) Error (Unit {0})
unfolding find_node
for_children visit [] nodes = (ok tt, nodes)
for_children visit (id ∷ ids) nodes = elim (find_node nodes id) [
  | err e ↦ (err e, nodes)
  | ok child ↦ continue (λ u. for_children visit ids) (visit child nodes)
]

-- The shape that archiveNode and restoreNode share: write to the node, then to its children's
-- subtrees. The recursion is on fuel, which the depth of the tree bounds.
unfoldable pub walk :
    (Node → Node) → Dict (List String) → ℕ → Bool → Node → Exec (Dict Node) Error (Unit {0})
unfolding for_children
walk mark children zero recursive n nodes = (err diverges, nodes)
walk mark children (suc f) recursive n nodes =
    let marked = put nodes n.id (mark n) in
    let below = for_children (walk mark children f true) (or_empty (get children n.id)) marked in
    if recursive then below else (ok tt, marked)

module _ {W : Type 0} where
  -- A walk over a tree: the fuel is one more than the number of nodes.
  abbrev pub on_nodes : (Node → Node) → Bool → Node → Exec (Tree W) Error (Unit {0})
  on_nodes mark recursive n t =
      let r = walk mark t.children (suc (length t.nodes)) recursive n t.nodes in
      (r.0, record t { nodes = r.1 })

  -- Archive
  unfoldable pub archive : String → String → Bool → ℕ → Exec (Tree W) Error (Unit {0})
  unfolding walk
  archive node_id archived_by recursive now = do
    node ← reading (get_node node_id)
    if node.parent_id == ""
        then (λ t. (err (sentinel_at root_immutable "cannot archive root"), t))
        else on_nodes (mark_archived archived_by now) recursive node

  -- Restore
  unfoldable pub restore : String → Bool → ℕ → Exec (Tree W) Error (Unit {0})
  unfolding walk
  restore node_id recursive now = do
    node ← reading (get_node node_id)
    on_nodes (mark_active now) recursive node
