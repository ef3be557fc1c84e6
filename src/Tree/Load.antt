-- ===== src/Tree/Load.antt =====
-- agent/tree/tree.go: FromStore, which builds a Tree from nodes, branches and checkpoints.
pub mod Rebuilt
use graph_agent_dev_kit.Common.{
  String, ◌==◌, none, List, [], ◌∷◌, ◌++◌, Result, ok, err, if◌then◌else◌,
}
use graph_agent_dev_kit.Common.Dict.{Dict, get, put}
use graph_agent_dev_kit.Types.Errors.{Error, sentinel, node_not_found}
use graph_agent_dev_kit.Types.Node.{Node, Checkpoint}
use graph_agent_dev_kit.Tree.State.{Tree, or_empty}
use graph_agent_dev_kit.Tree.Serialize.Trees.{put_all}

-- for _, n := range nodes { t.nodes[n.ID] = n }
unfoldable pub put_nodes : Dict Node → List Node → Dict Node
put_nodes d [] = d
put_nodes d (n ∷ ns) = put_nodes (put d n.id n) ns

-- "Rebuild children map from parent pointers."
unfoldable pub list_child : Dict (List String) → Node → Dict (List String)
list_child c n =
    if n.parent_id == "" then c else put c n.parent_id (or_empty (get c n.parent_id) ++ n.id ∷ [])

unfoldable pub list_children : Dict (List String) → List Node → Dict (List String)
unfolding list_child
list_children c [] = c
list_children c (n ∷ ns) = list_children (list_child c n) ns

-- FromStore
unfoldable pub from_store :
    {W : Type 0}
    → List Node
    → Dict String
    → Dict Checkpoint
    → String
    → String
    → Result Error (Tree W)
unfolding put_nodes list_children put_all
from_store [] branches checkpoints root_id active = err (sentinel node_not_found)
from_store (n ∷ ns) branches checkpoints root_id active = ok (record {
  nodes = put_nodes [] (n ∷ ns);
  children = list_children [] (n ∷ ns);
  root_id = root_id;
  branches = put_all [] branches;
  active_branch = active;
  checkpoints = put_all [] checkpoints;
  wal = none;
})
