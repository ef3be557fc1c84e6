-- ===== src/Examples/Trees.antt =====
-- A small conversation in agent/tree: a root, and one user message under it.
use graph_agent_dev_kit.Common.{
  String, none, some, List, [], ◌∷◌, ok, err, ◌≡◌, ◌≢◌, refl, ne_of_test, false, elem,
}
use graph_agent_dev_kit.Common.Dict.{get, put}
use graph_agent_dev_kit.Types.Content.{Message, system, SystemContent, new_user_message}
use graph_agent_dev_kit.Types.Errors.{sentinel_at, node_is_leaf}
use graph_agent_dev_kit.Types.Node.{Node, TreePath, active, feedback}
use graph_agent_dev_kit.Memwal.{MemWal, mem_wal}
use graph_agent_dev_kit.Tree.State.{
  Tree, children_of, new, fresh_node, get_node, find_node, open_parent, attach, link, wal_add_node,
  write_log,
}
use graph_agent_dev_kit.Tree.Grow.{
  add_child, add_feedback, persist, rewind, checkpoint, find_checkpoint,
}
use graph_agent_dev_kit.Tree.Paths.{
  path, flatten, visible_messages, ancestors, flatten_branch, branch_tip, tip, node_path,
}
use graph_agent_dev_kit.Tree.Archive.{restore, mark_active}
use graph_agent_dev_kit.Tree.Diff.{diff, TreeDiff}
use graph_agent_dev_kit.Tree.Valid.{IsTree}
use graph_agent_dev_kit.Tree.Load.{from_store}
use graph_agent_dev_kit.Tree.Load.Rebuilt.{Reached-from_store, values}
use graph_agent_dev_kit.Tree.Located.{node_path-follow, follow}
use graph_agent_dev_kit.Tree.History.{
  Reached, made, after, add_child_step, add_feedback_step, checkpoint_step, rewind_step,
  Reached-IsTree, Reached-flatten_branch,
}
use graph_agent_dev_kit.Tree.Extend.{add_child-flatten}
use graph_agent_dev_kit.Tree.Split.{diff-IsSplit, IsSplit}
use graph_agent_dev_kit.Tree.Reopened.{restore_reopens_feedback}
use graph_agent_dev_kit.Agent.Branching.{append_message}
use graph_agent_dev_kit.Agent.Branching.Append.{
  append_message-flatten_branch, append_message-other_branch,
}

abbrev greeting : Message
greeting = new_user_message "hello"

abbrev prompt : Message
prompt = system (SystemContent.text "be brief" ∷ [])

abbrev start : Tree MemWal
start = new (SystemContent.text "be brief" ∷ []) "r" 0 none

abbrev root_node : Node
root_node = fresh_node "r" "" prompt active 0 "main" 0

abbrev first_node : Node
first_node = fresh_node "a" "r" greeting active 1 "main" 1

abbrev grown : Tree MemWal
grown = (add_child "r" greeting "a" 1 start).1

r_named : ◌≢◌ {A = String} "r" ""
r_named = ne_of_test "r" "" refl

a_named : ◌≢◌ {A = String} "a" ""
a_named = ne_of_test "a" "" refl

start-Reached : Reached start
start-Reached = made (SystemContent.text "be brief" ∷ []) "r" 0 none r_named

a_fresh : get start.nodes "a" ≡ none
unfolding new get put
a_fresh = refl

start_root : get start.nodes "r" ≡ some root_node
unfolding new get put
start_root = refl

grown-Reached : Reached grown
grown-Reached = after start-Reached (add_child_step "r" greeting "a" 1 a_named a_fresh)

grown_main : get grown.branches "main" ≡ some "a"
unfolding add_child open_parent persist wal_add_node write_log link attach new get put get_node
    find_node
grown_main = refl

added : add_child "r" greeting "a" 1 start ≡ (ok first_node, grown)
unfolding add_child open_parent persist wal_add_node write_log link attach new get put get_node
    find_node
added = refl

start_flat : flatten "r" start ≡ ok (prompt ∷ [])
unfolding flatten path ancestors visible_messages new get put find_node
start_flat = refl

Reached-IsTree_example : IsTree grown
Reached-IsTree_example = Reached-IsTree grown-Reached

Reached-flatten_branch_example : (ms : List Message) × (flatten_branch "main" grown ≡ ok ms)
Reached-flatten_branch_example = Reached-flatten_branch "main" "a" grown-Reached grown_main

add_child-flatten_example :
    (flatten "a" grown ≡ ok (prompt ∷ greeting ∷ []))
    × ((k : String) (n : Node) → get start.nodes k ≡ some n → flatten k grown ≡ flatten k start)
    × (get grown.branches "main" ≡ some "a")
add_child-flatten_example =
    add_child-flatten "r" greeting "a" 1 start grown first_node (prompt ∷ [])
      (Reached-IsTree start-Reached) a_named a_fresh start_flat added

grown_first : get grown.nodes "a" ≡ some first_node
unfolding add_child open_parent persist wal_add_node write_log link attach new get put get_node
    find_node
grown_first = refl

grown_root : get grown.nodes "r" ≡ some root_node
unfolding add_child open_parent persist wal_add_node write_log link attach new get put get_node
    find_node
grown_root = refl

diff-IsSplit_example :
    (from to : List String) × (d : TreeDiff) × (path "r" grown ≡ ok from)
    × (path "a" grown ≡ ok to)
    × (diff "r" "a" grown ≡ ok d)
    × IsSplit from to d
diff-IsSplit_example =
    diff-IsSplit grown "r" "a" root_node first_node (Reached-IsTree grown-Reached) grown_root
      grown_first

tip_at_start : tip "main" start ≡ ok root_node
unfolding tip branch_tip new get put get_node find_node
tip_at_start = refl

start_history : flatten_branch "main" start ≡ ok (prompt ∷ [])
unfolding flatten_branch branch_tip flatten path ancestors visible_messages new get put find_node
start_history = refl

appended : append_message "main" greeting "a" 1 start ≡ (ok first_node, grown)
unfolding append_message tip branch_tip add_child open_parent persist wal_add_node write_log link
    attach new get put get_node find_node
appended = refl

append_message-flatten_branch_example : flatten_branch "main" grown ≡ ok (prompt ∷ greeting ∷ [])
append_message-flatten_branch_example =
    append_message-flatten_branch "main" greeting "a" 1 start grown root_node first_node
      (prompt ∷ []) (Reached-IsTree start-Reached) a_named a_fresh tip_at_start refl start_history
      appended

-- The tree after a checkpoint of `main` and a rewind to it.
abbrev saved : Tree MemWal
saved = (checkpoint "main" "save" "c" 2 start).1

abbrev rewound : Tree MemWal
rewound = (rewind "c" "12345678-9abc" saved).1

abbrev rewind_branch : String
rewind_branch = "rewind-save-12345678"

abbrev continued : Tree MemWal
continued = (append_message rewind_branch greeting "a" 3 rewound).1

abbrev late_node : Node
late_node = fresh_node "a" "r" greeting active 1 "main" 3

rewound-Reached : Reached rewound
rewound-Reached =
    after (after start-Reached (checkpoint_step "main" "save" "c" 2))
      (rewind_step "c" "12345678-9abc")

rewound_fresh : get rewound.nodes "a" ≡ none
unfolding rewind checkpoint find_checkpoint get_node new get put find_node
rewound_fresh = refl

tip_after_rewind : tip rewind_branch rewound ≡ ok root_node
unfolding rewind checkpoint find_checkpoint tip branch_tip get_node new get put find_node
tip_after_rewind = refl

other_name : ◌≢◌ {A = String} "main" rewind_branch
other_name = ne_of_test "main" rewind_branch refl

rewound_append : append_message rewind_branch greeting "a" 3 rewound ≡ (ok late_node, continued)
unfolding append_message rewind checkpoint find_checkpoint tip branch_tip add_child open_parent
    persist wal_add_node write_log link attach new get put get_node find_node
rewound_append = refl

append_message-other_branch_example :
    (flatten_branch rewind_branch continued ≡ flatten_branch rewind_branch rewound)
    × (get continued.branches "main" ≡ some "a")
append_message-other_branch_example =
    append_message-other_branch rewind_branch greeting "a" 3 rewound continued root_node late_node
      (Reached-IsTree rewound-Reached) a_named rewound_fresh tip_after_rewind other_name
      rewound_append

-- A rating of the root.
abbrev rated : Tree MemWal
rated = (add_feedback "r" greeting "12345678-9abc" "a" 1 start).1

abbrev rating_node : Node
rating_node = fresh_node "a" "r" greeting feedback 1 "feedback-12345678" 1

rated-Reached : Reached rated
rated-Reached =
    after start-Reached (add_feedback_step "r" greeting "12345678-9abc" "a" 1 a_named a_fresh)

rated_node : get rated.nodes "a" ≡ some rating_node
unfolding add_feedback open_parent persist wal_add_node write_log link attach new get put get_node
    find_node
rated_node = refl

restore_reopens_feedback_example :
    (open_parent "a" rated ≡ err (sentinel_at node_is_leaf "a"))
    × (open_parent "a" (restore "a" false 2 rated).1 ≡ ok (mark_active 2 rating_node))
restore_reopens_feedback_example =
    restore_reopens_feedback rated "a" rating_node 2 (Reached-IsTree rated-Reached) rated_node refl

node_path-follow_example :
    (is : TreePath) × (node_path "a" grown ≡ ok is) × (follow grown grown.root_id is ≡ some "a")
node_path-follow_example =
    node_path-follow grown "a" first_node (Reached-IsTree grown-Reached) grown_first

Reached-from_store_example :
    (u : Tree MemWal) × (from_store
        (values grown.nodes)
        grown.branches
        grown.checkpoints
        grown.root_id
        grown.active_branch
      ≡ ok u)
    × (u.nodes ≡ grown.nodes)
    × (u.branches ≡ grown.branches)
    × (u.checkpoints ≡ grown.checkpoints)
    × (elem "a" (children_of u "r") ≡ elem "a" (children_of grown "r"))
Reached-from_store_example = Reached-from_store grown "a" "r" grown-Reached r_named
