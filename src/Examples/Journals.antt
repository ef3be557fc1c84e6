-- ===== src/Examples/Journals.antt =====
-- A tree of agent/tree that writes to the in-memory log of agent/store/memwal.
use graph_agent_dev_kit.Common.{String, some, [], ◌∷◌, ok, ◌≡◌, refl}
use graph_agent_dev_kit.Common.Dict.{get, put}
use graph_agent_dev_kit.Types.Content.{Message, SystemContent, new_user_message}
use graph_agent_dev_kit.Types.Node.{Node, active}
use graph_agent_dev_kit.Memwal.{MemWal, mem_wal, tx_id, begin, append, commit}
use graph_agent_dev_kit.Common.Decimal.{decimal, decimal_fuel, digit}
use graph_agent_dev_kit.Memwal as Memwal
use graph_agent_dev_kit.Memwal.Issued.{IsCommitted}
use graph_agent_dev_kit.Tree.State.{
  Tree, new, fresh_node, get_node, find_node, open_parent, attach, link, add_node_op, log_node,
  write_log, wal_add_node,
}
use graph_agent_dev_kit.Tree.Grow.{add_child, persist}
use graph_agent_dev_kit.Tree.Logged.{add_child-logged}

abbrev question : Message
question = new_user_message "hello"

abbrev guarded : Tree MemWal
guarded = new (SystemContent.text "be brief" ∷ []) "r" 0 (some Memwal.new)

abbrev guarded_node : Node
guarded_node = fresh_node "a" "r" question active 1 "main" 1

abbrev guarded_grown : Tree MemWal
guarded_grown = (add_child "r" question "a" 1 guarded).1

guarded_added : add_child "r" question "a" 1 guarded ≡ (ok guarded_node, guarded_grown)
unfolding add_child open_parent persist wal_add_node write_log log_node begin append commit tx_id
    decimal decimal_fuel digit link attach new get put get_node find_node
guarded_added = refl

guarded_log : guarded.wal ≡ some Memwal.new
unfolding new
guarded_log = refl

add_child-logged_example :
    (tx : String) × (u : MemWal) × (guarded_grown.wal ≡ some u)
    × IsCommitted tx (add_node_op guarded_node ∷ []) u
add_child-logged_example =
    add_child-logged "r" question "a" 1 guarded guarded_grown guarded_node Memwal.new guarded_log
      guarded_added
