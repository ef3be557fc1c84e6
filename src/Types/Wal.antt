-- ===== src/Types/Wal.antt =====
-- agent/types/wal.go: the write-ahead log as an interface over the states W of an implementation.
use graph_agent_dev_kit.Common.{String, Option, List, Exec}
use graph_agent_dev_kit.Types.Errors.{Error}
use graph_agent_dev_kit.Types.Node.{Node, Checkpoint}

pub data TxOpKind : Type 0 where
  add_node update_node set_branch add_child add_checkpoint : TxOpKind

pub record TxOp : Type 0 where
  pub kind : TxOpKind
  pub node_id : String
  pub parent_id : String
  pub node : Option Node
  pub branch_id : String
  pub tip_id : String
  pub checkpoint : Option Checkpoint

pub record Wal (W : Type 0) : Type 0 where
  pub begin : Exec W Error String
  pub append : String → TxOp → Exec W Error (Unit {0})
  pub commit : String → Exec W Error (Unit {0})
  pub abort : String → Exec W Error (Unit {0})
  pub recover : Exec W Error (List String)
  pub replay : String → Exec W Error (List TxOp)
