-- ===== src/Types/Node.antt =====
-- agent/types/node.go: nodes, checkpoints and tree paths. A time is a reading of the clock.
use graph_agent_dev_kit.Common.{ℕ, String, Option, List}
use graph_agent_dev_kit.Types.Content.{Message}

pub data NodeState : Type 0 where
  active archived compacted feedback : NodeState

pub record Node : Type 0 where
  pub id : String
  pub parent_id : String
  pub message : Message
  pub state : NodeState
  pub version : ℕ
  pub depth : ℕ
  pub branch_id : String
  pub created_at : ℕ
  pub updated_at : ℕ
  pub archived_at : Option ℕ
  pub archived_by : String
  pub summary_of : List String

pub record Checkpoint : Type 0 where
  pub id : String
  pub branch : String
  pub node_id : String
  pub name : String
  pub created_at : ℕ

abbrev pub TreePath : Type 0
TreePath = List ℕ
