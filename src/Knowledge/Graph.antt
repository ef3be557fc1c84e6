-- ===== src/Knowledge/Graph.antt =====
-- knowledge/types/types.go: the values that the graph engine takes and gives. A time is a number.
use graph_agent_dev_kit.Common.{ℕ, String, Option, List}
use graph_agent_dev_kit.Common.Dict.{Dict}

pub record Entity : Type 0 where
  pub uuid : String
  pub name : String
  pub kind : String
  pub summary : String

pub record Relation : Type 0 where
  pub uuid : String
  pub source_uuid : String
  pub target_uuid : String
  pub kind : String
  pub fact : String
  pub created_at : ℕ
  pub valid_at : ℕ
  pub invalid_at : Option ℕ

pub record RelationInput : Type 0 where
  pub source_uuid : String
  pub target_uuid : String
  pub kind : String
  pub fact : String
  pub valid_at : ℕ

pub record EpisodeInput : Type 0 where
  pub name : String
  pub body : String
  pub source : String
  pub group_id : String
  pub metadata : Dict String

pub record GraphIngestResult : Type 0 where
  pub uuid : String
  pub name : String
  pub entity_nodes : List Entity
  pub episodic_edges : List Relation

pub record ExtractedEntity : Type 0 where
  pub name : String
  pub kind : String
  pub summary : String

pub record ExtractedRelation : Type 0 where
  pub source : String
  pub target : String
  pub kind : String
  pub fact : String
