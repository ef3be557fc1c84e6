-- ===== src/Types/Content.antt =====
-- agent/types/content.go and message.go: content blocks, messages, and compaction settings
-- (agent/types/compactor.go). Go's `int` fields that may be negative are ℤ.
use graph_agent_dev_kit.Common.{ℕ, Bool, String, Option, List, [], ◌∷◌, map}
use graph_agent_dev_kit.Common.Dict.{Dict}
use graph_agent_dev_kit.Common.Int.{ℤ}

-- A value of a `map[string]any` that was decoded from JSON; a number is kept as its text.
mutual
  pub data Json : Type 0 where
    null : Json
    bool : Bool → Json
    number : String → Json
    string : String → Json
    array : JsonItems → Json
    object : JsonFields → Json

  pub data JsonItems : Type 0 where
    nil : JsonItems
    cons : Json → JsonItems → JsonItems

  pub data JsonFields : Type 0 where
    end : JsonFields
    field : String → Json → JsonFields → JsonFields

pub data CompactStrategy : Type 0 where
  no_strategy sliding_window summarize : CompactStrategy

pub record CompactConfig : Type 0 where
  pub strategy : CompactStrategy
  pub window_size : ℤ
  pub threshold : ℤ
  pub keep_last : ℤ

pub record ToolUseContent : Type 0 where
  pub id : String
  pub name : String
  pub arguments : Dict Json

pub record ToolResultContent : Type 0 where
  pub tool_call_id : String
  pub text : String
  pub is_error : Bool

pub record ConfigContent : Type 0 where
  pub model : String
  pub max_iter : ℤ
  pub compact : Option CompactConfig
  pub compact_now : Bool

pub record FileContent : Type 0 where
  pub uri : String
  pub media_type : String
  pub bytes : List ℕ
  pub filename : String

pub record ThinkingContent : Type 0 where
  pub thinking : String
  pub signature : String

pub record FeedbackContent : Type 0 where
  pub target_node_id : String
  pub rating : ℤ
  pub comment : String

pub data SystemContent : Type 0 where
  text : String → SystemContent
  tool_result : ToolResultContent → SystemContent
  config : ConfigContent → SystemContent

pub data UserContent : Type 0 where
  text : String → UserContent
  tool_result : ToolResultContent → UserContent
  config : ConfigContent → UserContent
  file : FileContent → UserContent
  feedback : FeedbackContent → UserContent

pub data AssistantContent : Type 0 where
  text : String → AssistantContent
  tool_use : ToolUseContent → AssistantContent
  thinking : ThinkingContent → AssistantContent

pub data Message : Type 0 where
  system : List SystemContent → Message
  user : List UserContent → Message
  assistant : List AssistantContent → Message

unfoldable pub new_system_message : String → Message
new_system_message t = system (SystemContent.text t ∷ [])

unfoldable pub new_user_message : String → Message
new_user_message t = user (UserContent.text t ∷ [])

unfoldable pub new_tool_result_message : List ToolResultContent → Message
new_tool_result_message results = system (map (λ r. SystemContent.tool_result r) results)
