-- ===== src/Types/Delta.antt =====
-- agent/types/delta.go, marker.go and provider.go: what a provider streams. A provider's channel is
-- read to its end wherever the program reads it, so it is the list of what it carries.
use graph_agent_dev_kit.Common.{ℕ, String, ◌<>◌, List, [], ◌∷◌, Result}
use graph_agent_dev_kit.Common.Dict.{Dict}
use graph_agent_dev_kit.Types.Content.{Json, Message, FeedbackContent}
use graph_agent_dev_kit.Types.Errors.{Error}

pub record Marker : Type 0 where
  pub kind : String
  pub message : String
  pub meta : Dict Json

pub record UsageDelta : Type 0 where
  pub prompt_tokens : ℕ
  pub completion_tokens : ℕ
  pub total_tokens : ℕ
  pub latency : ℕ
  pub response_model : String
  pub response_id : String
  pub finish_reasons : List String

pub data Delta : Type 0 where
  text_start : Delta
  text_content : String → Delta
  text_end : Delta
  tool_call_start : String → String → Delta
  tool_call_argument : String → Delta
  tool_call_end : Dict Json → Delta
  tool_exec_start : String → String → Delta
  tool_exec_delta : String → Delta → Delta
  tool_exec_end : String → String → String → Delta
  thinking_start : Delta
  thinking_content : String → Delta
  thinking_end : String → Delta
  marker_delta : String → String → Dict Json → List Marker → Delta
  error_delta : Error → Delta
  done_delta : Delta
  feedback_delta : FeedbackContent → Delta
  usage_delta : UsageDelta → Delta

pub record ToolDef : Type 0 where
  pub name : String
  pub description : String
  pub parameters : Json

-- Provider.ChatStream, which is not implemented here: a value of this type is a parameter.
abbrev pub Chat : Type 0
Chat = List Message → List ToolDef → Result Error (List Delta)

-- The text that `if tc, ok := delta.(TextContentDelta)` gathers from a stream.
unfoldable pub streamed_text : List Delta → String
streamed_text [] = ""
streamed_text (text_content s ∷ ds) = s <> streamed_text ds
streamed_text (_ ∷ ds) = streamed_text ds
