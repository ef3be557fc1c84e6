-- ===== src/Agent/Aggregator.antt =====
-- agent/aggregator.go: DefaultAggregator. A strings.Builder is the text written to it.
use graph_agent_dev_kit.Common.{
  String, ◌<>◌, ◌==◌, Bool, true, false, not, ◌&&◌, Option, none, some, List, [], ◌∷◌, ◌++◌,
  if◌then◌else◌,
}
use graph_agent_dev_kit.Types.Content.{Message, assistant, AssistantContent}
use graph_agent_dev_kit.Types.Delta.{
  Delta, text_start, text_content, text_end, tool_call_start, tool_call_argument, tool_call_end,
  thinking_start, thinking_content, thinking_end,
}

pub record Aggregator : Type 0 where
  pub content_blocks : List AssistantContent
  pub text_buf : String
  pub in_text : Bool
  pub tool_id : String
  pub tool_name : String
  pub args_buf : String
  pub in_tool : Bool
  pub thinking_buf : String
  pub in_thinking : Bool

abbrev pub new_aggregator : Aggregator
new_aggregator = record {
  content_blocks = [];
  text_buf = "";
  in_text = false;
  tool_id = "";
  tool_name = "";
  args_buf = "";
  in_tool = false;
  thinking_buf = "";
  in_thinking = false;
}

-- Push. The deltas that the switch does not name change nothing.
unfoldable pub push : Aggregator → Delta → Aggregator
push a thinking_start = record a { in_thinking = true; thinking_buf = "" }
push a (thinking_content s) =
    if a.in_thinking then record a { thinking_buf = a.thinking_buf <> s } else a
push a (thinking_end signature) =
    if a.in_thinking
    then record a {
      content_blocks =
          a.content_blocks
          ++ AssistantContent.thinking (record { thinking = a.thinking_buf; signature = signature })
            ∷ [];
      in_thinking = false;
    }
    else a
push a text_start = record a { in_text = true; text_buf = "" }
push a (text_content s) = if a.in_text then record a { text_buf = a.text_buf <> s } else a
push a text_end =
    if a.in_text
    then record a {
      content_blocks = a.content_blocks ++ AssistantContent.text a.text_buf ∷ [];
      in_text = false;
    }
    else a
push a (tool_call_start id name) = record a {
  in_tool = true;
  tool_id = id;
  tool_name = name;
  args_buf = "";
}
push a (tool_call_argument s) = if a.in_tool then record a { args_buf = a.args_buf <> s } else a
push a (tool_call_end arguments) =
    if a.in_tool
    then record a {
      content_blocks =
          a.content_blocks
          ++ AssistantContent.tool_use
              (record { id = a.tool_id; name = a.tool_name; arguments = arguments })
            ∷ [];
      in_tool = false;
    }
    else a
push a _ = a

-- for delta := range rx { agg.Push(delta) }
unfoldable pub push_all : Aggregator → List Delta → Aggregator
unfolding push
push_all a [] = a
push_all a (d ∷ ds) = push_all (push a d) ds

-- The blocks with a text that is still open at the end.
unfoldable pub final_blocks : Aggregator → List AssistantContent
final_blocks a =
    if a.in_text && not (a.text_buf == "")
    then a.content_blocks ++ AssistantContent.text a.text_buf ∷ []
    else a.content_blocks

-- Message: nil where there is no block.
unfoldable pub message : Aggregator → Option Message
unfolding final_blocks
message a = elim (final_blocks a) [ [] ↦ none | b ∷ bs ↦ some (assistant (b ∷ bs)) ]

-- Reset
unfoldable pub reset : Aggregator → Aggregator
reset a = new_aggregator
