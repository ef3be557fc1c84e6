-- ===== src/Agent/Tools.antt =====
-- agent/agent.go: executeToolsConcurrently and the tool result message, with the tools of
-- agent/types/tool.go and marker.go and the sub-agent tool of agent/subagent.go. Each call writes
-- its own slot of `results`, so the results do not depend on how the goroutines interleave; the
-- deltas of one call are kept together, which is one of the orders that the stream may have.
pub mod Results
use graph_agent_dev_kit.Common.{
  String, ◌<>◌, ◌==◌, Bool, true, false, not, ◌&&◌, Option, none, some, List, [], ◌∷◌, ◌++◌, map,
  if◌then◌else◌,
}
use graph_agent_dev_kit.Common.Dict.{Dict, get}
use graph_agent_dev_kit.Types.Content.{
  Message, Json, string, ToolUseContent, ToolResultContent, AssistantContent,
  new_tool_result_message,
}
use graph_agent_dev_kit.Types.Errors.{Error}
use graph_agent_dev_kit.Types.Delta.{
  Delta, Marker, tool_exec_start, tool_exec_delta, tool_exec_end, marker_delta, streamed_text,
}

-- A tool runs on its arguments, wraps another one with markers, or invokes a sub-agent on a task:
-- its stream and the error of its Wait.
pub data Tool : Type 0 where
  plain : (Dict Json → String × Option Error) → Tool
  marked : List Marker → Tool → Tool
  sub_agent : (String → List Delta × Option Error) → Tool

pub record Resolution : Type 0 where
  pub approved : Bool
  pub modified_args : Option (Dict Json)
  pub message : String

pub record ToolResult : Type 0 where
  pub tool_call_id : String
  pub result : String
  pub error : String

-- What surrounds the tool calls: the registry, the consumer's answer to a marker (`none` when the
-- context ends first), and the text of an error.
pub record ToolEnv : Type 0 where
  pub registry : Dict Tool
  pub resolve : ToolUseContent → Option Resolution
  pub error_text : Error → String

-- task, _ := args["task"].(string)
task_of : Dict Json → String
task_of args = elim (get args "task") [ some j ↦ elim j [ string s ↦ s | _ ↦ "" ] | none ↦ "" ]

-- Tool.Execute: a marked tool's is that of the tool inside.
unfoldable pub execute : Tool → Dict Json → String × Option Error
unfolding task_of
execute (plain f) args = f args
execute (marked markers inner) args = execute inner args
execute (sub_agent invoke) args =
    let (deltas, failed) = invoke (task_of args) in (streamed_text deltas, failed)

forwarded : String → List Delta → List Delta
forwarded id ds = map (tool_exec_delta id) ds

module _ (env : ToolEnv) where
  error_string : Option Error → String
  error_string none = ""
  error_string (some e) = env.error_text e

  -- The end of a call: its slot, and the ToolExecEndDelta that repeats it.
  abbrev finished : String → String → String → List Delta → ToolResult × List Delta
  finished id result error sent = (
    record { tool_call_id = id; result = result; error = error },
    sent ++ tool_exec_end id result error ∷ [],
  )

  unfoldable pub invoke : ToolUseContent → Tool → Dict Json → ToolResult × List Delta
  unfolding task_of forwarded error_string execute
  invoke tc (sub_agent f) args =
      let (deltas, failed) = f (task_of args) in
      finished tc.id (streamed_text deltas) (error_string failed) (forwarded tc.id deltas)
  invoke tc (plain f) args =
      let (result, failed) = f args in finished tc.id result (error_string failed) []
  invoke tc (marked markers inner) args =
      let (result, failed) = execute inner args in finished tc.id result (error_string failed) []

  rejection : Resolution → String
  rejection r = if r.message == "" then "rejected" else "rejected: " <> r.message

  abbrev or_args : Option (Dict Json) → Dict Json → Dict Json
  or_args none args = args
  or_args (some changed) args = changed

  -- The answer to a marker. Without one the slot keeps its zero value, and no end is sent.
  unfoldable pub after_marker : ToolUseContent → Tool → Option Resolution → ToolResult × List Delta
  unfolding rejection invoke
  after_marker tc inner none = (record { tool_call_id = ""; result = ""; error = "" }, [])
  after_marker tc inner (some r) =
      if r.approved
      then invoke tc inner (or_args r.modified_args tc.arguments)
      else finished tc.id "" (rejection r) []

  unfoldable pub run_found : ToolUseContent → Tool → ToolResult × List Delta
  unfolding after_marker invoke
  run_found tc (marked (m ∷ ms) inner) =
      let (r, sent) = after_marker tc inner (env.resolve tc) in
      (r, marker_delta tc.id tc.name tc.arguments (m ∷ ms) ∷ sent)
  run_found tc tool = invoke tc tool tc.arguments

  -- tool, found := a.tools.Get(tc.Name)
  unfoldable pub run_looked_up : ToolUseContent → Option Tool → ToolResult × List Delta
  unfolding run_found
  run_looked_up tc none = finished tc.id "" ("tool not found: " <> tc.name) []
  run_looked_up tc (some tool) = run_found tc tool

  -- One goroutine.
  unfoldable pub run_tool : ToolUseContent → ToolResult × List Delta
  unfolding run_looked_up
  run_tool tc =
      let (r, sent) = run_looked_up tc (get env.registry tc.name) in
      (r, tool_exec_start tc.id tc.name ∷ sent)

  -- executeToolsConcurrently
  unfoldable pub execute_tools : List ToolUseContent → List ToolResult × List Delta
  unfolding run_tool
  execute_tools [] = ([], [])
  execute_tools (tc ∷ tcs) =
      let (r, sent) = run_tool tc in let (rs, more) = execute_tools tcs in (r ∷ rs, sent ++ more)

-- A result as it is shown to the model: an error takes the place of an empty text.
unfoldable pub result_content : ToolResult → ToolResultContent
result_content r = record {
  tool_call_id = r.tool_call_id;
  text = if not (r.error == "") && r.result == "" then r.error else r.result;
  is_error = not (r.error == "");
}

unfoldable pub result_message : List ToolResult → Message
unfolding result_content
result_message rs = new_tool_result_message (map result_content rs)

-- The tool calls of an assistant message.
unfoldable pub tool_calls : List AssistantContent → List ToolUseContent
tool_calls [] = []
tool_calls (AssistantContent.tool_use u ∷ bs) = u ∷ tool_calls bs
tool_calls (_ ∷ bs) = tool_calls bs
