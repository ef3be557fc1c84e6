-- ===== src/Agent/Replay.antt =====
-- agent/stream.go: Replay. The stream is the list of the deltas that it sends.
pub mod RoundTrip
use graph_agent_dev_kit.Common.{String, List, [], ◌∷◌, ◌++◌}
use graph_agent_dev_kit.Types.Content.{
  Message, system, user, assistant, SystemContent, UserContent, AssistantContent,
}
use graph_agent_dev_kit.Types.Delta.{
  Delta, text_start, text_content, text_end, tool_call_start, tool_call_end, tool_exec_start,
  tool_exec_end, thinking_start, thinking_content, thinking_end, feedback_delta, done_delta,
}

unfoldable pub replay_block : AssistantContent → List Delta
replay_block (AssistantContent.thinking t) =
    thinking_start ∷ thinking_content t.thinking ∷ thinking_end t.signature ∷ []
replay_block (AssistantContent.text s) = text_start ∷ text_content s ∷ text_end ∷ []
replay_block (AssistantContent.tool_use u) =
    tool_call_start u.id u.name ∷ tool_call_end u.arguments ∷ []

unfoldable pub replay_blocks : List AssistantContent → List Delta
unfolding replay_block
replay_blocks [] = []
replay_blocks (b ∷ bs) = replay_block b ++ replay_blocks bs

-- replayToolResults
unfoldable pub replay_tool_results : List SystemContent → List Delta
replay_tool_results [] = []
replay_tool_results (SystemContent.tool_result r ∷ cs) =
    tool_exec_start r.tool_call_id ""
    ∷ tool_exec_end r.tool_call_id r.text ""
    ∷ replay_tool_results cs
replay_tool_results (_ ∷ cs) = replay_tool_results cs

-- replayUserToolResults
unfoldable pub replay_user_tool_results : List UserContent → List Delta
replay_user_tool_results [] = []
replay_user_tool_results (UserContent.tool_result r ∷ cs) =
    tool_exec_start r.tool_call_id ""
    ∷ tool_exec_end r.tool_call_id r.text ""
    ∷ replay_user_tool_results cs
replay_user_tool_results (UserContent.feedback f ∷ cs) =
    feedback_delta f ∷ replay_user_tool_results cs
replay_user_tool_results (_ ∷ cs) = replay_user_tool_results cs

unfoldable pub replay_message : Message → List Delta
unfolding replay_blocks replay_tool_results replay_user_tool_results
replay_message (assistant bs) = replay_blocks bs
replay_message (system cs) = replay_tool_results cs
replay_message (user cs) = replay_user_tool_results cs

replay_messages : List Message → List Delta
replay_messages [] = []
replay_messages (m ∷ ms) = replay_message m ++ replay_messages ms

-- Replay
unfoldable pub replay : List Message → List Delta
unfolding replay_messages
replay ms = replay_messages ms ++ done_delta ∷ []
