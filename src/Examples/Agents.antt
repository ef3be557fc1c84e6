-- ===== src/Examples/Agents.antt =====
-- Inputs for the parts of agent/agent.go and agent/types.
use graph_agent_dev_kit.Common.{
  ℕ, ◌≤◌, none, some, List, [], ◌∷◌, map, drop, ok, ◌≡◌, ◌≢◌, refl, false, arith,
}
use graph_agent_dev_kit.Common.Int.{pos}
use graph_agent_dev_kit.Types.Content.{
  Message, assistant, system, user, AssistantContent, UserContent, SystemContent, ConfigContent,
  ToolUseContent, new_user_message, new_system_message,
}
use graph_agent_dev_kit.Types.Errors.{
  Error, cons, nil, provider_error, opaque_error, fallback_error, transient, permanent,
  is_transient, is_transient_kind, as_provider_error,
}
use graph_agent_dev_kit.Types.Errors.Classify.{is_transient-eq-first}
use graph_agent_dev_kit.Types.Delta.{Marker}
use graph_agent_dev_kit.Types.Compactor.{slide, compact, sliding_window_compactor}
use graph_agent_dev_kit.Types.Compactor.Window.{slide-window, IsCut}
use graph_agent_dev_kit.Agent.Aggregator.{new_aggregator, push_all, message}
use graph_agent_dev_kit.Agent.Replay.{replay_message}
use graph_agent_dev_kit.Agent.Replay.RoundTrip.{message-replay}
use graph_agent_dev_kit.Agent.Prepare.{ResolvedConfig, initial_config, prepare_messages}
use graph_agent_dev_kit.Agent.Prepare.Resolved.{IsResolved, prepare_messages-resolves}
use graph_agent_dev_kit.Agent.Tools.{Tool, plain, marked, ToolEnv, execute_tools}
use graph_agent_dev_kit.Agent.Tools.Results.{execute_tools-ids}

abbrev lookup : ToolUseContent
lookup = record { id = "call-1"; name = "lookup"; arguments = [] }

abbrev missing : ToolUseContent
missing = record { id = "call-2"; name = "missing"; arguments = [] }

-- An answer with a text and a tool call comes back from its replay.
message-replay_example :
    message (
      push_all new_aggregator (
        replay_message
          (assistant (AssistantContent.text "hi" ∷ AssistantContent.tool_use lookup ∷ []))))
    ≡ some (assistant (AssistantContent.text "hi" ∷ AssistantContent.tool_use lookup ∷ []))
message-replay_example =
    message-replay (AssistantContent.text "hi") (AssistantContent.tool_use lookup ∷ [])

abbrev settings : ConfigContent
settings = record { model = ""; max_iter = pos 3; compact = none; compact_now = false }

-- A history with settings in its first message, and a message of settings alone.
abbrev history : List Message
history =
    system (SystemContent.text "be brief" ∷ SystemContent.config settings ∷ [])
    ∷ user (UserContent.config settings ∷ [])
    ∷ new_user_message "hello"
    ∷ []

abbrev ten : ResolvedConfig
ten = initial_config (pos 10) none

prepare_messages-resolves_example :
    IsResolved ten (settings ∷ settings ∷ []) (prepare_messages ten history).0
    × ((prepare_messages ten history).1
        ≡ system (SystemContent.text "be brief" ∷ []) ∷ new_user_message "hello" ∷ [])
unfolding new_user_message
prepare_messages-resolves_example = prepare_messages-resolves ten history

abbrev caution : Marker
caution = record { kind = "human_approval"; message = "look first"; meta = [] }

abbrev lookup_tool : Tool
lookup_tool = plain (λ args. ("found", none))

-- A consumer that rejects each marked call.
abbrev rejecting : ToolEnv
rejecting = record {
  registry = ("lookup", marked (caution ∷ []) lookup_tool) ∷ [];
  resolve = λ tc. some (record { approved = false; modified_args = none; message = "no" });
  error_text = λ e. "failed";
}

answered : (tc : ToolUseContent) → rejecting.resolve tc ≢ none
answered tc e = cc e

execute_tools-ids_example :
    map (λ r. r.tool_call_id) (execute_tools rejecting (lookup ∷ missing ∷ [])).0
    ≡ map (λ tc. tc.id) (lookup ∷ missing ∷ [])
execute_tools-ids_example = execute_tools-ids rejecting (lookup ∷ missing ∷ []) answered

-- A permanent failure, then a transient one.
abbrev refused : Error
refused = provider_error "a" "m" permanent 400 (opaque_error "bad request")

abbrev busy : Error
busy = provider_error "b" "m" transient 429 (opaque_error "too many requests")

refused_found : as_provider_error refused ≡ some permanent
unfolding as_provider_error
refused_found = refl

is_transient-eq-first_example :
    is_transient (fallback_error (cons refused (cons busy nil)))
    ≡ is_transient_kind (as_provider_error (fallback_error (cons refused (cons busy nil))))
is_transient-eq-first_example =
    is_transient-eq-first (fallback_error (cons refused (cons busy nil)))

abbrev talk : List Message
talk = new_user_message "one" ∷ new_user_message "two" ∷ new_user_message "three" ∷ []

-- A window of two would begin with the result of a tool.
abbrev called : List Message
called =
    new_user_message "one"
    ∷ user
        (UserContent.tool_result (record { tool_call_id = "c"; text = "t"; is_error = false }) ∷ [])
    ∷ new_user_message "two"
    ∷ []

slide-window_example :
    (cut : ℕ) × (slide (pos 2) (new_system_message "be brief" ∷ called)
      ≡ ok (new_system_message "be brief" ∷ drop cut (new_system_message "be brief" ∷ called)))
    × (1 ≤ cut)
    × IsCut 2 (new_system_message "be brief" ∷ called) cut
slide-window_example = slide-window 2 (new_system_message "be brief") called (omega arith)

talk_kept :
    compact
      (sliding_window_compactor (pos 9))
      (λ ms tools. ok [])
      (new_system_message "be brief" ∷ talk)
    ≡ ok (new_system_message "be brief" ∷ talk)
unfolding compact slide
talk_kept = refl
