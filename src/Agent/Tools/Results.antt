-- ===== src/Agent/Tools/Results.antt =====
-- What the results of the tool calls say.
use graph_agent_dev_kit.Common.{
  Option, none, some, List, [], ◌∷◌, map, ◌≡◌, ◌≢◌, refl, ap₂, Bool-cases, inl, inr,
}
use graph_agent_dev_kit.Common.Dict.{get}
use graph_agent_dev_kit.Types.Content.{ToolUseContent}
use graph_agent_dev_kit.Agent.Tools.{
  Tool, plain, marked, sub_agent, Resolution, ToolEnv, invoke, after_marker, run_looked_up,
  execute_tools,
}

module _ (env : ToolEnv) where
  invoke_id :
      (tc : ToolUseContent) (tool : Tool) (args : _)
      → (invoke env tc tool args).0.tool_call_id ≡ tc.id
  unfolding invoke
  invoke_id tc (plain f) args = refl
  invoke_id tc (marked ms t) args = refl
  invoke_id tc (sub_agent f) args = refl

  after_marker_id :
      (tc : ToolUseContent) (tool : Tool) (r : Option Resolution)
      → r ≢ none
      → (after_marker env tc tool r).0.tool_call_id ≡ tc.id
  unfolding after_marker
  after_marker_id tc tool none h = absurd (h refl)
  after_marker_id tc tool (some r) h = elim (Bool-cases r.approved) [
    | inl fine ↦ rw fine (invoke_id tc tool _)
    | inr not_fine ↦ rw not_fine
  ]

  run_looked_up_id :
      (tc : ToolUseContent) (tool : Option Tool)
      → env.resolve tc ≢ none
      → (run_looked_up env tc tool).0.tool_call_id ≡ tc.id
  unfolding run_looked_up
  run_looked_up_id tc none h = refl
  run_looked_up_id tc (some (marked [] inner)) h = invoke_id tc (marked [] inner) tc.arguments
  run_looked_up_id tc (some (marked (m ∷ ms) inner)) h = after_marker_id tc inner (env.resolve tc) h
  run_looked_up_id tc (some (plain f)) h = invoke_id tc (plain f) tc.arguments
  run_looked_up_id tc (some (sub_agent f)) h = invoke_id tc (sub_agent f) tc.arguments

  -- When the consumer answers every marker, executeToolsConcurrently gives one result for each
  -- call, in the order of the calls, with the id of its call.
  pub execute_tools-ids :
      (tcs : List ToolUseContent)
      → ((tc : ToolUseContent) → env.resolve tc ≢ none)
      → map (λ r. r.tool_call_id) (execute_tools env tcs).0 ≡ map (λ tc. tc.id) tcs
  unfolding execute_tools
  execute_tools-ids [] h = refl
  execute_tools-ids (tc ∷ tcs) h =
      ap₂ ◌∷◌ (run_looked_up_id tc (get env.registry tc.name) (h tc)) (execute_tools-ids tcs h)
