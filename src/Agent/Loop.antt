-- ===== src/Agent/Loop.antt =====
-- agent/agent.go: runLoop and callProvider. The loop's state is the tree, the branch, the number of
-- ids drawn, and the deltas sent, while the context is alive to take them.
pub mod Capped
pub mod Kept
pub mod Compacted
pub mod Fetched
pub mod Alive
pub mod Running
pub mod Ends
use graph_agent_dev_kit.Common.{
  ℕ, zero, suc, ◌+◌, String, ◌==◌, Bool, true, false, Option, none, some, List, [], ◌∷◌, ◌++◌,
  length, Result, ok, err, if◌then◌else◌,
}
use graph_agent_dev_kit.Common.Int.{ge_int}
use graph_agent_dev_kit.Types.Content.{Message, system, user, assistant, ToolUseContent}
use graph_agent_dev_kit.Types.Errors.{Error, sentinel, stream_canceled, is_panic, is_endless}
use graph_agent_dev_kit.Types.Node.{Node}
use graph_agent_dev_kit.Types.Wal.{Wal}
use graph_agent_dev_kit.Types.Delta.{Delta, UsageDelta, Chat, error_delta, done_delta, usage_delta}
use graph_agent_dev_kit.Tree.State.{Tree}
use graph_agent_dev_kit.Tree.Paths.{flatten_branch}
use graph_agent_dev_kit.Agent.Aggregator.{new_aggregator, push_all, message}
use graph_agent_dev_kit.Agent.Prepare.{ResolvedConfig, initial_config, prepare_messages}
use graph_agent_dev_kit.Agent.Tools.{execute_tools, result_message, tool_calls}
use graph_agent_dev_kit.Agent.Env.{Env}
use graph_agent_dev_kit.Agent.Files.{resolve_files}
use graph_agent_dev_kit.Agent.Branching.{
  Compaction, not_compacted, moved_to, broken, append_message, append_all, try_compact,
}

pub record LoopState (W : Type 0) : Type 0 where
  pub tree : Tree W
  pub branch : String
  pub drawn : ℕ
  pub sent : List Delta

-- One round of the loop ends it, or goes on, or never ends in FlattenBranch, or panics.
pub data Turn (W : Type 0) : Type 0 where
  stopped : LoopState W → Turn W
  again : LoopState W → Turn W
  hangs : LoopState W → Turn W
  panicking : Turn W

-- What a run on fuel came to.
pub data Run (W : Type 0) : Type 0 where
  returned : LoopState W → Run W
  endless : LoopState W → Run W
  crashed : Run W
  no_fuel : Run W

-- The deltas that are forwarded, and the usage that is held back.
unfoldable pub not_usage : List Delta → List Delta
not_usage [] = []
not_usage (usage_delta u ∷ ds) = not_usage ds
not_usage (d ∷ ds) = d ∷ not_usage ds

abbrev no_usage : UsageDelta
no_usage = record {
  prompt_tokens = 0;
  completion_tokens = 0;
  total_tokens = 0;
  latency = 0;
  response_model = "";
  response_id = "";
  finish_reasons = [];
}

last_usage : UsageDelta → List Delta → UsageDelta
last_usage u [] = u
last_usage u (usage_delta v ∷ ds) = last_usage v ds
last_usage u (d ∷ ds) = last_usage u ds

-- The usage that is sent on: token counts of the last one, and the latency that was measured.
enriched_usage : ℕ → List Delta → UsageDelta
unfolding last_usage
enriched_usage latency ds = record no_usage {
  prompt_tokens = (last_usage no_usage ds).prompt_tokens;
  completion_tokens = (last_usage no_usage ds).completion_tokens;
  total_tokens = (last_usage no_usage ds).total_tokens;
  latency = latency;
}

unfoldable pub calls_of : Message → List ToolUseContent
calls_of (assistant bs) = tool_calls bs
calls_of _ = []

module _ (env : Env) where
  -- callProvider
  unfoldable pub call_provider : ℕ → List Message → Result Error (List Delta)
  call_provider iter ms = elim (env.schema_chat iter) [
    | none ↦ env.chat iter ms env.tool_defs
    | some schema ↦ elim env.tool_defs [ [] ↦ schema ms [] | d ∷ ds ↦ env.chat iter ms (d ∷ ds) ]
  ]

module _ {W : Type 0} ⦃log : Wal W⦄ (env : Env) where
  abbrev pub send : List Delta → LoopState W → LoopState W
  send ds s = record s { sent = s.sent ++ ds }

  abbrev pub fail : Error → LoopState W → Turn W
  fail e s = stopped (send (error_delta e ∷ []) s)

  abbrev pub go_on : LoopState W → (LoopState W → Turn W) → Result Error Node × Tree W → Turn W
  go_on s next (ok n, t) = next (record s { tree = t; drawn = suc s.drawn })
  go_on s next (err e, t) = fail e (record s { tree = t; drawn = suc s.drawn })

  -- Append a message at the branch's tip, or end the loop with the error.
  abbrev pub appended : Message → (LoopState W → Turn W) → LoopState W → Turn W
  appended msg next s =
      go_on s next (append_message s.branch msg (env.ids s.drawn) (env.clock s.drawn) s.tree)

  -- The end of a round: the tool calls of the message, and their results.
  unfoldable pub run_tools : List ToolUseContent → LoopState W → Turn W
  run_tools [] s = stopped s
  run_tools (tc ∷ tcs) s =
      let (results, deltas) = execute_tools env.tools (tc ∷ tcs) in
      appended (result_message results) again (send deltas s)

  unfoldable pub take_message : Option Message → LoopState W → Turn W
  unfolding run_tools calls_of
  take_message none s = stopped s
  take_message (some msg) s = appended msg (run_tools (calls_of msg)) s

  -- What follows the provider's answer.
  unfoldable pub take_answer : ℕ → Result Error (List Delta) → LoopState W → Turn W
  unfolding take_message not_usage enriched_usage
  take_answer iter (err e) s = fail e s
  take_answer iter (ok deltas) s =
      take_message (message (push_all new_aggregator (not_usage deltas)))
        (send (not_usage deltas ++ usage_delta (enriched_usage (env.latency iter) deltas) ∷ []) s)

  unfoldable pub after_compaction : ℕ → List Message → LoopState W → Compaction × Tree W → Turn W
  unfolding take_answer call_provider
  after_compaction iter llm s (broken, t) = panicking
  after_compaction iter llm s (moved_to new_branch, t) =
      again (record s { tree = t; branch = new_branch; drawn = s.drawn + 2 + length llm })
  after_compaction iter llm s (not_compacted, t) =
      take_answer iter (call_provider env iter llm)
        (record s { tree = t; drawn = s.drawn + 2 + length llm })

  -- The round once the history is there.
  unfoldable pub round_on : ℕ → LoopState W → List Message → Turn W
  unfolding after_compaction
  round_on iter s messages =
      let (resolved, prepared) =
        prepare_messages (initial_config env.max_iter env.compact_cfg) messages in
      let llm = resolve_files env prepared in
      if ge_int iter resolved.max_iter
      then stopped s
      else after_compaction iter llm s (try_compact env iter resolved llm s.drawn s.tree)

  -- A history that is not there.
  unfoldable pub no_history : Error → LoopState W → Turn W
  no_history e s = if is_panic e then panicking else if is_endless e then hangs s else fail e s

  -- One round of the loop.
  unfoldable pub round : ℕ → LoopState W → Turn W
  unfolding round_on no_history
  round iter s =
      if env.cancelled iter
      then fail (sentinel stream_canceled) s
      else elim (flatten_branch s.branch s.tree) [
        | err e ↦ no_history e s
        | ok messages ↦ round_on iter s messages
      ]

  -- The loop on fuel.
  unfoldable pub rounds : ℕ → ℕ → LoopState W → Run W
  unfolding round
  rounds zero iter s = no_fuel
  rounds (suc f) iter s = elim (round iter s) [
    | stopped s' ↦ returned s'
    | again s' ↦ rounds f (suc iter) s'
    | hangs s' ↦ endless s'
    | panicking ↦ crashed
  ]

  abbrev pub done : LoopState W → LoopState W
  done s = send (done_delta ∷ []) s

  -- The deferred DoneDelta.
  abbrev pub finish : Run W → Run W
  finish (returned s) = returned (done s)
  finish (endless s) = endless s
  finish crashed = crashed
  finish no_fuel = no_fuel

  unfoldable pub start_rounds : ℕ → LoopState W → ℕ → Result Error (Unit {0}) × Tree W → Run W
  unfolding rounds
  start_rounds fuel s n (err e, t) =
      returned (done (send (error_delta e ∷ []) (record s { tree = t; drawn = s.drawn + n })))
  start_rounds fuel s n (ok u, t) =
      finish (rounds fuel 0 (record s { tree = t; drawn = s.drawn + n }))

  -- runLoop
  unfoldable pub run_loop : ℕ → List Message → LoopState W → Run W
  unfolding start_rounds
  run_loop fuel input s =
      start_rounds fuel s (length input) (append_all env s.branch input s.drawn s.tree)
