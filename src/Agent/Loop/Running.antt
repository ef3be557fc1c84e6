-- ===== src/Agent/Loop/Running.antt =====
-- About the rounds of runLoop of agent/agent.go on a well-formed tree: none hangs.
use graph_agent_dev_kit.Common.{
  ℕ, zero, suc, ◌+◌, Option, none, some, List, [], ◌∷◌, length, Result, ok, err, Result-cases,
  Bool-cases, inl, inr, ◌≡◌, refl, subst, arith, false,
}
use graph_agent_dev_kit.Common.Int.{ge_int}
use graph_agent_dev_kit.Types.Content.{Message, ToolUseContent}
use graph_agent_dev_kit.Types.Errors.{Error, is_panic, is_endless}
use graph_agent_dev_kit.Types.Node.{Node}
use graph_agent_dev_kit.Types.Wal.{Wal}
use graph_agent_dev_kit.Types.Delta.{Delta}
use graph_agent_dev_kit.Tree.State.{Tree}
use graph_agent_dev_kit.Tree.Paths.{flatten_branch}
use graph_agent_dev_kit.Agent.Aggregator.{message, new_aggregator, push_all}
use graph_agent_dev_kit.Agent.Prepare.{initial_config, prepare_messages}
use graph_agent_dev_kit.Agent.Tools.{execute_tools, result_message}
use graph_agent_dev_kit.Agent.Env.{Env}
use graph_agent_dev_kit.Agent.Files.{resolve_files}
use graph_agent_dev_kit.Agent.Branching.{
  Compaction, not_compacted, moved_to, broken, append_message, try_compact,
}
use graph_agent_dev_kit.Agent.Loop.{
  LoopState, Turn, stopped, again, hangs, panicking, Run, returned, endless, crashed, no_fuel,
  no_history, not_usage, calls_of, call_provider, go_on, appended, run_tools, take_message,
  take_answer, after_compaction, round_on, round, rounds,
}
use graph_agent_dev_kit.Agent.Loop.Alive.{
  DrawsIds, Live, Live-later, flatten_branch-ends, append_message-Draws, try_compact-Live,
}

-- The run is not in a climb without end.
abbrev pub NotEndless : {W : Type 0} → Run W → Type 0
NotEndless (returned s) = Unit {0}
NotEndless (endless s) = ⊥
NotEndless crashed = Unit {0}
NotEndless no_fuel = Unit {0}

module _ (env : Env) (ids : DrawsIds env) {W : Type 0} ⦃log : Wal W⦄ where
  -- A turn that goes on leaves a well-formed tree and new ids, and no turn hangs.
  abbrev LiveTurn : Turn W → Type 0
  LiveTurn (stopped s) = Unit {0}
  LiveTurn (again s) = Live env ids s.drawn s.tree
  LiveTurn (hangs s) = ⊥
  LiveTurn panicking = Unit {0}

  abbrev LiveNext : (LoopState W → Turn W) → Type 0
  LiveNext next = (u : LoopState W) → Live env ids u.drawn u.tree → LiveTurn (next u)

  go_on-Live :
      (s : LoopState W) (next : LoopState W → Turn W) (r : Result Error Node × Tree W)
      → Live env ids (suc s.drawn) r.1
      → LiveNext next
      → LiveTurn (go_on env s next r)
  go_on-Live s next (ok n, t) v h = h (record s { tree = t; drawn = suc s.drawn }) v
  go_on-Live s next (err e, t) v h = tt

  appended-Live :
      (msg : Message) (next : LoopState W → Turn W)
      → LiveNext next
      → LiveNext (appended env msg next)
  appended-Live msg next h s v =
      go_on-Live s next (append_message s.branch msg (env.ids s.drawn) (env.clock s.drawn) s.tree)
        (append_message-Draws env ids s.branch msg s.drawn (env.clock s.drawn) s.tree v) h

  run_tools-Live : (tcs : List ToolUseContent) → LiveNext (run_tools env tcs)
  unfolding run_tools
  run_tools-Live [] s v = tt
  run_tools-Live (tc ∷ tcs) s v =
      appended-Live (result_message (execute_tools env.tools (tc ∷ tcs)).0) again (λ u d. d) _ v

  take_message-Live : (m : Option Message) → LiveNext (take_message env m)
  unfolding take_message
  take_message-Live none s v = tt
  take_message-Live (some msg) s v =
      appended-Live msg (run_tools env (calls_of msg)) (run_tools-Live (calls_of msg)) s v

  take_answer-Live : (iter : ℕ) (r : Result Error (List Delta)) → LiveNext (take_answer env iter r)
  unfolding take_answer
  take_answer-Live iter (err e) s v = tt
  take_answer-Live iter (ok ds) s v =
      take_message-Live (message (push_all new_aggregator (not_usage ds))) _ v

  after_compaction-Live :
      (iter : ℕ) (llm : List Message) (s : LoopState W) (r : Compaction × Tree W)
      → Live env ids (s.drawn + 2 + length llm) r.1
      → LiveTurn (after_compaction env iter llm s r)
  unfolding after_compaction
  after_compaction-Live iter llm s (broken, t) v = tt
  after_compaction-Live iter llm s (moved_to b, t) v = v
  after_compaction-Live iter llm s (not_compacted, t) v =
      take_answer-Live iter (call_provider env iter llm) _ v

  round_on-Live :
      (iter : ℕ) (s : LoopState W) (messages : List Message)
      → Live env ids s.drawn s.tree
      → LiveTurn (round_on env iter s messages)
  unfolding round_on
  round_on-Live iter s messages v =
      let rc = initial_config env.max_iter env.compact_cfg in
      let resolved = (prepare_messages rc messages).0 in
      let llm = resolve_files env (prepare_messages rc messages).1 in
      let later =
        Live-later env ids (s.drawn + length llm) (s.drawn + 2 + length llm) _ (omega arith)
          (try_compact-Live env ids iter resolved llm s.drawn s.tree v) in
      elim (Bool-cases (ge_int iter resolved.max_iter)) [
        | inl reached ↦ rw reached tt
        | inr more ↦ rw more (
            after_compaction-Live iter llm s (try_compact env iter resolved llm s.drawn s.tree)
              later)
      ]

  no_history-Live :
      (e : Error) (s : LoopState W) → is_endless e ≡ false → LiveTurn (no_history env e s)
  unfolding no_history
  no_history-Live e s ends = elim (Bool-cases (is_panic e)) [
    | inl p ↦ rw p tt
    | inr np ↦ rw (np, ends) tt
  ]

  round-Live :
      (iter : ℕ) (s : LoopState W) → Live env ids s.drawn s.tree → LiveTurn (round env iter s)
  unfolding round
  round-Live iter s v = elim (Bool-cases (env.cancelled iter)) [
    | inl gone ↦ rw gone tt
    | inr alive ↦ elim (Result-cases (flatten_branch s.branch s.tree)) [
      | inl (ms, e) ↦ rw (alive, e, round) (round_on-Live iter s ms v)
      | inr (f, e) ↦
          rw (alive, e, round)
            (no_history-Live f s (flatten_branch-ends env ids s.branch s.tree f v.0 e))
    ]
  ]

  rounds-turned :
      (f iter : ℕ) (s : LoopState W) (turn : Turn W)
      → round env iter s ≡ turn
      → LiveTurn (round env iter s)
      → ((u : LoopState W)
          → round env iter s ≡ again u
          → Live env ids u.drawn u.tree
          → NotEndless (rounds env f (suc iter) u))
      → NotEndless (rounds env (suc f) iter s)
  unfolding rounds
  rounds-turned f iter s (stopped u) e c h = rw (e, rounds) tt
  rounds-turned f iter s (again u) e c h = rw (e, rounds) (h u e (subst LiveTurn e c))
  rounds-turned f iter s (hangs u) e c h = absurd (subst LiveTurn e c)
  rounds-turned f iter s panicking e c h = rw (e, rounds) tt

  -- On a well-formed tree, with new ids, the rounds do not hang, whatever the fuel.
  pub rounds-NotEndless :
      (f iter : ℕ) (s : LoopState W)
      → Live env ids s.drawn s.tree
      → NotEndless (rounds env f iter s)
  rounds-NotEndless zero iter s v = unfold rounds in tt
  rounds-NotEndless (suc f) iter s v =
      rounds-turned f iter s (round env iter s) refl (round-Live iter s v)
        (λ u e w. rounds-NotEndless f (suc iter) u w)
