-- ===== src/Agent/Loop/Ends.antt =====
-- About runLoop of agent/agent.go: the rounds, the iteration cap and the fuel.
use graph_agent_dev_kit.Common.{
  ◌≢◌, ℕ, zero, suc, ◌+◌, ◌≤◌, ◌<◌, true, false, Option, none, some, List, [], ◌∷◌, map, length,
  Result, ok, err, Result-cases, Bool-cases, inl, inr, ◌≡◌, refl, subst, arith,
}
use graph_agent_dev_kit.Common.Int.{ℤ, pos, negsuc, ge_int}
use graph_agent_dev_kit.Types.Content.{
  Message, assistant, AssistantContent, ToolUseContent, ToolResultContent, SystemContent,
  new_tool_result_message,
}
use graph_agent_dev_kit.Types.Errors.{Error, is_panic, is_endless}
use graph_agent_dev_kit.Types.Node.{Node}
use graph_agent_dev_kit.Types.Wal.{Wal}
use graph_agent_dev_kit.Types.Delta.{Delta}
use graph_agent_dev_kit.Tree.State.{Tree}
use graph_agent_dev_kit.Tree.Paths.{flatten_branch}
use graph_agent_dev_kit.Agent.Aggregator.{
  Aggregator, message, final_blocks, new_aggregator, push_all,
}
use graph_agent_dev_kit.Agent.Prepare.{initial_config, prepare_messages}
use graph_agent_dev_kit.Agent.Tools.{ToolResult, execute_tools, result_message, result_content}
use graph_agent_dev_kit.Agent.Env.{Env}
use graph_agent_dev_kit.Agent.Files.{resolve_files}
use graph_agent_dev_kit.Agent.Branching.{
  Compaction, not_compacted, moved_to, broken, append_message, append_all, try_compact,
}
use graph_agent_dev_kit.Agent.Loop.{
  LoopState, Turn, stopped, again, hangs, panicking, Run, returned, endless, crashed, no_fuel,
  finish, no_history, not_usage, calls_of, call_provider, go_on, appended, run_tools, take_message,
  take_answer, after_compaction, round_on, round, rounds, start_rounds, run_loop,
}
use graph_agent_dev_kit.Tree.Valid.{IsTree}
use graph_agent_dev_kit.Agent.Loop.Alive.{DrawsIds, Fresh, append_all-Draws}
use graph_agent_dev_kit.Agent.Loop.Running.{NotEndless, rounds-NotEndless}
use graph_agent_dev_kit.Agent.Loop.Capped.{
  Capped, CappedSystem, CappedAll, CappedNodes, prepare_messages-Capped,
}
use graph_agent_dev_kit.Agent.Loop.Kept.{
  flatten_branch-CappedAll, append_message-Keeps, append_all-Keeps,
}
use graph_agent_dev_kit.Agent.Loop.Compacted.{try_compact-Capped}
use graph_agent_dev_kit.Agent.Loop.Fetched.{ExtractsCapped, resolve_files-Capped}

results-Capped :
    (M : ℕ) (rs : List ToolResultContent)
    → CappedSystem M (map (λ r. SystemContent.tool_result r) rs)
results-Capped M [] = tt
results-Capped M (r ∷ rs) = results-Capped M rs

result_message-Capped : (M : ℕ) (rs : List ToolResult) → Capped M (result_message rs)
unfolding result_message new_tool_result_message
result_message-Capped M rs = results-Capped M (map result_content rs)

-- What the aggregator builds holds no settings.
message-Capped : (M : ℕ) (a : Aggregator) (m : Message) → message a ≡ some m → Capped M m
unfolding message
message-Capped M a m e = go (final_blocks a) e
  where
    go :
        (bs : List AssistantContent)
        → elim bs [ [] ↦ none | b ∷ more ↦ some (assistant (b ∷ more)) ] ≡ some m
        → Capped M m
    go [] q = absurd (cc q)
    go (b ∷ bs) q = subst (λ o. elim o [ none ↦ Unit {0} | some x ↦ Capped M x ]) q tt

-- The fuel was enough.
abbrev Ended : {W : Type 0} → Run W → Type 0
Ended (returned s) = Unit {0}
Ended (endless s) = Unit {0}
Ended crashed = Unit {0}
Ended no_fuel = ⊥

-- The run returned, or a panic ended it: the fuel was enough, and no climb was without end.
abbrev pub ReturnsOrPanics : {W : Type 0} → Run W → Type 0
ReturnsOrPanics (returned s) = Unit {0}
ReturnsOrPanics (endless s) = ⊥
ReturnsOrPanics crashed = Unit {0}
ReturnsOrPanics no_fuel = ⊥

-- A counter that has not reached a cap is below every number that has.
below_cap : (iter M : ℕ) (z : ℤ) → ge_int iter z ≡ false → ge_int M z ≡ true → iter < M
below_cap iter M (pos m) e q = ground (arith, e, q)
below_cap iter M (negsuc m) e q = absurd (cc e)

module _ (M : ℕ) {W : Type 0} ⦃log : Wal W⦄ (env : Env) where
  -- A turn that goes on leaves a capped tree.
  abbrev CappedTurn : Turn W → Type 0
  CappedTurn (stopped s) = Unit {0}
  CappedTurn (again s) = CappedNodes M s.tree.nodes
  CappedTurn (hangs s) = Unit {0}
  CappedTurn panicking = Unit {0}

  no_history-Capped :
      (e : Error) (s : LoopState W)
      → (CappedTurn (no_history env e s)) × ((u : LoopState W) → no_history env e s ≢ again u)
  unfolding no_history
  no_history-Capped e s = elim (Bool-cases (is_panic e)) [
    | inl p ↦ rw p (tt, λ u q. cc q)
    | inr np ↦ elim (Bool-cases (is_endless e)) [
      | inl d ↦ rw (np, d) (tt, λ u q. cc q)
      | inr nd ↦ rw (np, nd) (tt, λ u q. cc q)
    ]
  ]

  go_on-Capped :
      (s : LoopState W) (next : LoopState W → Turn W) (r : Result Error Node × Tree W)
      → CappedNodes M r.1.nodes
      → ((u : LoopState W) → CappedNodes M u.tree.nodes → CappedTurn (next u))
      → CappedTurn (go_on env s next r)
  go_on-Capped s next (ok n, t) c h = h (record s { tree = t; drawn = suc s.drawn }) c
  go_on-Capped s next (err e, t) c h = tt

  appended-Capped :
      (msg : Message) (next : LoopState W → Turn W) (s : LoopState W)
      → Capped M msg
      → CappedNodes M s.tree.nodes
      → ((u : LoopState W) → CappedNodes M u.tree.nodes → CappedTurn (next u))
      → CappedTurn (appended env msg next s)
  appended-Capped msg next s m c h =
      go_on-Capped s next (append_message s.branch msg (env.ids s.drawn) (env.clock s.drawn) s.tree)
        (append_message-Keeps M s.branch msg (env.ids s.drawn) (env.clock s.drawn) m s.tree c) h

  run_tools-Capped :
      (tcs : List ToolUseContent) (s : LoopState W)
      → CappedNodes M s.tree.nodes
      → CappedTurn (run_tools env tcs s)
  unfolding run_tools
  run_tools-Capped [] s c = tt
  run_tools-Capped (tc ∷ tcs) s c =
      appended-Capped (result_message (execute_tools env.tools (tc ∷ tcs)).0) again _
        (result_message-Capped M (execute_tools env.tools (tc ∷ tcs)).0) c (λ u d. d)

  take_message-Capped :
      (m : Option Message) (s : LoopState W)
      → ((x : Message) → m ≡ some x → Capped M x)
      → CappedNodes M s.tree.nodes
      → CappedTurn (take_message env m s)
  unfolding take_message
  take_message-Capped none s h c = tt
  take_message-Capped (some msg) s h c =
      appended-Capped msg (run_tools env (calls_of msg)) s (h msg refl) c
        (run_tools-Capped (calls_of msg))

  take_answer-Capped :
      (iter : ℕ) (r : Result Error (List Delta)) (s : LoopState W)
      → CappedNodes M s.tree.nodes
      → CappedTurn (take_answer env iter r s)
  unfolding take_answer
  take_answer-Capped iter (err e) s c = tt
  take_answer-Capped iter (ok ds) s c =
      take_message-Capped (message (push_all new_aggregator (not_usage ds))) _
        (message-Capped M (push_all new_aggregator (not_usage ds))) c

  after_compaction-Capped :
      (iter : ℕ) (llm : List Message) (s : LoopState W) (r : Compaction × Tree W)
      → CappedNodes M r.1.nodes
      → CappedTurn (after_compaction env iter llm s r)
  unfolding after_compaction
  after_compaction-Capped iter llm s (broken, t) c = tt
  after_compaction-Capped iter llm s (moved_to b, t) c = c
  after_compaction-Capped iter llm s (not_compacted, t) c =
      take_answer-Capped iter (call_provider env iter llm) _ c

  rounds-turned :
      (f iter : ℕ) (s : LoopState W) (turn : Turn W)
      → round env iter s ≡ turn
      → CappedTurn (round env iter s)
      → ((u : LoopState W)
          → round env iter s ≡ again u
          → CappedNodes M u.tree.nodes
          → Ended (rounds env f (suc iter) u))
      → Ended (rounds env (suc f) iter s)
  unfolding rounds
  rounds-turned f iter s (stopped u) e c h = rw (e, rounds) tt
  rounds-turned f iter s (again u) e c h = rw (e, rounds) (h u e (subst CappedTurn e c))
  rounds-turned f iter s (hangs u) e c h = rw (e, rounds) tt
  rounds-turned f iter s panicking e c h = rw (e, rounds) tt

  module _ (low : ge_int M env.max_iter ≡ true) (x : ExtractsCapped M env) where
    -- A round on a capped history stops, or goes on below the cap with a capped tree.
    round_on-Capped :
        (iter : ℕ) (s : LoopState W) (messages : List Message)
        → CappedAll M messages
        → CappedNodes M s.tree.nodes
        → (CappedTurn (round_on env iter s messages))
          × ((u : LoopState W) → round_on env iter s messages ≡ again u → iter < M)
    unfolding round_on initial_config
    round_on-Capped iter s messages c d =
        let rc = initial_config env.max_iter env.compact_cfg in
        let (below, kept) = prepare_messages-Capped M rc messages low c in
        let llm = resolve_files env (prepare_messages rc messages).1 in
        let resolved = (prepare_messages rc messages).0 in
        let llm_capped = resolve_files-Capped M env x (prepare_messages rc messages).1 kept in
        elim (Bool-cases (ge_int iter resolved.max_iter)) [
          | inl reached ↦ rw reached (tt, λ u e. absurd (cc e))
          | inr more ↦ rw more (
            after_compaction-Capped iter llm s (try_compact env iter resolved llm s.drawn s.tree)
                (try_compact-Capped M env iter resolved llm s.drawn s.tree llm_capped d),
            λ u e. below_cap iter M resolved.max_iter more below,
          )
        ]

    round-Capped :
        (iter : ℕ) (s : LoopState W)
        → CappedNodes M s.tree.nodes
        → (CappedTurn (round env iter s))
          × ((u : LoopState W) → round env iter s ≡ again u → iter < M)
    unfolding round
    round-Capped iter s c = elim (Bool-cases (env.cancelled iter)) [
      | inl gone ↦ rw gone (tt, λ u e. absurd (cc e))
      | inr alive ↦ elim (Result-cases (flatten_branch s.branch s.tree)) [
        | inl (ms, e) ↦
            rw (alive, e, round)
              (round_on-Capped iter s ms (flatten_branch-CappedAll M s.branch s.tree ms c e) c)
        | inr (f, e) ↦
            let (kept, not_again) = no_history-Capped f s in
            rw (alive, e, round) (kept, λ u q. absurd (not_again u q))
      ]
    ]

    -- The rounds that are left below the cap, and one more, are enough.
    rounds-Ended :
        (f iter : ℕ) (s : LoopState W)
        → iter ≤ M
        → M < iter + f
        → CappedNodes M s.tree.nodes
        → Ended (rounds env f iter s)
    rounds-Ended zero iter s le lt c = absurd (omega arith)
    rounds-Ended (suc f) iter s le lt c =
        let turn = round-Capped iter s c in
        rounds-turned f iter s (round env iter s) refl turn.0
          (λ u e. rounds-Ended f (suc iter) u (omega (arith, turn.1 u e)) (omega arith))

    finish-ReturnsOrPanics : (r : Run W) → Ended r → NotEndless r → ReturnsOrPanics (finish env r)
    finish-ReturnsOrPanics (returned s) h l = tt
    finish-ReturnsOrPanics (endless s) h l = l
    finish-ReturnsOrPanics crashed h l = tt
    finish-ReturnsOrPanics no_fuel h l = h

    -- On a well-formed tree, where the ids that are drawn are not empty, differ from each other
    -- and are not in use, the agent loop returns or panics within M + 1 rounds, where M is a
    -- number that the configured iteration cap and every MaxIter setting in the tree and in the
    -- input do not exceed and no extractor's output exceeds either: with that fuel run_loop
    -- neither runs out of it nor climbs in FlattenBranch without end, whatever the provider, the
    -- tools and the compactor answer.
    pub run_loop-ends :
        (input : List Message) (s : LoopState W) (ids : DrawsIds env)
        → CappedAll M input
        → CappedNodes M s.tree.nodes
        → IsTree s.tree
        → Fresh env ids s.drawn s.tree.nodes
        → ReturnsOrPanics (run_loop env (suc M) input s)
    unfolding run_loop start_rounds
    run_loop-ends input s ids c d tree fresh =
        let kept = append_all-Keeps M env s.branch input s.drawn c s.tree d in
        let live =
          append_all-Draws env ids s.branch input s.drawn (s.drawn + length input) refl s.tree
            (tree, fresh) in
        let start : LoopState W = record s {
          tree = (append_all env s.branch input s.drawn s.tree).1;
          drawn = s.drawn + length input;
        } in
        elim (Result-cases (append_all env s.branch input s.drawn s.tree).0) [
          | inl (y, e) ↦
              rw (e, start_rounds)
                (finish-ReturnsOrPanics (rounds env (suc M) 0 start)
                  (rounds-Ended (suc M) 0 start (omega arith) (omega arith) kept)
                  (rounds-NotEndless env ids (suc M) 0 start live))
          | inr (f, e) ↦ rw (e, start_rounds) tt
        ]
