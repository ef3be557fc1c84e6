-- ===== src/Examples/Loops.antt =====
-- The agent loop with a provider that calls a tool in every answer, and a cap of two rounds.
use graph_agent_dev_kit.Common.{
  ne_of_test, ℕ, ◌≤◌, ◌≡◌, refl, ap, ◌∙◌, arith, false, none, List, [], ◌∷◌, ok, refl, ◌<>◌,
}
use graph_agent_dev_kit.Common.Dict.{get, get-put_ne}
use graph_agent_dev_kit.Common.Decimal.{decimal, decimal_inj}
use graph_agent_dev_kit.Common.Int.{pos}
use graph_agent_dev_kit.Types.Content.{SystemContent, new_user_message}
use graph_agent_dev_kit.Types.Delta.{
  Delta, text_start, text_content, text_end, tool_call_start, tool_call_end,
}
use Prim.Native.String.{count}
use text.Mathlib.TextLemmas.{length-append, append_cancel_left}
use graph_agent_dev_kit.Memwal.{MemWal, mem_wal}
use graph_agent_dev_kit.Tree.State.{new}
use graph_agent_dev_kit.Agent.Tools.{plain, ToolEnv}
use graph_agent_dev_kit.Agent.Env.{Env}
use graph_agent_dev_kit.Agent.Loop.{LoopState, run_loop}
use graph_agent_dev_kit.Agent.Loop.Capped.{CappedNodes, CappedNodes-put}
use graph_agent_dev_kit.Agent.Loop.Fetched.{ExtractsCapped}
use graph_agent_dev_kit.Agent.Loop.Ends.{ReturnsOrPanics, run_loop-ends}
use graph_agent_dev_kit.Agent.Loop.Alive.{DrawsIds, Fresh}
use graph_agent_dev_kit.Tree.Valid.{IsTree}
use graph_agent_dev_kit.Tree.History.{new-IsTree}

abbrev clock_tool : ToolEnv
clock_tool = record {
  registry = ("clock", plain (λ args. ("noon", none))) ∷ [];
  resolve = λ tc. none;
  error_text = λ e. "failed";
}

abbrev restless : List Delta
restless =
    text_start
    ∷ text_content "once more"
    ∷ text_end
    ∷ tool_call_start "call" "clock"
    ∷ tool_call_end []
    ∷ []

abbrev looping : Env
looping = record {
  max_iter = pos 2;
  compact_cfg = none;
  tools = clock_tool;
  tool_defs = [];
  chat = λ i ms tools. ok restless;
  schema_chat = λ i. none;
  uri_scheme = λ uri. "";
  resolvers = [];
  extractors = [];
  supports = λ type. false;
  cancelled = λ i. false;
  latency = λ i. 1;
  ids = λ i. "id-" <> decimal i;
  clock = λ i. i;
}

abbrev opened : LoopState MemWal
opened = record {
  tree = new (SystemContent.text "be brief" ∷ []) "r" 0 none;
  branch = "main";
  drawn = 0;
  sent = [];
}

no_extractors : ExtractsCapped 2 looping
unfolding get
no_extractors type extract bytes blocks e q = absurd (cc e)

no_nodes : CappedNodes 2 []
unfolding get
no_nodes k n e = absurd (cc e)

opened_capped : CappedNodes 2 opened.tree.nodes
unfolding new
opened_capped = CappedNodes-put 2 [] "r" _ no_nodes tt

long_id : (i : ℕ) → 3 ≤ count (looping.ids i)
long_id i = let long = length-append "id-" (decimal i) in omega (arith, long)

drawn_ids : DrawsIds looping
drawn_ids = record {
  named = λ i e.
      let short : count (looping.ids i) ≡ 0 = ap count e in
      absurd (omega (arith, long_id i, short));
  apart = λ i j less e.
      let same : i ≡ j = decimal_inj (append_cancel_left "id-" (decimal i) (decimal j) e) in
      absurd (omega (arith, less, same));
}

opened-IsTree : IsTree opened.tree
opened-IsTree = new-IsTree (SystemContent.text "be brief" ∷ []) "r" 0 none (ne_of_test "r" "" refl)

opened-Fresh : Fresh looping drawn_ids 0 opened.tree.nodes
unfolding new
opened-Fresh j le =
    get-put_ne [] "r" (looping.ids j) _ (λ e.
      let short : 1 ≡ count (looping.ids j) = ap count e in
      absurd (omega (arith, long_id j, short)))
    ∙ unfold get in refl

run_loop-ends_example :
    ReturnsOrPanics (run_loop looping 3 (new_user_message "what time is it?" ∷ []) opened)
unfolding new_user_message
run_loop-ends_example =
    run_loop-ends 2 looping refl no_extractors (new_user_message "what time is it?" ∷ []) opened
      drawn_ids (tt, tt) opened_capped opened-IsTree opened-Fresh
