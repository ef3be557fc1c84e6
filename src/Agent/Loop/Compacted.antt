-- ===== src/Agent/Loop/Compacted.antt =====
-- About tryCompact of agent/agent.go and the compactors: the iteration caps in the messages.
use graph_agent_dev_kit.Common.{
  ℕ, ◌+◌, List, [], ◌∷◌, drop, take, length, leb, Result, ok, err, Result-cases, Option-cases,
  Bool-cases, inl, inr, subst, ◌-◌,
}
use graph_agent_dev_kit.Common.Int.{ℤ, pos, negsuc, le_int}
use graph_agent_dev_kit.Types.Content.{Message, new_user_message}
use graph_agent_dev_kit.Types.Errors.{Error}
use graph_agent_dev_kit.Types.Wal.{Wal}
use graph_agent_dev_kit.Types.Delta.{Chat}
use graph_agent_dev_kit.Types.Compactor.{
  Compactor, noop_compactor, sliding_window_compactor, summarize_compactor, compact, slide,
  summarise, summary_request, min_nat, summarise_with, head_and_tail, window_cut,
}
use graph_agent_dev_kit.Tree.State.{Tree}
use graph_agent_dev_kit.Agent.Prepare.{ResolvedConfig}
use graph_agent_dev_kit.Agent.Env.{Env}
use graph_agent_dev_kit.Agent.Branching.{
  try_compact, new_branch, persist_shorter, persist_compacted,
}
use graph_agent_dev_kit.Agent.Loop.Capped.{CappedAll, CappedNodes, CappedAll-drop}
use graph_agent_dev_kit.Agent.Loop.Kept.{persist_compacted-Keeps}

module _ (M : ℕ) where
  -- What a compactor that returned gave, if it did.
  abbrev CappedResult : Result Error (List Message) → Type 0
  CappedResult (ok ms) = CappedAll M ms
  CappedResult (err e) = Unit {0}

  head_and_tail-Capped :
      (cut : ℕ) (ms : List Message) → CappedAll M ms → CappedResult (head_and_tail cut ms)
  unfolding head_and_tail
  head_and_tail-Capped cut [] c = tt
  head_and_tail-Capped cut (m ∷ ms) c = (c.0, CappedAll-drop M cut (m ∷ ms) c)

  slide-Capped : (size : ℤ) (ms : List Message) → CappedAll M ms → CappedResult (slide size ms)
  unfolding slide
  slide-Capped (pos size) ms c = elim (Bool-cases (leb (length ms) (size + 1))) [
    | inl short ↦ rw short c
    | inr long ↦ elim (Bool-cases (leb (window_cut size ms) 0)) [
      | inl whole ↦ rw (long, whole) c
      | inr part ↦ rw (long, part) (head_and_tail-Capped (window_cut size ms) ms c)
    ]
  ]
  slide-Capped (negsuc k) ms c = elim (Bool-cases (leb (length ms + k) 0)) [
    | inl short ↦ rw short c
    | inr long ↦ rw long tt
  ]

  summarise_with-Capped :
      (chat : Chat) (m : Message) (middle kept all : List Message)
      → CappedAll M (m ∷ kept)
      → CappedAll M all
      → CappedAll M (summarise_with chat m middle kept all)
  unfolding summarise_with new_user_message
  summarise_with-Capped chat m [] kept all c d = d
  summarise_with-Capped chat m (x ∷ xs) kept all c d =
      elim (Result-cases (chat (summary_request (x ∷ xs)) [])) [
        | inl (ds, e) ↦ rw (e, summarise_with) (c.0, (tt, c.1))
        | inr (f, e) ↦ rw (e, summarise_with) d
      ]

  summarise-Capped :
      (chat : Chat) (threshold : ℤ) (keep_last : ℕ) (ms : List Message)
      → CappedAll M ms
      → CappedResult (summarise chat threshold keep_last ms)
  unfolding summarise
  summarise-Capped chat threshold keep_last [] c = elim (Bool-cases (le_int 0 threshold)) [
    | inl small ↦ rw small tt
    | inr large ↦ rw large tt
  ]
  summarise-Capped chat threshold keep_last (m ∷ ms) c =
      elim (Bool-cases (le_int (length (m ∷ ms)) threshold)) [
        | inl small ↦ rw small c
        | inr large ↦
            let cut = length ms - min_nat keep_last (length ms) in
            rw large (
              summarise_with-Capped chat m (take cut ms) (drop cut ms) (m ∷ ms)
                (c.0, CappedAll-drop M cut ms c.1) c)
      ]

  compact-Capped :
      (k : Compactor) (chat : Chat) (ms : List Message)
      → CappedAll M ms
      → CappedResult (compact k chat ms)
  unfolding compact
  compact-Capped noop_compactor chat ms c = c
  compact-Capped (sliding_window_compactor size) chat ms c = slide-Capped size ms c
  compact-Capped (summarize_compactor threshold keep_last) chat ms c =
      summarise-Capped chat threshold keep_last ms c

  module _ {W : Type 0} ⦃log : Wal W⦄ (env : Env) where
    persist_shorter-Capped :
        (compacted llm : List Message) (i : ℕ) (t : Tree W)
        → CappedAll M compacted
        → CappedNodes M t.nodes
        → CappedNodes M (persist_shorter env compacted llm i t).1.nodes
    unfolding persist_shorter
    persist_shorter-Capped compacted llm i t c d =
        elim (Bool-cases (leb (length llm) (length compacted))) [
          | inl long ↦ rw long d
          | inr short ↦ elim (Result-cases (persist_compacted env compacted i t).0) [
            | inl (b, e) ↦
                rw (short, e, new_branch) (persist_compacted-Keeps M env compacted i c t d)
            | inr (x, e) ↦
                rw (short, e, new_branch) (persist_compacted-Keeps M env compacted i c t d)
          ]
        ]

    pub try_compact-Capped :
        (iter : ℕ) (rc : ResolvedConfig) (llm : List Message) (i : ℕ) (t : Tree W)
        → CappedAll M llm
        → CappedNodes M t.nodes
        → CappedNodes M (try_compact env iter rc llm i t).1.nodes
    unfolding try_compact
    try_compact-Capped iter rc llm i t c d = elim (Option-cases rc.compactor) [
      | inl e ↦ rw (e, try_compact) d
      | inr (k, e) ↦ elim (Result-cases (compact k (env.chat iter) llm)) [
        | inl (out, q) ↦
            rw (e, try_compact, q)
              (persist_shorter-Capped out llm i t
                (subst CappedResult q (compact-Capped k (env.chat iter) llm c)) d)
        | inr (x, q) ↦ rw (e, try_compact, q) d
      ]
    ]
