-- ===== src/Agent/Branching.antt =====
-- agent/agent.go: how the loop writes to the tree (the pair of Tip and AddChild), persistCompacted
-- and tryCompact.
pub mod Append
use graph_agent_dev_kit.Common.{
  ℕ, suc, ◌+◌, String, Option, none, some, List, [], ◌∷◌, length, leb, Result, ok, err, Exec, ◌>>=◌,
  reading, pure, raise, if◌then◌else◌,
}
use graph_agent_dev_kit.Common.Dict.{get}
use graph_agent_dev_kit.Types.Content.{Message}
use graph_agent_dev_kit.Types.Errors.{Error, wrapped, opaque_error, panics, is_panic}
use graph_agent_dev_kit.Types.Node.{Node}
use graph_agent_dev_kit.Types.Wal.{Wal}
use graph_agent_dev_kit.Types.Compactor.{compact}
use graph_agent_dev_kit.Tree.State.{Tree}
use graph_agent_dev_kit.Tree.Grow.{add_child, branch, set_active}
use graph_agent_dev_kit.Tree.Paths.{tip}
use graph_agent_dev_kit.Agent.Prepare.{ResolvedConfig}
use graph_agent_dev_kit.Agent.Env.{Env}

-- fmt.Errorf("…: %w", err)
abbrev pub wrapping : {S A : Type 0} → String → Result Error A × S → Result Error A × S
wrapping d (ok a, s) = (ok a, s)
wrapping d (err e, s) = (err (wrapped d e), s)

-- What tryCompact came to.
pub data Compaction : Type 0 where
  not_compacted : Compaction
  moved_to : String → Compaction
  broken : Compaction

module _ {W : Type 0} ⦃log : Wal W⦄ where
  -- tip, err := tr.Tip(branch); tr.AddChild(ctx, tip.ID, msg)
  unfoldable pub append_message : String → Message → String → ℕ → Exec (Tree W) Error Node
  append_message branch_id msg id now = do n ← reading (tip branch_id); add_child n.id msg id now

  module _ (env : Env) where
    unfoldable pub append_all : String → List Message → ℕ → Exec (Tree W) Error (Unit {0})
    append_all branch_id [] i = pure tt
    append_all branch_id (m ∷ ms) i = do
      n ← append_message branch_id m (env.ids i) (env.clock i)
      append_all branch_id ms (suc i)

    -- The kept messages under the summary, with the errors' texts.
    unfoldable pub append_kept : String → List Message → ℕ → Exec (Tree W) Error (Unit {0})
    append_kept branch_id [] i t = (ok tt, t)
    append_kept branch_id (m ∷ ms) i t =
        (do
          n ← λ s. wrapping "tip lookup" (tip branch_id s, s)
          child ← λ s. wrapping "add compacted child" (add_child n.id m (env.ids i) (env.clock i) s)
          append_kept branch_id ms (suc i))
          t

    unfoldable pub root_of : Tree W → Result Error Node
    root_of t = elim (get t.nodes t.root_id) [ none ↦ err panics | some n ↦ ok n ]

    -- persistCompacted: it draws its ids from the i-th on.
    unfoldable pub persist_compacted : List Message → ℕ → Exec (Tree W) Error String
    unfolding append_kept root_of
    persist_compacted (m ∷ summary ∷ kept) i = do
      root ← reading root_of
      made ← λ s.
          wrapping "branch from root"
            (branch root.id "compact" summary (env.ids i) (env.ids (suc i)) (env.clock i) s)
      added ← append_kept made.0 kept (suc (suc i))
      switched ← λ s. wrapping "set active" (set_active made.0 s)
      pure made.0
    persist_compacted _ i = raise (opaque_error "compacted history too short to branch")

    abbrev pub new_branch : Result Error String × Tree W → Compaction × Tree W
    new_branch (ok b, t) = (moved_to b, t)
    new_branch (err e, t) = (if is_panic e then broken else not_compacted, t)

    unfoldable pub persist_shorter : List Message → List Message → ℕ → Tree W → Compaction × Tree W
    unfolding persist_compacted
    persist_shorter compacted llm i t =
        if leb (length llm) (length compacted)
        then (not_compacted, t)
        else new_branch (persist_compacted compacted i t)

    -- tryCompact: the branch to go on with, if the history was compacted. Errors are only logged; a panic is
    -- none of them.
    unfoldable pub try_compact :
        ℕ → ResolvedConfig → List Message → ℕ → Tree W → Compaction × Tree W
    unfolding persist_shorter
    try_compact iter resolved llm i t = elim resolved.compactor [
      | none ↦ (not_compacted, t)
      | some c ↦ elim (compact c (env.chat iter) llm) [
        | err e ↦ new_branch (err e, t)
        | ok compacted ↦ persist_shorter compacted llm i t
      ]
    ]
