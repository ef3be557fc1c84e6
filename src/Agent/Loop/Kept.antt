-- ===== src/Agent/Loop/Kept.antt =====
-- About the writes of agent/agent.go to the tree, and what FlattenBranch reads back: the iteration
-- caps in the messages.
use graph_agent_dev_kit.Common.{
  ℕ, suc, String, List, [], ◌∷◌, Result, ok, err, Exec, ◌>>=◌, reading, pure, Result-cases,
  Option-cases, inl, inr, ◌≡◌, refl, subst,
}
use graph_agent_dev_kit.Common.Dict.{Dict, get}
use graph_agent_dev_kit.Types.Content.{Message}
use graph_agent_dev_kit.Types.Errors.{Error}
use graph_agent_dev_kit.Types.Node.{Node, NodeState, archived}
use graph_agent_dev_kit.Types.Wal.{Wal}
use graph_agent_dev_kit.Tree.State.{Tree, link, attach, open_parent}
use graph_agent_dev_kit.Tree.Grow.{add_child, branch, set_active, persist}
use graph_agent_dev_kit.Tree.Paths.{
  tip, path, flatten, flatten_branch, branch_tip, visible_messages, shown,
}
use graph_agent_dev_kit.Tree.Growth.{persist_cases}
use graph_agent_dev_kit.Agent.Env.{Env}
use graph_agent_dev_kit.Agent.Branching.{
  append_message, append_all, append_kept, wrapping, persist_compacted, root_of,
}
use graph_agent_dev_kit.Agent.Loop.Capped.{Capped, CappedAll, CappedNodes, CappedNodes-put}

module _ (M : ℕ) where
  visible-CappedAll :
      (nodes : Dict Node) (ids : List String) (ms : List Message)
      → CappedNodes M nodes
      → visible_messages nodes ids ≡ ok ms
      → CappedAll M ms
  unfolding visible_messages
  visible-CappedAll nodes [] ms c e =
      subst (λ r. elim r [ ok l ↦ CappedAll M l | err x ↦ Unit {0} ]) e tt
  visible-CappedAll nodes (id ∷ ids) ms c e = elim (Option-cases (get nodes id)) [
    | inl q ↦ absurd (cc (rw (q, visible_messages) at e))
    | inr (n, q) ↦ elim (Result-cases (visible_messages nodes ids)) [
      | inl (rest, p) ↦
          let all : ◌≡◌ {A = Result Error (List Message)} (ok (shown n rest)) (ok ms) =
            rw (q, visible_messages, p) at e in
          let same : shown n rest ≡ ms = cc all in
          subst (CappedAll M) same
            (go n rest (c id n q) (visible-CappedAll nodes ids rest c p) n.state refl)
      | inr (x, p) ↦ absurd (cc (rw (q, visible_messages, p) at e))
    ]
  ]
    where
      go :
          (n : Node) (rest : List Message)
          → Capped M n.message
          → CappedAll M rest
          → (s : NodeState) → n.state ≡ s
          → CappedAll M (shown n rest)
      go n rest c d archived e = rw e d
      go n rest c d NodeState.active e = rw e (c, d)
      go n rest c d NodeState.compacted e = rw e (c, d)
      go n rest c d NodeState.feedback e = rw e (c, d)

  module _ {W : Type 0} where
    pub flatten_branch-CappedAll :
        (b : String) (t : Tree W) (ms : List Message)
        → CappedNodes M t.nodes
        → flatten_branch b t ≡ ok ms
        → CappedAll M ms
    unfolding flatten_branch flatten
    flatten_branch-CappedAll b t ms c e = elim (Result-cases (branch_tip b t)) [
      | inl (k, q) ↦ elim (Result-cases (path k t)) [
        | inl (ids, p) ↦ visible-CappedAll t.nodes ids ms c (rw (q, p) at e)
        | inr (x, p) ↦ absurd (cc (rw (q, p) at e))
      ]
      | inr (x, q) ↦ absurd (cc (rw q at e))
    ]

    -- A method that keeps the messages of the tree capped.
    abbrev pub Keeps : {A : Type 0} → Exec (Tree W) Error A → Type 0
    Keeps f = (t : Tree W) → CappedNodes M t.nodes → CappedNodes M (f t).1.nodes

    then-Keeps :
        {A B : Type 0} (f : Exec (Tree W) Error A) (g : A → Exec (Tree W) Error B)
        → Keeps f
        → ((a : A) → Keeps (g a))
        → Keeps (f >>= g)
    then-Keeps f g k h t c = elim (Result-cases (f t).0) [
      | inl (a, e) ↦ rw (e, ◌>>=◌) (h a (f t).1 (k t c))
      | inr (x, e) ↦ rw (e, ◌>>=◌) (k t c)
    ]

    set_active-Keeps : (b : String) → Keeps (set_active b)
    set_active-Keeps b t c = elim (Option-cases (get t.branches b)) [
      | inl e ↦ unfold set_active in rw (e, set_active) c
      | inr (k, e) ↦ unfold set_active in rw (e, set_active) c
    ]

  module _ {W : Type 0} ⦃log : Wal W⦄ where
    persist-Keeps : (child : Node) → Capped M child.message → Keeps {W = W} (persist child)
    unfolding link attach
    persist-Keeps child m t c =
        persist_cases (λ r. CappedNodes M r.1.nodes) child t (λ e w. c)
          (λ w. CappedNodes-put M t.nodes child.id child c m)

    add_child-Keeps :
        (parent_id : String) (msg : Message) (id : String) (now : ℕ)
        → Capped M msg
        → Keeps {W = W} (add_child parent_id msg id now)
    unfolding add_child
    add_child-Keeps parent_id msg id now m = then-Keeps _ _ (λ t c. c) (λ p. persist-Keeps _ m)

    branch-Keeps :
        (from_id name : String) (msg : Message) (branch_uuid id : String) (now : ℕ)
        → Capped M msg
        → Keeps {W = W} (branch from_id name msg branch_uuid id now)
    branch-Keeps from_id name msg branch_uuid id now m t c =
        elim (Result-cases (open_parent from_id t)) [
          | inl (p, e) ↦
              unfold branch in
              rw e (then-Keeps (persist _) (λ n. pure (_, n)) (persist-Keeps _ m) (λ n u d. d) t c)
          | inr (x, e) ↦ unfold branch in rw e c
        ]

    pub append_message-Keeps :
        (b : String) (msg : Message) (id : String) (now : ℕ)
        → Capped M msg
        → Keeps {W = W} (append_message b msg id now)
    unfolding append_message
    append_message-Keeps b msg id now m =
        then-Keeps _ _ (λ t c. c) (λ n. add_child-Keeps n.id msg id now m)

    wrapped-Keeps :
        {A : Type 0} (d : String) (f : Exec (Tree W) Error A)
        → Keeps f
        → Keeps (λ t. wrapping d (f t))
    wrapped-Keeps d f k t c = elim (Result-cases (f t).0) [
      | inl (a, e) ↦ rw (e, wrapping) (k t c)
      | inr (x, e) ↦ rw (e, wrapping) (k t c)
    ]

    module _ (env : Env) where
      pub append_all-Keeps :
          (b : String) (ms : List Message) (i : ℕ)
          → CappedAll M ms
          → Keeps {W = W} (append_all env b ms i)
      unfolding append_all
      append_all-Keeps b [] i c = λ t d. d
      append_all-Keeps b (m ∷ ms) i c =
          then-Keeps (append_message b m (env.ids i) (env.clock i))
            (λ n. append_all env b ms (suc i))
            (append_message-Keeps b m (env.ids i) (env.clock i) c.0)
            (λ n. append_all-Keeps b ms (suc i) c.1)

      append_kept-Keeps :
          (b : String) (ms : List Message) (i : ℕ)
          → CappedAll M ms
          → Keeps {W = W} (append_kept env b ms i)
      unfolding append_kept
      append_kept-Keeps b [] i c = λ t d. d
      append_kept-Keeps b (m ∷ ms) i c =
          then-Keeps (λ s. wrapping "tip lookup" (tip b s, s)) _
            (wrapped-Keeps "tip lookup" (reading (tip b)) (λ t d. d))
            (λ n.
              then-Keeps
                (λ s. wrapping "add compacted child" (add_child n.id m (env.ids i) (env.clock i) s))
                (λ child. append_kept env b ms (suc i))
                (wrapped-Keeps "add compacted child" (add_child n.id m (env.ids i) (env.clock i))
                  (add_child-Keeps n.id m (env.ids i) (env.clock i) c.0))
                (λ child. append_kept-Keeps b ms (suc i) c.1))

      pub persist_compacted-Keeps :
          (ms : List Message) (i : ℕ) → CappedAll M ms → Keeps {W = W} (persist_compacted env ms i)
      unfolding persist_compacted
      persist_compacted-Keeps [] i c = λ t d. d
      persist_compacted-Keeps (m ∷ []) i c = λ t d. d
      persist_compacted-Keeps (m ∷ summary ∷ kept) i c =
          then-Keeps (reading (root_of env)) _ (λ t d. d)
            (λ root.
              then-Keeps
                (λ s.
                  wrapping "branch from root" (
                    branch root.id "compact" summary (env.ids i) (env.ids (suc i)) (env.clock i) s))
                _
                (wrapped-Keeps "branch from root"
                  (branch root.id "compact" summary (env.ids i) (env.ids (suc i)) (env.clock i))
                  (branch-Keeps root.id "compact" summary (env.ids i) (env.ids (suc i))
                    (env.clock i) c.1.0))
                (λ made.
                  then-Keeps (append_kept env made.0 kept (suc (suc i))) _
                    (append_kept-Keeps made.0 kept (suc (suc i)) c.1.1)
                    (λ added.
                      then-Keeps (λ s. wrapping "set active" (set_active made.0 s))
                        (λ switched. pure made.0)
                        (wrapped-Keeps "set active" (set_active made.0) (set_active-Keeps made.0))
                        (λ switched t d. d))))
