-- ===== src/Agent/Loop/Alive.antt =====
-- About the trees of runLoop of agent/agent.go: they stay well-formed where every id that is drawn is
-- a new one, so no climb of FlattenBranch is without end.
use graph_agent_dev_kit.Common.{
  ℕ, suc, ◌+◌, ◌≤◌, ◌<◌, String, false, none, List, [], ◌∷◌, length, leb, Result, ok, err, Exec,
  ◌∙◌, sym, ◌>>=◌, reading, pure, Result-cases, Option-cases, Bool-cases, inl, inr, ◌≡◌, ◌≢◌, refl,
  subst, arith,
}
use graph_agent_dev_kit.Common.Dict.{Dict, get, put, get-put_ne}
use graph_agent_dev_kit.Types.Content.{Message}
use graph_agent_dev_kit.Types.Errors.{Error, is_endless}
use graph_agent_dev_kit.Types.Node.{Node}
use graph_agent_dev_kit.Types.Wal.{Wal}
use graph_agent_dev_kit.Types.Compactor.{compact}
use graph_agent_dev_kit.Tree.State.{Tree, link, attach, open_parent}
use graph_agent_dev_kit.Tree.Grow.{add_child, branch, set_active, persist}
use graph_agent_dev_kit.Tree.Paths.{tip, flatten_branch, branch_tip}
use graph_agent_dev_kit.Tree.Valid.{IsTree}
use graph_agent_dev_kit.Tree.Growth.{
  persist_cases, add_child-IsTree, branch-IsTree, set_active-IsTree,
}
use graph_agent_dev_kit.Tree.Messages.{flatten-total}
use graph_agent_dev_kit.Agent.Prepare.{ResolvedConfig}
use graph_agent_dev_kit.Agent.Env.{Env}
use graph_agent_dev_kit.Agent.Branching.{
  append_message, append_all, append_kept, wrapping, persist_compacted, root_of, new_branch,
  persist_shorter, try_compact,
}

-- Ids that are not empty, and of which no two are the same.
pub record DrawsIds (env : Env) : Type 0 where
  pub named : (i : ℕ) → env.ids i ≢ ""
  pub apart : (i j : ℕ) → i < j → env.ids i ≢ env.ids j

module _ (env : Env) (ids : DrawsIds env) where
  abbrev pub Fresh : ℕ → Dict Node → Type 0
  Fresh i nodes = (j : ℕ) → i ≤ j → get nodes (env.ids j) ≡ none

  Fresh-put :
      (i : ℕ) (nodes : Dict Node) (n : Node)
      → Fresh i nodes
      → Fresh (suc i) (put nodes (env.ids i) n)
  Fresh-put i nodes n f j le =
      get-put_ne nodes (env.ids i) (env.ids j) n (ids.apart i j (omega arith)) ∙ f j (omega arith)

  module _ {W : Type 0} where
    -- A well-formed tree, in which no id from the i-th on is in use.
    abbrev pub Live : ℕ → Tree W → Type 0
    Live i t = IsTree t × Fresh i t.nodes

    pub Live-later : (i k : ℕ) (t : Tree W) → i ≤ k → Live i t → Live k t
    Live-later i k t le v = (v.0, λ j m. v.1 j (omega arith))

    pub flatten_branch-ends :
        (b : String) (t : Tree W) (e : Error)
        → IsTree t
        → flatten_branch b t ≡ err e
        → is_endless e ≡ false
    unfolding flatten_branch branch_tip
    flatten_branch-ends b t e v h = elim (Option-cases (get t.branches b)) [
      | inl q ↦
          subst
            (λ (x : Result Error (List Message)). elim x [
              | ok y ↦ Unit {0}
              | err z ↦ is_endless z ≡ false
            ])
            (rw (q, branch_tip) at h) refl
      | inr (k, q) ↦
          let tip = v.tips_found b k q in
          let (ms, flat) = flatten-total t k tip.value v tip.found in
          absurd (cc (rw (q, branch_tip, flat) at h))
    ]

    pure-after :
        {A B : Type 0} (P : Tree W → Type 0) (f : Exec (Tree W) Error A) (g : A → B) (t : Tree W)
        → P (f t).1
        → P ((f >>= (λ a. pure (g a))) t).1
    pure-after P f g t p = elim (Result-cases (f t).0) [
      | inl (a, e) ↦ rw (e, ◌>>=◌) p
      | inr (x, e) ↦ rw (e, ◌>>=◌) p
    ]

    -- A method that draws the ids from the i-th to the one before the k-th.
    abbrev pub Draws : {A : Type 0} → ℕ → ℕ → Exec (Tree W) Error A → Type 0
    Draws i k f = (t : Tree W) → Live i t → Live k (f t).1

    then-Draws :
        {A B : Type 0} (i k l : ℕ) (f : Exec (Tree W) Error A) (g : A → Exec (Tree W) Error B)
        → k ≤ l
        → Draws i k f
        → ((a : A) → Draws k l (g a))
        → Draws i l (f >>= g)
    then-Draws i k l f g le d h t v = elim (Result-cases (f t).0) [
      | inl (a, e) ↦ rw (e, ◌>>=◌) (h a (f t).1 (d t v))
      | inr (x, e) ↦ rw (e, ◌>>=◌) (Live-later k l (f t).1 le (d t v))
    ]

  module _ {W : Type 0} ⦃log : Wal W⦄ where
    persist-Fresh :
        (i : ℕ) (child : Node) (t : Tree W)
        → child.id ≡ env.ids i
        → Fresh i t.nodes
        → Fresh (suc i) (persist child t).1.nodes
    unfolding link attach
    persist-Fresh i child t same f =
        persist_cases (λ r. Fresh (suc i) r.1.nodes) child t (λ e w j le. f j (omega arith))
          (λ w.
            subst (λ k. Fresh (suc i) (put t.nodes k child)) (sym same)
              (Fresh-put i t.nodes child f))

    add_child-Draws :
        (parent_id : String) (msg : Message) (i now : ℕ)
        → Draws {W = W} i (suc i) (add_child parent_id msg (env.ids i) now)
    add_child-Draws parent_id msg i now t v = (
      add_child-IsTree parent_id msg (env.ids i) now t v.0 (ids.named i) (v.1 i (omega arith)),
      elim (Result-cases (open_parent parent_id t)) [
        | inl (p, e) ↦ unfold add_child in rw e (persist-Fresh i _ t refl v.1)
        | inr (x, e) ↦ unfold add_child in rw e (λ j le. v.1 j (omega arith))
      ],
    )

    branch-Draws :
        (from_id name : String) (msg : Message) (branch_uuid : String) (i now : ℕ)
        → Draws {W = W} i (suc i) (branch from_id name msg branch_uuid (env.ids i) now)
    branch-Draws from_id name msg branch_uuid i now t v = (
      branch-IsTree from_id name msg branch_uuid (env.ids i) now t v.0 (ids.named i)
          (v.1 i (omega arith)),
      elim (Result-cases (open_parent from_id t)) [
        | inl (p, e) ↦
            unfold branch in
            rw e (
              pure-after (λ u. Fresh (suc i) u.nodes) (persist _) (λ n. (_, n)) t
                (persist-Fresh i _ t refl v.1))
        | inr (x, e) ↦ unfold branch in rw e (λ j le. v.1 j (omega arith))
      ],
    )

    set_active-Draws : (b : String) (i : ℕ) → Draws {W = W} i i (set_active b)
    set_active-Draws b i t v = (
      set_active-IsTree b t v.0,
      elim (Option-cases (get t.branches b)) [
        | inl e ↦ unfold set_active in rw (e, set_active) v.1
        | inr (k, e) ↦ unfold set_active in rw (e, set_active) v.1
      ],
    )

    pub append_message-Draws :
        (b : String) (msg : Message) (i now : ℕ)
        → Draws {W = W} i (suc i) (append_message b msg (env.ids i) now)
    unfolding append_message
    append_message-Draws b msg i now =
        then-Draws i i (suc i) (reading (tip b)) (λ n. add_child n.id msg (env.ids i) now)
          (omega arith) (λ t v. v) (λ n. add_child-Draws n.id msg i now)

    wrapped-Draws :
        {A : Type 0} (i k : ℕ) (d : String) (f : Exec (Tree W) Error A)
        → Draws i k f
        → Draws i k (λ t. wrapping d (f t))
    wrapped-Draws i k d f h t v = elim (Result-cases (f t).0) [
      | inl (a, e) ↦ rw (e, wrapping) (h t v)
      | inr (x, e) ↦ rw (e, wrapping) (h t v)
    ]

    pub append_all-Draws :
        (b : String) (ms : List Message) (i k : ℕ)
        → i + length ms ≡ k
        → Draws {W = W} i k (append_all env b ms i)
    unfolding append_all
    append_all-Draws b [] i k q = λ t v. Live-later i k t (omega (arith, q)) v
    append_all-Draws b (m ∷ ms) i k q =
        then-Draws i (suc i) k (append_message b m (env.ids i) (env.clock i))
          (λ n. append_all env b ms (suc i)) (omega (arith, q))
          (append_message-Draws b m i (env.clock i))
          (λ n. append_all-Draws b ms (suc i) k (omega (arith, q)))

    append_kept-Draws :
        (b : String) (ms : List Message) (i k : ℕ)
        → i + length ms ≤ k
        → Draws {W = W} i k (append_kept env b ms i)
    unfolding append_kept
    append_kept-Draws b [] i k q = λ t v. Live-later i k t (omega (arith, q)) v
    append_kept-Draws b (m ∷ ms) i k q =
        then-Draws i i k (λ s. wrapping "tip lookup" (tip b s, s)) _ (omega (arith, q))
          (wrapped-Draws i i "tip lookup" (reading (tip b)) (λ t v. v))
          (λ n.
            then-Draws i (suc i) k
              (λ s. wrapping "add compacted child" (add_child n.id m (env.ids i) (env.clock i) s))
              (λ child. append_kept env b ms (suc i)) (omega (arith, q))
              (wrapped-Draws i (suc i) "add compacted child"
                (add_child n.id m (env.ids i) (env.clock i))
                (add_child-Draws n.id m i (env.clock i)))
              (λ child. append_kept-Draws b ms (suc i) k (omega (arith, q))))

    persist_compacted-Draws :
        (ms : List Message) (i k : ℕ)
        → i + length ms ≤ k
        → Draws {W = W} i k (persist_compacted env ms i)
    unfolding persist_compacted
    persist_compacted-Draws [] i k q = λ t v. Live-later i k t (omega (arith, q)) v
    persist_compacted-Draws (m ∷ []) i k q = λ t v. Live-later i k t (omega (arith, q)) v
    persist_compacted-Draws (m ∷ summary ∷ kept) i k q =
        then-Draws i (suc i) k (reading (root_of env)) _ (omega (arith, q))
          (λ t v. Live-later i (suc i) t (omega arith) v)
          (λ root.
            then-Draws (suc i) (suc (suc i)) k
              (λ s.
                wrapping "branch from root"
                  (branch root.id "compact" summary (env.ids i) (env.ids (suc i)) (env.clock i) s))
              _ (omega (arith, q))
              (wrapped-Draws (suc i) (suc (suc i)) "branch from root"
                (branch root.id "compact" summary (env.ids i) (env.ids (suc i)) (env.clock i))
                (branch-Draws root.id "compact" summary (env.ids i) (suc i) (env.clock i)))
              (λ made.
                then-Draws (suc (suc i)) k k (append_kept env made.0 kept (suc (suc i))) _
                  (omega arith) (append_kept-Draws made.0 kept (suc (suc i)) k (omega (arith, q)))
                  (λ added.
                    then-Draws k k k (λ s. wrapping "set active" (set_active made.0 s))
                      (λ switched. pure made.0) (omega arith)
                      (wrapped-Draws k k "set active" (set_active made.0)
                        (set_active-Draws made.0 k))
                      (λ switched t v. v))))

    persist_shorter-Live :
        (compacted llm : List Message) (i : ℕ) (t : Tree W)
        → Live i t
        → Live (i + length llm) (persist_shorter env compacted llm i t).1
    unfolding persist_shorter
    persist_shorter-Live compacted llm i t v =
        elim (Bool-cases (leb (length llm) (length compacted))) [
          | inl long ↦ rw long (Live-later i (i + length llm) t (omega arith) v)
          | inr short ↦
              let fits : i + length compacted ≤ i + length llm = ground arith in
              let after = persist_compacted-Draws compacted i (i + length llm) fits t v in
              elim (Result-cases (persist_compacted env compacted i t).0) [
                | inl (b, e) ↦ rw (short, e, new_branch) after
                | inr (x, e) ↦ rw (short, e, new_branch) after
              ]
        ]

    pub try_compact-Live :
        (iter : ℕ) (rc : ResolvedConfig) (llm : List Message) (i : ℕ) (t : Tree W)
        → Live i t
        → Live (i + length llm) (try_compact env iter rc llm i t).1
    unfolding try_compact
    try_compact-Live iter rc llm i t v =
        let same = Live-later i (i + length llm) t (omega arith) v in
        elim (Option-cases rc.compactor) [
          | inl e ↦ rw (e, try_compact) same
          | inr (k, e) ↦ elim (Result-cases (compact k (env.chat iter) llm)) [
            | inl (out, q) ↦ rw (e, try_compact, q) (persist_shorter-Live out llm i t v)
            | inr (x, q) ↦ rw (e, try_compact, q) same
          ]
        ]
