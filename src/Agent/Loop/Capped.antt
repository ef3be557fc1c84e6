-- ===== src/Agent/Loop/Capped.antt =====
-- About prepareMessages of agent/agent.go: messages whose settings do not raise the iteration cap
-- above a number.
use graph_agent_dev_kit.Common.{
  ℕ, zero, suc, String, true, some, List, [], ◌∷◌, ◌++◌, drop, Bool-cases, inl, inr, ◌≡◌, subst,
}
use graph_agent_dev_kit.Common.Dict.{Dict, get, put, get-put_cases}
use graph_agent_dev_kit.Common.Int.{ge_int, is_nonzero}
use graph_agent_dev_kit.Types.Content.{
  Message, system, user, assistant, SystemContent, UserContent, ConfigContent,
}
use graph_agent_dev_kit.Types.Node.{Node}
use graph_agent_dev_kit.Agent.Prepare.{
  ResolvedConfig, merge_config, system_config, system_kept, user_config, user_kept, add_system,
  add_user, prepare_messages,
}

module _ (M : ℕ) where
  abbrev pub CappedConfig : ConfigContent → Type 0
  CappedConfig cc = ge_int M cc.max_iter ≡ true

  abbrev pub CappedSystem : List SystemContent → Type 0
  CappedSystem [] = Unit {0}
  CappedSystem (SystemContent.config cc ∷ cs) = CappedConfig cc × CappedSystem cs
  CappedSystem (SystemContent.text s ∷ cs) = CappedSystem cs
  CappedSystem (SystemContent.tool_result r ∷ cs) = CappedSystem cs

  abbrev pub CappedUser : List UserContent → Type 0
  CappedUser [] = Unit {0}
  CappedUser (UserContent.config cc ∷ cs) = CappedConfig cc × CappedUser cs
  CappedUser (UserContent.text s ∷ cs) = CappedUser cs
  CappedUser (UserContent.tool_result r ∷ cs) = CappedUser cs
  CappedUser (UserContent.file f ∷ cs) = CappedUser cs
  CappedUser (UserContent.feedback f ∷ cs) = CappedUser cs

  abbrev pub Capped : Message → Type 0
  Capped (system cs) = CappedSystem cs
  Capped (user cs) = CappedUser cs
  Capped (assistant cs) = Unit {0}

  abbrev pub CappedAll : List Message → Type 0
  CappedAll [] = Unit {0}
  CappedAll (m ∷ ms) = Capped m × CappedAll ms

  abbrev pub CappedNodes : Dict Node → Type 0
  CappedNodes nodes = (k : String) (n : Node) → get nodes k ≡ some n → Capped n.message

  pub CappedAll-drop : (n : ℕ) (ms : List Message) → CappedAll ms → CappedAll (drop n ms)
  CappedAll-drop zero ms c = c
  CappedAll-drop (suc n) [] c = tt
  CappedAll-drop (suc n) (m ∷ ms) c = CappedAll-drop n ms c.1

  pub CappedUser-append :
      (xs ys : List UserContent) → CappedUser xs → CappedUser ys → CappedUser (xs ++ ys)
  CappedUser-append [] ys c d = d
  CappedUser-append (UserContent.config cc ∷ xs) ys c d = (c.0, CappedUser-append xs ys c.1 d)
  CappedUser-append (UserContent.text s ∷ xs) ys c d = CappedUser-append xs ys c d
  CappedUser-append (UserContent.tool_result r ∷ xs) ys c d = CappedUser-append xs ys c d
  CappedUser-append (UserContent.file f ∷ xs) ys c d = CappedUser-append xs ys c d
  CappedUser-append (UserContent.feedback f ∷ xs) ys c d = CappedUser-append xs ys c d

  pub CappedNodes-put :
      (nodes : Dict Node) (id : String) (n : Node)
      → CappedNodes nodes
      → Capped n.message
      → CappedNodes (put nodes id n)
  CappedNodes-put nodes id n c new k m e = elim (get-put_cases nodes id k n e) [
    | inl (_, same) ↦ subst (λ (x : Node). Capped x.message) same new
    | inr (_, old) ↦ c k m old
  ]

  abbrev Below : ResolvedConfig → Type 0
  Below rc = ge_int M rc.max_iter ≡ true

  merge_config-Below :
      (rc : ResolvedConfig) (cc : ConfigContent)
      → Below rc
      → CappedConfig cc
      → Below (merge_config rc cc)
  unfolding merge_config
  merge_config-Below rc cc b c = elim (Bool-cases (is_nonzero cc.max_iter)) [
    | inl set ↦ rw set c
    | inr unset ↦ rw unset b
  ]

  system_config-Below :
      (rc : ResolvedConfig) (cs : List SystemContent)
      → Below rc
      → CappedSystem cs
      → Below (system_config rc cs)
  unfolding system_config
  system_config-Below rc [] b c = b
  system_config-Below rc (SystemContent.config cc ∷ cs) b c =
      system_config-Below (merge_config rc cc) cs (merge_config-Below rc cc b c.0) c.1
  system_config-Below rc (SystemContent.text s ∷ cs) b c = system_config-Below rc cs b c
  system_config-Below rc (SystemContent.tool_result r ∷ cs) b c = system_config-Below rc cs b c

  user_config-Below :
      (rc : ResolvedConfig) (cs : List UserContent)
      → Below rc
      → CappedUser cs
      → Below (user_config rc cs)
  unfolding user_config
  user_config-Below rc [] b c = b
  user_config-Below rc (UserContent.config cc ∷ cs) b c =
      user_config-Below (merge_config rc cc) cs (merge_config-Below rc cc b c.0) c.1
  user_config-Below rc (UserContent.text s ∷ cs) b c = user_config-Below rc cs b c
  user_config-Below rc (UserContent.tool_result r ∷ cs) b c = user_config-Below rc cs b c
  user_config-Below rc (UserContent.file f ∷ cs) b c = user_config-Below rc cs b c
  user_config-Below rc (UserContent.feedback f ∷ cs) b c = user_config-Below rc cs b c

  system_kept-Capped : (cs : List SystemContent) → CappedSystem cs → CappedSystem (system_kept cs)
  unfolding system_kept
  system_kept-Capped [] c = tt
  system_kept-Capped (SystemContent.config cc ∷ cs) c = system_kept-Capped cs c.1
  system_kept-Capped (SystemContent.text s ∷ cs) c = system_kept-Capped cs c
  system_kept-Capped (SystemContent.tool_result r ∷ cs) c = system_kept-Capped cs c

  user_kept-Capped : (cs : List UserContent) → CappedUser cs → CappedUser (user_kept cs)
  unfolding user_kept
  user_kept-Capped [] c = tt
  user_kept-Capped (UserContent.config cc ∷ cs) c = user_kept-Capped cs c.1
  user_kept-Capped (UserContent.feedback f ∷ cs) c = user_kept-Capped cs c
  user_kept-Capped (UserContent.text s ∷ cs) c = user_kept-Capped cs c
  user_kept-Capped (UserContent.tool_result r ∷ cs) c = user_kept-Capped cs c
  user_kept-Capped (UserContent.file f ∷ cs) c = user_kept-Capped cs c

  add_system-CappedAll :
      (cs : List SystemContent) (out : List Message)
      → CappedSystem cs
      → CappedAll out
      → CappedAll (add_system cs out)
  add_system-CappedAll [] out c d = d
  add_system-CappedAll (x ∷ cs) out c d = (c, d)

  add_user-CappedAll :
      (cs : List UserContent) (out : List Message)
      → CappedUser cs
      → CappedAll out
      → CappedAll (add_user cs out)
  add_user-CappedAll [] out c d = d
  add_user-CappedAll (x ∷ cs) out c d = (c, d)

  -- Preparing capped messages from capped settings resolves a cap that is no higher, and keeps the
  -- messages capped.
  pub prepare_messages-Capped :
      (rc : ResolvedConfig) (ms : List Message)
      → ge_int M rc.max_iter ≡ true
      → CappedAll ms
      → (ge_int M (prepare_messages rc ms).0.max_iter ≡ true) × CappedAll (prepare_messages rc ms).1
  unfolding prepare_messages
  prepare_messages-Capped rc [] b c = (b, tt)
  prepare_messages-Capped rc (system cs ∷ ms) b c =
      let (low, rest) =
        prepare_messages-Capped (system_config rc cs) ms (system_config-Below rc cs b c.0) c.1 in
      (low, add_system-CappedAll (system_kept cs) _ (system_kept-Capped cs c.0) rest)
  prepare_messages-Capped rc (user cs ∷ ms) b c =
      let (low, rest) =
        prepare_messages-Capped (user_config rc cs) ms (user_config-Below rc cs b c.0) c.1 in
      (low, add_user-CappedAll (user_kept cs) _ (user_kept-Capped cs c.0) rest)
  prepare_messages-Capped rc (assistant cs ∷ ms) b c =
      let (low, rest) = prepare_messages-Capped rc ms b c.1 in (low, (tt, rest))
