-- ===== src/Agent/Prepare/Resolved.antt =====
-- What prepareMessages resolves and keeps, over a whole history.
use graph_agent_dev_kit.Common.{
  ◌==◌, Bool, true, false, not, ◌||◌, Option, none, some, List, [], ◌∷◌, ◌++◌, map, if◌then◌else◌,
  Option-cases, subst, inl, inr, ◌≡◌, refl, ap, sym, ◌∙◌, arith,
}
use graph_agent_dev_kit.Common.Int.{is_nonzero}
use graph_agent_dev_kit.Types.Content.{
  Message, system, user, assistant, SystemContent, UserContent, ConfigContent, CompactConfig,
}
use graph_agent_dev_kit.Types.Compactor.{Compactor, to_compactor}
use graph_agent_dev_kit.Agent.Prepare.{
  ResolvedConfig, merge_config, system_config, system_kept, user_config, user_kept, add_system,
  add_user, prepare_messages,
}

-- The settings of a history, in their order.
abbrev pub system_settings : List SystemContent → List ConfigContent
system_settings [] = []
system_settings (SystemContent.config c ∷ cs) = c ∷ system_settings cs
system_settings (SystemContent.text s ∷ cs) = system_settings cs
system_settings (SystemContent.tool_result r ∷ cs) = system_settings cs

abbrev pub user_settings : List UserContent → List ConfigContent
user_settings [] = []
user_settings (UserContent.config c ∷ cs) = c ∷ user_settings cs
user_settings (UserContent.text s ∷ cs) = user_settings cs
user_settings (UserContent.tool_result r ∷ cs) = user_settings cs
user_settings (UserContent.file f ∷ cs) = user_settings cs
user_settings (UserContent.feedback f ∷ cs) = user_settings cs

abbrev pub settings_of : List Message → List ConfigContent
settings_of [] = []
settings_of (system cs ∷ ms) = system_settings cs ++ settings_of ms
settings_of (user cs ∷ ms) = user_settings cs ++ settings_of ms
settings_of (assistant cs ∷ ms) = settings_of ms

-- The last of some values that passes a test, or the one there was.
abbrev pub last_of {ℓ} : {A : Type ℓ} → (A → Bool) → A → List A → A
last_of test old [] = old
last_of test old (x ∷ xs) = last_of test (if test x then x else old) xs

abbrev pub last_compactor : Option Compactor → List (Option CompactConfig) → Option Compactor
last_compactor old [] = old
last_compactor old (none ∷ cs) = last_compactor old cs
last_compactor old (some c ∷ cs) = last_compactor (some (to_compactor c)) cs

abbrev pub any_of : List Bool → Bool
any_of [] = false
any_of (b ∷ bs) = b || any_of bs

-- What a provider is shown of a message.
abbrev pub select {ℓ} : {A : Type ℓ} → (A → Bool) → List A → List A
select test [] = []
select test (x ∷ xs) = let rest = select test xs in if test x then x ∷ rest else rest

abbrev pub system_shown : SystemContent → Bool
system_shown (SystemContent.config c) = false
system_shown (SystemContent.text s) = true
system_shown (SystemContent.tool_result r) = true

abbrev pub user_shown : UserContent → Bool
user_shown (UserContent.config c) = false
user_shown (UserContent.feedback f) = false
user_shown (UserContent.text s) = true
user_shown (UserContent.tool_result r) = true
user_shown (UserContent.file f) = true

abbrev pub shown : Message → Message
shown (system cs) = system (select system_shown cs)
shown (user cs) = user (select user_shown cs)
shown (assistant cs) = assistant cs

abbrev pub is_shown : Message → Bool
is_shown (system []) = false
is_shown (system (c ∷ cs)) = true
is_shown (user []) = false
is_shown (user (c ∷ cs)) = true
is_shown (assistant cs) = true

-- Settings on top of others.
abbrev merge_all : ResolvedConfig → List ConfigContent → ResolvedConfig
merge_all rc [] = rc
merge_all rc (c ∷ cs) = merge_all (merge_config rc c) cs

merge_all-append :
    (rc : ResolvedConfig) (xs ys : List ConfigContent)
    → merge_all rc (xs ++ ys) ≡ merge_all (merge_all rc xs) ys
merge_all-append rc [] ys = refl
merge_all-append rc (x ∷ xs) ys = merge_all-append (merge_config rc x) xs ys

system_config-eq :
    (rc : ResolvedConfig) (cs : List SystemContent)
    → system_config rc cs ≡ merge_all rc (system_settings cs)
unfolding system_config
system_config-eq rc [] = refl
system_config-eq rc (SystemContent.config c ∷ cs) = system_config-eq (merge_config rc c) cs
system_config-eq rc (SystemContent.text s ∷ cs) = system_config-eq rc cs
system_config-eq rc (SystemContent.tool_result r ∷ cs) = system_config-eq rc cs

user_config-eq :
    (rc : ResolvedConfig) (cs : List UserContent)
    → user_config rc cs ≡ merge_all rc (user_settings cs)
unfolding user_config
user_config-eq rc [] = refl
user_config-eq rc (UserContent.config c ∷ cs) = user_config-eq (merge_config rc c) cs
user_config-eq rc (UserContent.text s ∷ cs) = user_config-eq rc cs
user_config-eq rc (UserContent.tool_result r ∷ cs) = user_config-eq rc cs
user_config-eq rc (UserContent.file f ∷ cs) = user_config-eq rc cs
user_config-eq rc (UserContent.feedback f ∷ cs) = user_config-eq rc cs

system_kept-eq : (cs : List SystemContent) → system_kept cs ≡ select system_shown cs
unfolding system_kept
system_kept-eq [] = refl
system_kept-eq (SystemContent.config c ∷ cs) = system_kept-eq cs
system_kept-eq (SystemContent.text s ∷ cs) = ap (◌∷◌ (SystemContent.text s)) (system_kept-eq cs)
system_kept-eq (SystemContent.tool_result r ∷ cs) =
    ap (◌∷◌ (SystemContent.tool_result r)) (system_kept-eq cs)

user_kept-eq : (cs : List UserContent) → user_kept cs ≡ select user_shown cs
unfolding user_kept
user_kept-eq [] = refl
user_kept-eq (UserContent.config c ∷ cs) = user_kept-eq cs
user_kept-eq (UserContent.feedback f ∷ cs) = user_kept-eq cs
user_kept-eq (UserContent.text s ∷ cs) = ap (◌∷◌ (UserContent.text s)) (user_kept-eq cs)
user_kept-eq (UserContent.tool_result r ∷ cs) =
    ap (◌∷◌ (UserContent.tool_result r)) (user_kept-eq cs)
user_kept-eq (UserContent.file f ∷ cs) = ap (◌∷◌ (UserContent.file f)) (user_kept-eq cs)

add_system-eq :
    (cs : List SystemContent) (out rest : List Message)
    → out ≡ rest
    → add_system cs out ≡ (if is_shown (system cs) then system cs ∷ rest else rest)
add_system-eq [] out rest e = e
add_system-eq (c ∷ cs) out rest e = ap (◌∷◌ (system (c ∷ cs))) e

add_user-eq :
    (cs : List UserContent) (out rest : List Message)
    → out ≡ rest
    → add_user cs out ≡ (if is_shown (user cs) then user cs ∷ rest else rest)
add_user-eq [] out rest e = e
add_user-eq (c ∷ cs) out rest e = ap (◌∷◌ (user (c ∷ cs))) e

prepare_messages-settings :
    (rc : ResolvedConfig) (ms : List Message)
    → (prepare_messages rc ms).0 ≡ merge_all rc (settings_of ms)
unfolding prepare_messages
prepare_messages-settings rc [] = refl
prepare_messages-settings rc (system cs ∷ ms) =
    prepare_messages-settings (system_config rc cs) ms
    ∙ ap (λ r. merge_all r (settings_of ms)) (system_config-eq rc cs)
    ∙ sym (merge_all-append rc (system_settings cs) (settings_of ms))
prepare_messages-settings rc (user cs ∷ ms) =
    prepare_messages-settings (user_config rc cs) ms
    ∙ ap (λ r. merge_all r (settings_of ms)) (user_config-eq rc cs)
    ∙ sym (merge_all-append rc (user_settings cs) (settings_of ms))
prepare_messages-settings rc (assistant cs ∷ ms) = prepare_messages-settings rc ms

prepare_messages-shown :
    (rc : ResolvedConfig) (ms : List Message)
    → (prepare_messages rc ms).1 ≡ select is_shown (map shown ms)
unfolding prepare_messages
prepare_messages-shown rc [] = refl
prepare_messages-shown rc (system cs ∷ ms) =
    let rest = prepare_messages-shown (system_config rc cs) ms in
    ap (λ l. add_system l (prepare_messages (system_config rc cs) ms).1) (system_kept-eq cs)
    ∙ add_system-eq (select system_shown cs) _ _ rest
prepare_messages-shown rc (user cs ∷ ms) =
    let rest = prepare_messages-shown (user_config rc cs) ms in
    ap (λ l. add_user l (prepare_messages (user_config rc cs) ms).1) (user_kept-eq cs)
    ∙ add_user-eq (select user_shown cs) _ _ rest
prepare_messages-shown rc (assistant cs ∷ ms) =
    ap (◌∷◌ (assistant cs)) (prepare_messages-shown rc ms)

-- What some settings resolve to on top of others.
pub record IsResolved (rc : ResolvedConfig) (cs : List ConfigContent) (out : ResolvedConfig)
    : Type 0 where
  pub models : out.model ≡ last_of (λ m. not (m == "")) rc.model (map (λ c. c.model) cs)
  pub caps : out.max_iter ≡ last_of is_nonzero rc.max_iter (map (λ c. c.max_iter) cs)
  pub compactors : out.compactor ≡ last_compactor rc.compactor (map (λ c. c.compact) cs)
  pub now : out.compact_now ≡ (rc.compact_now || any_of (map (λ c. c.compact_now) cs))

merge_config-model :
    (rc : ResolvedConfig) (c : ConfigContent)
    → (merge_config rc c).model ≡ (if not (c.model == "") then c.model else rc.model)
unfolding merge_config
merge_config-model rc c = ground arith

merge_config-cap :
    (rc : ResolvedConfig) (c : ConfigContent)
    → (merge_config rc c).max_iter ≡ (if is_nonzero c.max_iter then c.max_iter else rc.max_iter)
unfolding merge_config
merge_config-cap rc c = refl

merge_config-compactor :
    (rc : ResolvedConfig) (c : ConfigContent)
    → (merge_config rc c).compactor ≡ last_compactor rc.compactor (c.compact ∷ [])
unfolding merge_config
merge_config-compactor rc c = elim (Option-cases c.compact) [
  | inl e ↦ rw e refl
  | inr (k, e) ↦ rw e refl
]

merge_config-now :
    (rc : ResolvedConfig) (c : ConfigContent)
    → (merge_config rc c).compact_now ≡ (rc.compact_now || c.compact_now)
unfolding merge_config
merge_config-now rc c = ground arith

last_compactor-cons :
    (old : Option Compactor) (o : Option CompactConfig) (os : List (Option CompactConfig))
    → last_compactor (last_compactor old (o ∷ [])) os ≡ last_compactor old (o ∷ os)
last_compactor-cons old none os = refl
last_compactor-cons old (some c) os = refl

merge_all-IsResolved :
    (rc : ResolvedConfig) (cs : List ConfigContent) → IsResolved rc cs (merge_all rc cs)
merge_all-IsResolved rc [] = record {
  models = refl;
  caps = refl;
  compactors = refl;
  now = ground arith;
}
merge_all-IsResolved rc (c ∷ cs) =
    let rest = merge_all-IsResolved (merge_config rc c) cs in
    record {
      models =
          rest.models
          ∙ ap (λ m. last_of (λ n. not (n == "")) m (map (λ x. x.model) cs))
              (merge_config-model rc c);
      caps =
          rest.caps
          ∙ ap (λ z. last_of is_nonzero z (map (λ x. x.max_iter) cs)) (merge_config-cap rc c);
      compactors =
          rest.compactors
          ∙ ap (λ k. last_compactor k (map (λ x. x.compact) cs)) (merge_config-compactor rc c)
          ∙ last_compactor-cons rc.compactor c.compact (map (λ x. x.compact) cs);
      now =
          rest.now
          ∙ ap (λ b. b || any_of (map (λ x. x.compact_now) cs)) (merge_config-now rc c)
          ∙ ground arith;
    }

-- PrepareMessages resolves over the settings of the whole history, in their order, the last
-- model that is not empty, the last MaxIter that is not zero and the last compactor, or the ones
-- it starts from, and compacts now when it starts so or any settings ask for it; its messages
-- are those of the history without settings and feedback, in their order, without the system and
-- user messages that nothing is left of.
pub prepare_messages-resolves :
    (rc : ResolvedConfig) (ms : List Message)
    → IsResolved rc (settings_of ms) (prepare_messages rc ms).0
      × ((prepare_messages rc ms).1 ≡ select is_shown (map shown ms))
prepare_messages-resolves rc ms = (
  subst (IsResolved rc (settings_of ms)) (sym (prepare_messages-settings rc ms))
      (merge_all-IsResolved rc (settings_of ms)),
  prepare_messages-shown rc ms,
)
