-- ===== src/Types/Compactor/Window.antt =====
-- What the compactors keep.
use graph_agent_dev_kit.Common.{
  ℕ, ◌+◌, true, false, Member, ◌-◌, ◌≤◌, ◌<◌, ◌<>◌, List, [], ◌∷◌, length, take, drop, ok, err,
  Bool-cases, Result-cases, inl, inr, ◌≡◌, ◌⊎◌, refl, ap, arith,
}
use graph_agent_dev_kit.Common.Int.{ℤ, pos, negsuc, le_int}
use graph_agent_dev_kit.Types.Content.{
  Message, system, user, assistant, SystemContent, UserContent, ToolResultContent, new_user_message,
}
use graph_agent_dev_kit.Types.Errors.{panics}
use graph_agent_dev_kit.Types.Delta.{Chat, streamed_text}
use graph_agent_dev_kit.Types.Compactor.{
  Compactor, noop_compactor, sliding_window_compactor, summarize_compactor, window_cut, slide,
  system_has_result, user_has_result, has_tool_result, result_at, summarise, compact, min_nat,
  summarise_with, summary_request,
}

-- A message that holds a block with a tool result.
abbrev pub HasResult : Message → Type 0
HasResult (system cs) = (r : ToolResultContent) × Member (SystemContent.tool_result r) cs
HasResult (user cs) = (r : ToolResultContent) × Member (UserContent.tool_result r) cs
HasResult (assistant cs) = ⊥

-- Messages that do not begin with one that holds a tool result.
abbrev pub StartsPlain : List Message → Type 0
StartsPlain [] = Unit {0}
StartsPlain (m ∷ ms) = ¬ HasResult m

-- Messages that begin with one that does.
abbrev pub StartsWithResult : List Message → Type 0
StartsWithResult [] = ⊥
StartsWithResult (m ∷ ms) = HasResult m

system_found : (cs : List SystemContent) → system_has_result cs ≡ true → HasResult (system cs)
unfolding system_has_result
system_found [] h = absurd cc
system_found (SystemContent.tool_result r ∷ cs) h = (r, inl refl)
system_found (SystemContent.text s ∷ cs) h = let (r, m) = system_found cs h in (r, inr m)
system_found (SystemContent.config c ∷ cs) h = let (r, m) = system_found cs h in (r, inr m)

user_found : (cs : List UserContent) → user_has_result cs ≡ true → HasResult (user cs)
unfolding user_has_result
user_found [] h = absurd cc
user_found (UserContent.tool_result r ∷ cs) h = (r, inl refl)
user_found (UserContent.text s ∷ cs) h = let (r, m) = user_found cs h in (r, inr m)
user_found (UserContent.config c ∷ cs) h = let (r, m) = user_found cs h in (r, inr m)
user_found (UserContent.file f ∷ cs) h = let (r, m) = user_found cs h in (r, inr m)
user_found (UserContent.feedback f ∷ cs) h = let (r, m) = user_found cs h in (r, inr m)

system_plain :
    (cs : List SystemContent) (r : ToolResultContent)
    → system_has_result cs ≡ false
    → Member (SystemContent.tool_result r) cs
    → ⊥
unfolding system_has_result
system_plain [] r h m = m
system_plain (SystemContent.tool_result x ∷ cs) r h m = absurd cc
system_plain (SystemContent.text s ∷ cs) r h (inl e) = cc
system_plain (SystemContent.text s ∷ cs) r h (inr m) = system_plain cs r h m
system_plain (SystemContent.config c ∷ cs) r h (inl e) = cc
system_plain (SystemContent.config c ∷ cs) r h (inr m) = system_plain cs r h m

user_plain :
    (cs : List UserContent) (r : ToolResultContent)
    → user_has_result cs ≡ false
    → Member (UserContent.tool_result r) cs
    → ⊥
unfolding user_has_result
user_plain [] r h m = m
user_plain (UserContent.tool_result x ∷ cs) r h m = absurd cc
user_plain (UserContent.text s ∷ cs) r h (inl e) = cc
user_plain (UserContent.text s ∷ cs) r h (inr m) = user_plain cs r h m
user_plain (UserContent.config c ∷ cs) r h (inl e) = cc
user_plain (UserContent.config c ∷ cs) r h (inr m) = user_plain cs r h m
user_plain (UserContent.file f ∷ cs) r h (inl e) = cc
user_plain (UserContent.file f ∷ cs) r h (inr m) = user_plain cs r h m
user_plain (UserContent.feedback f ∷ cs) r h (inl e) = cc
user_plain (UserContent.feedback f ∷ cs) r h (inr m) = user_plain cs r h m

has_tool_result_found : (m : Message) → has_tool_result m ≡ true → HasResult m
unfolding has_tool_result
has_tool_result_found (system cs) h = system_found cs h
has_tool_result_found (user cs) h = user_found cs h
has_tool_result_found (assistant cs) h = absurd cc

has_tool_result_plain : (m : Message) → has_tool_result m ≡ false → ¬ HasResult m
unfolding has_tool_result
has_tool_result_plain (system cs) h (r, m) = system_plain cs r h m
has_tool_result_plain (user cs) h (r, m) = user_plain cs r h m
has_tool_result_plain (assistant cs) h m = m

-- Whether the messages from a cut on begin with a tool result.
result_at_cases :
    (cut : ℕ) (ms : List Message)
    → ((result_at cut ms ≡ true) × StartsWithResult (drop cut ms))
      ⊎ ((result_at cut ms ≡ false) × StartsPlain (drop cut ms))
unfolding result_at
result_at_cases cut ms = go (drop cut ms)
  where
    go :
        (rest : List Message)
        → ((elim rest [ [] ↦ false | m ∷ more ↦ has_tool_result m ] ≡ true) × StartsWithResult rest)
          ⊎ ((elim rest [ [] ↦ false | m ∷ more ↦ has_tool_result m ] ≡ false) × StartsPlain rest)
    go [] = inr (refl, tt)
    go (m ∷ more) = elim (Bool-cases (has_tool_result m)) [
      | inl h ↦ inl (h, has_tool_result_found m h)
      | inr h ↦ inr (h, has_tool_result_plain m h)
    ]

-- The window as it is asked for begins with a tool result, and the cut is one before it, or it
-- does not, and the cut is there.
abbrev pub IsCut : ℕ → List Message → ℕ → Type 0
IsCut size ms cut =
    (StartsWithResult (drop (length ms - size) ms) × (cut + size + 1 ≡ length ms))
    ⊎ (StartsPlain (drop (length ms - size) ms) × (cut + size ≡ length ms))

window_cut-IsCut :
    (size : ℕ) (ms : List Message)
    → size + 1 < length ms
    → (1 ≤ window_cut size ms) × IsCut size ms (window_cut size ms)
unfolding window_cut
window_cut-IsCut size ms h = elim (result_at_cases (length ms - size) ms) [
  | inl (e, found) ↦
      let at : window_cut size ms + size + 1 ≡ length ms = ground arith in
      (ground arith, inl (found, at))
  | inr (e, plain) ↦
      let at : window_cut size ms + size ≡ length ms = ground arith in
      (ground arith, inr (plain, at))
]

-- The sliding window keeps of a history that is longer than the window and the first message the
-- first message and a tail of it: where the last messages, as many as the window, begin with one
-- that holds a tool result, the tail is these and the message before them, and otherwise it is
-- these.
pub slide-window :
    (size : ℕ) (m : Message) (ms : List Message)
    → size + 1 < length (m ∷ ms)
    → (cut : ℕ) × (slide (pos size) (m ∷ ms) ≡ ok (m ∷ drop cut (m ∷ ms)))
      × (1 ≤ cut)
      × IsCut size (m ∷ ms) cut
slide-window size m ms h =
    let (low, at) = window_cut-IsCut size (m ∷ ms) h in
    (window_cut size (m ∷ ms), unfold slide in ground arith, low, at)

-- A negative window, which a configuration may hold, makes the compactor panic on any history but
-- the empty one.
pub slide-negative :
    (k : ℕ) (m : Message) (ms : List Message) → slide (negsuc k) (m ∷ ms) ≡ err panics
unfolding slide
slide-negative k m ms = ground arith

summarise_with-head :
    (chat : Chat) (m : Message) (middle kept rest : List Message)
    → (out : List Message) × (summarise_with chat m middle kept (m ∷ rest) ≡ m ∷ out)
unfolding summarise_with
summarise_with-head chat m [] kept rest = (rest, refl)
summarise_with-head chat m (x ∷ xs) kept rest =
    elim (Result-cases (chat (summary_request (x ∷ xs)) [])) [
      | inl (ds, e) ↦ (
        new_user_message ("Previous conversation summary: " <> streamed_text ds) ∷ kept,
        rw (e, summarise_with),
      )
      | inr (f, e) ↦ (rest, rw (e, summarise_with))
    ]

slide_cases :
    (size : ℕ) (m : Message) (ms : List Message)
    → (slide (pos size) (m ∷ ms) ≡ ok (m ∷ ms))
      ⊎ (slide (pos size) (m ∷ ms) ≡ ok (m ∷ drop (window_cut size (m ∷ ms)) (m ∷ ms)))
unfolding slide
slide_cases size m ms = ground arith

summarise_cases :
    (chat : Chat) (threshold : ℤ) (keep_last : ℕ) (m : Message) (ms : List Message)
    → (rest : List Message) × (summarise chat threshold keep_last (m ∷ ms) ≡ ok (m ∷ rest))
unfolding summarise
summarise_cases chat threshold keep_last m ms =
    elim (Bool-cases (le_int (length (m ∷ ms)) threshold)) [
      | inl small ↦ (ms, rw small)
      | inr large ↦
          let keep = min_nat keep_last (length ms) in
          let cut = length ms - keep in
          let (rest, e) = summarise_with-head chat m (take cut ms) (drop cut ms) ms in
          (rest, rw large (ap ok e))
    ]

-- A compactor that returns a history keeps the first message first, whatever the strategy and
-- the provider's answer.
pub compact-head :
    (c : Compactor) (chat : Chat) (m : Message) (ms out : List Message)
    → compact c chat (m ∷ ms) ≡ ok out
    → (rest : List Message) × (out ≡ m ∷ rest)
unfolding compact
compact-head noop_compactor chat m ms out h = (ms, ground arith)
compact-head (sliding_window_compactor (pos size)) chat m ms out h = elim (slide_cases size m ms) [
  | inl e ↦ (ms, ground (arith, e))
  | inr e ↦ (drop (window_cut size (m ∷ ms)) (m ∷ ms), ground (arith, e))
]
compact-head (sliding_window_compactor (negsuc k)) chat m ms out h = cc (slide-negative k m ms)
compact-head (summarize_compactor threshold keep_last) chat m ms out h =
    let (rest, e) = summarise_cases chat threshold keep_last m ms in (rest, ground (arith, e))
