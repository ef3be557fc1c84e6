-- ===== src/Types/Compactor.antt =====
-- agent/types/compactor.go
pub mod Window
use graph_agent_dev_kit.Common.{
  ℕ, suc, ◌+◌, ◌-◌, String, ◌<>◌, Bool, true, false, ◌&&◌, List, [], ◌∷◌, length, take, drop, leb,
  Result, ok, err, if◌then◌else◌,
}
use graph_agent_dev_kit.Common.Int.{ℤ, pos, negsuc, le_int, is_not_pos}
use graph_agent_dev_kit.Types.Content.{
  Message, system, user, assistant, SystemContent, UserContent, AssistantContent, CompactConfig,
  CompactStrategy, sliding_window, summarize, no_strategy, new_system_message, new_user_message,
}
use graph_agent_dev_kit.Types.Errors.{Error, panics}
use graph_agent_dev_kit.Types.Delta.{Chat, streamed_text}

system_line : SystemContent → String
system_line (SystemContent.text s) = "System: " <> s <> "\n"
system_line (SystemContent.tool_result r) =
    "Tool Result [" <> r.tool_call_id <> "]: " <> r.text <> "\n"
system_line (SystemContent.config c) = ""

user_line : UserContent → String
user_line (UserContent.text s) = "User: " <> s <> "\n"
user_line (UserContent.tool_result r) = "Tool Result [" <> r.tool_call_id <> "]: " <> r.text <> "\n"
user_line (UserContent.file f) = "User: [file: " <> f.filename <> " (" <> f.media_type <> ")]\n"
user_line (UserContent.config c) = ""
user_line (UserContent.feedback c) = ""

assistant_line : AssistantContent → String
assistant_line (AssistantContent.text s) = "Assistant: " <> s <> "\n"
assistant_line (AssistantContent.tool_use u) = "Tool Call [" <> u.id <> "]: " <> u.name <> "\n"
assistant_line (AssistantContent.thinking t) = ""

lines {ℓ} : {A : Type ℓ} → (A → String) → List A → String
lines f [] = ""
lines f (x ∷ xs) = f x <> lines f xs

message_text : Message → String
unfolding lines system_line user_line assistant_line
message_text (system cs) = lines system_line cs
message_text (user cs) = lines user_line cs
message_text (assistant cs) = lines assistant_line cs

-- MessagesToText
unfoldable pub messages_to_text : List Message → String
unfolding lines message_text
messages_to_text = lines message_text

unfoldable pub system_has_result : List SystemContent → Bool
system_has_result [] = false
system_has_result (SystemContent.tool_result r ∷ cs) = true
system_has_result (_ ∷ cs) = system_has_result cs

unfoldable pub user_has_result : List UserContent → Bool
user_has_result [] = false
user_has_result (UserContent.tool_result r ∷ cs) = true
user_has_result (_ ∷ cs) = user_has_result cs

-- hasToolResult
unfoldable pub has_tool_result : Message → Bool
unfolding system_has_result user_has_result
has_tool_result (system cs) = system_has_result cs
has_tool_result (user cs) = user_has_result cs
has_tool_result (assistant cs) = false

-- Whether messages[cut] is there and holds a tool result.
unfoldable pub result_at : ℕ → List Message → Bool
result_at cut ms = elim (drop cut ms) [ [] ↦ false | m ∷ rest ↦ has_tool_result m ]

-- messages[0], then messages[cut:].
unfoldable pub head_and_tail : ℕ → List Message → Result Error (List Message)
head_and_tail cut [] = err panics
head_and_tail cut (m ∷ ms) = ok (m ∷ drop cut (m ∷ ms))

-- The cut of a sliding window, moved off a tool result onto the call before it.
unfoldable pub window_cut : ℕ → List Message → ℕ
unfolding result_at
window_cut size ms =
    let cut = length ms - size in if leb 1 cut && result_at cut ms then cut - 1 else cut

-- SlidingWindowCompactor.Compact. With a negative window the slice starts past the end.
unfoldable pub slide : ℤ → List Message → Result Error (List Message)
unfolding window_cut head_and_tail
slide (pos size) ms =
    if leb (length ms) (size + 1)
    then ok ms
    else if leb (window_cut size ms) 0
    then ok ms
    else head_and_tail (window_cut size ms) ms
slide (negsuc k) ms = if leb (length ms + k) 0 then ok ms else err panics

abbrev pub summary_request : List Message → List Message
summary_request ms =
    new_system_message
      "Summarize the following conversation concisely, preserving key facts and decisions."
    ∷ new_user_message (messages_to_text ms)
    ∷ []

unfoldable pub min_nat : ℕ → ℕ → ℕ
min_nat a b = if leb a b then a else b

-- The end of SummarizeCompactor.Compact, with what is to be summarised, and what is kept.
unfoldable pub summarise_with :
    Chat → Message → List Message → List Message → List Message → List Message
summarise_with chat head [] kept all = all
summarise_with chat head (m ∷ ms) kept all = elim (chat (summary_request (m ∷ ms)) []) [
  | err e ↦ all
  | ok deltas ↦
      head ∷ new_user_message ("Previous conversation summary: " <> streamed_text deltas) ∷ kept
]

-- SummarizeCompactor.Compact, with keepLast positive as NewSummarizeCompactor makes it. On no
-- message at all, which only a negative threshold lets through, messages[1:1] is out of range.
unfoldable pub summarise : Chat → ℤ → ℕ → List Message → Result Error (List Message)
unfolding min_nat summarise_with
summarise chat threshold keep_last ms = if le_int (length ms) threshold then ok ms else elim ms [
  | [] ↦ err panics
  | m ∷ rest ↦
      let keep = min_nat keep_last (length rest) in
      let cut = length rest - keep in
      ok (summarise_with chat m (take cut rest) (drop cut rest) (m ∷ rest))
]

pub data Compactor : Type 0 where
  noop_compactor : Compactor
  sliding_window_compactor : ℤ → Compactor
  summarize_compactor : ℤ → ℕ → Compactor

-- NewSummarizeCompactor's default.
abbrev keep_or_default : ℤ → ℕ
keep_or_default (pos (suc k)) = suc k
keep_or_default _ = 4

-- ToCompactor
unfoldable pub to_compactor : CompactConfig → Compactor
to_compactor c = elim c.strategy [
  | sliding_window ↦ sliding_window_compactor c.window_size
  | summarize ↦ summarize_compactor c.threshold (keep_or_default c.keep_last)
  | no_strategy ↦ noop_compactor
]

unfoldable pub compact : Compactor → Chat → List Message → Result Error (List Message)
unfolding slide summarise
compact noop_compactor chat ms = ok ms
compact (sliding_window_compactor size) chat ms = slide size ms
compact (summarize_compactor threshold keep_last) chat ms = summarise chat threshold keep_last ms
