-- ===== src/Provider/Ollama.antt =====
-- agent/provider/ollama/adapter.go, with the wire types of types.go. The client, which speaks HTTP, is
-- a parameter that takes the tool definitions as they are. A file whose bytes are read holds some.
pub mod Streamed
pub mod Results
use graph_agent_dev_kit.Common.{
  ℕ, suc, ◌+◌, String, ◌<>◌, ◌==◌, Bool, true, false, ◌||◌, Option, List, [], ◌∷◌, ◌++◌, map,
  Result, ok, err, length, if◌then◌else◌,
}
use graph_agent_dev_kit.Common.Dict.{Dict}
use graph_agent_dev_kit.Common.Search.{contains}
use graph_agent_dev_kit.Types.Content.{
  Json, Message, system, user, assistant, SystemContent, UserContent, AssistantContent, text,
  tool_result, file, tool_use, ToolResultContent,
}
use graph_agent_dev_kit.Types.Errors.{Error, ErrorKind, transient, permanent, provider_error}
use graph_agent_dev_kit.Types.Delta.{
  Delta, ToolDef, text_start, text_content, text_end, tool_call_start, tool_call_end, usage_delta,
}

pub record ToolCallFunction : Type 0 where
  pub name : String
  pub arguments : Dict Json

-- A ToolCall has the one field Function.
pub record ChatMessage : Type 0 where
  pub role_name : String
  pub content : String
  pub images : List String
  pub tool_calls : List ToolCallFunction

-- The durations are not read by the adapter.
pub record ChatChunk : Type 0 where
  pub model : String
  pub message : ChatMessage
  pub finished : Bool
  pub done_reason : String
  pub prompt_eval_count : ℕ
  pub eval_count : ℕ

-- The end of a text that is open, where there is one.
abbrev pub close_text : Bool → List Delta
close_text started = if started then text_end ∷ [] else []

-- The deltas of the final chunk.
unfoldable pub usage_of : ChatChunk → Delta
usage_of chunk = usage_delta (record {
  prompt_tokens = chunk.prompt_eval_count;
  completion_tokens = chunk.eval_count;
  total_tokens = chunk.prompt_eval_count + chunk.eval_count;
  latency = 0;
  response_model = chunk.model;
  response_id = "";
  finish_reasons = (if chunk.done_reason == "" then "stop" else chunk.done_reason) ∷ [];
})

-- "Handle text content", and whether a text is open after it.
unfoldable pub text_deltas : Bool → String → List Delta
text_deltas started content =
    if content == ""
    then []
    else if started
    then text_content content ∷ []
    else text_start ∷ text_content content ∷ []

abbrev pub text_open : Bool → String → Bool
text_open started content = if content == "" then started else true

-- The deltas of the tool calls; `n` ids were made before.
unfoldable pub call_deltas : (ℕ → String) → ℕ → List ToolCallFunction → List Delta
call_deltas ids n [] = []
call_deltas ids n (tc ∷ tcs) =
    tool_call_start (ids n) tc.name ∷ tool_call_end tc.arguments ∷ call_deltas ids (suc n) tcs

-- "Handle tool calls": a chunk without calls leaves the text open.
unfoldable pub tool_deltas : (ℕ → String) → ℕ → Bool → List ToolCallFunction → List Delta
unfolding call_deltas
tool_deltas ids n started [] = []
tool_deltas ids n started (tc ∷ tcs) = close_text started ++ call_deltas ids n (tc ∷ tcs)

abbrev pub open_after_calls : Bool → List ToolCallFunction → Bool
open_after_calls started [] = started
open_after_calls started (tc ∷ tcs) = false

-- translateDeltas: `n` ids were made before, and `started` is textStarted.
unfoldable pub translate : (ℕ → String) → ℕ → Bool → List ChatChunk → List Delta
unfolding text_deltas tool_deltas usage_of
translate ids n started [] = close_text started
translate ids n started (chunk ∷ chunks) =
    let m = chunk.message in
    let opened = text_open started m.content in
    let made = if chunk.finished then n else n + length m.tool_calls in
    let still_open = if chunk.finished then false else open_after_calls opened m.tool_calls in
    let rest = translate ids made still_open chunks in
    if chunk.finished
    then close_text started ++ usage_of chunk ∷ rest
    else text_deltas started m.content ++ (tool_deltas ids n opened m.tool_calls ++ rest)

-- classifyOllamaError, on the error's text
unfoldable pub classify_ollama_error : String → ErrorKind
unfolding contains
classify_ollama_error s =
    if contains s "connection refused"
      || contains s "timeout"
      || contains s "returned 5"
      || contains s "returned 429"
    then transient
    else permanent

-- ChatStream of the adapter; `error_text` is the Error method of the client's errors.
unfoldable pub ollama_chat_stream :
    (List ChatMessage → List ToolDef → Result Error (List ChatChunk))
    → (Error → String)
    → String
    → (ℕ → String)
    → List ChatMessage
    → List ToolDef
    → Result Error (List Delta)
unfolding translate classify_ollama_error
ollama_chat_stream client error_text model ids messages tools = elim (client messages tools) [
  | err e ↦ err (provider_error "ollama" model (classify_ollama_error (error_text e)) 0 e)
  | ok chunks ↦ ok (translate ids 0 false chunks)
]

-- The texts and the tool results of a system message, and the images of a user message, in order.
unfoldable pub system_texts : List SystemContent → List String
system_texts [] = []
system_texts (text t ∷ cs) = t ∷ system_texts cs
system_texts (_ ∷ cs) = system_texts cs

unfoldable pub system_results : List SystemContent → List ToolResultContent
system_results [] = []
system_results (tool_result r ∷ cs) = r ∷ system_results cs
system_results (_ ∷ cs) = system_results cs

unfoldable pub user_texts : List UserContent → List String
user_texts [] = []
user_texts (text t ∷ cs) = t ∷ user_texts cs
user_texts (_ ∷ cs) = user_texts cs

unfoldable pub user_results : List UserContent → List ToolResultContent
user_results [] = []
user_results (tool_result r ∷ cs) = r ∷ user_results cs
user_results (_ ∷ cs) = user_results cs

-- `encode` is base64.StdEncoding.EncodeToString.
unfoldable pub user_images : (List ℕ → String) → List UserContent → List String
user_images encode [] = []
user_images encode (file f ∷ cs) =
    let rest = user_images encode cs in elim f.bytes [ [] ↦ rest | b ∷ bs ↦ encode (b ∷ bs) ∷ rest ]
user_images encode (_ ∷ cs) = user_images encode cs

-- strings.Join(parts, "")
unfoldable pub joined : List String → String
joined [] = ""
joined (t ∷ ts) = t <> joined ts

abbrev pub plain_message : String → String → ChatMessage
plain_message r t = record { role_name = r; content = t; images = []; tool_calls = [] }

-- A tool result as a message of the role "tool".
unfoldable pub tool_message : ToolResultContent → ChatMessage
tool_message r = plain_message "tool" (if r.is_error then "[TOOL ERROR] " <> r.text else r.text)

unfoldable pub system_message : List String → List ChatMessage
unfolding joined
system_message [] = []
system_message (t ∷ ts) = plain_message "system" (joined (t ∷ ts)) ∷ []

unfoldable pub user_message : List String → List String → List ChatMessage
unfolding joined
user_message [] [] = []
user_message ts images =
    record { role_name = "user"; content = joined ts; images = images; tool_calls = [] } ∷ []

unfoldable pub assistant_text : List AssistantContent → String
assistant_text [] = ""
assistant_text (text t ∷ bs) = t <> assistant_text bs
assistant_text (_ ∷ bs) = assistant_text bs

unfoldable pub assistant_calls : List AssistantContent → List ToolCallFunction
assistant_calls [] = []
assistant_calls (tool_use u ∷ bs) =
    record { name = u.name; arguments = u.arguments } ∷ assistant_calls bs
assistant_calls (_ ∷ bs) = assistant_calls bs

-- One round of the loop of toOllamaMessages.
unfoldable pub to_ollama_message : (List ℕ → String) → Message → List ChatMessage
unfolding system_texts system_results user_texts user_results user_images tool_message
    system_message user_message assistant_text assistant_calls
to_ollama_message encode (system cs) =
    system_message (system_texts cs) ++ map tool_message (system_results cs)
to_ollama_message encode (user cs) =
    user_message (user_texts cs) (user_images encode cs) ++ map tool_message (user_results cs)
to_ollama_message encode (assistant bs) =
    record {
      role_name = "assistant";
      content = assistant_text bs;
      images = [];
      tool_calls = assistant_calls bs;
    }
    ∷ []

-- toOllamaMessages
unfoldable pub to_ollama_messages : (List ℕ → String) → List Message → List ChatMessage
unfolding to_ollama_message
to_ollama_messages encode [] = []
to_ollama_messages encode (m ∷ ms) = to_ollama_message encode m ++ to_ollama_messages encode ms
