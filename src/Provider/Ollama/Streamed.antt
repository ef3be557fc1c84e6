-- ===== src/Provider/Ollama/Streamed.antt =====
-- About translateDeltas of agent/provider/ollama/adapter.go and the aggregator of agent/aggregator.go.
use graph_agent_dev_kit.Common.{
  ℕ, suc, ◌+◌, String, ◌<>◌, ◌==◌, Bool, true, false, Bool-cases, inl, inr, List, [], ◌∷◌, ◌++◌,
  length, ◌≡◌, refl, sym, ◌∙◌, ap, arith, eq_iff, if◌then◌else◌, ◌&&◌,
}
use mathlib.Core.List.{append-nil, append_assoc}
use package.text.Mathlib.TextLemmas.{
  append-nil as text_append-nil, append_assoc as text_append_assoc, nil-append,
}
use graph_agent_dev_kit.Types.Content.{ToolUseContent, AssistantContent, text, tool_use, thinking}
use graph_agent_dev_kit.Types.Delta.{text_start, text_content}
use graph_agent_dev_kit.Agent.Aggregator.{Aggregator, new_aggregator, push, push_all, final_blocks}
use graph_agent_dev_kit.Agent.Replay.RoundTrip.{push_all-append}
use graph_agent_dev_kit.Agent.Tools.{tool_calls}
use graph_agent_dev_kit.Provider.Ollama.{
  ChatChunk, ToolCallFunction, assistant_text, close_text, text_deltas, text_open, call_deltas,
  tool_deltas, open_after_calls, translate, usage_of,
}

-- The text of the chunks before their ends, and the calls with the ids that they get.
unfoldable pub chunk_text : List ChatChunk → String
chunk_text [] = ""
chunk_text (c ∷ cs) = if c.finished then chunk_text cs else c.message.content <> chunk_text cs

unfoldable pub named_calls : (ℕ → String) → ℕ → List ToolCallFunction → List ToolUseContent
named_calls ids n [] = []
named_calls ids n (tc ∷ tcs) =
    record { id = ids n; name = tc.name; arguments = tc.arguments } ∷ named_calls ids (suc n) tcs

unfoldable pub all_calls : List ChatChunk → List ToolCallFunction
all_calls [] = []
all_calls (c ∷ cs) = if c.finished then all_calls cs else c.message.tool_calls ++ all_calls cs

assistant_text-append :
    (xs ys : List AssistantContent)
    → assistant_text (xs ++ ys) ≡ assistant_text xs <> assistant_text ys
unfolding assistant_text
assistant_text-append [] ys = sym (nil-append _)
assistant_text-append (text t ∷ xs) ys =
    ap (λ r. t <> r) (assistant_text-append xs ys)
    ∙ sym (text_append_assoc t (assistant_text xs) (assistant_text ys))
assistant_text-append (tool_use u ∷ xs) ys = assistant_text-append xs ys
assistant_text-append (thinking u ∷ xs) ys = assistant_text-append xs ys

tool_calls-append :
    (xs ys : List AssistantContent) → tool_calls (xs ++ ys) ≡ tool_calls xs ++ tool_calls ys
unfolding tool_calls
tool_calls-append [] ys = refl
tool_calls-append (text t ∷ xs) ys = tool_calls-append xs ys
tool_calls-append (tool_use u ∷ xs) ys = ap (λ r. u ∷ r) (tool_calls-append xs ys)
tool_calls-append (thinking u ∷ xs) ys = tool_calls-append xs ys

-- The text that an aggregator has taken in, an open one included.
unfoldable seen : Aggregator → String
seen a = assistant_text a.content_blocks <> (if a.in_text then a.text_buf else "")

-- An aggregator that took in a text and calls after another.
record Adds (a b : Aggregator) (opened : Bool) (t : String) (us : List ToolUseContent)
    : Type 0 where
  in_text : b.in_text ≡ opened
  seen_text : seen b ≡ seen a <> t
  calls : tool_calls b.content_blocks ≡ tool_calls a.content_blocks ++ us

Adds-trans :
    {a b c : Aggregator} {o o' : Bool} {t t' : String} {us us' : List ToolUseContent}
    → Adds a b o t us
    → Adds b c o' t' us'
    → Adds a c o' (t <> t') (us ++ us')
Adds-trans {a} {b} {c} {o} {o'} {t} {t'} {us} {us'} x y = record {
  in_text = y.in_text;
  seen_text = y.seen_text ∙ ap (λ r. r <> t') x.seen_text ∙ text_append_assoc (seen a) t t';
  calls = y.calls ∙ ap (λ r. r ++ us') x.calls ∙ append_assoc (tool_calls a.content_blocks) us us';
}

Adds-as :
    {a b : Aggregator} {o : Bool} {t t' : String} {us us' : List ToolUseContent}
    → t ≡ t'
    → us ≡ us'
    → Adds a b o t us
    → Adds a b o t' us'
Adds-as {a} p q x = record {
  in_text = x.in_text;
  seen_text = x.seen_text ∙ ap (λ r. seen a <> r) p;
  calls = x.calls ∙ ap (λ r. tool_calls a.content_blocks ++ r) q;
}

Adds-none : (a : Aggregator) (started : Bool) → a.in_text ≡ started → Adds a a started "" []
Adds-none a started e = record {
  in_text = e;
  seen_text = sym (text_append-nil _);
  calls = sym (append-nil _);
}

text-last :
    (xs : List AssistantContent) (t : String)
    → assistant_text (xs ++ AssistantContent.text t ∷ []) ≡ assistant_text xs <> t
unfolding assistant_text
text-last xs t = assistant_text-append xs _ ∙ ap (λ r. assistant_text xs <> r) (text_append-nil t)

close-Adds :
    (a : Aggregator) (started : Bool)
    → a.in_text ≡ started
    → Adds a (push_all a (close_text started)) false "" []
unfolding push_all push seen tool_calls
close-Adds a true e = record {
  in_text = rw e refl;
  seen_text = rw e (ap (λ r. r <> "") (text-last a.content_blocks a.text_buf));
  calls = rw e (tool_calls-append a.content_blocks _);
}
close-Adds a false e = Adds-none a false e

content-Adds :
    (a : Aggregator) (content : String)
    → a.in_text ≡ true
    → Adds a (push a (text_content content)) true content []
unfolding push seen
content-Adds a content e = record {
  in_text = rw e refl;
  seen_text = rw e (sym (text_append_assoc (assistant_text a.content_blocks) a.text_buf content));
  calls = rw e (sym (append-nil _));
}

start-Adds : (a : Aggregator) → a.in_text ≡ false → Adds a (push a text_start) true "" []
unfolding push seen
start-Adds a e = record {
  in_text = refl;
  seen_text = rw e (sym (text_append-nil _));
  calls = sym (append-nil _);
}

text-Adds :
    (a : Aggregator) (started : Bool) (content : String)
    → a.in_text ≡ started
    → Adds a (push_all a (text_deltas started content)) (text_open started content) content []
unfolding push_all push text_deltas
text-Adds a true content e = elim (Bool-cases (content == "")) [
  | inl none ↦ rw none (Adds-as (sym ((eq_iff content "").0 none)) refl (Adds-none a true e))
  | inr some ↦ rw some (content-Adds a content e)
]
text-Adds a false content e = elim (Bool-cases (content == "")) [
  | inl none ↦ rw none (Adds-as (sym ((eq_iff content "").0 none)) refl (Adds-none a false e))
  | inr some ↦
      let first = start-Adds a e in
      rw some (
        Adds-as (nil-append content) refl
          (Adds-trans first (content-Adds (push a text_start) content first.in_text)))
]

tool-last :
    (xs : List AssistantContent) (u : ToolUseContent)
    → assistant_text (xs ++ tool_use u ∷ []) ≡ assistant_text xs
unfolding assistant_text
tool-last xs u = assistant_text-append xs _ ∙ text_append-nil _

-- A call is a block of its own, whether a text is open or not.
calls-Adds :
    (ids : ℕ → String) (n : ℕ) (tcs : List ToolCallFunction) (a : Aggregator) (started : Bool)
    → a.in_text ≡ started
    → Adds a (push_all a (call_deltas ids n tcs)) started "" (named_calls ids n tcs)
unfolding push_all push call_deltas named_calls seen tool_calls
calls-Adds ids n [] a started e = Adds-none a started e
calls-Adds ids n (tc ∷ tcs) a started e =
    let u : ToolUseContent = record { id = ids n; name = tc.name; arguments = tc.arguments } in
    let b : Aggregator = push_all a (call_deltas ids n (tc ∷ [])) in
    let first : Adds a b started "" (u ∷ []) = record {
      in_text = e;
      seen_text =
          ap (λ r. r <> (if a.in_text then a.text_buf else "")) (tool-last a.content_blocks u)
          ∙ sym (text_append-nil _);
      calls = tool_calls-append a.content_blocks _;
    } in
    Adds-as (nil-append "") refl
      (Adds-trans first (calls-Adds ids (suc n) tcs b started first.in_text))

tools-Adds :
    (ids : ℕ → String) (n : ℕ) (tcs : List ToolCallFunction) (a : Aggregator) (started : Bool)
    → a.in_text ≡ started
    → Adds a
        (push_all a (tool_deltas ids n started tcs))
        (open_after_calls started tcs)
        ""
        (named_calls ids n tcs)
unfolding push_all tool_deltas named_calls
tools-Adds ids n [] a started e = Adds-none a started e
tools-Adds ids n (tc ∷ tcs) a started e =
    let first = close-Adds a started e in
    let rest = calls-Adds ids n (tc ∷ tcs) (push_all a (close_text started)) false first.in_text in
    rw (push_all-append a (close_text started) (call_deltas ids n (tc ∷ tcs)))
      (Adds-as (nil-append "") refl (Adds-trans first rest))

named_calls-append :
    (ids : ℕ → String) (n : ℕ) (xs ys : List ToolCallFunction)
    → named_calls ids n (xs ++ ys) ≡ named_calls ids n xs ++ named_calls ids (n + length xs) ys
unfolding named_calls
named_calls-append ids n [] ys = ap (λ m. named_calls ids m ys) (omega arith)
named_calls-append ids n (x ∷ xs) ys =
    ap (λ l. record { id = ids n; name = x.name; arguments = x.arguments } ∷ l)
      (named_calls-append ids (suc n) xs ys
        ∙ ap (λ m. named_calls ids (suc n) xs ++ named_calls ids m ys) (omega arith))

translate-Adds :
    (ids : ℕ → String) (n : ℕ) (chunks : List ChatChunk) (a : Aggregator) (started : Bool)
    → a.in_text ≡ started
    → Adds a
        (push_all a (translate ids n started chunks))
        false
        (chunk_text chunks)
        (named_calls ids n (all_calls chunks))
unfolding translate chunk_text all_calls usage_of push_all push named_calls
translate-Adds ids n [] a started e = close-Adds a started e
translate-Adds ids n (c ∷ cs) a started e = elim (Bool-cases c.finished) [
  | inl done ↦
      let first = close-Adds a started e in
      let rest = translate-Adds ids n cs (push_all a (close_text started)) false first.in_text in
      rw (done, push_all-append a (close_text started) (usage_of c ∷ translate ids n false cs))
        (Adds-as (nil-append (chunk_text cs)) refl (Adds-trans first rest))
  | inr more ↦
      let m = c.message in
      let texts = text_deltas started m.content in
      let opened = text_open started m.content in
      let tools = tool_deltas ids n opened m.tool_calls in
      let later = n + length m.tool_calls in
      let rest = translate ids later (open_after_calls opened m.tool_calls) cs in
      let b : Aggregator = push_all a texts in
      let first = text-Adds a started m.content e in
      let second = tools-Adds ids n m.tool_calls b opened first.in_text in
      let third = translate-Adds ids later cs (push_all b tools) _ second.in_text in
      rw (more, push_all-append a texts (tools ++ rest), push_all-append b tools rest)
        (Adds-as (ap (λ r. m.content <> r) (nil-append (chunk_text cs)))
          (sym (named_calls-append ids n m.tool_calls (all_calls cs)))
          (Adds-trans first (Adds-trans second third)))
]

-- For every stream of Ollama chunks, the aggregator, fed with the deltas that translateDeltas
-- makes of them, holds blocks whose texts together are the contents of the chunks that are not
-- final, and whose tool calls are the calls of those chunks, in order and with the ids in the
-- order they were made.
pub translate-final_blocks :
    (ids : ℕ → String) (chunks : List ChatChunk)
    → (assistant_text (final_blocks (push_all new_aggregator (translate ids 0 false chunks)))
        ≡ chunk_text chunks)
      × (tool_calls (final_blocks (push_all new_aggregator (translate ids 0 false chunks)))
          ≡ named_calls ids 0 (all_calls chunks))
unfolding final_blocks seen assistant_text tool_calls
translate-final_blocks ids chunks =
    let x = translate-Adds ids 0 chunks new_aggregator false refl in
    (
      rw (x.in_text, ◌&&◌)
          (sym (text_append-nil _)
            ∙ (rw x.in_text at x.seen_text)
            ∙ ap (λ r. r <> chunk_text chunks) (nil-append "")
            ∙ nil-append (chunk_text chunks)),
      rw (x.in_text, ◌&&◌) x.calls,
    )
