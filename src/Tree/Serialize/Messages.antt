-- ===== src/Tree/Serialize/Messages.antt =====
-- About marshalMessage and unmarshalMessage of agent/tree/serialize.go, one after the other.
use graph_agent_dev_kit.Common.{List, [], ◌∷◌, map, Result, ok, and_then, ◌≡◌, refl, ap}
use graph_agent_dev_kit.Types.Content.{
  Message, system, user, assistant, UserContent, file, FileContent, SystemContent, AssistantContent,
  text, tool_result, config, feedback, tool_use, thinking,
}
use graph_agent_dev_kit.Types.Errors.{Error}
use graph_agent_dev_kit.Tree.Serialize.Envelopes.{
  IsReadAs, MessageJson, ContentEnvelope, role, each, marshal_message, unmarshal_message,
  wrap_system, wrap_user, wrap_assistant, wrap_message, unwrap_message, unmarshal_system_content,
  unmarshal_user_content, unmarshal_assistant_content,
}

-- The bytes of a file are tagged `json:"-"`.
abbrev pub without_bytes : FileContent → FileContent
without_bytes c = record c { bytes = [] }

unfoldable pub stored_content : UserContent → UserContent
stored_content (file c) = file (without_bytes c)
stored_content c = c

-- What a written message is read back as.
unfoldable pub stored_message : Message → Message
unfolding stored_content
stored_message (user content) = user (map stored_content content)
stored_message m = m

-- What encoding/json does at the types of the source.
pub record IsMessageJson {Raw : Type 0} (json : MessageJson Raw) : Type 0 where
  pub text_back : IsReadAs json.text (λ t. t)
  pub tool_use_back : IsReadAs json.tool_use (λ c. c)
  pub tool_result_back : IsReadAs json.tool_result (λ c. c)
  pub config_back : IsReadAs json.config (λ c. c)
  pub file_back : IsReadAs json.file without_bytes
  pub thinking_back : IsReadAs json.thinking (λ c. c)
  pub feedback_back : IsReadAs json.feedback (λ c. c)
  pub envelope_back : IsReadAs json.envelope (λ c. c)

-- The loop of a writer and then that of a reader, where the reader reads each element back as `h`.
each-each :
    {A B : Type 0} (write : A → Result Error B) (read : B → Result Error A) (h : A → A)
    → ((a : A) → (b : B) × (write a ≡ ok b) × (read b ≡ ok (h a)))
    → (xs : List A) → (ys : List B) × (each write xs ≡ ok ys) × (each read ys ≡ ok (map h xs))
unfolding each
each-each write read h back [] = ([], refl, refl)
each-each write read h back (x ∷ xs) =
    let (y, wrote, got) = back x in
    let (ys, wrote', got') = each-each write read h back xs in
    (y ∷ ys, rw (wrote, wrote') refl, rw (got, got') refl)

map_same : {A : Type 0} (xs : List A) → map (λ x. x) xs ≡ xs
map_same [] = refl
map_same (x ∷ xs) = ap (λ ys. x ∷ ys) (map_same xs)

module _ {Raw : Type 0} (json : MessageJson Raw) (v : IsMessageJson json) where
  system_back :
      (c : SystemContent)
      → (e : ContentEnvelope Raw) × (wrap_system json c ≡ ok e)
        × (unmarshal_system_content json e ≡ ok c)
  unfolding wrap_system unmarshal_system_content
  system_back (text c) =
      let (r, w, b) = v.text_back c in (record { kind = "text"; raw = r }, rw w refl, rw b refl)
  system_back (tool_result c) =
      let (r, w, b) = v.tool_result_back c in
      (record { kind = "tool_result"; raw = r }, rw w refl, rw b refl)
  system_back (config c) =
      let (r, w, b) = v.config_back c in (record { kind = "config"; raw = r }, rw w refl, rw b refl)

  user_back :
      (c : UserContent)
      → (e : ContentEnvelope Raw) × (wrap_user json c ≡ ok e)
        × (unmarshal_user_content json e ≡ ok (stored_content c))
  unfolding wrap_user unmarshal_user_content stored_content
  user_back (text c) =
      let (r, w, b) = v.text_back c in (record { kind = "text"; raw = r }, rw w refl, rw b refl)
  user_back (tool_result c) =
      let (r, w, b) = v.tool_result_back c in
      (record { kind = "tool_result"; raw = r }, rw w refl, rw b refl)
  user_back (config c) =
      let (r, w, b) = v.config_back c in (record { kind = "config"; raw = r }, rw w refl, rw b refl)
  user_back (file c) =
      let (r, w, b) = v.file_back c in (record { kind = "file"; raw = r }, rw w refl, rw b refl)
  user_back (feedback c) =
      let (r, w, b) = v.feedback_back c in
      (record { kind = "feedback"; raw = r }, rw w refl, rw b refl)

  assistant_back :
      (c : AssistantContent)
      → (e : ContentEnvelope Raw) × (wrap_assistant json c ≡ ok e)
        × (unmarshal_assistant_content json e ≡ ok c)
  unfolding wrap_assistant unmarshal_assistant_content
  assistant_back (text c) =
      let (r, w, b) = v.text_back c in (record { kind = "text"; raw = r }, rw w refl, rw b refl)
  assistant_back (tool_use c) =
      let (r, w, b) = v.tool_use_back c in
      (record { kind = "tool_use"; raw = r }, rw w refl, rw b refl)
  assistant_back (thinking c) =
      let (r, w, b) = v.thinking_back c in
      (record { kind = "thinking"; raw = r }, rw w refl, rw b refl)

  wrapped_back :
      (m : Message)
      → (es : List (ContentEnvelope Raw)) × (wrap_message json m ≡ ok es)
        × (unwrap_message json (role m) es ≡ ok (stored_message m))
  unfolding wrap_message unwrap_message role stored_message
  wrapped_back (system cs) =
      let (es, w, b) = each-each _ _ (λ c. c) system_back cs in (es, w, rw (b, map_same cs) refl)
  wrapped_back (user cs) =
      let (es, w, b) = each-each _ _ stored_content user_back cs in (es, w, rw b refl)
  wrapped_back (assistant cs) =
      let (es, w, b) = each-each _ _ (λ c. c) assistant_back cs in (es, w, rw (b, map_same cs) refl)

  -- Where encoding/json reads back what it wrote, marshalMessage of a message succeeds, and
  -- unmarshalMessage of its text under the message's role gives the message with the bytes of
  -- its files left out.
  pub marshal_message-unmarshal_message :
      (m : Message)
      → (r : Raw) × (marshal_message json m ≡ ok r)
        × (unmarshal_message json (role m) r ≡ ok (stored_message m))
  unfolding marshal_message unmarshal_message
  marshal_message-unmarshal_message m =
      let (es, w, b) = wrapped_back m in
      let (r, w', b') = v.envelope_back es in (r, rw (w, and_then) w', rw (b', and_then) b)
