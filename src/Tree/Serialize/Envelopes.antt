-- ===== src/Tree/Serialize/Envelopes.antt =====
-- agent/tree/serialize.go: messages as JSON envelopes, whose content blocks carry a type tag. In
-- `return c, json.Unmarshal(ce.Data, &c)` the call is made before `c` is read, as Go's compiler does.
use graph_agent_dev_kit.Common.{
  String, ◌<>◌, ◌==◌, List, [], ◌∷◌, Result, ok, err, and_then, ◌≡◌, if◌then◌else◌,
}
use graph_agent_dev_kit.Types.Content.{
  Message, system, user, assistant, SystemContent, UserContent, AssistantContent, ToolUseContent,
  ToolResultContent, ConfigContent, FileContent, ThinkingContent, FeedbackContent, text,
  tool_result, config, file, feedback, tool_use, thinking,
}
use graph_agent_dev_kit.Types.Errors.{Error, opaque_error}

-- json.Marshal and json.Unmarshal at one type.
pub record Codec (Raw A : Type 0) : Type 0 where
  pub marshal : A → Result Error Raw
  pub unmarshal : Raw → Result Error A

-- A value is written without an error, and read back as `f` of it: what encoding/json documents for
-- values without functions, channels and cycles, where `f` clears the fields that are tagged "-".
abbrev pub IsReadAs : {Raw A : Type 0} → Codec Raw A → (A → A) → Type 0
IsReadAs {Raw} {A} c f = (a : A) → (r : Raw) × (c.marshal a ≡ ok r) × (c.unmarshal r ≡ ok (f a))

pub record ContentEnvelope (Raw : Type 0) : Type 0 where
  pub kind : String
  pub raw : Raw

-- The types that marshalMessage and unmarshalMessage hand to encoding/json. A message envelope is
-- the list of its content.
pub record MessageJson (Raw : Type 0) : Type 0 where
  pub text : Codec Raw String
  pub tool_use : Codec Raw ToolUseContent
  pub tool_result : Codec Raw ToolResultContent
  pub config : Codec Raw ConfigContent
  pub file : Codec Raw FileContent
  pub thinking : Codec Raw ThinkingContent
  pub feedback : Codec Raw FeedbackContent
  pub envelope : Codec Raw (List (ContentEnvelope Raw))

-- Message.Role
unfoldable pub role : Message → String
role (system content) = "system"
role (user content) = "user"
role (assistant content) = "assistant"

-- A loop that appends what each element gives, and returns at the first error.
unfoldable pub each {ℓ} : {E A B : Type ℓ} → (A → Result E B) → List A → Result E (List B)
each f [] = ok []
each f (x ∷ xs) = and_then (f x) (λ y. and_then (each f xs) (λ ys. ok (y ∷ ys)))

module _ {Raw : Type 0} (json : MessageJson Raw) where
  abbrev tagged : String → Result Error Raw → Result Error (ContentEnvelope Raw)
  tagged kind r = and_then r (λ raw. ok (record { kind = kind; raw = raw }))

  -- systemContentType, userContentType and assistantContentType give the tag.
  unfoldable pub wrap_system : SystemContent → Result Error (ContentEnvelope Raw)
  wrap_system (text t) = tagged "text" (json.text.marshal t)
  wrap_system (tool_result c) = tagged "tool_result" (json.tool_result.marshal c)
  wrap_system (config c) = tagged "config" (json.config.marshal c)

  unfoldable pub wrap_user : UserContent → Result Error (ContentEnvelope Raw)
  wrap_user (text t) = tagged "text" (json.text.marshal t)
  wrap_user (tool_result c) = tagged "tool_result" (json.tool_result.marshal c)
  wrap_user (config c) = tagged "config" (json.config.marshal c)
  wrap_user (file c) = tagged "file" (json.file.marshal c)
  wrap_user (feedback c) = tagged "feedback" (json.feedback.marshal c)

  unfoldable pub wrap_assistant : AssistantContent → Result Error (ContentEnvelope Raw)
  wrap_assistant (text t) = tagged "text" (json.text.marshal t)
  wrap_assistant (tool_use c) = tagged "tool_use" (json.tool_use.marshal c)
  wrap_assistant (thinking c) = tagged "thinking" (json.thinking.marshal c)

  unfoldable pub wrap_message : Message → Result Error (List (ContentEnvelope Raw))
  unfolding each wrap_system wrap_user wrap_assistant
  wrap_message (system content) = each wrap_system content
  wrap_message (user content) = each wrap_user content
  wrap_message (assistant content) = each wrap_assistant content

  -- marshalMessage
  unfoldable pub marshal_message : Message → Result Error Raw
  unfolding wrap_message
  marshal_message m = and_then (wrap_message m) json.envelope.marshal

  abbrev read_as : {A B : Type 0} → Codec Raw A → (A → B) → Raw → Result Error B
  read_as c f raw = and_then (c.unmarshal raw) (λ a. ok (f a))

  -- unmarshalSystemContent, unmarshalUserContent and unmarshalAssistantContent
  unfoldable pub unmarshal_system_content : ContentEnvelope Raw → Result Error SystemContent
  unmarshal_system_content e =
      if e.kind == "text"
      then read_as json.text (λ t. text t) e.raw
      else if e.kind == "tool_result"
      then read_as json.tool_result (λ c. tool_result c) e.raw
      else if e.kind == "config"
      then read_as json.config (λ c. config c) e.raw
      else err (opaque_error ("unknown system content type: " <> e.kind))

  unfoldable pub unmarshal_user_content : ContentEnvelope Raw → Result Error UserContent
  unmarshal_user_content e =
      if e.kind == "text"
      then read_as json.text (λ t. text t) e.raw
      else if e.kind == "tool_result"
      then read_as json.tool_result (λ c. tool_result c) e.raw
      else if e.kind == "config"
      then read_as json.config (λ c. config c) e.raw
      else if e.kind == "file"
      then read_as json.file (λ c. file c) e.raw
      else if e.kind == "feedback"
      then read_as json.feedback (λ c. feedback c) e.raw
      else err (opaque_error ("unknown user content type: " <> e.kind))

  unfoldable pub unmarshal_assistant_content : ContentEnvelope Raw → Result Error AssistantContent
  unmarshal_assistant_content e =
      if e.kind == "text"
      then read_as json.text (λ t. text t) e.raw
      else if e.kind == "tool_use"
      then read_as json.tool_use (λ c. tool_use c) e.raw
      else if e.kind == "thinking"
      then read_as json.thinking (λ c. thinking c) e.raw
      else err (opaque_error ("unknown assistant content type: " <> e.kind))

  unfoldable pub unwrap_message : String → List (ContentEnvelope Raw) → Result Error Message
  unfolding each unmarshal_system_content unmarshal_user_content unmarshal_assistant_content
  unwrap_message r content =
      if r == "system"
      then and_then (each unmarshal_system_content content) (λ cs. ok (system cs))
      else if r == "user"
      then and_then (each unmarshal_user_content content) (λ cs. ok (user cs))
      else if r == "assistant"
      then and_then (each unmarshal_assistant_content content) (λ cs. ok (assistant cs))
      else err (opaque_error ("unknown role: " <> r))

  -- unmarshalMessage
  unfoldable pub unmarshal_message : String → Raw → Result Error Message
  unfolding unwrap_message
  unmarshal_message r raw = and_then (json.envelope.unmarshal raw) (unwrap_message r)
