-- ===== src/Provider/Ollama/Results.antt =====
-- About toOllamaMessages of agent/provider/ollama/adapter.go: what each role's messages hold.
use mathlib.Core.List.{map-append}
use graph_agent_dev_kit.Common.{
  ℕ, String, ◌==◌, List, [], ◌∷◌, ◌++◌, map, ◌≡◌, refl, sym, ◌∙◌, ap, ap₂, if◌then◌else◌,
  Bool-cases, inl, inr,
}
use graph_agent_dev_kit.Types.Content.{Message, system, user, assistant, ToolResultContent}
use graph_agent_dev_kit.Provider.Ollama.{
  ChatMessage, tool_message, system_texts, system_results, user_texts, user_results, user_images,
  system_message, user_message, to_ollama_message, to_ollama_messages,
}

-- The messages of a role.
unfoldable with_role : String → List ChatMessage → List ChatMessage
with_role r [] = []
with_role r (m ∷ ms) = if m.role_name == r then m ∷ with_role r ms else with_role r ms

-- The tool results of a history.
unfoldable results_of : List Message → List ToolResultContent
results_of [] = []
results_of (system cs ∷ ms) = system_results cs ++ results_of ms
results_of (user cs ∷ ms) = user_results cs ++ results_of ms
results_of (assistant bs ∷ ms) = results_of ms

with_role-append :
    (r : String) (xs ys : List ChatMessage)
    → with_role r (xs ++ ys) ≡ with_role r xs ++ with_role r ys
unfolding with_role
with_role-append r [] ys = refl
with_role-append r (x ∷ xs) ys = elim (Bool-cases (x.role_name == r)) [
  | inl same ↦ rw same (ap (λ l. x ∷ l) (with_role-append r xs ys))
  | inr other ↦ rw other (with_role-append r xs ys)
]

-- The messages that carry tool results have the role "tool" and no other.
tools-with_tool :
    (rs : List ToolResultContent) → with_role "tool" (map tool_message rs) ≡ map tool_message rs
unfolding with_role tool_message
tools-with_tool [] = refl
tools-with_tool (r ∷ rs) = ap (λ l. tool_message r ∷ l) (tools-with_tool rs)

no_tool-system_message : (ts : List String) → with_role "tool" (system_message ts) ≡ []
unfolding with_role system_message
no_tool-system_message [] = refl
no_tool-system_message (t ∷ ts) = refl

no_tool-user_message : (ts images : List String) → with_role "tool" (user_message ts images) ≡ []
unfolding with_role user_message
no_tool-user_message [] [] = refl
no_tool-user_message [] (i ∷ is) = refl
no_tool-user_message (t ∷ ts) images = refl

-- What stands before the tool results of a message has another role.
after_head :
    (head : List ChatMessage) (rs rest : List ToolResultContent)
    → with_role "tool" head ≡ []
    → with_role "tool" (head ++ map tool_message rs) ++ map tool_message rest
      ≡ map tool_message (rs ++ rest)
after_head head rs rest e =
    ap (λ l. l ++ map tool_message rest)
      (with_role-append "tool" head (map tool_message rs)
        ∙ ap₂ (λ l k. l ++ k) e (tools-with_tool rs))
    ∙ sym (map-append tool_message rs rest)

module _ (encode : List ℕ → String) where
  one_tool :
      (m : Message) (ms : List Message)
      → with_role "tool" (to_ollama_message encode m) ++ map tool_message (results_of ms)
        ≡ map tool_message (results_of (m ∷ ms))
  unfolding to_ollama_message with_role results_of
  one_tool (system cs) ms =
      after_head (system_message (system_texts cs)) (system_results cs) (results_of ms)
        (no_tool-system_message (system_texts cs))
  one_tool (user cs) ms =
      after_head (user_message (user_texts cs) (user_images encode cs)) (user_results cs)
        (results_of ms) (no_tool-user_message (user_texts cs) (user_images encode cs))
  one_tool (assistant bs) ms = refl

  -- The Ollama messages of the role "tool" that toOllamaMessages makes of a history are exactly
  -- the tool results of its system and user messages, in order, with failures marked.
  to_ollama_messages-tool :
      (ms : List Message)
      → with_role "tool" (to_ollama_messages encode ms) ≡ map tool_message (results_of ms)
  unfolding to_ollama_messages with_role results_of
  to_ollama_messages-tool [] = refl
  to_ollama_messages-tool (m ∷ ms) =
      with_role-append "tool" (to_ollama_message encode m) (to_ollama_messages encode ms)
      ∙ ap (λ l. with_role "tool" (to_ollama_message encode m) ++ l) (to_ollama_messages-tool ms)
      ∙ one_tool m ms
