-- ===== src/Agent/Loop/Fetched.antt =====
-- About resolveFiles of agent/agent.go: the iteration caps in the messages.
use graph_agent_dev_kit.Common.{
  ℕ, String, Option, none, some, List, [], ◌∷◌, Result, ok, Result-cases, Option-cases, Bool-cases,
  inl, inr, ◌≡◌,
}
use graph_agent_dev_kit.Common.Dict.{Dict, get}
use graph_agent_dev_kit.Types.Content.{Message, system, user, assistant, UserContent, FileContent}
use graph_agent_dev_kit.Types.Errors.{Error}
use graph_agent_dev_kit.Agent.Env.{Env, Resolved}
use graph_agent_dev_kit.Agent.Files.{
  keep_or_extract, with_data, fetch, resolve_file, resolve_content, resolve_each, resolve_files,
}
use graph_agent_dev_kit.Agent.Loop.Capped.{CappedUser, CappedAll, CappedUser-append}

-- What an extractor gives for a file holds no iteration cap above M.
abbrev pub ExtractsCapped : ℕ → Env → Type 0
ExtractsCapped M env =
    (type : String) (extract : List ℕ → String → Result Error (List UserContent)) (bytes : List ℕ)
    (blocks : List UserContent)
    → get env.extractors type ≡ some extract
    → extract bytes type ≡ ok blocks
    → CappedUser M blocks

module _ (M : ℕ) (env : Env) (x : ExtractsCapped M env) where
  keep_or_extract-Capped : (fc : FileContent) → CappedUser M (keep_or_extract env fc)
  unfolding keep_or_extract
  keep_or_extract-Capped fc = elim (Bool-cases (env.supports fc.media_type)) [
    | inl native ↦ rw native tt
    | inr foreign ↦ elim (Option-cases (get env.extractors fc.media_type)) [
      | inl e ↦ rw (foreign, e) tt
      | inr (extract, e) ↦ elim (Result-cases (extract fc.bytes fc.media_type)) [
        | inl (blocks, q) ↦ rw (foreign, e, q) (x fc.media_type extract fc.bytes blocks e q)
        | inr (f, q) ↦ rw (foreign, e, q) tt
      ]
    ]
  ]

  fetch-Capped :
      (fc : FileContent) (r : Option (String → Result Error Resolved))
      → CappedUser M (fetch env fc r)
  unfolding fetch
  fetch-Capped fc none = tt
  fetch-Capped fc (some resolve) = elim (Result-cases (resolve fc.uri)) [
    | inl (r, e) ↦ rw e (keep_or_extract-Capped (with_data env fc r))
    | inr (f, e) ↦ rw e tt
  ]

  resolve_file-Capped : (fc : FileContent) → CappedUser M (resolve_file env fc)
  unfolding resolve_file
  resolve_file-Capped fc = go fc.bytes
    where
      go :
          (bs : List ℕ)
          → CappedUser M (elim bs [
            | [] ↦ fetch env fc (get env.resolvers (env.uri_scheme fc.uri))
            | b ∷ rest ↦ UserContent.file fc ∷ []
          ])
      go [] = fetch-Capped fc (get env.resolvers (env.uri_scheme fc.uri))
      go (b ∷ bs) = tt

  resolve_content-Capped :
      (cs : List UserContent) → CappedUser M cs → CappedUser M (resolve_content env cs)
  unfolding resolve_content
  resolve_content-Capped [] c = tt
  resolve_content-Capped (UserContent.file fc ∷ cs) c =
      CappedUser-append M (resolve_file env fc) _ (resolve_file-Capped fc)
        (resolve_content-Capped cs c)
  resolve_content-Capped (UserContent.config cc ∷ cs) c = (c.0, resolve_content-Capped cs c.1)
  resolve_content-Capped (UserContent.text s ∷ cs) c = resolve_content-Capped cs c
  resolve_content-Capped (UserContent.tool_result r ∷ cs) c = resolve_content-Capped cs c
  resolve_content-Capped (UserContent.feedback f ∷ cs) c = resolve_content-Capped cs c

  resolve_each-Capped : (ms : List Message) → CappedAll M ms → CappedAll M (resolve_each env ms)
  unfolding resolve_each
  resolve_each-Capped [] c = tt
  resolve_each-Capped (user cs ∷ ms) c = (resolve_content-Capped cs c.0, resolve_each-Capped ms c.1)
  resolve_each-Capped (system cs ∷ ms) c = (c.0, resolve_each-Capped ms c.1)
  resolve_each-Capped (assistant cs ∷ ms) c = (tt, resolve_each-Capped ms c.1)

  pub resolve_files-Capped :
      (ms : List Message) → CappedAll M ms → CappedAll M (resolve_files env ms)
  unfolding resolve_files
  resolve_files-Capped ms c = go env.resolvers
    where
      go :
          (rs : Dict (String → Result Error Resolved))
          → CappedAll M (elim rs [ [] ↦ ms | r ∷ more ↦ resolve_each env ms ])
      go [] = c
      go (r ∷ rs) = resolve_each-Capped ms c
