-- ===== src/Agent/Files.antt =====
-- agent/agent.go: resolveFiles.
use graph_agent_dev_kit.Common.{
  String, ◌==◌, Option, none, some, List, [], ◌∷◌, ◌++◌, Result, ok, err, if◌then◌else◌,
}
use graph_agent_dev_kit.Common.Dict.{get}
use graph_agent_dev_kit.Types.Content.{Message, user, UserContent, FileContent}
use graph_agent_dev_kit.Types.Errors.{Error}
use graph_agent_dev_kit.Agent.Env.{Env, Resolved}

module _ (env : Env) where
  -- A file whose data came: kept if the provider reads its type, else extracted if that works.
  unfoldable pub keep_or_extract : FileContent → List UserContent
  keep_or_extract fc =
      if env.supports fc.media_type
      then UserContent.file fc ∷ []
      else elim (get env.extractors fc.media_type) [
        | none ↦ UserContent.file fc ∷ []
        | some extract ↦ elim (extract fc.bytes fc.media_type) [
          | ok blocks ↦ blocks
          | err e ↦ UserContent.file fc ∷ []
        ]
      ]

  unfoldable pub with_data : FileContent → Resolved → FileContent
  with_data fc r = record fc {
    bytes = r.bytes;
    media_type = if fc.media_type == "" then r.media_type else fc.media_type;
  }

  unfoldable pub fetch : FileContent → Option (String → Result Error Resolved) → List UserContent
  unfolding keep_or_extract with_data
  fetch fc none = UserContent.file fc ∷ []
  fetch fc (some resolve) = elim (resolve fc.uri) [
    | err e ↦ UserContent.file fc ∷ []
    | ok r ↦ keep_or_extract (with_data fc r)
  ]

  unfoldable pub resolve_file : FileContent → List UserContent
  unfolding fetch
  resolve_file fc = elim fc.bytes [
    | [] ↦ fetch fc (get env.resolvers (env.uri_scheme fc.uri))
    | b ∷ bs ↦ UserContent.file fc ∷ []
  ]

  unfoldable pub resolve_content : List UserContent → List UserContent
  unfolding resolve_file
  resolve_content [] = []
  resolve_content (UserContent.file fc ∷ cs) = resolve_file fc ++ resolve_content cs
  resolve_content (c ∷ cs) = c ∷ resolve_content cs

  unfoldable pub resolve_each : List Message → List Message
  unfolding resolve_content
  resolve_each [] = []
  resolve_each (user cs ∷ ms) = user (resolve_content cs) ∷ resolve_each ms
  resolve_each (m ∷ ms) = m ∷ resolve_each ms

  -- resolveFiles
  unfoldable pub resolve_files : List Message → List Message
  unfolding resolve_each
  resolve_files ms = elim env.resolvers [ [] ↦ ms | r ∷ rs ↦ resolve_each ms ]
