-- ===== src/Rag/EmbedderRegistry.antt =====
-- rag/embedderregistry/registry.go: the batch of variants is split by content type, each part goes to
-- the embedder of its type, and the embeddings are put back in the order of the batch. The map of
-- groups is read in the order of its entries. A nil embedding is none.
pub mod Groups
pub mod Ordered
use graph_agent_dev_kit.Common.{
  ℕ, zero, suc, String, ◌<>◌, Option, none, some, List, [], ◌∷◌, ◌++◌, map, Result, ok, err,
  and_then, if◌then◌else◌,
}
use graph_agent_dev_kit.Common.Dict.{Dict, get, put}
use graph_agent_dev_kit.Types.Errors.{Error, opaque_error, in_context}

abbrev pub Embedder : Type 0 → Type 0 → Type 0
Embedder V E = List V → Result Error (List E)

pub record Registry (V E : Type 0) : Type 0 where
  pub specific : Dict (Embedder V E)
  pub fallback : Option (Embedder V E)

-- results[i] = x, for an index within the list.
unfoldable pub set_at : {A : Type 0} → ℕ → A → List A → List A
set_at n x [] = []
set_at zero x (y ∷ ys) = x ∷ ys
set_at (suc n) x (y ∷ ys) = y ∷ set_at n x ys

-- make([][]float32, len(variants))
unfoldable pub no_results : {V E : Type 0} → List V → List (Option E)
no_results [] = []
no_results (v ∷ vs) = none ∷ no_results vs

-- The variants of a group, with their positions in the batch.
abbrev pub Group : Type 0 → Type 0
Group V = List (ℕ × V)

abbrev pub group_or_empty : {V : Type 0} → Option (Group V) → Group V
group_or_empty none = []
group_or_empty (some g) = g

abbrev pub batch_of : {V : Type 0} → Group V → List V
batch_of [] = []
batch_of (iv ∷ g) = iv.1 ∷ batch_of g

-- "Place results back in original order", for as many embeddings as there are.
unfoldable pub place : {V E : Type 0} → Group V → List E → List (Option E) → List (Option E)
unfolding set_at
place (iv ∷ g) (e ∷ es) results = place g es (set_at iv.0 (some e) results)
place _ _ results = results

-- for i, v := range variants, from the i-th on.
unfoldable pub group_from :
    {V : Type 0} → (V → String) → ℕ → List V → Dict (Group V) → Dict (Group V)
group_from content_type i [] groups = groups
group_from content_type i (v ∷ vs) groups =
    let ct = content_type v in
    group_from content_type (suc i) vs
      (put groups ct (group_or_empty (get groups ct) ++ (i, v) ∷ []))

-- %q, of a name that holds nothing to escape.
abbrev quoted : String → String
quoted t = "\"" <> (t <> "\"")

module _ {V E : Type 0} where
  -- Register and WithFallback
  unfoldable pub register : String → Embedder V E → Registry V E → Registry V E
  register content_type embedder r = record r { specific = put r.specific content_type embedder }

  unfoldable pub with_fallback : Embedder V E → Registry V E → Registry V E
  with_fallback embedder r = record r { fallback = some embedder }

  -- New and NewTextOnly
  abbrev pub new_registry : Registry V E
  new_registry = record { specific = []; fallback = none }

  unfoldable pub new_text_only : Embedder V E → Registry V E
  unfolding with_fallback
  new_text_only embedder = with_fallback embedder new_registry

  -- The embedder of a type, or the fallback.
  unfoldable pub embedder_for : Registry V E → String → Option (Embedder V E)
  embedder_for r ct = elim (get r.specific ct) [ some embedder ↦ some embedder | none ↦ r.fallback ]

  -- for ct, group := range groups
  unfoldable pub embed_groups :
      Registry V E → Dict (Group V) → List (Option E) → Result Error (List (Option E))
  unfolding embedder_for place
  embed_groups r [] results = ok results
  embed_groups r ((ct, group) ∷ groups) results = elim (embedder_for r ct) [
    | none ↦ err (
        opaque_error (
          "no embedder registered for content type "
          <> (quoted ct <> " and no fallback configured")))
    | some embed ↦
        and_then (in_context ("embed " <> quoted ct) (embed (batch_of group)))
          (λ es. embed_groups r groups (place group es results))
  ]

  -- Embed
  unfoldable pub registry_embed :
      (V → String) → Registry V E → List V → Result Error (List (Option E))
  unfolding group_from embed_groups no_results
  registry_embed content_type r [] = ok []
  registry_embed content_type r (v ∷ vs) =
      embed_groups r (group_from content_type 0 (v ∷ vs) []) (no_results (v ∷ vs))
