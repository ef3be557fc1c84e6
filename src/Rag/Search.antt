-- ===== src/Rag/Search.antt =====
-- Search and Lookup of rag/internal/pipeline/pipeline.go. What a retriever, the transformer, the
-- reranker and an assembler answer is a function of the question: the calls of the retrievers may run
-- at once, and write slots of their own. The fusion of the lists is Rag/Fusion.
pub mod Found
use graph_agent_dev_kit.Common.{
  ℕ, suc, ◌+◌, String, Option, none, some, List, [], ◌∷◌, ◌++◌, Result, ok, err, and_then, Bool,
  true, false, ◌&&◌, not, if◌then◌else◌, length, take, ltb,
}
use graph_agent_dev_kit.Common.Dict.{Dict, get, put}
use graph_agent_dev_kit.Common.Int.{ℤ, pos, negsuc}
use graph_agent_dev_kit.Types.Errors.{Error, opaque_error, in_context}
use graph_agent_dev_kit.Tree.Serialize.Envelopes.{each}
use graph_agent_dev_kit.Rag.Memstore.{ContentVariant, Provenance, Store, get_variant}
use graph_agent_dev_kit.Rag.Hits.{SearchHit, SearchOptions, SearchConfig, search_config}
use graph_agent_dev_kit.Rag.Fusion.{Fusion, fuse}
use graph_agent_dev_kit.Rag.Context.{AssembledContext, assemble}

pub record SearchPipelineResult (F S : Type 0) : Type 0 where
  pub query : String
  pub transformed_queries : List String
  pub hits : List (SearchHit F S)
  pub context : Option AssembledContext

abbrev pub Retriever : Type 0 → Type 0 → Type 0
Retriever F S = String → SearchOptions S → Result Error (List (SearchHit F S))

-- The part of Config that Search reads, and what it calls of other packages.
pub record SearchParts (F S : Type 0) : Type 0 where
  pub fusion : Fusion F S
  pub query_transformer : Option (String → Result Error (List String))
  pub retrievers : List (Retriever F S)
  pub reranker : Option (String → List (SearchHit F S) → Result Error (List (SearchHit F S)))
  pub context_assembler : Option (String → List (SearchHit F S) → Result Error AssembledContext)
  pub count_tokens : String → ℕ
  pub quote : String → String

abbrev pub no_retriever : Error
no_retriever = opaque_error "no retriever configured"

-- Step 1: the queries, which are the query alone where the transformer gives none.
unfoldable pub or_alone : String → List String → List String
or_alone query [] = query ∷ []
or_alone query (q ∷ qs) = q ∷ qs

-- "if len(queries) > 1"
unfoldable pub shown_queries : List String → List String
shown_queries (q ∷ r ∷ qs) = q ∷ r ∷ qs
shown_queries _ = []

module _ {F S : Type 0} where
  unfoldable pub queries_of : SearchParts F S → String → Result Error (List String)
  unfolding or_alone
  queries_of parts query = elim parts.query_transformer [
    | none ↦ ok (query ∷ [])
    | some transform ↦
        and_then (in_context "transform query" (transform query)) (λ qs. ok (or_alone query qs))
  ]

  -- Step 2: the lists of all retrievers for all queries, retriever by retriever.
  unfoldable pub ask_all :
      List (Retriever F S)
      → List String
      → SearchOptions S
      → Result Error (List (List (SearchHit F S)))
  unfolding each
  ask_all [] qs opts = ok []
  ask_all (retrieve ∷ rs) qs opts =
      and_then (each (λ q. retrieve q opts) qs)
        (λ lists. and_then (ask_all rs qs opts) (λ rest. ok (lists ++ rest)))

  -- Step 6
  unfoldable pub rerank :
      SearchParts F S → String → List (SearchHit F S) → Result Error (List (SearchHit F S))
  rerank parts query [] = ok []
  rerank parts query (hit ∷ hits) = elim parts.reranker [
    | none ↦ ok (hit ∷ hits)
    | some reorder ↦ in_context "rerank" (reorder query (hit ∷ hits))
  ]

  -- Step 7
  unfoldable pub assembled :
      SearchParts F S
      → SearchConfig S
      → String
      → List (SearchHit F S)
      → Result Error (Option AssembledContext)
  unfolding assemble
  assembled parts cfg query [] = ok none
  assembled parts cfg query (hit ∷ hits) =
      if cfg.assemble_context
      then elim parts.context_assembler [
        | none ↦
            ok (some (assemble parts.count_tokens parts.quote cfg.max_tokens query (hit ∷ hits)))
        | some build ↦
            and_then (in_context "assemble context" (build query (hit ∷ hits))) (λ c. ok (some c))
      ]
      else ok none

  -- searchOpts: MinScore stays 0.
  unfoldable pub options_of : SearchParts F S → SearchConfig S → SearchOptions S
  options_of parts cfg = record {
    content_types = cfg.content_types;
    limit = cfg.limit;
    metadata_filters = cfg.metadata_filters;
    min_score = parts.fusion.scores.zero_score;
  }

  -- Search from step 7, from step 3, from step 2 and from step 1 on.
  unfoldable pub answer_hits :
      SearchParts F S
      → SearchConfig S
      → String
      → List String
      → List (SearchHit F S)
      → Result Error (SearchPipelineResult F S)
  unfolding assembled shown_queries
  answer_hits parts cfg query qs hits = and_then (assembled parts cfg query hits) (λ context.
      ok (record {
        query = query;
        transformed_queries = shown_queries qs;
        hits = hits;
        context = context;
      }))

  unfoldable pub answer_lists :
      SearchParts F S
      → SearchConfig S
      → String
      → List String
      → List (List (SearchHit F S))
      → Result Error (SearchPipelineResult F S)
  unfolding fuse rerank answer_hits
  answer_lists parts cfg query qs lists =
      and_then (rerank parts query (fuse parts.fusion cfg lists)) (answer_hits parts cfg query qs)

  unfoldable pub answer_queries :
      SearchParts F S
      → SearchConfig S
      → String
      → List String
      → Result Error (SearchPipelineResult F S)
  unfolding ask_all options_of answer_lists
  answer_queries parts cfg query qs =
      and_then (in_context "retrieve" (ask_all parts.retrievers qs (options_of parts cfg)))
        (answer_lists parts cfg query qs)

  unfoldable pub search_with :
      SearchParts F S → SearchConfig S → String → Result Error (SearchPipelineResult F S)
  unfolding queries_of answer_queries
  search_with parts cfg query = and_then (queries_of parts query) (answer_queries parts cfg query)

  -- "if len(p.cfg.Retrievers) == 0"
  unfoldable pub search_if_any :
      List (Retriever F S)
      → SearchParts F S
      → SearchConfig S
      → String
      → Result Error (SearchPipelineResult F S)
  unfolding search_with
  search_if_any [] parts cfg query = err no_retriever
  search_if_any (r ∷ rs) parts cfg query = search_with parts cfg query

  -- Search
  unfoldable pub search :
      SearchParts F S
      → String
      → List (SearchConfig S → SearchConfig S)
      → Result Error (SearchPipelineResult F S)
  unfolding search_if_any search_config
  search parts query opts =
      search_if_any parts.retrievers parts (search_config parts.fusion.scores opts) query

  -- Lookup: `one` is the score 1.0.
  unfoldable pub lookup : S → String → Store F → Result Error (SearchHit F S)
  unfolding get_variant
  lookup one uuid s =
      and_then (in_context "get variant" (get_variant uuid s))
        (λ r. ok (record { variant = r.0; score = one; provenance = r.1 }))
