-- ===== src/Rag/Search/Found.antt =====
-- About what Search of rag/internal/pipeline/pipeline.go finds.
use graph_agent_dev_kit.Common.{ℕ, String, List, Result, ok, ◌≡◌, All}
use graph_agent_dev_kit.Types.Errors.{Error}
use graph_agent_dev_kit.Rag.Memstore.{ContentVariant, Provenance}
use graph_agent_dev_kit.Rag.Hits.{SearchHit, SearchOptions, SearchConfig}
use graph_agent_dev_kit.Rag.Fusion.Entries.{OfHit}
use graph_agent_dev_kit.Rag.Fusion.Fused.{IsFused}
use graph_agent_dev_kit.Rag.Search.{Retriever, SearchParts, queries_of, ask_all, options_of}

module _ {F S : Type 0} where
  -- Whatever a retriever answers is of hits that P holds of.
  unfoldable pub Answers : (ContentVariant F → Provenance → Type 0) → Retriever F S → Type 0
  Answers P retrieve =
      (q : String) (opts : SearchOptions S) (hits : List (SearchHit F S))
      → retrieve q opts ≡ ok hits
      → All (OfHit P) hits

  -- The hits are a fusion of lists that the retrievers gave for the queries, within the limit.
  pub record IsAnswer (P : ContentVariant F → Provenance → Type 0) (parts : SearchParts F S)
      (query : String) (cfg : SearchConfig S) (n : ℕ) (hits : List (SearchHit F S)) : Type 0 where
    pub queries : List String
    pub lists : List (List (SearchHit F S))
    pub asked : queries_of parts query ≡ ok queries
    pub given : ask_all parts.retrievers queries (options_of parts cfg) ≡ ok lists
    pub fused : IsFused P parts.fusion cfg.min_score lists n hits

  abbrev ok_hits : List (SearchHit F S) → Result Error (List (SearchHit F S))
  ok_hits hits = ok hits
