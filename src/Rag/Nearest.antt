-- ===== src/Rag/Nearest.antt =====
-- SearchByEmbedding of rag/memstore/store.go, and Retrieve of rag/vectorretriever/retriever.go. The
-- similarity of two embeddings and sort.Slice are parameters; a < b is b > a. The map of documents is
-- read in the order of its entries.
pub mod Accepted
use graph_agent_dev_kit.Common.{
  ℕ, String, Option, none, some, List, [], ◌∷◌, ◌++◌, Bool, true, false, ◌&&◌, not, Result, ok, err,
  and_then, if◌then◌else◌, take, ltb,
}
use graph_agent_dev_kit.Common.Dict.{Dict}
use graph_agent_dev_kit.Common.Int.{ℤ, pos, negsuc}
use graph_agent_dev_kit.Types.Errors.{Error, in_context, panics}
use graph_agent_dev_kit.Rag.Memstore.{
  Store, Document, Section, ContentVariant, Provenance, provenance_of,
}
use graph_agent_dev_kit.Rag.Hits.{
  SearchHit, SearchOptions, MetadataFilter, Scores, match_filters, merge_metadata, wants_type,
}

-- What the search calls of other packages.
pub record Nearness (F S : Type 0) : Type 0 where
  pub scores : Scores S
  pub similarity : List F → List F → S
  pub sort_by_score : List (SearchHit F S) → List (SearchHit F S)

abbrev pub has_embedding : {F : Type 0} → List F → Bool
has_embedding [] = false
has_embedding (x ∷ e) = true

-- "limit := 10"
unfoldable pub hit_limit : ℤ → ℕ
hit_limit (pos n) = if ltb 0 n then n else 10
hit_limit (negsuc n) = 10

module _ {F S : Type 0} (near : Nearness F S) (opts : SearchOptions S) where
  -- "if opts != nil && opts.MinScore > 0 && score < opts.MinScore"
  unfoldable pub is_near : S → Bool
  is_near x = not (
      near.scores.greater opts.min_score near.scores.zero_score
      && near.scores.greater opts.min_score x)

  -- The tests that a variant of a document has to pass.
  unfoldable pub accepts : List F → Document F → ContentVariant F → Bool
  unfolding is_near wants_type match_filters merge_metadata
  accepts e doc v =
      wants_type opts.content_types v.content_type
      && has_embedding v.embedding
      && match_filters (merge_metadata doc.metadata v.metadata) opts.metadata_filters
      && is_near (near.similarity e v.embedding)

  abbrev pub hit_of : List F → Document F → Section F → ContentVariant F → SearchHit F S
  hit_of e doc sec v = record {
    variant = v;
    score = near.similarity e v.embedding;
    provenance = provenance_of doc sec;
  }

  -- The loops over the variants, the sections and the documents.
  unfoldable pub variant_hits :
      List F → Document F → Section F → List (ContentVariant F) → List (SearchHit F S)
  unfolding accepts
  variant_hits e doc sec [] = []
  variant_hits e doc sec (v ∷ vs) =
      let rest = variant_hits e doc sec vs in
      if accepts e doc v then hit_of e doc sec v ∷ rest else rest

  unfoldable pub section_hits : List F → Document F → List (Section F) → List (SearchHit F S)
  unfolding variant_hits
  section_hits e doc [] = []
  section_hits e doc (sec ∷ secs) = variant_hits e doc sec sec.variants ++ section_hits e doc secs

  unfoldable pub document_hits : List F → Dict (Document F) → List (SearchHit F S)
  unfolding section_hits
  document_hits e [] = []
  document_hits e ((k, doc) ∷ docs) = section_hits e doc doc.sections ++ document_hits e docs

  -- SearchByEmbedding
  unfoldable pub search_by_embedding : List F → Store F → List (SearchHit F S)
  unfolding document_hits hit_limit
  search_by_embedding e s =
      take (hit_limit opts.limit) (near.sort_by_score (document_hits e s.docs))

  -- Retrieve of the vector retriever: an embedder that answers nothing makes embeddings[0] panic.
  unfoldable pub vector_retrieve :
      (ContentVariant F → Result Error (List (List F)))
      → Store F
      → String
      → Result Error (List (SearchHit F S))
  unfolding search_by_embedding
  vector_retrieve embed_one s query =
      and_then
        (in_context "embed query" (
          embed_one (record {
            uuid = "";
            section_uuid = "";
            content_type = "text";
            mime_type = "";
            bytes = [];
            text = query;
            embedding = [];
            metadata = [];
          })))
        (λ es. elim es [ [] ↦ err panics | e ∷ _ ↦ ok (search_by_embedding e s) ])
