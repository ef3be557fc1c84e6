-- ===== src/Examples/Searches.antt =====
-- A search with two retrievers, and an assembled context.
use graph_agent_dev_kit.Common.{
  false, if◌then◌else◌, ℕ, ◌+◌, String, List, none, [], ◌∷◌, ok, ◌≡◌, refl, All, length, ltb, leb,
}
use graph_agent_dev_kit.Common.Int.{pos, WithinLimit}
use graph_agent_dev_kit.Common.Dict.{get, put}
use graph_agent_dev_kit.Rag.Memstore.{
  Store, ContentVariant, Provenance, empty_store, create_document,
}
use graph_agent_dev_kit.Rag.Hits.{SearchHit, SearchOptions, Scores}
use graph_agent_dev_kit.Rag.Fusion.{Fusion}
use graph_agent_dev_kit.Rag.Search.{Retriever, SearchParts, SearchPipelineResult}
use graph_agent_dev_kit.Rag.Nearest.{Nearness, search_by_embedding}
use graph_agent_dev_kit.Rag.Nearest.Accepted.{IsHit, search_by_embedding-IsHit}
use graph_agent_dev_kit.Rag.ParentRetriever.{parent_retrieve}
use graph_agent_dev_kit.Rag.ParentRetriever.Expanded.{IsParents, parent_retrieve-IsParents}
use graph_agent_dev_kit.Rag.Context.{assemble}
use graph_agent_dev_kit.Rag.Context.Budget.{IsWithin, assemble-budget}
use mathlib.Core.List.{Permᴰ}
use mathlib.Core.List.Permᴰ

abbrev variant : String → ContentVariant ℕ
variant id = record {
  uuid = id;
  section_uuid = "s";
  content_type = "text";
  mime_type = "";
  bytes = [];
  text = id;
  embedding = [];
  metadata = [];
}

abbrev place : Provenance
place = record {
  document_uuid = "d";
  document_title = "t";
  source_uri = "";
  section_uuid = "s";
  section_heading = "";
  section_index = 0;
}

abbrev hit : String → ℕ → SearchHit ℕ ℕ
hit id n = record { variant = variant id; score = n; provenance = place }

-- Scores in units of which a rank counts one.
abbrev counts : Scores ℕ
counts = record {
  zero_score = 0;
  plus = λ a b. a + b;
  reciprocal = λ n. 1;
  greater = λ a b. ltb b a;
}

-- A stable sort by score.
abbrev insert_hit : SearchHit ℕ ℕ → List (SearchHit ℕ ℕ) → List (SearchHit ℕ ℕ)
insert_hit h [] = h ∷ []
insert_hit h (x ∷ xs) =
    let rest = insert_hit h xs in if ltb h.score x.score then x ∷ rest else h ∷ x ∷ xs

abbrev sort_hits : List (SearchHit ℕ ℕ) → List (SearchHit ℕ ℕ)
sort_hits [] = []
sort_hits (h ∷ hits) = insert_hit h (sort_hits hits)

abbrev NotAbove : ℕ → List (SearchHit ℕ ℕ) → Type 0
NotAbove n hits = All (λ later. ltb n later.score ≡ false) hits

abbrev fusing : Fusion ℕ ℕ
fusing = record { scores = counts; at_least = λ a b. leb b a; sort_by_score = sort_hits }

abbrev first_retriever : Retriever ℕ ℕ
first_retriever q opts = ok (hit "a" 3 ∷ hit "b" 2 ∷ [])

abbrev second_retriever : Retriever ℕ ℕ
second_retriever q opts = ok (hit "a" 5 ∷ [])

abbrev two_retrievers : SearchParts ℕ ℕ
two_retrievers = record {
  fusion = fusing;
  query_transformer = none;
  retrievers = first_retriever ∷ second_retriever ∷ [];
  reranker = none;
  context_assembler = none;
  count_tokens = λ t. 2;
  quote = λ t. t;
}

abbrev found : SearchPipelineResult ℕ ℕ
found = record { query = "q"; transformed_queries = []; hits = hit "a" 2 ∷ []; context = none }

abbrev Plain : ContentVariant ℕ → Provenance → Type 0
Plain v p = v.content_type ≡ "text"

assemble-budget_example :
    IsWithin {F = ℕ} {S = ℕ}
      (λ t. 2)
      3
      0
      0
      (hit "a" 3 ∷ hit "b" 2 ∷ [])
      (assemble (λ t. 2) (λ t. t) (pos 3) "q" (hit "a" 3 ∷ hit "b" 2 ∷ [])).blocks
      (assemble (λ t. 2) (λ t. t) (pos 3) "q" (hit "a" 3 ∷ hit "b" 2 ∷ [])).token_count
assemble-budget_example = assemble-budget (λ t. 2) (λ t. t) 2 "q" (hit "a" 3 ∷ hit "b" 2 ∷ [])

abbrev embedded : String → List ℕ → ContentVariant ℕ
embedded id e = record {
  uuid = id;
  section_uuid = "s";
  content_type = "text";
  mime_type = "";
  bytes = [];
  text = id;
  embedding = e;
  metadata = [];
}

-- A store of three variants, the last of them without an embedding.
abbrev embedded_store : Store ℕ
embedded_store =
    create_document
      (record {
        uuid = "d";
        source_uri = "";
        fingerprint = "f";
        title = "t";
        metadata = [];
        sections =
            record {
              uuid = "s";
              document_uuid = "d";
              position = 0;
              heading = "";
              variants = embedded "a" (4 ∷ []) ∷ embedded "b" (1 ∷ []) ∷ embedded "c" [] ∷ [];
            }
            ∷ [];
      })
      empty_store

abbrev nearness : Nearness ℕ ℕ
nearness = record {
  scores = counts;
  similarity = λ x y. length x + length y;
  sort_by_score = λ hits. hits;
}

abbrev one_hit : SearchOptions ℕ
one_hit = record {
  limit = pos 1;
  min_score = 1;
  content_types = "text" ∷ [];
  metadata_filters = [];
}

found_nearest :
    search_by_embedding nearness one_hit (5 ∷ []) embedded_store
    ≡ record { variant = embedded "a" (4 ∷ []); score = 2; provenance = place } ∷ []
unfolding search_by_embedding create_document get put
found_nearest = refl

search_by_embedding-IsHit_example :
    All
      (IsHit nearness one_hit (5 ∷ []) embedded_store.docs)
      (search_by_embedding nearness one_hit (5 ∷ []) embedded_store)
    × WithinLimit 10 (pos 1) (length (search_by_embedding nearness one_hit (5 ∷ []) embedded_store))
search_by_embedding-IsHit_example =
    search_by_embedding-IsHit nearness one_hit (5 ∷ []) embedded_store (λ hits. Permᴰ.refl hits)

-- The section of the hits of the first retriever, with the texts of all of its variants.
abbrev whole_section : SearchHit ℕ ℕ
whole_section = record {
  variant = record (variant "a") { text = "a\n\nb\n\nc" };
  score = 3;
  provenance = place;
}

found_parent :
    parent_retrieve counts embedded_store first_retriever "q" one_hit ≡ ok (whole_section ∷ [])
unfolding parent_retrieve create_document get put
found_parent = refl

parent_retrieve-IsParents_example :
    (result : List (SearchHit ℕ ℕ)) × (parent_retrieve counts embedded_store first_retriever "q"
        one_hit
      ≡ ok result)
    × IsParents (λ p n. p ≡ place) (hit "a" 3 ∷ hit "b" 2 ∷ []) result
parent_retrieve-IsParents_example =
    parent_retrieve-IsParents counts (λ p n. p ≡ place) embedded_store first_retriever "q" one_hit
      (hit "a" 3 ∷ hit "b" 2 ∷ []) refl (refl, (refl, tt))
