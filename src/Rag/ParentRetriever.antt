-- ===== src/Rag/ParentRetriever.antt =====
-- rag/parentretriever/retriever.go: Retrieve, over a store of rag/memstore. The map of the best
-- hits is read in the order of its entries.
pub mod Best
pub mod Expanded
use graph_agent_dev_kit.Common.{
  String, ◌==◌, Option, none, some, List, [], ◌∷◌, map, reverse, Result, ok, err, and_then,
  if◌then◌else◌,
}
use graph_agent_dev_kit.Common.Dict.{Dict, get, put}
use graph_agent_dev_kit.Types.Errors.{Error, in_context}
use graph_agent_dev_kit.Rag.Memstore.{Store, Section, ContentVariant, get_sections}
use graph_agent_dev_kit.Rag.Hits.{SearchHit, SearchOptions, Scores}
use graph_agent_dev_kit.Rag.Context.{join_with}
use graph_agent_dev_kit.Rag.Search.{Retriever}

-- The texts of a section that are not empty.
unfoldable pub texts_of : {F : Type 0} → List (ContentVariant F) → List String
texts_of [] = []
texts_of (v ∷ vs) = let rest = texts_of vs in if v.text == "" then rest else v.text ∷ rest

module _ {F S : Type 0} where
  abbrev pub section_of : SearchHit F S → String
  section_of hit = hit.provenance.section_uuid

  -- "if len(texts) > 0"
  unfoldable pub with_texts : SearchHit F S → List String → SearchHit F S
  unfolding join_with
  with_texts hit [] = hit
  with_texts hit (t ∷ ts) = record {
    variant = record hit.variant { text = join_with "\n\n" (t ∷ ts) };
    score = hit.score;
    provenance = hit.provenance;
  }

  -- The loop that finds the parent section.
  unfoldable pub in_parent : SearchHit F S → List (Section F) → SearchHit F S
  unfolding texts_of with_texts
  in_parent hit [] = hit
  in_parent hit (sec ∷ secs) =
      let rest = in_parent hit secs in
      if sec.uuid == section_of hit then with_texts hit (texts_of sec.variants) else rest

  unfoldable pub expand : Store F → SearchHit F S → SearchHit F S
  unfolding in_parent get_sections
  expand s hit = elim (get_sections hit.provenance.document_uuid s) [
    | err e ↦ hit
    | ok secs ↦ in_parent hit secs
  ]

  module _ (scores : Scores S) where
    unfoldable pub keep_better : Dict (SearchHit F S) → SearchHit F S → Dict (SearchHit F S)
    unfolding get put
    keep_better best hit = elim (get best (section_of hit)) [
      | none ↦ put best (section_of hit) hit
      | some existing ↦
          if scores.greater hit.score existing.score then put best (section_of hit) hit else best
    ]

    unfoldable pub best_by_section :
        Dict (SearchHit F S) → List (SearchHit F S) → Dict (SearchHit F S)
    unfolding keep_better
    best_by_section best [] = best
    best_by_section best (hit ∷ hits) = best_by_section (keep_better best hit) hits

    -- The inner loop of the sort: result[:i] stands here with its last hit first.
    unfoldable pub move_down : SearchHit F S → List (SearchHit F S) → List (SearchHit F S)
    move_down hit [] = hit ∷ []
    move_down hit (before ∷ sorted) =
        let rest = move_down hit sorted in
        if scores.greater hit.score before.score then before ∷ rest else hit ∷ before ∷ sorted

    unfoldable pub sort_from : List (SearchHit F S) → List (SearchHit F S) → List (SearchHit F S)
    unfolding move_down
    sort_from sorted [] = sorted
    sort_from sorted (hit ∷ hits) = sort_from (move_down hit sorted) hits

    unfoldable pub sort_hits : List (SearchHit F S) → List (SearchHit F S)
    unfolding sort_from
    sort_hits hits = reverse (sort_from [] hits)

    unfoldable pub expand_hits : Store F → List (SearchHit F S) → List (SearchHit F S)
    unfolding expand best_by_section sort_hits
    expand_hits s hits = sort_hits (map (λ e. expand s e.1) (best_by_section [] hits))

    -- Retrieve
    unfoldable pub parent_retrieve : Store F → Retriever F S → Retriever F S
    unfolding expand_hits
    parent_retrieve s inner query opts =
        and_then (in_context "inner retrieve" (inner query opts))
          (λ hits. elim hits [ [] ↦ ok [] | hit ∷ rest ↦ ok (expand_hits s (hit ∷ rest)) ])
