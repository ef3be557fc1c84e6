-- ===== src/Rag/Fusion.antt =====
-- Reciprocal rank fusion: steps 3 to 5 of Search in rag/internal/pipeline/pipeline.go. The map of hits
-- is read in the order of its entries. sort.Slice and >= on scores are parameters.
pub mod Totals
pub mod Entries
pub mod Complete
pub mod Fused
use graph_agent_dev_kit.Common.{
  ℕ, suc, ◌+◌, String, Option, none, some, List, [], ◌∷◌, Bool, true, false, ◌&&◌, if◌then◌else◌,
  length, take, ltb,
}
use graph_agent_dev_kit.Common.Dict.{Dict, get, put}
use graph_agent_dev_kit.Common.Int.{ℤ, pos, negsuc}
use graph_agent_dev_kit.Rag.Hits.{SearchHit, SearchConfig, Scores}

pub record Fusion (F S : Type 0) : Type 0 where
  pub scores : Scores S
  pub at_least : S → S → Bool
  pub sort_by_score : List (SearchHit F S) → List (SearchHit F S)

-- scores[uuid], which is 0 where there is none.
abbrev pub score_at : {S : Type 0} → S → Option S → S
score_at zero_score none = zero_score
score_at zero_score (some x) = x

-- scores[uuid] += rrfScore
unfoldable pub add_score : {S : Type 0} → Scores S → ℕ → String → Dict S → Dict S
add_score scores rank uuid d =
    put d uuid
      (scores.plus (score_at scores.zero_score (get d uuid)) (scores.reciprocal (60 + rank + 1)))

-- Step 3: the maps `scores` and `hitMap`.
abbrev pub Merged : Type 0 → Type 0 → Type 0
Merged F S = Dict S × Dict (SearchHit F S)

module _ {F S : Type 0} where
  -- "if existing, ok := hitMap[uuid]; !ok || hit.Score > existing.Score"
  unfoldable pub keep_best : Scores S → SearchHit F S → Dict (SearchHit F S) → Dict (SearchHit F S)
  keep_best scores hit best = elim (get best hit.variant.uuid) [
    | none ↦ put best hit.variant.uuid hit
    | some existing ↦
        if scores.greater hit.score existing.score then put best hit.variant.uuid hit else best
  ]

  -- for rank, hit := range list.hits
  unfoldable pub merge_list : Scores S → ℕ → List (SearchHit F S) → Merged F S → Merged F S
  unfolding keep_best add_score
  merge_list scores rank [] m = m
  merge_list scores rank (hit ∷ hits) m =
      merge_list scores (suc rank) hits
        (add_score scores rank hit.variant.uuid m.0, keep_best scores hit m.1)

  unfoldable pub merge_lists : Scores S → List (List (SearchHit F S)) → Merged F S → Merged F S
  unfolding merge_list
  merge_lists scores [] m = m
  merge_lists scores (hits ∷ lists) m = merge_lists scores lists (merge_list scores 0 hits m)

  -- for uuid, hit := range hitMap
  unfoldable pub scored_hits : Scores S → Dict S → Dict (SearchHit F S) → List (SearchHit F S)
  scored_hits scores totals [] = []
  scored_hits scores totals ((uuid, hit) ∷ best) =
      record hit { score = score_at scores.zero_score (get totals uuid) }
      ∷ scored_hits scores totals best

  -- Step 4
  unfoldable pub drop_low : (S → Bool) → List (SearchHit F S) → List (SearchHit F S)
  drop_low keeps [] = []
  drop_low keeps (hit ∷ hits) =
      let rest = drop_low keeps hits in if keeps hit.score then hit ∷ rest else rest

  -- Step 5: "if cfg.Limit > 0 && len(merged) > cfg.Limit"
  unfoldable pub limit_hits : ℤ → List (SearchHit F S) → List (SearchHit F S)
  limit_hits (pos n) hits = if ltb 0 n && ltb n (length hits) then take n hits else hits
  limit_hits (negsuc n) hits = hits

  -- Steps 3 to 5
  unfoldable pub fuse :
      Fusion F S → SearchConfig S → List (List (SearchHit F S)) → List (SearchHit F S)
  unfolding merge_lists scored_hits drop_low limit_hits
  fuse f cfg lists =
      let m = merge_lists f.scores lists ([], []) in
      let sorted = f.sort_by_score (scored_hits f.scores m.0 m.1) in
      limit_hits cfg.limit (
        if f.scores.greater cfg.min_score f.scores.zero_score
        then drop_low (λ x. f.at_least x cfg.min_score) sorted
        else sorted)
