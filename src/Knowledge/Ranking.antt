-- ===== src/Knowledge/Ranking.antt =====
-- SearchFacts and reciprocalRankFusion of knowledge/internal/engine/engine.go. The searches of the
-- store, the embedder and sort.Slice are parameters; what a search fails with is dropped, as in the
-- source. The map of scores is read in the order of its entries.
pub mod Totals
pub mod Fused
use graph_agent_dev_kit.Common.{
  ℕ, suc, ◌+◌, String, Option, none, some, List, [], ◌∷◌, ◌++◌, Result, ok, err, length, take, ltb,
  if◌then◌else◌,
}
use graph_agent_dev_kit.Common.Dict.{Dict, get, put, keys}
use graph_agent_dev_kit.Common.Int.{ℤ, pos, negsuc}
use graph_agent_dev_kit.Types.Errors.{Error}
use graph_agent_dev_kit.Rag.Hits.{Scores}
use graph_agent_dev_kit.Rag.Fusion.{add_score}
use graph_agent_dev_kit.Knowledge.Graph.{Entity}

pub record Fact : Type 0 where
  pub uuid : String
  pub name : String
  pub fact_text : String
  pub source_node : Entity
  pub target_node : Entity
  pub created_at : ℕ
  pub valid_at : ℕ
  pub invalid_at : Option ℕ

pub record ScoredFact (S : Type 0) : Type 0 where
  pub fact : Fact
  pub score : S

pub record FactOptions : Type 0 where
  pub group_id : String
  pub limit : ℤ

abbrev pub no_entity : Entity
no_entity = record { uuid = ""; name = ""; kind = ""; summary = "" }

-- The zero value of Fact.
abbrev pub no_fact : Fact
no_fact = record {
  uuid = "";
  name = "";
  fact_text = "";
  source_node = no_entity;
  target_node = no_entity;
  created_at = 0;
  valid_at = 0;
  invalid_at = none;
}

-- The maps `scores` and `factMap`.
abbrev pub Ranks : Type 0 → Type 0
Ranks S = Dict S × Dict Fact

-- "limit <= 0" gives 20.
unfoldable pub limit_or_default : ℤ → ℕ
limit_or_default (pos n) = if ltb 0 n then n else 20
limit_or_default (negsuc n) = 20

-- factMap[uuid]
unfoldable pub fact_at : Dict Fact → String → Fact
fact_at facts uuid = elim (get facts uuid) [ none ↦ no_fact | some f ↦ f ]

unfoldable pub facts_at : Dict Fact → List String → List Fact
unfolding fact_at
facts_at facts [] = []
facts_at facts (uuid ∷ uuids) = fact_at facts uuid ∷ facts_at facts uuids

-- Results of a search, and none where it failed.
abbrev pub or_none : {S : Type 0} → Result Error (List (ScoredFact S)) → List (ScoredFact S)
or_none (ok sfs) = sfs
or_none (err e) = []

unfoldable pub asked_results :
    {V S : Type 0}
    → Result Error (List V)
    → (V → FactOptions → Result Error (List (ScoredFact S)))
    → FactOptions
    → List (ScoredFact S)
asked_results (ok (v ∷ vs)) search_by_embedding o = or_none (search_by_embedding v o)
asked_results _ search_by_embedding o = []

-- "Vector search (requires embedder)"
unfoldable pub vector_results :
    {V S : Type 0}
    → Option (List String → Result Error (List V))
    → (V → FactOptions → Result Error (List (ScoredFact S)))
    → String
    → FactOptions
    → List (ScoredFact S)
unfolding asked_results
vector_results none search_by_embedding query o = []
vector_results (some embed) search_by_embedding query o =
    asked_results (embed (query ∷ [])) search_by_embedding o

module _ {S : Type 0} (scores : Scores S) where
  -- for rank, sf := range listA, and listB
  unfoldable pub rank_facts : ℕ → List (ScoredFact S) → Ranks S → Ranks S
  unfolding add_score
  rank_facts rank [] m = m
  rank_facts rank (sf ∷ sfs) m =
      rank_facts (suc rank) sfs
        (add_score scores rank sf.fact.uuid m.0, put m.1 sf.fact.uuid sf.fact)

module _ {S : Type 0} (scores : Scores S) (sort_by_score : Dict S → Dict S) where
  -- reciprocalRankFusion
  unfoldable pub reciprocal_rank_fusion : List (ScoredFact S) → List (ScoredFact S) → ℕ → List Fact
  unfolding rank_facts facts_at
  reciprocal_rank_fusion list_a list_b limit =
      let m = rank_facts scores 0 list_b (rank_facts scores 0 list_a ([], [])) in
      facts_at m.1 (take limit (keys (sort_by_score m.0)))

  -- SearchFacts
  unfoldable pub search_facts :
      {V : Type 0}
      → Option (List String → Result Error (List V))
      → (V → FactOptions → Result Error (List (ScoredFact S)))
      → (String → FactOptions → Result Error (List (ScoredFact S)))
      → String
      → FactOptions
      → List Fact
  unfolding vector_results reciprocal_rank_fusion limit_or_default
  search_facts embedder search_by_embedding search_by_text query o =
      reciprocal_rank_fusion (vector_results embedder search_by_embedding query o)
        (or_none (search_by_text query o)) (limit_or_default o.limit)
