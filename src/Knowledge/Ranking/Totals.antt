-- ===== src/Knowledge/Ranking/Totals.antt =====
-- About the scores that knowledge/internal/engine/engine.go fuses.
use graph_agent_dev_kit.Common.{
  ◌||◌, ◌++◌, ◌⊎◌, elem, if◌then◌else◌, ℕ, zero, suc, String, ◌==◌, List, [], ◌∷◌, map, true, inl,
  inr, ◌≡◌, refl, ap, ◌∙◌, arith,
}
use graph_agent_dev_kit.Common.Perms.{distinct}
use graph_agent_dev_kit.Common.Dict.{Dict, put, keys, elem-keys-put}
use graph_agent_dev_kit.Common.Int.{ℤ, pos, negsuc, is_not_pos}
use graph_agent_dev_kit.Rag.Hits.{Scores}
use graph_agent_dev_kit.Rag.Fusion.{add_score}
use graph_agent_dev_kit.Rag.Fusion.Totals.{held, rank_total, held-ranked}
use graph_agent_dev_kit.Knowledge.Ranking.{ScoredFact, Ranks, rank_facts, limit_or_default}

abbrev pub scored_id : {S : Type 0} → ScoredFact S → String
scored_id sf = sf.fact.uuid

-- The ranks at which an id stands in a list that starts at `rank`.
abbrev pub fact_ranks : {S : Type 0} → String → ℕ → List (ScoredFact S) → List ℕ
fact_ranks uuid rank [] = []
fact_ranks uuid rank (sf ∷ sfs) =
    let rest = fact_ranks uuid (suc rank) sfs in if scored_id sf == uuid then rank ∷ rest else rest

module _ {S : Type 0} (scores : Scores S) where
  pub elem-rank_facts :
      (uuid : String) (rank : ℕ) (sfs : List (ScoredFact S)) (m : Ranks S)
      → elem uuid (keys (rank_facts scores rank sfs m).0)
        ≡ (elem uuid (keys m.0) || elem uuid (map scored_id sfs))
  unfolding rank_facts add_score
  elem-rank_facts uuid rank [] m = ground arith
  elem-rank_facts uuid rank (sf ∷ sfs) m =
      let facts = put m.1 sf.fact.uuid sf.fact in
      let rest =
        elem-rank_facts uuid (suc rank) sfs (add_score scores rank sf.fact.uuid m.0, facts) in
      let one = elem-keys-put m.0 uuid sf.fact.uuid _ in
      rest ∙ ap (λ b. b || elem uuid (map scored_id sfs)) one ∙ ground arith

  pub rank_facts-total :
      (uuid : String) (rank : ℕ) (sfs : List (ScoredFact S)) (m : Ranks S)
      → held scores (rank_facts scores rank sfs m).0 uuid
        ≡ rank_total scores (held scores m.0 uuid) (fact_ranks uuid rank sfs)
  unfolding rank_facts
  rank_facts-total uuid rank [] m = refl
  rank_facts-total uuid rank (sf ∷ sfs) m =
      rank_facts-total uuid (suc rank) sfs
        (add_score scores rank sf.fact.uuid m.0, put m.1 sf.fact.uuid sf.fact)
      ∙ held-ranked scores m.0 rank sf.fact.uuid uuid (fact_ranks uuid (suc rank) sfs)

-- The number of facts that a limit asks for.
abbrev pub Asked : ℤ → ℕ → Type 0
Asked limit n =
    ((k : ℕ) × (limit ≡ pos (suc k)) × (n ≡ suc k)) ⊎ ((is_not_pos limit ≡ true) × (n ≡ 20))

pub limit_or_default-Asked : (limit : ℤ) → Asked limit (limit_or_default limit)
unfolding limit_or_default
limit_or_default-Asked (pos zero) = inr (refl, refl)
limit_or_default-Asked (pos (suc k)) = inl (k, refl, ground arith)
limit_or_default-Asked (negsuc k) = inr (refl, refl)

-- The scores of a fusion: every id that a list has, once, with the sum of 1/(61 + rank) over its
-- ranks in the lists.
pub record IsRanking {S : Type 0} (scores : Scores S) (list_a list_b : List (ScoredFact S))
    (totals : Dict S) : Type 0 where
  pub once : distinct (keys totals) ≡ true
  pub ranked :
      (uuid : String)
      → elem uuid (keys totals)
        ≡ (elem uuid (map scored_id list_a) || elem uuid (map scored_id list_b))
  pub total :
      (uuid : String)
      → held scores totals uuid
        ≡ rank_total scores scores.zero_score (fact_ranks uuid 0 list_a ++ fact_ranks uuid 0 list_b)
