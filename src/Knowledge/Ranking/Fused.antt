-- ===== src/Knowledge/Ranking/Fused.antt =====
-- About the facts that knowledge/internal/engine/engine.go finds.
use graph_agent_dev_kit.Common.{
  ◌||◌, elem, ℕ, zero, suc, String, ◌==◌, Option, none, some, List, [], ◌∷◌, map, Result, ok, err,
  length, take, true, inl, inr, ◌≡◌, refl, sym, ap, ap₂, ◌∙◌, subst, All, All-map, Bool-cases,
  eq_of_test, arith,
}
use graph_agent_dev_kit.Common.Perms.{distinct, distinct_perm, distinct-take, All-perm, All-take}
use graph_agent_dev_kit.Common.Dict.{
  Dict, get, put, keys, distinct-keys-put, All-put, get-put, get-put_self,
}
use graph_agent_dev_kit.Types.Errors.{Error}
use graph_agent_dev_kit.Rag.Hits.{Scores}
use graph_agent_dev_kit.Rag.Fusion.{add_score}
use graph_agent_dev_kit.Rag.Fusion.Totals.{rank_total, rank_total-append}
use graph_agent_dev_kit.Knowledge.Ranking.{
  Fact, ScoredFact, FactOptions, Ranks, rank_facts, fact_at, facts_at, reciprocal_rank_fusion,
  search_facts, or_none, vector_results, asked_results, limit_or_default,
}
use graph_agent_dev_kit.Knowledge.Ranking.Totals.{
  scored_id, fact_ranks, elem-rank_facts, rank_facts-total, Asked, limit_or_default-Asked,
  IsRanking,
}
use mathlib.Core.List.{Permᴰ}

abbrev pub fact_id : Fact → String
fact_id f = f.uuid

keys-map : {V : Type 0} (d : Dict V) → keys d ≡ map (λ (e : String × V). e.0) d
keys-map [] = refl
keys-map ((k, v) ∷ d) = ap (◌∷◌ k) (keys-map d)

keys-take : {V : Type 0} (n : ℕ) (d : Dict V) → take n (keys d) ≡ keys (take n d)
keys-take zero d = refl
keys-take (suc n) [] = refl
keys-take (suc n) ((k, v) ∷ d) = ap (◌∷◌ k) (keys-take n d)

length-facts_at :
    (facts : Dict Fact) (uuids : List String) → length (facts_at facts uuids) ≡ length uuids
unfolding facts_at
length-facts_at facts [] = refl
length-facts_at facts (uuid ∷ uuids) = omega (arith, length-facts_at facts uuids)

-- The ids of entries that are a part of others.
distinct-taken :
    {V : Type 0} (n : ℕ) (d e : Dict V)
    → Permᴰ e d
    → distinct (keys d) ≡ true
    → distinct (keys (take n e)) ≡ true
distinct-taken n d e p h =
    ap distinct (keys-map (take n e))
    ∙ distinct-take (λ (x : String × _). x.0) n e
        (distinct_perm (λ (x : String × _). x.0) p ∙ ap distinct (sym (keys-map d)) ∙ h)

module _ (P : Fact → Type 0) where
  -- What factMap holds under an id that has a score.
  pub record Known (facts : Dict Fact) (uuid : String) : Type 0 where
    pub fact : Fact
    pub found : get facts uuid ≡ some fact
    pub named : fact.uuid ≡ uuid
    pub kept : P fact

  Known-new : (facts : Dict Fact) (f : Fact) → P f → Known (put facts f.uuid f) f.uuid
  Known-new facts f p = record {
    fact = f;
    found = get-put_self facts f.uuid f;
    named = refl;
    kept = p;
  }

  Known-put :
      (facts : Dict Fact) (f : Fact) (uuid : String)
      → P f
      → Known facts uuid
      → Known (put facts f.uuid f) uuid
  Known-put facts f uuid p k = elim (Bool-cases (f.uuid == uuid)) [
    | inl q ↦ subst (Known (put facts f.uuid f)) (eq_of_test f.uuid uuid q) (Known-new facts f p)
    | inr q ↦ record {
      fact = k.fact;
      found = get-put facts f.uuid uuid f ∙ rw q k.found;
      named = k.named;
      kept = k.kept;
    }
  ]

  fact_at-Known :
      (facts : Dict Fact) (uuid : String) (k : Known facts uuid) → fact_at facts uuid ≡ k.fact
  unfolding fact_at
  fact_at-Known facts uuid k = rw (k.found, fact_at) refl

  facts_at-ids :
      (facts : Dict Fact) (uuids : List String)
      → All (Known facts) uuids
      → map fact_id (facts_at facts uuids) ≡ uuids
  unfolding facts_at
  facts_at-ids facts [] h = refl
  facts_at-ids facts (uuid ∷ uuids) h =
      ap₂ ◌∷◌ (ap fact_id (fact_at-Known facts uuid h.0) ∙ h.0.named) (facts_at-ids facts uuids h.1)

  facts_at-kept :
      (facts : Dict Fact) (uuids : List String)
      → All (Known facts) uuids
      → All P (facts_at facts uuids)
  unfolding facts_at
  facts_at-kept facts [] h = tt
  facts_at-kept facts (uuid ∷ uuids) h =
      (subst P (sym (fact_at-Known facts uuid h.0)) h.0.kept, facts_at-kept facts uuids h.1)

  module _ {S : Type 0} where
    abbrev pub OfScored : ScoredFact S → Type 0
    OfScored sf = P sf.fact

    abbrev KnownEntry : Dict Fact → String × S → Type 0
    KnownEntry facts e = Known facts e.0

    -- Every id with a score is known, and no id has two.
    abbrev Good : Ranks S → Type 0
    Good m = (distinct (keys m.0) ≡ true) × All (KnownEntry m.1) m.0

    rank_facts-Good :
        (scores : Scores S) (rank : ℕ) (sfs : List (ScoredFact S)) (m : Ranks S)
        → All OfScored sfs
        → Good m
        → Good (rank_facts scores rank sfs m)
    unfolding rank_facts add_score
    rank_facts-Good scores rank [] m p g = g
    rank_facts-Good scores rank (sf ∷ sfs) m p g =
        let facts = put m.1 sf.fact.uuid sf.fact in
        rank_facts-Good scores (suc rank) sfs (add_score scores rank sf.fact.uuid m.0, facts) p.1
          (
            distinct-keys-put m.0 sf.fact.uuid _ g.0,
            All-put (KnownEntry facts) m.0 sf.fact.uuid _
                (All-map (KnownEntry m.1) (KnownEntry facts) m.0
                  (λ e k. Known-put m.1 sf.fact e.0 p.0 k) g.1)
                (Known-new m.1 sf.fact p.0),
          )

    All-keys :
        (facts : Dict Fact) (d : Dict S) → All (KnownEntry facts) d → All (Known facts) (keys d)
    All-keys facts [] h = tt
    All-keys facts ((k, v) ∷ d) h = (h.0, All-keys facts d h.1)

  -- Facts that P holds of, with the first ids of the sorted scores of a fusion.
  pub record AreFound {S : Type 0} (scores : Scores S) (sort : Dict S → Dict S)
      (list_a list_b : List (ScoredFact S)) (n : ℕ) (facts : List Fact) : Type 0 where
    pub totals : Dict S
    pub ranking : IsRanking scores list_a list_b totals
    pub first : map fact_id facts ≡ take n (keys (sort totals))
    pub ids : distinct (map fact_id facts) ≡ true
    pub kept : All P facts

  fusion-AreFound :
      {S : Type 0} (scores : Scores S) (sort : Dict S → Dict S)
      (list_a list_b : List (ScoredFact S)) (n : ℕ)
      → ((d : Dict S) → Permᴰ (sort d) d)
      → All OfScored list_a
      → All OfScored list_b
      → AreFound scores sort list_a list_b n (reciprocal_rank_fusion scores sort list_a list_b n)
  unfolding reciprocal_rank_fusion get
  fusion-AreFound scores sort list_a list_b n permutes pa pb =
      let ma = rank_facts scores 0 list_a ([], []) in
      let m = rank_facts scores 0 list_b ma in
      let good =
        rank_facts-Good scores 0 list_b ma pb
          (rank_facts-Good scores 0 list_a ([], []) pa (refl, tt)) in
      let known : All (Known m.1) (take n (keys (sort m.0))) =
        All-take (Known m.1) n (keys (sort m.0))
          (All-keys m.1 (sort m.0) (All-perm (KnownEntry m.1) (permutes m.0) good.1)) in
      let first = facts_at-ids m.1 (take n (keys (sort m.0))) known in
      record {
        totals = m.0;
        ranking = record {
          once = good.0;
          ranked = λ uuid.
              elem-rank_facts scores uuid 0 list_b ma
              ∙ ap (λ b. b || elem uuid (map scored_id list_b))
                  (elem-rank_facts scores uuid 0 list_a ([], []));
          total = λ uuid.
              rank_facts-total scores uuid 0 list_b ma
              ∙ ap (λ x. rank_total scores x (fact_ranks uuid 0 list_b))
                  (rank_facts-total scores uuid 0 list_a ([], []))
              ∙ sym (
                  rank_total-append scores (fact_ranks uuid 0 list_a) (fact_ranks uuid 0 list_b)
                    scores.zero_score);
        };
        first = first;
        ids =
            ap distinct (first ∙ keys-take n (sort m.0))
            ∙ distinct-taken n m.0 (sort m.0) (permutes m.0) good.0;
        kept = facts_at-kept m.1 (take n (keys (sort m.0))) known;
      }

  or_none-OfScored :
      {S : Type 0} (r : Result Error (List (ScoredFact S)))
      → ((sfs : List (ScoredFact S)) → r ≡ ok sfs → All OfScored sfs)
      → All OfScored (or_none r)
  or_none-OfScored (ok sfs) h = h sfs refl
  or_none-OfScored (err e) h = tt

  asked-OfScored :
      {V S : Type 0} (r : Result Error (List V))
      (search_by_embedding : V → FactOptions → Result Error (List (ScoredFact S))) (o : FactOptions)
      → ((v : V) (sfs : List (ScoredFact S)) → search_by_embedding v o ≡ ok sfs → All OfScored sfs)
      → All OfScored (asked_results r search_by_embedding o)
  unfolding asked_results
  asked-OfScored (err e) search_by_embedding o h = tt
  asked-OfScored (ok []) search_by_embedding o h = tt
  asked-OfScored (ok (v ∷ vs)) search_by_embedding o h =
      or_none-OfScored (search_by_embedding v o) (h v)

  vector_results-OfScored :
      {V S : Type 0} (embedder : Option (List String → Result Error (List V)))
      (search_by_embedding : V → FactOptions → Result Error (List (ScoredFact S))) (query : String)
      (o : FactOptions)
      → ((v : V) (sfs : List (ScoredFact S)) → search_by_embedding v o ≡ ok sfs → All OfScored sfs)
      → All OfScored (vector_results embedder search_by_embedding query o)
  unfolding vector_results
  vector_results-OfScored none search_by_embedding query o h = tt
  vector_results-OfScored (some embed) search_by_embedding query o h =
      asked-OfScored (embed (query ∷ [])) search_by_embedding o h

  -- When the sort permutes its argument, the facts of SearchFacts have the ids of the first
  -- entries of the sorted scores, as many as a positive limit or 20 where it is not positive, or
  -- all of them where they are fewer: the scores have each id of the results of the two searches
  -- once and no other, with the sum of 1/(61 + rank) over its ranks in the two. No two facts
  -- have one id, and what holds of every fact that the searches of the store give holds of them.
  pub search_facts-AreFound :
      {V S : Type 0} (scores : Scores S) (sort : Dict S → Dict S)
      (embedder : Option (List String → Result Error (List V)))
      (search_by_embedding : V → FactOptions → Result Error (List (ScoredFact S)))
      (search_by_text : String → FactOptions → Result Error (List (ScoredFact S))) (query : String)
      (o : FactOptions)
      → ((d : Dict S) → Permᴰ (sort d) d)
      → ((v : V) (sfs : List (ScoredFact S)) → search_by_embedding v o ≡ ok sfs → All OfScored sfs)
      → ((sfs : List (ScoredFact S)) → search_by_text query o ≡ ok sfs → All OfScored sfs)
      → (n : ℕ) × Asked o.limit n
        × AreFound scores sort
            (vector_results embedder search_by_embedding query o)
            (or_none (search_by_text query o))
            n
            (search_facts scores sort embedder search_by_embedding search_by_text query o)
  unfolding search_facts
  search_facts-AreFound scores sort embedder search_by_embedding search_by_text query o permutes pv
        pt =
      (
        limit_or_default o.limit,
        limit_or_default-Asked o.limit,
        fusion-AreFound scores sort (vector_results embedder search_by_embedding query o)
            (or_none (search_by_text query o)) (limit_or_default o.limit) permutes
            (vector_results-OfScored embedder search_by_embedding query o pv)
            (or_none-OfScored (search_by_text query o) pt),
      )
