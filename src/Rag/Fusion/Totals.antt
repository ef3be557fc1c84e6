-- ===== src/Rag/Fusion/Totals.antt =====
-- About the scores of reciprocal rank fusion.
use graph_agent_dev_kit.Common.{
  ℕ, suc, ◌+◌, String, ◌==◌, some, List, [], ◌∷◌, ◌++◌, Bool-cases, inl, inr, ◌≡◌, refl, sym, ap,
  ◌∙◌, if◌then◌else◌, eq_of_test,
}
use graph_agent_dev_kit.Common.Dict.{Dict, get, put, get-put}
use graph_agent_dev_kit.Rag.Hits.{SearchHit, Scores}
use graph_agent_dev_kit.Rag.Fusion.{Merged, score_at, add_score, keep_best, merge_list, merge_lists}

module _ {F S : Type 0} where
  -- The ranks at which an id stands in a list that starts at `rank`, and in every list.
  abbrev pub ranks_in : String → ℕ → List (SearchHit F S) → List ℕ
  ranks_in uuid rank [] = []
  ranks_in uuid rank (hit ∷ hits) =
      let rest = ranks_in uuid (suc rank) hits in
      if hit.variant.uuid == uuid then rank ∷ rest else rest

  abbrev pub ranks : String → List (List (SearchHit F S)) → List ℕ
  ranks uuid [] = []
  ranks uuid (hits ∷ lists) = ranks_in uuid 0 hits ++ ranks uuid lists

module _ {S : Type 0} (scores : Scores S) where
  -- x + 1/(61 + r) for every rank, from the left.
  abbrev pub rank_total : S → List ℕ → S
  rank_total x [] = x
  rank_total x (r ∷ rs) = rank_total (scores.plus x (scores.reciprocal (60 + r + 1))) rs

  pub rank_total-append :
      (rs ts : List ℕ) (x : S) → rank_total x (rs ++ ts) ≡ rank_total (rank_total x rs) ts
  rank_total-append [] ts x = refl
  rank_total-append (r ∷ rs) ts x =
      rank_total-append rs ts (scores.plus x (scores.reciprocal (60 + r + 1)))

  abbrev pub held : Dict S → String → S
  held d uuid = score_at scores.zero_score (get d uuid)

  pub held-add_score :
      (d : Dict S) (rank : ℕ) (k uuid : String)
      → held (add_score scores rank k d) uuid ≡ (
          if k == uuid
          then scores.plus (held d k) (scores.reciprocal (60 + rank + 1))
          else held d uuid)
  unfolding add_score
  held-add_score d rank k uuid =
      let new = scores.plus (held d k) (scores.reciprocal (60 + rank + 1)) in
      let now : get (put d k new) uuid ≡ (if k == uuid then some new else get d uuid) =
        get-put d k uuid new in
      elim (Bool-cases (k == uuid)) [ inl q ↦ rw (now, q) refl | inr q ↦ rw (now, q) refl ]

  -- One more rank of an id, and what it leaves to the other ids.
  pub held-ranked :
      (d : Dict S) (rank : ℕ) (k uuid : String) (rest : List ℕ)
      → rank_total (held (add_score scores rank k d) uuid) rest
        ≡ rank_total (held d uuid) (if k == uuid then rank ∷ rest else rest)
  held-ranked d rank k uuid rest = elim (Bool-cases (k == uuid)) [
    | inl q ↦
        let new : String → S = λ j. scores.plus (held d j) (scores.reciprocal (60 + rank + 1)) in
        let one : held (add_score scores rank k d) uuid ≡ new uuid =
          held-add_score d rank k uuid ∙ rw q (ap new (eq_of_test k uuid q)) in
        rw (one, q) refl
    | inr q ↦
        let one : held (add_score scores rank k d) uuid ≡ held d uuid =
          held-add_score d rank k uuid ∙ rw q refl in
        rw (one, q) refl
  ]

module _ {F S : Type 0} (scores : Scores S) where
  merge_list-total :
      (uuid : String) (rank : ℕ) (hits : List (SearchHit F S)) (m : Merged F S)
      → held scores (merge_list scores rank hits m).0 uuid
        ≡ rank_total scores (held scores m.0 uuid) (ranks_in uuid rank hits)
  unfolding merge_list
  merge_list-total uuid rank [] m = refl
  merge_list-total uuid rank (hit ∷ hits) m =
      merge_list-total uuid (suc rank) hits
        (add_score scores rank hit.variant.uuid m.0, keep_best scores hit m.1)
      ∙ held-ranked scores m.0 rank hit.variant.uuid uuid (ranks_in uuid (suc rank) hits)

  pub merge_lists-total :
      (uuid : String) (lists : List (List (SearchHit F S))) (m : Merged F S)
      → held scores (merge_lists scores lists m).0 uuid
        ≡ rank_total scores (held scores m.0 uuid) (ranks uuid lists)
  unfolding merge_lists
  merge_lists-total uuid [] m = refl
  merge_lists-total uuid (hits ∷ lists) m =
      merge_lists-total uuid lists (merge_list scores 0 hits m)
      ∙ ap (λ x. rank_total scores x (ranks uuid lists)) (merge_list-total uuid 0 hits m)
      ∙ sym (
          rank_total-append scores (ranks_in uuid 0 hits) (ranks uuid lists) (held scores m.0 uuid))
