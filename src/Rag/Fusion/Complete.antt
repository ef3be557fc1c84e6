-- ===== src/Rag/Fusion/Complete.antt =====
-- About the hits that reciprocal rank fusion keeps: which ids they have, and in which order they stand.
use graph_agent_dev_kit.Common.{
  ℕ, zero, suc, String, ◌==◌, List, [], ◌∷◌, map, Bool, true, false, ◌||◌, ◌&&◌, Bool-cases,
  Option-cases, inl, inr, ◌⊎◌, ◌≡◌, refl, sym, ap, ◌∙◌, elem, All, arith, length, take, ltb,
  eq_of_test,
}
use graph_agent_dev_kit.Common.Dict.{Dict, get, keys, elem-keys-put, elem-keys-get}
use graph_agent_dev_kit.Common.Int.{ℤ, pos, negsuc}
use graph_agent_dev_kit.Common.Perms.{All-take}
use graph_agent_dev_kit.Rag.Hits.{SearchHit, Scores}
use graph_agent_dev_kit.Rag.Fusion.{
  Merged, keep_best, add_score, merge_list, merge_lists, drop_low, limit_hits,
}
use graph_agent_dev_kit.Rag.Fusion.Entries.{hit_id}

module _ {F S : Type 0} where
  -- Whether a list holds a hit with an id.
  abbrev pub is_listed : String → List (List (SearchHit F S)) → Bool
  is_listed uuid [] = false
  is_listed uuid (hits ∷ lists) = elem uuid (map hit_id hits) || is_listed uuid lists

  -- No score is greater than one before it.
  abbrev pub Descending : (S → S → Bool) → List (SearchHit F S) → Type 0
  Descending greater [] = Unit {0}
  Descending greater (hit ∷ hits) =
      All (λ later. greater later.score hit.score ≡ false) hits × Descending greater hits

  keep_best-elem :
      (scores : Scores S) (uuid : String) (hit : SearchHit F S) (best : Dict (SearchHit F S))
      → elem uuid (keys (keep_best scores hit best)) ≡ (elem uuid (keys best) || uuid == hit_id hit)
  unfolding keep_best
  keep_best-elem scores uuid hit best = elim (Option-cases (get best hit.variant.uuid)) [
    | inl q ↦ rw (q, keep_best) (elem-keys-put best uuid hit.variant.uuid hit)
    | inr (old, q) ↦ elim (Bool-cases (scores.greater hit.score old.score)) [
      | inl g ↦ rw (q, keep_best, g) (elem-keys-put best uuid hit.variant.uuid hit)
      | inr g ↦ rw (q, keep_best, g) (elem-keys-get best uuid hit.variant.uuid old q)
    ]
  ]

  merge_list-elem :
      (scores : Scores S) (uuid : String) (rank : ℕ) (hits : List (SearchHit F S)) (m : Merged F S)
      → elem uuid (keys (merge_list scores rank hits m).1)
        ≡ (elem uuid (keys m.1) || elem uuid (map hit_id hits))
  unfolding merge_list
  merge_list-elem scores uuid rank [] m = ground arith
  merge_list-elem scores uuid rank (hit ∷ hits) m =
      merge_list-elem scores uuid (suc rank) hits
        (add_score scores rank hit.variant.uuid m.0, keep_best scores hit m.1)
      ∙ ap (λ b. b || elem uuid (map hit_id hits)) (keep_best-elem scores uuid hit m.1)
      ∙ ground arith

  pub merge_lists-listed :
      (scores : Scores S) (uuid : String) (lists : List (List (SearchHit F S))) (m : Merged F S)
      → elem uuid (keys (merge_lists scores lists m).1)
        ≡ (elem uuid (keys m.1) || is_listed uuid lists)
  unfolding merge_lists
  merge_lists-listed scores uuid [] m = ground arith
  merge_lists-listed scores uuid (hits ∷ lists) m =
      merge_lists-listed scores uuid lists (merge_list scores 0 hits m)
      ∙ ap (λ b. b || is_listed uuid lists) (merge_list-elem scores uuid 0 hits m)
      ∙ ground arith

  -- What holds of the total of an id that is dropped.
  pub drop_low-cases :
      (keeps : S → Bool) (total : String → S) (uuid : String) (hits : List (SearchHit F S))
      → All (λ hit. hit.score ≡ total (hit_id hit)) hits
      → elem uuid (map hit_id hits) ≡ true
      → (elem uuid (map hit_id (drop_low keeps hits)) ≡ true) ⊎ (keeps (total uuid) ≡ false)
  unfolding drop_low
  drop_low-cases keeps total uuid [] h e = absurd cc
  drop_low-cases keeps total uuid (hit ∷ hits) h e = elim (Bool-cases (uuid == hit_id hit)) [
    | inl same ↦ elim (Bool-cases (keeps hit.score)) [
      | inl k ↦ inl (rw (k, same) refl)
      | inr k ↦ inr (ap keeps (ap total (eq_of_test uuid (hit_id hit) same) ∙ sym h.0) ∙ k)
    ]
    | inr other ↦ elim (drop_low-cases keeps total uuid hits h.1 (rw other at e)) [
      | inr low ↦ inr low
      | inl there ↦ elim (Bool-cases (keeps hit.score)) [
        | inl k ↦ inl (rw (k, other) there)
        | inr k ↦ inl (rw k there)
      ]
    ]
  ]

  pub All-kept :
      (keeps : S → Bool) (hits : List (SearchHit F S))
      → All (λ hit. keeps hit.score ≡ true) (drop_low keeps hits)
  unfolding drop_low
  All-kept keeps [] = tt
  All-kept keeps (hit ∷ hits) =
      let rest = All-kept keeps hits in
      elim (Bool-cases (keeps hit.score)) [ inl k ↦ rw k (k, rest) | inr k ↦ rw k rest ]

  module _ {κ} (Q : SearchHit F S → Type κ) where
    pub All-drop_low :
        (keeps : S → Bool) (hits : List (SearchHit F S)) → All Q hits → All Q (drop_low keeps hits)
    unfolding drop_low
    All-drop_low keeps [] h = tt
    All-drop_low keeps (hit ∷ hits) h = elim (Bool-cases (keeps hit.score)) [
      | inl q ↦ rw q (h.0, All-drop_low keeps hits h.1)
      | inr q ↦ rw q (All-drop_low keeps hits h.1)
    ]

    pub All-limit_hits :
        (z : ℤ) (hits : List (SearchHit F S)) → All Q hits → All Q (limit_hits z hits)
    unfolding limit_hits
    All-limit_hits (pos n) hits h = elim (Bool-cases (ltb 0 n && ltb n (length hits))) [
      | inl q ↦ rw q (All-take Q n hits h)
      | inr q ↦ rw q h
    ]
    All-limit_hits (negsuc n) hits h = h

  length-taken :
      (n : ℕ) (hits : List (SearchHit F S)) → ltb n (length hits) ≡ true → length (take n hits) ≡ n
  length-taken zero hits h = refl
  length-taken (suc n) [] h = ground arith
  length-taken (suc n) (hit ∷ hits) h =
      let more : ltb n (length hits) ≡ true = ground arith in
      omega (arith, length-taken n hits more)

  -- A positive limit drops hits only where as many are left as it allows.
  pub limit_hits-cases :
      (n : ℕ) (hits : List (SearchHit F S))
      → (limit_hits (pos (suc n)) hits ≡ hits) ⊎ (length (limit_hits (pos (suc n)) hits) ≡ suc n)
  unfolding limit_hits
  limit_hits-cases n hits = elim (Bool-cases (ltb (suc n) (length hits))) [
    | inl more ↦
        let cut : (ltb 0 (suc n) && ltb (suc n) (length hits)) ≡ true = ground arith in
        inr (rw cut (length-taken (suc n) hits more))
    | inr fits ↦
        let whole : (ltb 0 (suc n) && ltb (suc n) (length hits)) ≡ false = ground arith in
        inl (rw whole refl)
  ]

  module _ (greater : S → S → Bool) where
    pub Descending-drop_low :
        (keeps : S → Bool) (hits : List (SearchHit F S))
        → Descending greater hits
        → Descending greater (drop_low keeps hits)
    unfolding drop_low
    Descending-drop_low keeps [] h = tt
    Descending-drop_low keeps (hit ∷ hits) h =
        let rest = Descending-drop_low keeps hits h.1 in
        elim (Bool-cases (keeps hit.score)) [
          | inl k ↦
              rw k
                (All-drop_low (λ later. greater later.score hit.score ≡ false) keeps hits h.0, rest)
          | inr k ↦ rw k rest
        ]

    Descending-take :
        (n : ℕ) (hits : List (SearchHit F S))
        → Descending greater hits
        → Descending greater (take n hits)
    Descending-take zero hits h = tt
    Descending-take (suc n) [] h = tt
    Descending-take (suc n) (hit ∷ hits) h = (
      All-take (λ later. greater later.score hit.score ≡ false) n hits h.0,
      Descending-take n hits h.1,
    )

    pub Descending-limit_hits :
        (z : ℤ) (hits : List (SearchHit F S))
        → Descending greater hits
        → Descending greater (limit_hits z hits)
    unfolding limit_hits
    Descending-limit_hits (pos n) hits h = elim (Bool-cases (ltb 0 n && ltb n (length hits))) [
      | inl q ↦ rw q (Descending-take n hits h)
      | inr q ↦ rw q h
    ]
    Descending-limit_hits (negsuc n) hits h = h
