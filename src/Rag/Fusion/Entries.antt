-- ===== src/Rag/Fusion/Entries.antt =====
-- About the two maps of reciprocal rank fusion: their keys and entries.
use graph_agent_dev_kit.Common.{
  ℕ, suc, String, List, [], ◌∷◌, map, Bool, true, false, Bool-cases, Option-cases, inl, inr, ◌≡◌,
  refl, sym, ap, ap₂, elem, All, arith,
}
use graph_agent_dev_kit.Common.Perms.{distinct, distinct-take}
use graph_agent_dev_kit.Common.Dict.{Dict, get, keys, distinct-keys-put, All-put}
use graph_agent_dev_kit.Common.Int.{ℤ, pos, negsuc}
use graph_agent_dev_kit.Rag.Memstore.{ContentVariant, Provenance}
use graph_agent_dev_kit.Rag.Hits.{SearchHit, Scores}
use graph_agent_dev_kit.Rag.Fusion.{
  Merged, keep_best, add_score, merge_list, merge_lists, scored_hits, drop_low, limit_hits,
}
use graph_agent_dev_kit.Rag.Fusion.Totals.{held}

module _ {F S : Type 0} where
  abbrev pub hit_id : SearchHit F S → String
  hit_id hit = hit.variant.uuid

  keep_best-keys :
      (scores : Scores S) (hit : SearchHit F S) (best : Dict (SearchHit F S))
      → distinct (keys best) ≡ true
      → distinct (keys (keep_best scores hit best)) ≡ true
  unfolding keep_best
  keep_best-keys scores hit best h = elim (Option-cases (get best hit.variant.uuid)) [
    | inl q ↦ rw (q, keep_best) (distinct-keys-put best hit.variant.uuid hit h)
    | inr (old, q) ↦ elim (Bool-cases (scores.greater hit.score old.score)) [
      | inl g ↦ rw (q, keep_best, g) (distinct-keys-put best hit.variant.uuid hit h)
      | inr g ↦ rw (q, keep_best, g) h
    ]
  ]

  merge_list-keys :
      (scores : Scores S) (rank : ℕ) (hits : List (SearchHit F S)) (m : Merged F S)
      → distinct (keys m.1) ≡ true
      → distinct (keys (merge_list scores rank hits m).1) ≡ true
  unfolding merge_list
  merge_list-keys scores rank [] m h = h
  merge_list-keys scores rank (hit ∷ hits) m h =
      merge_list-keys scores (suc rank) hits
        (add_score scores rank hit.variant.uuid m.0, keep_best scores hit m.1)
        (keep_best-keys scores hit m.1 h)

  pub merge_lists-keys :
      (scores : Scores S) (lists : List (List (SearchHit F S))) (m : Merged F S)
      → distinct (keys m.1) ≡ true
      → distinct (keys (merge_lists scores lists m).1) ≡ true
  unfolding merge_lists
  merge_lists-keys scores [] m h = h
  merge_lists-keys scores (hits ∷ lists) m h =
      merge_lists-keys scores lists (merge_list scores 0 hits m) (merge_list-keys scores 0 hits m h)

  -- Low scores leave the others distinct.
  elem-drop_low :
      (a : String) (keeps : S → Bool) (hits : List (SearchHit F S))
      → elem a (map hit_id hits) ≡ false
      → elem a (map hit_id (drop_low keeps hits)) ≡ false
  unfolding drop_low
  elem-drop_low a keeps [] h = refl
  elem-drop_low a keeps (hit ∷ hits) h = ground (arith, elem-drop_low a keeps hits)

  pub distinct-drop_low :
      (keeps : S → Bool) (hits : List (SearchHit F S))
      → distinct (map hit_id hits) ≡ true
      → distinct (map hit_id (drop_low keeps hits)) ≡ true
  unfolding drop_low
  distinct-drop_low keeps [] h = refl
  distinct-drop_low keeps (hit ∷ hits) h =
      ground (arith, distinct-drop_low keeps hits, elem-drop_low (hit_id hit) keeps hits)

  pub distinct-limit_hits :
      (z : ℤ) (hits : List (SearchHit F S))
      → distinct (map hit_id hits) ≡ true
      → distinct (map hit_id (limit_hits z hits)) ≡ true
  unfolding limit_hits
  distinct-limit_hits (pos n) hits h = ground (arith, distinct-take hit_id n hits)
  distinct-limit_hits (negsuc n) hits h = h

  module _ (P : ContentVariant F → Provenance → Type 0) where
    abbrev pub OfHit : SearchHit F S → Type 0
    OfHit hit = P hit.variant hit.provenance

    -- An entry of hitMap.
    abbrev pub OfEntry : String × SearchHit F S → Type 0
    OfEntry e = (e.1.variant.uuid ≡ e.0) × OfHit e.1

    keep_best-entries :
        (scores : Scores S) (hit : SearchHit F S) (best : Dict (SearchHit F S))
        → OfHit hit
        → All OfEntry best
        → All OfEntry (keep_best scores hit best)
    unfolding keep_best
    keep_best-entries scores hit best p h = elim (Option-cases (get best hit.variant.uuid)) [
      | inl q ↦ rw (q, keep_best) (All-put OfEntry best hit.variant.uuid hit h (refl, p))
      | inr (old, q) ↦ elim (Bool-cases (scores.greater hit.score old.score)) [
        | inl g ↦ rw (q, keep_best, g) (All-put OfEntry best hit.variant.uuid hit h (refl, p))
        | inr g ↦ rw (q, keep_best, g) h
      ]
    ]

    merge_list-entries :
        (scores : Scores S) (rank : ℕ) (hits : List (SearchHit F S)) (m : Merged F S)
        → All OfHit hits
        → All OfEntry m.1
        → All OfEntry (merge_list scores rank hits m).1
    unfolding merge_list
    merge_list-entries scores rank [] m p h = h
    merge_list-entries scores rank (hit ∷ hits) m p h =
        merge_list-entries scores (suc rank) hits
          (add_score scores rank hit.variant.uuid m.0, keep_best scores hit m.1) p.1
          (keep_best-entries scores hit m.1 p.0 h)

    pub merge_lists-entries :
        (scores : Scores S) (lists : List (List (SearchHit F S))) (m : Merged F S)
        → All (All OfHit) lists
        → All OfEntry m.1
        → All OfEntry (merge_lists scores lists m).1
    unfolding merge_lists
    merge_lists-entries scores [] m p h = h
    merge_lists-entries scores (hits ∷ lists) m p h =
        merge_lists-entries scores lists (merge_list scores 0 hits m) p.1
          (merge_list-entries scores 0 hits m p.0 h)

    -- A hit with the score that the map `totals` has for its id.
    abbrev pub Scored : Scores S → Dict S → SearchHit F S → Type 0
    Scored scores totals hit = OfHit hit × (hit.score ≡ held scores totals hit.variant.uuid)

    pub scored_hits-Scored :
        (scores : Scores S) (totals : Dict S) (best : Dict (SearchHit F S))
        → All OfEntry best
        → All (Scored scores totals) (scored_hits scores totals best)
    unfolding scored_hits
    scored_hits-Scored scores totals [] h = tt
    scored_hits-Scored scores totals ((uuid, hit) ∷ best) h =
        ((h.0.1, ap (held scores totals) (sym h.0.0)), scored_hits-Scored scores totals best h.1)

    pub scored_hits-ids :
        (scores : Scores S) (totals : Dict S) (best : Dict (SearchHit F S))
        → All OfEntry best
        → map hit_id (scored_hits scores totals best) ≡ keys best
    unfolding scored_hits
    scored_hits-ids scores totals [] h = refl
    scored_hits-ids scores totals ((uuid, hit) ∷ best) h =
        ap₂ ◌∷◌ h.0.0 (scored_hits-ids scores totals best h.1)
