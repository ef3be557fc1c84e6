-- ===== src/Rag/ParentRetriever/Best.antt =====
-- About the map of the best hits of the parent retriever.
use graph_agent_dev_kit.Common.{
  elem, Option-cases, arith, ◌⊎◌, String, ◌==◌, some, List, [], ◌∷◌, map, true, ◌||◌, Bool-cases,
  inl, inr, All, ◌≡◌, refl,
}
use graph_agent_dev_kit.Common.Dict.{
  Dict, get, put, keys, elem-keys-get, elem-keys-put, distinct-keys-put, All-put,
}
use graph_agent_dev_kit.Common.Perms.{distinct}
use graph_agent_dev_kit.Rag.Memstore.{Provenance}
use graph_agent_dev_kit.Rag.Hits.{SearchHit, Scores}
use graph_agent_dev_kit.Rag.ParentRetriever.{section_of, keep_better, best_by_section}

module _ {F S : Type 0} (P : Provenance → S → Type 0) where
  abbrev pub OfPlace : SearchHit F S → Type 0
  OfPlace hit = P hit.provenance hit.score

  -- An entry of the map, whose key is the section of its hit.
  abbrev pub Entry : String × SearchHit F S → Type 0
  Entry e = (section_of e.1 ≡ e.0) × OfPlace e.1

module _ {F S : Type 0} (scores : Scores S) where
  keep_better-cases :
      (best : Dict (SearchHit F S)) (hit : SearchHit F S)
      → (keep_better scores best hit ≡ put best (section_of hit) hit)
        ⊎ ((existing : SearchHit F S) × (get best (section_of hit) ≡ some existing)
            × (keep_better scores best hit ≡ best))
  keep_better-cases best hit = elim (Option-cases (get best (section_of hit))) [
    | inl q ↦ inl (unfold keep_better in rw (q, keep_better) refl)
    | inr (existing, q) ↦ elim (Bool-cases (scores.greater hit.score existing.score)) [
      | inl g ↦ inl (unfold keep_better in rw (q, g, keep_better) refl)
      | inr g ↦ inr (existing, q, unfold keep_better in rw (q, g, keep_better) refl)
    ]
  ]

  module _ (P : Provenance → S → Type 0) where
    keep_better-Entry :
        (best : Dict (SearchHit F S)) (hit : SearchHit F S)
        → All (Entry P) best
        → OfPlace P hit
        → All (Entry P) (keep_better scores best hit)
    keep_better-Entry best hit all p = elim (keep_better-cases best hit) [
      | inl e ↦ rw e (All-put (Entry P) best (section_of hit) hit all (refl, p))
      | inr (existing, q, e) ↦ rw e all
    ]

    pub best_by_section-Entry :
        (best : Dict (SearchHit F S)) (hits : List (SearchHit F S))
        → All (Entry P) best
        → All (OfPlace P) hits
        → All (Entry P) (best_by_section scores best hits)
    unfolding best_by_section
    best_by_section-Entry best [] all p = all
    best_by_section-Entry best (hit ∷ hits) all p =
        best_by_section-Entry (keep_better scores best hit) hits
          (keep_better-Entry best hit all p.0) p.1

  keep_better-distinct :
      (best : Dict (SearchHit F S)) (hit : SearchHit F S)
      → distinct (keys best) ≡ true
      → distinct (keys (keep_better scores best hit)) ≡ true
  keep_better-distinct best hit h = elim (keep_better-cases best hit) [
    | inl e ↦ rw e (distinct-keys-put best (section_of hit) hit h)
    | inr (existing, q, e) ↦ rw e h
  ]

  elem-keep_better :
      (a : String) (best : Dict (SearchHit F S)) (hit : SearchHit F S)
      → elem a (keys (keep_better scores best hit)) ≡ (elem a (keys best) || a == section_of hit)
  elem-keep_better a best hit = elim (keep_better-cases best hit) [
    | inl e ↦ rw e (elem-keys-put best a (section_of hit) hit)
    | inr (existing, q, e) ↦ rw e (elem-keys-get best a (section_of hit) existing q)
  ]

  pub best_by_section-distinct :
      (best : Dict (SearchHit F S)) (hits : List (SearchHit F S))
      → distinct (keys best) ≡ true
      → distinct (keys (best_by_section scores best hits)) ≡ true
  unfolding best_by_section
  best_by_section-distinct best [] h = h
  best_by_section-distinct best (hit ∷ hits) h =
      best_by_section-distinct (keep_better scores best hit) hits (keep_better-distinct best hit h)

  pub elem-best_by_section :
      (a : String) (best : Dict (SearchHit F S)) (hits : List (SearchHit F S))
      → elem a (keys (best_by_section scores best hits))
        ≡ (elem a (keys best) || elem a (map section_of hits))
  unfolding best_by_section
  elem-best_by_section a best [] = ground arith
  elem-best_by_section a best (hit ∷ hits) = ground (
    arith,
    elem-best_by_section a (keep_better scores best hit) hits,
    elem-keep_better a best hit,
  )
