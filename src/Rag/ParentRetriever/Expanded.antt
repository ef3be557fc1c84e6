-- ===== src/Rag/ParentRetriever/Expanded.antt =====
-- About the hits of the parent retriever.
use graph_agent_dev_kit.Common.{
  elem, Result-cases, String, ◌==◌, List, [], ◌∷◌, ◌++◌, map, true, Bool-cases, inl, inr, All, ◌≡◌,
  refl, sym, ap, ap₂, ◌∙◌, subst, ok,
}
use graph_agent_dev_kit.Common.Dict.{Dict, keys}
use graph_agent_dev_kit.Common.Perms.{distinct, distinct_perm, elem_perm, All-perm}
use graph_agent_dev_kit.Rag.Memstore.{Store, Section, Provenance, get_sections}
use graph_agent_dev_kit.Rag.Hits.{SearchHit, SearchOptions, Scores}
use graph_agent_dev_kit.Rag.ParentRetriever.{
  section_of, texts_of, with_texts, in_parent, expand, best_by_section, move_down, sort_from,
  sort_hits, expand_hits, parent_retrieve,
}
use graph_agent_dev_kit.Rag.ParentRetriever.Best.{
  OfPlace, Entry, best_by_section-Entry, best_by_section-distinct, elem-best_by_section,
}
use graph_agent_dev_kit.Rag.Search.{Retriever}
use mathlib.Core.List.{Permᴰ}
use mathlib.Core.List.Permᴰ

-- The expansion changes the text only.
module _ {F S : Type 0} where
  abbrev SamePlace : SearchHit F S → SearchHit F S → Type 0
  SamePlace a b = (a.provenance ≡ b.provenance) × (a.score ≡ b.score)

  with_texts-SamePlace :
      (hit : SearchHit F S) (ts : List String) → SamePlace (with_texts hit ts) hit
  unfolding with_texts
  with_texts-SamePlace hit [] = (refl, refl)
  with_texts-SamePlace hit (t ∷ ts) = (refl, refl)

  in_parent-SamePlace :
      (hit : SearchHit F S) (secs : List (Section F)) → SamePlace (in_parent hit secs) hit
  unfolding in_parent
  in_parent-SamePlace hit [] = (refl, refl)
  in_parent-SamePlace hit (sec ∷ secs) =
      let rest = in_parent-SamePlace hit secs in
      elim (Bool-cases (sec.uuid == section_of hit)) [
        | inl q ↦ rw q (with_texts-SamePlace hit (texts_of sec.variants))
        | inr q ↦ rw q rest
      ]

  expand-SamePlace : (s : Store F) (hit : SearchHit F S) → SamePlace (expand s hit) hit
  unfolding expand
  expand-SamePlace s hit = elim (Result-cases (get_sections hit.provenance.document_uuid s)) [
    | inl (secs, q) ↦ rw (q, expand) (in_parent-SamePlace hit secs)
    | inr (e, q) ↦ rw (q, expand) (refl, refl)
  ]

module _ {F S : Type 0} where
  -- No two hits of a list have one section, a section is that of a hit of it when it is that of a
  -- hit of another list, and what holds of the place and score of every hit of that holds here.
  module _ (P : Provenance → S → Type 0) (hits result : List (SearchHit F S)) where
    pub record IsParents : Type 0 where
      pub sections : distinct (map section_of result) ≡ true
      pub all_sections :
          (a : String) → elem a (map section_of result) ≡ elem a (map section_of hits)
      pub places : All (OfPlace P) result

module _ {F S : Type 0} (scores : Scores S) where
  move_down-perm :
      (hit : SearchHit F S) (sorted : List (SearchHit F S))
      → Permᴰ (move_down scores hit sorted) (hit ∷ sorted)
  unfolding move_down
  move_down-perm hit [] = Permᴰ.refl (hit ∷ [])
  move_down-perm hit (before ∷ sorted) =
      let rest = move_down-perm hit sorted in
      elim (Bool-cases (scores.greater hit.score before.score)) [
        | inl q ↦ rw q (Permᴰ.trans (Permᴰ.cons refl rest) (Permᴰ.swap refl refl))
        | inr q ↦ rw q (Permᴰ.refl (hit ∷ before ∷ sorted))
      ]

  sort_from-perm :
      (hits sorted : List (SearchHit F S)) → Permᴰ (sort_from scores sorted hits) (hits ++ sorted)
  unfolding sort_from
  sort_from-perm [] sorted = Permᴰ.refl sorted
  sort_from-perm (hit ∷ hits) sorted =
      Permᴰ.trans (sort_from-perm hits (move_down scores hit sorted)) (
        Permᴰ.trans (Permᴰ.append_left hits (move_down-perm hit sorted))
          (Permᴰ.middle hit hits sorted))

  sort_hits-perm : (hits : List (SearchHit F S)) → Permᴰ (sort_hits scores hits) hits
  unfolding sort_hits
  sort_hits-perm hits =
      Permᴰ.trans (Permᴰ.reverse (sort_from scores [] hits))
        (Permᴰ.trans (sort_from-perm hits []) (Permᴰ.append-nil hits))

  -- The sections of the expanded hits are the keys of the map.
  expanded-sections :
      (s : Store F) (best : Dict (SearchHit F S))
      → All (Entry (λ p x. Unit)) best
      → map section_of (map (λ e. expand s e.1) best) ≡ keys best
  expanded-sections s [] all = refl
  expanded-sections s ((k, hit) ∷ best) all =
      ap₂ ◌∷◌ (ap (λ p. p.section_uuid) (expand-SamePlace s hit).0 ∙ all.0.0)
        (expanded-sections s best all.1)

  expanded-OfPlace :
      (P : Provenance → S → Type 0) (s : Store F) (best : Dict (SearchHit F S))
      → All (Entry P) best
      → All (OfPlace P) (map (λ e. expand s e.1) best)
  expanded-OfPlace P s [] all = tt
  expanded-OfPlace P s ((k, hit) ∷ best) all =
      let same = expand-SamePlace s hit in
      (
        subst (λ p. P p (expand s hit).score) (sym same.0)
            (subst (λ x. P hit.provenance x) (sym same.1) all.0.1),
        expanded-OfPlace P s best all.1,
      )

  All-any : (hits : List (SearchHit F S)) → All (OfPlace (λ p x. Unit)) hits
  All-any [] = tt
  All-any (hit ∷ hits) = (tt, All-any hits)

  expand_hits-IsParents :
      (P : Provenance → S → Type 0) (s : Store F) (hits : List (SearchHit F S))
      → All (OfPlace P) hits
      → IsParents P hits (expand_hits scores s hits)
  unfolding expand_hits
  expand_hits-IsParents P s hits of =
      let best = best_by_section scores [] hits in
      let sorted = sort_hits-perm (map (λ e. expand s e.1) best) in
      let ids =
        expanded-sections s best
          (best_by_section-Entry scores (λ p x. Unit) [] hits tt (All-any hits)) in
      record {
        sections =
            distinct_perm section_of sorted
            ∙ ap distinct ids
            ∙ best_by_section-distinct scores [] hits refl;
        all_sections = λ a.
            elem_perm section_of a sorted ∙ ap (elem a) ids ∙ elem-best_by_section scores a [] hits;
        places =
            All-perm (OfPlace P) sorted
              (expanded-OfPlace P s best (best_by_section-Entry scores P [] hits tt of));
      }

  -- When the inner retriever answers with hits, the parent retriever answers too: no two of its
  -- hits have one section, it has a hit of a section exactly when the inner hits have one, and
  -- what holds of the provenance and score of every inner hit holds of its hits.
  pub parent_retrieve-IsParents :
      (P : Provenance → S → Type 0) (s : Store F) (inner : Retriever F S) (query : String)
      (opts : SearchOptions S) (hits : List (SearchHit F S))
      → inner query opts ≡ ok hits
      → All (OfPlace P) hits
      → (result : List (SearchHit F S)) × (parent_retrieve scores s inner query opts ≡ ok result)
        × IsParents P hits result
  unfolding parent_retrieve
  parent_retrieve-IsParents P s inner query opts [] h of = (
    [],
    rw (h, parent_retrieve) refl,
    record { sections = refl; all_sections = λ a. refl; places = tt },
  )
  parent_retrieve-IsParents P s inner query opts (hit ∷ hits) h of = (
    expand_hits scores s (hit ∷ hits),
    rw (h, parent_retrieve) refl,
    expand_hits-IsParents P s (hit ∷ hits) of,
  )
