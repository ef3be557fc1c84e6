-- ===== src/Rag/Fusion/Fused.antt =====
-- About the hits that reciprocal rank fusion gives.
use graph_agent_dev_kit.Common.{
  elem, sym, subst, String, ◌⊎◌, ℕ, suc, ◌≤◌, List, [], map, Bool, true, false, Bool-cases, inl,
  inr, ◌≡◌, refl, ap, ◌∙◌, if◌then◌else◌, length, length-take_le, All-map, All, arith,
}
use graph_agent_dev_kit.Rag.Fusion.Complete.{
  is_listed, Descending, merge_lists-listed, drop_low-cases, All-kept, All-drop_low, All-limit_hits,
  limit_hits-cases, Descending-drop_low, Descending-limit_hits,
}
use graph_agent_dev_kit.Common.Perms.{elem_perm, distinct, distinct_perm, All-perm}
use graph_agent_dev_kit.Common.Dict.{get}
use graph_agent_dev_kit.Common.Int.{ℤ, pos}
use graph_agent_dev_kit.Rag.Memstore.{ContentVariant, Provenance}
use graph_agent_dev_kit.Rag.Hits.{SearchHit, SearchConfig, Scores}
use graph_agent_dev_kit.Rag.Fusion.{Fusion, merge_lists, scored_hits, drop_low, limit_hits, fuse}
use graph_agent_dev_kit.Rag.Fusion.Totals.{ranks, rank_total, merge_lists-total}
use graph_agent_dev_kit.Rag.Fusion.Entries.{
  hit_id, OfHit, Scored, merge_lists-keys, merge_lists-entries, scored_hits-Scored, scored_hits-ids,
  distinct-drop_low, distinct-limit_hits,
}
use mathlib.Core.List.{Permᴰ}

module _ {F S : Type 0} where
  -- The sum of 1/(61 + rank) over the ranks of an id in the lists.
  abbrev pub total_of : Scores S → List (List (SearchHit F S)) → String → S
  total_of scores lists uuid = rank_total scores scores.zero_score (ranks uuid lists)

  -- No two hits with one id, and a predicate of all: the steps after the maps keep both.
  module _ (Q : SearchHit F S → Type 0) where
    abbrev Good : List (SearchHit F S) → Type 0
    Good hits = (distinct (map hit_id hits) ≡ true) × All Q hits

    Good-perm : (xs ys : List (SearchHit F S)) → Permᴰ xs ys → Good ys → Good xs
    Good-perm xs ys p g = (distinct_perm hit_id p ∙ g.0, All-perm Q p g.1)

    Good-cut :
        (b : Bool) (keeps : S → Bool) (z : ℤ) (hits : List (SearchHit F S))
        → Good hits
        → Good (limit_hits z (if b then drop_low keeps hits else hits))
    Good-cut true keeps z hits g = (
      distinct-limit_hits z (drop_low keeps hits) (distinct-drop_low keeps hits g.0),
      All-limit_hits Q z (drop_low keeps hits) (All-drop_low Q keeps hits g.1),
    )
    Good-cut false keeps z hits g = (distinct-limit_hits z hits g.0, All-limit_hits Q z hits g.1)

  -- The hits of a fusion of lists, at most n: no two have one id; what holds of every retrieved
  -- variant holds of theirs; a score is the total of the ranks of its id in the lists, reaches a
  -- positive least score, and is not greater than one before it; and an id of the lists is left out
  -- only for a total below a positive least score, or where n hits are there.
  pub record IsFused (P : ContentVariant F → Provenance → Type 0) (f : Fusion F S) (min_score : S)
      (lists : List (List (SearchHit F S))) (n : ℕ) (hits : List (SearchHit F S)) : Type 0 where
    pub ids : distinct (map hit_id hits) ≡ true
    pub kept : All (OfHit P) hits
    pub totals : All (λ hit. hit.score ≡ total_of f.scores lists (hit_id hit)) hits
    pub high :
        (f.scores.greater min_score f.scores.zero_score ≡ false)
        ⊎ All (λ hit. f.at_least hit.score min_score ≡ true) hits
    pub sorted : Descending f.scores.greater hits
    pub bounded : length hits ≤ n
    pub complete :
        (uuid : String)
        → (is_listed uuid lists ≡ false)
          ⊎ (elem uuid (map hit_id hits) ≡ true)
          ⊎ ((f.scores.greater min_score f.scores.zero_score ≡ true)
              × (f.at_least (total_of f.scores lists uuid) min_score ≡ false))
          ⊎ (length hits ≡ n)

  limit_hits-bound :
      (n : ℕ) (hits : List (SearchHit F S)) → length (limit_hits (pos (suc n)) hits) ≤ suc n
  unfolding limit_hits
  limit_hits-bound n hits = ground (arith, length-take_le (suc n) hits)

  -- The least score, where one is asked for.
  abbrev filtered : Bool → (S → Bool) → List (SearchHit F S) → List (SearchHit F S)
  filtered b keeps hits = if b then drop_low keeps hits else hits

  filtered-high :
      (b : Bool) (keeps : S → Bool) (hits : List (SearchHit F S))
      → (b ≡ false) ⊎ All (λ hit. keeps hit.score ≡ true) (filtered b keeps hits)
  filtered-high true keeps hits = inr (All-kept keeps hits)
  filtered-high false keeps hits = inl refl

  filtered-sorted :
      (greater : S → S → Bool) (b : Bool) (keeps : S → Bool) (hits : List (SearchHit F S))
      → Descending greater hits
      → Descending greater (filtered b keeps hits)
  filtered-sorted greater true keeps hits h = Descending-drop_low greater keeps hits h
  filtered-sorted greater false keeps hits h = h

  filtered-cases :
      (b : Bool) (keeps : S → Bool) (total : String → S) (uuid : String)
      (hits : List (SearchHit F S))
      → All (λ hit. hit.score ≡ total (hit_id hit)) hits
      → elem uuid (map hit_id hits) ≡ true
      → (elem uuid (map hit_id (filtered b keeps hits)) ≡ true)
        ⊎ ((b ≡ true) × (keeps (total uuid) ≡ false))
  filtered-cases true keeps total uuid hits h e = elim (drop_low-cases keeps total uuid hits h e) [
    | inl there ↦ inl there
    | inr low ↦ inr (refl, low)
  ]
  filtered-cases false keeps total uuid hits h e = inl e

  limited-cases :
      (n : ℕ) (uuid : String) (hits : List (SearchHit F S))
      → elem uuid (map hit_id hits) ≡ true
      → (elem uuid (map hit_id (limit_hits (pos (suc n)) hits)) ≡ true)
        ⊎ (length (limit_hits (pos (suc n)) hits) ≡ suc n)
  limited-cases n uuid hits e = elim (limit_hits-cases n hits) [
    | inl same ↦ inl (ap (λ l. elem uuid (map hit_id l)) same ∙ e)
    | inr full ↦ inr full
  ]

  high-limited :
      (b : Bool) (Q : SearchHit F S → Type 0) (z : ℤ) (hits : List (SearchHit F S))
      → (b ≡ false) ⊎ All Q hits
      → (b ≡ false) ⊎ All Q (limit_hits z hits)
  high-limited b Q z hits (inl off) = inl off
  high-limited b Q z hits (inr all) = inr (All-limit_hits Q z hits all)

  pub fuse-IsFused :
      (P : ContentVariant F → Provenance → Type 0) (f : Fusion F S) (cfg : SearchConfig S)
      (lists : List (List (SearchHit F S))) (n : ℕ)
      → ((hits : List (SearchHit F S)) → Permᴰ (f.sort_by_score hits) hits)
      → ((hits : List (SearchHit F S)) → Descending f.scores.greater (f.sort_by_score hits))
      → cfg.limit ≡ pos (suc n)
      → All (All (OfHit P)) lists
      → IsFused P f cfg.min_score lists (suc n) (fuse f cfg lists)
  unfolding fuse get
  fuse-IsFused P f cfg lists n permutes sorts limit p =
      let m = merge_lists f.scores lists ([], []) in
      let entries = merge_lists-entries P f.scores lists ([], []) p tt in
      let found = scored_hits f.scores m.0 m.1 in
      let sorted = f.sort_by_score found in
      let total = total_of f.scores lists in
      let Q = Scored P f.scores m.0 in
      let b = f.scores.greater cfg.min_score f.scores.zero_score in
      let keeps : S → Bool = λ x. f.at_least x cfg.min_score in
      let low = filtered b keeps sorted in
      let ids = scored_hits-ids P f.scores m.0 m.1 entries in
      let merged : Good Q found = (
        ap distinct ids ∙ merge_lists-keys f.scores lists ([], []) refl,
        scored_hits-Scored P f.scores m.0 m.1 entries,
      ) in
      let good = Good-perm Q sorted found (permutes found) merged in
      let cut : Good Q (limit_hits (pos (suc n)) low) =
        Good-cut Q b keeps (pos (suc n)) sorted good in
      let as_total : (hits : List (SearchHit F S))
          → All Q hits
          → All (λ hit. hit.score ≡ total (hit_id hit)) hits =
        λ hits.
          All-map Q (λ hit. hit.score ≡ total (hit_id hit)) hits
            (λ hit q. q.1 ∙ merge_lists-total f.scores (hit_id hit) lists ([], [])) in
      subst (λ z. IsFused P f cfg.min_score lists (suc n) (limit_hits z low)) (sym limit)
        (record {
          ids = cut.0;
          kept = All-map Q (OfHit P) (limit_hits (pos (suc n)) low) (λ hit q. q.0) cut.1;
          totals = as_total (limit_hits (pos (suc n)) low) cut.1;
          high =
              high-limited b (λ hit. keeps hit.score ≡ true) (pos (suc n)) low
                (filtered-high b keeps sorted);
          sorted =
              Descending-limit_hits f.scores.greater (pos (suc n)) low
                (filtered-sorted f.scores.greater b keeps sorted (sorts found));
          bounded = limit_hits-bound n low;
          complete = λ uuid. elim (Bool-cases (is_listed uuid lists)) [
            | inr off ↦ inl off
            | inl listed ↦
                let there : elem uuid (map hit_id sorted) ≡ true =
                  elem_perm hit_id uuid (permutes found)
                  ∙ ap (elem uuid) ids
                  ∙ merge_lists-listed f.scores uuid lists ([], [])
                  ∙ listed in
                elim (filtered-cases b keeps total uuid sorted (as_total sorted good.1) there) [
                  | inr below ↦ inr (inr (inl below))
                  | inl left ↦ elim (limited-cases n uuid low left) [
                    | inl stays ↦ inr (inl stays)
                    | inr full ↦ inr (inr (inr full))
                  ]
                ]
          ];
        })
