-- ===== src/Rag/EmbedderRegistry/Ordered.antt =====
-- About the order of the embeddings of rag/embedderregistry/registry.go.
use graph_agent_dev_kit.Common.{
  ℕ, zero, suc, ◌+◌, ◌<◌, String, Option, some, List, [], ◌∷◌, map, true, false, ◌||◌, Bool-cases,
  inl, inr, ◌⊎◌, All, ◌≡◌, refl, sym, ap, ap₂, ◌∙◌, subst, arith, nat_eqb, eq_of_nat_test, length,
  ok,
}
use graph_agent_dev_kit.Common.Dict.{Dict, get}
use graph_agent_dev_kit.Rag.EmbedderRegistry.{
  Embedder, Registry, Group, set_at, no_results, batch_of, place, embedder_for, embed_groups,
  group_from, registry_embed,
}
use graph_agent_dev_kit.Rag.EmbedderRegistry.Groups.{
  at, has_index, in_groups, Right, RightGroup, group_from-Right, group_from-all,
}

module _ {A : Type 0} where
  length-set_at : (n : ℕ) (x : A) (xs : List A) → length (set_at n x xs) ≡ length xs
  unfolding set_at
  length-set_at n x [] = refl
  length-set_at zero x (y ∷ ys) = refl
  length-set_at (suc n) x (y ∷ ys) = ap suc (length-set_at n x ys)

  at-set_at : (n : ℕ) (x : A) (xs : List A) → n < length xs → at n (set_at n x xs) ≡ some x
  unfolding set_at
  at-set_at n x [] h = absurd (omega arith)
  at-set_at zero x (y ∷ ys) h = refl
  at-set_at (suc n) x (y ∷ ys) h = at-set_at n x ys (omega arith)

  at-set_at_ne :
      (i n : ℕ) (x : A) (xs : List A) → nat_eqb i n ≡ false → at i (set_at n x xs) ≡ at i xs
  unfolding set_at
  at-set_at_ne i n x [] h = refl
  at-set_at_ne zero zero x (y ∷ ys) h = absurd (ground arith)
  at-set_at_ne zero (suc n) x (y ∷ ys) h = refl
  at-set_at_ne (suc i) zero x (y ∷ ys) h = refl
  at-set_at_ne (suc i) (suc n) x (y ∷ ys) h = at-set_at_ne i n x ys (ground arith)

  at-lt : (n : ℕ) (xs : List A) {x : A} → at n xs ≡ some x → n < length xs
  at-lt n [] e = absurd cc
  at-lt zero (x ∷ xs) e = omega arith
  at-lt (suc n) (x ∷ xs) e = omega (arith, at-lt n xs e)

-- A list that has the image of every element at its place is the image of the list.
map-of-at :
    {A B : Type 0} (f : A → B) (xs : List B) (ys : List A)
    → length xs ≡ length ys
    → ((i : ℕ) (y : A) → at i ys ≡ some y → at i xs ≡ some (f y))
    → xs ≡ map f ys
map-of-at f [] [] n h = refl
map-of-at f [] (y ∷ ys) n h = absurd (omega arith)
map-of-at f (x ∷ xs) [] n h = absurd (omega arith)
map-of-at f (x ∷ xs) (y ∷ ys) n h =
    let first : some x ≡ some (f y) = h 0 y refl in
    let first' : x ≡ f y = cc in
    ap₂ ◌∷◌ first' (map-of-at f xs ys (omega arith) (λ i z e. h (suc i) z e))

-- The embedder of a type answers the variants of that type one by one.
unfoldable pub Answers : {V E : Type 0} → (V → String) → (V → E) → Registry V E → Type 0
Answers {V} {E} content_type point r =
    (ct : String) (batch : List V)
    → All (λ v. content_type v ≡ ct) batch
    → (embed : Embedder V E) × (embedder_for r ct ≡ some embed)
      × (embed batch ≡ ok (map point batch))

module _ {V E : Type 0} (content_type : V → String) (point : V → E) (vs : List V) where
  -- The result at a position is the embedding of its variant.
  abbrev Done : ℕ → V → List (Option E) → Type 0
  Done i v results = at i results ≡ some (some (point v))

  abbrev placed : Group V → List (Option E) → List (Option E)
  placed g results = place g (map point (batch_of g)) results

  length-placed :
      (g : Group V) (results : List (Option E)) → length (placed g results) ≡ length results
  unfolding place
  length-placed [] results = refl
  length-placed (iv ∷ g) results =
      length-placed g (set_at iv.0 (some (point iv.1)) results)
      ∙ length-set_at iv.0 (some (point iv.1)) results

  -- A write of a variant at its position, seen from the position i.
  written :
      (ct : String) (i : ℕ) (v : V) (iv : ℕ × V) (results : List (Option E))
      → at i vs ≡ some v
      → length results ≡ length vs
      → Right content_type vs ct iv
      → nat_eqb i iv.0 ≡ true
      → Done i v (set_at iv.0 (some (point iv.1)) results)
  written ct i v iv results e n r q =
      let same : i ≡ iv.0 = eq_of_nat_test i iv.0 q in
      let one : some v ≡ some iv.1 = sym e ∙ ap (λ k. at k vs) same ∙ r.0 in
      let one' : v ≡ iv.1 = cc in
      let bound : iv.0 < length results = omega (arith, at-lt iv.0 vs r.0) in
      ap (λ k. at k (set_at iv.0 (some (point iv.1)) results)) same
      ∙ at-set_at iv.0 (some (point iv.1)) results bound
      ∙ ap (λ x. some (some (point x))) (sym one')

  placed-Done :
      (ct : String) (i : ℕ) (v : V) (g : Group V) (results : List (Option E))
      → at i vs ≡ some v
      → length results ≡ length vs
      → All (Right content_type vs ct) g
      → (Done i v results) ⊎ (has_index i g ≡ true)
      → Done i v (placed g results)
  unfolding place
  placed-Done ct i v [] results e n r (inl d) = d
  placed-Done ct i v [] results e n r (inr h) = absurd cc
  placed-Done ct i v (iv ∷ g) results e n r h =
      let results' = set_at iv.0 (some (point iv.1)) results in
      let n' = length-set_at iv.0 (some (point iv.1)) results ∙ n in
      elim (Bool-cases (nat_eqb i iv.0)) [
        | inl q ↦ placed-Done ct i v g results' e n' r.1 (inl (written ct i v iv results e n r.0 q))
        | inr q ↦
            placed-Done ct i v g results' e n' r.1
              (kept h q (at-set_at_ne i iv.0 (some (point iv.1)) results q))
      ]
    where
      kept :
          (Done i v results) ⊎ ((nat_eqb i iv.0 || has_index i g) ≡ true)
          → nat_eqb i iv.0 ≡ false
          → at i (set_at iv.0 (some (point iv.1)) results) ≡ at i results
          → (Done i v (set_at iv.0 (some (point iv.1)) results)) ⊎ (has_index i g ≡ true)
      kept (inl d) q same = inl (same ∙ d)
      kept (inr m) q same = inr (ground arith)

  batch_types :
      (ct : String) (g : Group V)
      → All (Right content_type vs ct) g
      → All (λ v. content_type v ≡ ct) (batch_of g)
  batch_types ct [] h = tt
  batch_types ct (iv ∷ g) h = (h.0.1, batch_types ct g h.1)

  abbrev all_placed : Dict (Group V) → List (Option E) → List (Option E)
  all_placed [] results = results
  all_placed ((ct, g) ∷ groups) results = all_placed groups (placed g results)

  embed_groups-ok :
      (r : Registry V E) (groups : Dict (Group V)) (results : List (Option E))
      → Answers content_type point r
      → All (RightGroup content_type vs) groups
      → embed_groups r groups results ≡ ok (all_placed groups results)
  unfolding embed_groups Answers
  embed_groups-ok r [] results a h = refl
  embed_groups-ok r ((ct, g) ∷ groups) results a h =
      let (embed, found, answer) = a ct (batch_of g) (batch_types ct g h.0) in
      rw (found, embed_groups, answer) (embed_groups-ok r groups (placed g results) a h.1)

  all_placed-Done :
      (i : ℕ) (v : V) (groups : Dict (Group V)) (results : List (Option E))
      → at i vs ≡ some v
      → length results ≡ length vs
      → All (RightGroup content_type vs) groups
      → (Done i v results) ⊎ (in_groups i groups ≡ true)
      → Done i v (all_placed groups results)
  all_placed-Done i v [] results e n h (inl d) = d
  all_placed-Done i v [] results e n h (inr m) = absurd cc
  all_placed-Done i v ((ct, g) ∷ groups) results e n h (inl d) =
      all_placed-Done i v groups (placed g results) e (length-placed g results ∙ n) h.1
        (inl (placed-Done ct i v g results e n h.0 (inl d)))
  all_placed-Done i v ((ct, g) ∷ groups) results e n h (inr m) =
      all_placed-Done i v groups (placed g results) e (length-placed g results ∙ n) h.1
        (elim (Bool-cases (has_index i g)) [
          | inl q ↦ inl (placed-Done ct i v g results e n h.0 (inr q))
          | inr q ↦ inr (ground arith)
        ])

  length-all_placed :
      (groups : Dict (Group V)) (results : List (Option E))
      → length (all_placed groups results) ≡ length results
  length-all_placed [] results = refl
  length-all_placed ((ct, g) ∷ groups) results =
      length-all_placed groups (placed g results) ∙ length-placed g results

length-no_results :
    {V : Type 0} (E : Type 0) (vs : List V) → length (no_results {V = V} {E = E} vs) ≡ length vs
unfolding no_results
length-no_results E [] = refl
length-no_results E (v ∷ vs) = ap suc (length-no_results E vs)

module _ {V E : Type 0} where
  -- Where every content type has an embedder that answers the variants of its type one by one,
  -- Embed of the registry gives for every batch the embedding of each variant, in the order of
  -- the batch.
  pub registry_embed-ordered :
      (content_type : V → String) (point : V → E) (r : Registry V E) (vs : List V)
      → Answers content_type point r
      → registry_embed content_type r vs ≡ ok (map (λ v. some (point v)) vs)
  unfolding registry_embed get
  registry_embed-ordered content_type point r [] a = refl
  registry_embed-ordered content_type point r (v ∷ vs) a =
      let all = v ∷ vs in
      let groups = group_from content_type 0 all [] in
      let start : List (Option E) = no_results all in
      let right =
        group_from-Right content_type all 0 all []
          (λ k u e. let left : k ≡ 0 + k = omega arith in subst (λ n. at n all ≡ some u) left e)
          tt in
      embed_groups-ok content_type point all r groups start a right
      ∙ ap (λ x. ok x)
          (map-of-at (λ u. some (point u)) (all_placed content_type point all groups start) all
            (length-all_placed content_type point all groups start ∙ length-no_results E all)
            (λ i u e.
              all_placed-Done content_type point all i u groups start e (length-no_results E all)
                right
                (inr (
                  group_from-all content_type all i 0 all []
                    (inr (omega arith, omega (arith, at-lt i all e)))))))
