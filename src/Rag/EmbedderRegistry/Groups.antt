-- ===== src/Rag/EmbedderRegistry/Groups.antt =====
-- About the groups of rag/embedderregistry/registry.go.
use graph_agent_dev_kit.Common.{
  ℕ, zero, suc, ◌+◌, ◌≤◌, ◌<◌, String, ◌==◌, Option, none, some, List, [], ◌∷◌, ◌++◌, Bool, true,
  false, ◌||◌, Bool-cases, inl, inr, ◌⊎◌, All, All-append, ◌≡◌, refl, subst, arith, nat_eqb, length,
  eq_of_test,
}
use graph_agent_dev_kit.Common.Dict.{Dict, get, put, All-put}
use graph_agent_dev_kit.Rag.EmbedderRegistry.{Group, group_or_empty, group_from}

abbrev pub at : {A : Type 0} → ℕ → List A → Option A
at n [] = none
at zero (x ∷ xs) = some x
at (suc n) (x ∷ xs) = at n xs

-- The index i has been grouped, or the index comes later.
next :
    (j i n : ℕ) (before after : Bool)
    → (before ≡ true) ⊎ ((i ≤ j) × (j < i + suc n))
    → after ≡ (before || nat_eqb j i)
    → (after ≡ true) ⊎ ((suc i ≤ j) × (j < suc i + n))
next j i n before after (inl h) e = inl (ground arith)
next j i n before after (inr h) e = elim (Bool-cases (nat_eqb j i)) [
  | inl q ↦ inl (ground arith)
  | inr q ↦ inr (ground arith)
]

module _ {V : Type 0} where
  abbrev pub has_index : ℕ → Group V → Bool
  has_index i [] = false
  has_index i (iv ∷ g) = nat_eqb i iv.0 || has_index i g

  abbrev pub in_groups : ℕ → Dict (Group V) → Bool
  in_groups i [] = false
  in_groups i ((ct, g) ∷ groups) = has_index i g || in_groups i groups

  has_index-append :
      (i : ℕ) (g : Group V) (iv : ℕ × V)
      → has_index i (g ++ iv ∷ []) ≡ (has_index i g || nat_eqb i iv.0)
  has_index-append i [] iv = ground arith
  has_index-append i (jv ∷ g) iv = ground (arith, has_index-append i g iv)

  in_groups-put :
      (i : ℕ) (d : Dict (Group V)) (k : String) (iv : ℕ × V)
      → in_groups i (put d k (group_or_empty (get d k) ++ iv ∷ []))
        ≡ (in_groups i d || nat_eqb i iv.0)
  unfolding put get
  in_groups-put i [] k iv = ground arith
  in_groups-put i ((j, g) ∷ d) k iv = elim (Bool-cases (j == k)) [
    | inl q ↦ rw q (ground (arith, has_index-append i g iv))
    | inr q ↦ rw q (ground (arith, in_groups-put i d k iv))
  ]

  module _ (content_type : V → String) (vs : List V) where
    -- A position with the variant that stands there, of a type.
    abbrev pub Right : String → ℕ × V → Type 0
    Right ct iv = (at iv.0 vs ≡ some iv.1) × (content_type iv.1 ≡ ct)

    abbrev pub RightGroup : String × Group V → Type 0
    RightGroup e = All (Right e.0) e.1

    get-Right :
        (d : Dict (Group V)) (k : String)
        → All RightGroup d
        → All (Right k) (group_or_empty (get d k))
    unfolding get
    get-Right [] k h = tt
    get-Right ((j, g) ∷ d) k h = elim (Bool-cases (j == k)) [
      | inl q ↦ rw q (subst (λ x. All (Right x) g) (eq_of_test j k q) h.0)
      | inr q ↦ rw q (get-Right d k h.1)
    ]

    pub group_from-Right :
        (i : ℕ) (rest : List V) (groups : Dict (Group V))
        → ((k : ℕ) (v : V) → at k rest ≡ some v → at (i + k) vs ≡ some v)
        → All RightGroup groups
        → All RightGroup (group_from content_type i rest groups)
    unfolding group_from
    group_from-Right i [] groups same h = h
    group_from-Right i (v ∷ rest) groups same h =
        let ct = content_type v in
        let here : at i vs ≡ some v =
          let zero_right : i + 0 ≡ i = omega arith in
          subst (λ n. at n vs ≡ some v) zero_right (same 0 v refl) in
        group_from-Right (suc i) rest
          (put groups ct (group_or_empty (get groups ct) ++ (i, v) ∷ []))
          (λ k u e.
            let moved : i + suc k ≡ suc i + k = omega arith in
            subst (λ n. at n vs ≡ some u) moved (same (suc k) u e))
          (All-put RightGroup groups ct (group_or_empty (get groups ct) ++ (i, v) ∷ []) h (
            All-append (Right ct) (group_or_empty (get groups ct)) ((i, v) ∷ [])
              (get-Right groups ct h) ((here, refl), tt)))

    pub group_from-all :
        (j i : ℕ) (rest : List V) (groups : Dict (Group V))
        → (in_groups j groups ≡ true) ⊎ ((i ≤ j) × (j < i + length rest))
        → in_groups j (group_from content_type i rest groups) ≡ true
    unfolding group_from
    group_from-all j i [] groups (inl h) = h
    group_from-all j i [] groups (inr h) = absurd (omega arith)
    group_from-all j i (v ∷ rest) groups h =
        let ct = content_type v in
        group_from-all j (suc i) rest
          (put groups ct (group_or_empty (get groups ct) ++ (i, v) ∷ []))
          (next j i (length rest) (in_groups j groups) _ h (in_groups-put j groups ct (i, v)))
