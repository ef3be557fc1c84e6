-- ===== src/Common/Perms.antt =====
-- Tests on lists that do not depend on the order, and on the front of a list.
use Prim.Native.Nat.{ℕ, zero, suc}
use Prim.Native.String.{String}
use text.Mathlib.Text.{◌==◌}
use text.Mathlib.TextEquality.{eq_iff}
use mathlib.Core.Path.{◌≡◌, refl, ◌∙◌, ap, ap₂, sym, subst}
use mathlib.Core.Bool.{Bool, true, false, not, ◌&&◌, ◌||◌}
use mathlib.Core.List.{List, [], ◌∷◌, map, Permᴰ}
use native.Mathlib.Omega.{arith}
use graph_agent_dev_kit.Common.Lists.{elem, take, All}

-- No two ids of a list are the same.
abbrev pub distinct : List String → Bool
distinct [] = true
distinct (a ∷ l) = not (elem a l) && distinct l

module _ {ℓ κ} {A : Type ℓ} (P : A → Type κ) where
  pub All-perm : {xs ys : List A} → Permᴰ xs ys → All P ys → All P xs
  All-perm Permᴰ.nil h = tt
  All-perm (Permᴰ.cons e p) h = (subst P (sym e) h.0, All-perm p h.1)
  All-perm (Permᴰ.swap e f) h = (subst P (sym e) h.1.0, (subst P (sym f) h.0, h.1.1))
  All-perm (Permᴰ.trans p q) h = All-perm p (All-perm q h)

  pub All-take : (n : ℕ) (xs : List A) → All P xs → All P (take n xs)
  All-take zero xs h = tt
  All-take (suc n) [] h = tt
  All-take (suc n) (x ∷ xs) h = (h.0, All-take n xs h.1)

module _ {ℓ} {A : Type ℓ} (id : A → String) where
  pub elem_perm :
      (a : String) {xs ys : List A} → Permᴰ xs ys → elem a (map id xs) ≡ elem a (map id ys)
  elem_perm a Permᴰ.nil = refl
  elem_perm a (Permᴰ.cons e p) = ap₂ ◌||◌ (ap (λ x. a == id x) e) (elem_perm a p)
  elem_perm a (Permᴰ.swap e f) = rw (sym e, sym f) (ground arith)
  elem_perm a (Permᴰ.trans p q) = elem_perm a p ∙ elem_perm a q

  distinct_swap :
      (a b : A) (l : List A) → distinct (map id (a ∷ b ∷ l)) ≡ distinct (map id (b ∷ a ∷ l))
  distinct_swap a b l = ground (arith, eq_iff (id a) (id b), eq_iff (id b) (id a))

  pub distinct_perm : {xs ys : List A} → Permᴰ xs ys → distinct (map id xs) ≡ distinct (map id ys)
  distinct_perm Permᴰ.nil = refl
  distinct_perm (Permᴰ.cons {a} {b} {l₁} {l₂} e p) =
      ap₂ (λ x y. not x && y) (ap (λ x. elem (id x) (map id l₁)) e ∙ elem_perm (id b) p)
        (distinct_perm p)
  distinct_perm (Permᴰ.swap {a} {b} {l = l} e f) =
      distinct_swap a b l ∙ ap₂ (λ x y. distinct (map id (x ∷ y ∷ l))) f e
  distinct_perm (Permᴰ.trans p q) = distinct_perm p ∙ distinct_perm q

  elem-take :
      (a : String) (n : ℕ) (xs : List A)
      → elem a (map id xs) ≡ false
      → elem a (map id (take n xs)) ≡ false
  elem-take a zero xs h = refl
  elem-take a (suc n) [] h = refl
  elem-take a (suc n) (x ∷ xs) h = ground (arith, elem-take a n xs)

  pub distinct-take :
      (n : ℕ) (xs : List A) → distinct (map id xs) ≡ true → distinct (map id (take n xs)) ≡ true
  distinct-take zero xs h = refl
  distinct-take (suc n) [] h = refl
  distinct-take (suc n) (x ∷ xs) h = ground (arith, elem-take (id x) n xs, distinct-take n xs)
