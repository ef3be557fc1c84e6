-- ===== src/Knowledge/Fuzzy/Scripts.antt =====
-- Edit scripts, and the distance of knowledge/internal/fuzzy as a recursion on them.
use graph_agent_dev_kit.Common.{
  ℕ, suc, ◌+◌, ◌≤◌, [], ◌∷◌, length, leb, nat_eqb, ◌≡◌, refl, subst, sym, ◌∙◌, arith, Bool-cases,
  inl, inr, eq_of_nat_test, ◌⊎◌,
}
use graph_agent_dev_kit.Knowledge.Fuzzy.{Bytes, min, cost}

-- One text becomes the other by so many changes, deletions and insertions.
pub data Edits : Bytes → Bytes → ℕ → Type 0 where
  done : Edits [] [] 0
  keep : (x : ℕ) {a b : Bytes} {n : ℕ} → Edits a b n → Edits (x ∷ a) (x ∷ b) n
  change : (x y : ℕ) {a b : Bytes} {n : ℕ} → Edits a b n → Edits (x ∷ a) (y ∷ b) (suc n)
  delete : (x : ℕ) {a b : Bytes} {n : ℕ} → Edits a b n → Edits (x ∷ a) b (suc n)
  insert : (y : ℕ) {a b : Bytes} {n : ℕ} → Edits a b n → Edits a (y ∷ b) (suc n)

unfoldable pub lev : Bytes → Bytes → ℕ
lev [] b = length b
lev (x ∷ a) [] = length (x ∷ a)
lev (x ∷ a) (y ∷ b) = min (lev (x ∷ a) b + 1) (min (lev a (y ∷ b) + 1) (lev a b + cost x y))

pub lev_nil : (a : Bytes) → lev a [] ≡ length a
unfolding lev
lev_nil [] = refl
lev_nil (x ∷ a) = refl

lev-delete : (x : ℕ) (a b : Bytes) → lev (x ∷ a) b ≤ suc (lev a b)
unfolding lev
lev-delete x a [] = omega (arith, lev_nil a)
lev-delete x a (y ∷ b) = ground arith

lev-insert : (y : ℕ) (a b : Bytes) → lev a (y ∷ b) ≤ suc (lev a b)
unfolding lev
lev-insert y [] b = omega arith
lev-insert y (x ∷ a) b = ground arith

lev-change : (x y : ℕ) (a b : Bytes) → lev (x ∷ a) (y ∷ b) ≤ lev a b + cost x y
unfolding lev
lev-change x y a b = ground arith

-- No script is shorter than the distance.
pub lev-least : {a b : Bytes} {n : ℕ} → Edits a b n → lev a b ≤ n
lev-least done = unfold lev in omega arith
lev-least (keep x {a} {b} e) = ground (arith, lev-change x x a b, lev-least e)
lev-least (change x y {a} {b} e) = ground (arith, lev-change x y a b, lev-least e)
lev-least (delete x {a} {b} e) = omega (arith, lev-delete x a b, lev-least e)
lev-least (insert y {a} {b} e) = omega (arith, lev-insert y a b, lev-least e)

pub resized : {a b : Bytes} {m n : ℕ} → m ≡ n → Edits a b m → Edits a b n
resized {a} {b} p e = subst (λ k. Edits a b k) p e

insert_all : (b : Bytes) → Edits [] b (length b)
insert_all [] = done
insert_all (y ∷ b) = insert y (insert_all b)

delete_all : (a : Bytes) → Edits a [] (length a)
delete_all [] = done
delete_all (x ∷ a) = delete x (delete_all a)

min_cases : (m n : ℕ) → (min m n ≡ m) ⊎ (min m n ≡ n)
min_cases m n = elim (Bool-cases (leb m n)) [
  | inl le ↦ inl (rw le refl)
  | inr gt ↦ inr (rw gt refl)
]

-- A byte that stands in both texts costs nothing.
replaced : (x y : ℕ) {a b : Bytes} {n : ℕ} → Edits a b n → Edits (x ∷ a) (y ∷ b) (n + cost x y)
replaced x y {a} {b} {n} e = elim (Bool-cases (nat_eqb x y)) [
  | inl same ↦ rw same (
      subst (λ m. Edits (x ∷ a) (y ∷ b) m) (omega arith)
        (subst (λ z. Edits (x ∷ a) (z ∷ b) n) (eq_of_nat_test x y same) (keep x e)))
  | inr other ↦ rw other (subst (λ m. Edits (x ∷ a) (y ∷ b) m) (omega arith) (change x y e))
]

-- There is a script of the distance.
pub lev-script : (a b : Bytes) → Edits a b (lev a b)
unfolding lev
lev-script [] b = insert_all b
lev-script (x ∷ a) [] = delete_all (x ∷ a)
lev-script (x ∷ a) (y ∷ b) =
    let by_insert : ℕ = lev (x ∷ a) b + 1 in
    let by_delete : ℕ = lev a (y ∷ b) + 1 in
    let inserted = lev-script (x ∷ a) b in
    let deleted = lev-script a (y ∷ b) in
    let changed = lev-script a b in
    let plus_insert : suc (lev (x ∷ a) b) ≡ by_insert = omega arith in
    let plus_delete : suc (lev a (y ∷ b)) ≡ by_delete = omega arith in
    elim (min_cases by_insert (min by_delete (lev a b + cost x y))) [
      | inl e ↦ resized (plus_insert ∙ sym e) (insert y inserted)
      | inr e ↦ elim (min_cases by_delete (lev a b + cost x y)) [
        | inl e' ↦ resized (plus_delete ∙ sym (e ∙ e')) (delete x deleted)
        | inr e' ↦ resized (sym (e ∙ e')) (replaced x y changed)
      ]
    ]
