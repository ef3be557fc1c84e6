-- ===== src/Common/Outcome.antt =====
-- Go's `(value, error)` results, and methods that write to their receiver and may fail: what was
-- written before an early return stays written, so the state comes back beside an error too.
use mathlib.Core.Path.{◌≡◌, refl}
use mathlib.Core.Logic.{◌⊎◌, inl, inr}

pub data Result {ℓ} (E A : Type ℓ) : Type ℓ where
  ok : A → Result E A
  err : E → Result E A

pub Result-cases {ℓ} :
    {E A : Type ℓ} (r : Result E A) → ((a : A) × (r ≡ ok a)) ⊎ ((e : E) × (r ≡ err e))
Result-cases (ok a) = inl (a, refl)
Result-cases (err e) = inr (e, refl)

abbrev pub Exec {ℓ} : Type ℓ → Type ℓ → Type ℓ → Type ℓ
Exec S E A = S → Result E A × S

module _ {ℓ} {S E A : Type ℓ} where
  abbrev pub pure : A → Exec S E A
  pure a s = (ok a, s)

  abbrev pub raise : E → Exec S E A
  raise e s = (err e, s)

  -- A test or a read of the state, which writes nothing.
  abbrev pub reading : (S → Result E A) → Exec S E A
  reading f s = (f s, s)

  abbrev pub modify : (S → S) → A → Exec S E A
  modify f a s = (ok a, f s)

module _ {ℓ} {S E A B : Type ℓ} where
  abbrev pub continue : (A → Exec S E B) → Result E A × S → Result E B × S
  continue f (ok a, s) = f a s
  continue f (err e, s) = (err e, s)

  infixl 10 ◌>>=◌
  abbrev pub ◌>>=◌ : Exec S E A → (A → Exec S E B) → Exec S E B
  ◌>>=◌ m f s = continue f (m s)

  -- A chain that succeeds: its first part succeeded, and so did the rest.
  pub continue-eq-ok :
      (f : A → Exec S E B) (r : Result E A × S) {b : B} {s' : S}
      → continue f r ≡ (ok b, s')
      → (a : A) × (s : S) × (r ≡ (ok a, s)) × (f a s ≡ (ok b, s'))
  continue-eq-ok f (ok a, s) h = (a, s, refl, h)
  continue-eq-ok f (err e, s) h = absurd cc

module _ {ℓ} {E A B : Type ℓ} where
  -- `if err != nil { return err }` on a result that no state goes with.
  abbrev pub and_then : Result E A → (A → Result E B) → Result E B
  and_then (ok a) f = f a
  and_then (err e) f = err e

  pub and_then-eq-ok :
      (r : Result E A) (f : A → Result E B) {b : B}
      → and_then r f ≡ ok b
      → (a : A) × (r ≡ ok a) × (f a ≡ ok b)
  and_then-eq-ok (ok a) f h = (a, refl, h)
  and_then-eq-ok (err e) f h = absurd cc
