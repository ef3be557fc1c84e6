-- ===== src/Common/Dict.antt =====
-- Go's `map[string]V`. A range over a map visits its entries in an order that the language leaves
-- open: the order of the list is one of them.
use graph_agent_dev_kit.Common.Tests.{if◌then◌else◌, Bool-cases}
use graph_agent_dev_kit.Common.Lists.{elem, All}
use graph_agent_dev_kit.Common.Perms.{distinct}
use graph_agent_dev_kit.Common.Texts.{eq_of_test, ne_of_test}
use Prim.Native.String.{String}
use mathlib.Core.Path.{◌≡◌, refl}
use mathlib.Core.Logic.{◌≢◌, ◌⊎◌, inl, inr}
use mathlib.Core.Option.{Option, none, some}
use mathlib.Core.List.{List, [], ◌∷◌, ◌++◌}
use native.Mathlib.Omega.{arith}
use text.Mathlib.Text.{◌==◌}
use mathlib.Core.Bool.{true, ◌||◌}
use text.Mathlib.TextEquality.{eq_iff}

abbrev pub Dict {ℓ} : Type ℓ → Type ℓ
Dict V = List (String × V)

module _ {ℓ} {V : Type ℓ} where
  -- v, ok := d[k]
  unfoldable pub get : Dict V → String → Option V
  get [] k = none
  get ((j, v) ∷ d) k = if j == k then some v else get d k

  -- d[k] = v
  unfoldable pub put : Dict V → String → V → Dict V
  put [] k v = (k, v) ∷ []
  put ((j, w) ∷ d) k v = if j == k then (k, v) ∷ d else (j, w) ∷ put d k v

  -- delete(d, k)
  unfoldable pub delete : Dict V → String → Dict V
  delete [] k = []
  delete ((j, v) ∷ d) k = let rest = delete d k in if j == k then rest else (j, v) ∷ rest

  pub get-delete :
      (d : Dict V) (k j : String) → get (delete d k) j ≡ (if k == j then none else get d j)
  unfolding get delete
  get-delete [] k j = ground arith
  get-delete ((i, v) ∷ d) k j = ground (arith, get-delete d k j, eq_iff i k, eq_iff i j, eq_iff k j)

  pub get-put :
      (d : Dict V) (k j : String) (v : V) → get (put d k v) j ≡ (if k == j then some v else get d j)
  unfolding get put
  get-put [] k j v = refl
  get-put ((i, w) ∷ d) k j v = ground (arith, eq_iff i k, eq_iff i j, eq_iff k j, get-put d k j v)

  pub get-put_self : (d : Dict V) (k : String) (v : V) → get (put d k v) k ≡ some v
  get-put_self d k v = ground (arith, get-put d k k v, eq_iff k k)

  pub get-put_ne : (d : Dict V) (k j : String) (v : V) → k ≢ j → get (put d k v) j ≡ get d j
  get-put_ne d k j v h = ground (arith, get-put d k j v, eq_iff k j)

  -- What a map holds after a write is the new value at its key, or what it held at another key.
  pub get-put_cases :
      (d : Dict V) (k j : String) (v : V) {x : V}
      → get (put d k v) j ≡ some x
      → ((k ≡ j) × (v ≡ x)) ⊎ ((k ≢ j) × (get d j ≡ some x))
  get-put_cases d k j v e = elim (Bool-cases (k == j)) [
    | inl same ↦ inl (eq_of_test k j same, ground (arith, get-put d k j v))
    | inr other ↦ inr (ne_of_test k j other, ground (arith, get-put d k j v))
  ]

  -- What a map holds after a removal stands at another key.
  pub get-delete_cases :
      (d : Dict V) (k j : String) {x : V}
      → get (delete d k) j ≡ some x
      → (k ≢ j) × (get d j ≡ some x)
  get-delete_cases d k j {x} e = elim (Bool-cases (k == j)) [
    | inl same ↦ absurd (ground (arith, get-delete d k j))
    | inr other ↦ (ne_of_test k j other, ground (arith, get-delete d k j))
  ]

  pub get-delete_ne : (d : Dict V) (k j : String) → k ≢ j → get (delete d k) j ≡ get d j
  get-delete_ne d k j h = ground (arith, get-delete d k j, eq_iff k j)

  abbrev pub keys : Dict V → List String
  keys [] = []
  keys ((k, v) ∷ d) = k ∷ keys d

  pub elem-keys-put :
      (d : Dict V) (a k : String) (v : V) → elem a (keys (put d k v)) ≡ (elem a (keys d) || a == k)
  unfolding put
  elem-keys-put [] a k v = ground arith
  elem-keys-put ((j, w) ∷ d) a k v = ground (arith, elem-keys-put d a k v, eq_iff j k)

  -- A key that is there already adds nothing.
  pub elem-keys-get :
      (d : Dict V) (a k : String) (v : V)
      → get d k ≡ some v
      → elem a (keys d) ≡ (elem a (keys d) || a == k)
  unfolding get
  elem-keys-get [] a k v h = ground arith
  elem-keys-get ((j, w) ∷ d) a k v h =
      ground (arith, elem-keys-get d a k v, eq_iff j k, eq_iff a k, eq_iff a j)

  pub distinct-keys-put :
      (d : Dict V) (k : String) (v : V)
      → distinct (keys d) ≡ true
      → distinct (keys (put d k v)) ≡ true
  unfolding put
  distinct-keys-put [] k v h = refl
  distinct-keys-put ((j, w) ∷ d) k v h =
      ground (arith, distinct-keys-put d k v, elem-keys-put d j k v, eq_iff j k)

  -- What holds of every entry is kept by a write that it holds of.
  pub All-put {κ} :
      (P : String × V → Type κ) (d : Dict V) (k : String) (v : V)
      → All P d
      → P (k, v)
      → All P (put d k v)
  unfolding put
  All-put P [] k v h p = (p, tt)
  All-put P ((j, w) ∷ d) k v h p = elim (Bool-cases (j == k)) [
    | inl q ↦ rw q (p, h.1)
    | inr q ↦ rw q (h.0, All-put P d k v h.1 p)
  ]

  -- A new key comes last.
  pub put-fresh : (d : Dict V) (k : String) (v : V) → get d k ≡ none → put d k v ≡ d ++ (k, v) ∷ []
  unfolding put get
  put-fresh [] k v h = refl
  put-fresh ((j, w) ∷ d) k v h = ground (arith, put-fresh d k v)
