-- ===== src/Common/Int.antt =====
-- Go's `int` where the code can meet a negative one: `negsuc n` is -(n + 1). No value here comes
-- near the word size, so no operation wraps.
use graph_agent_dev_kit.Common.Tests.{leb}
use Prim.Native.Nat.{ℕ, suc, ◌≤◌}
use mathlib.Core.Path.{◌≡◌}
use mathlib.Core.Logic.{◌⊎◌}
use mathlib.Core.Bool.{Bool, true, false}

pub data ℤ : Type 0 where
  pos : ℕ → ℤ
  negsuc : ℕ → ℤ

-- n <= z, for a length or a counter n.
abbrev pub le_int : ℕ → ℤ → Bool
le_int n (pos m) = leb n m
le_int n (negsuc m) = false

-- n >= z
abbrev pub ge_int : ℕ → ℤ → Bool
ge_int n (pos m) = leb m n
ge_int n (negsuc m) = true

-- z <= 0
abbrev pub is_not_pos : ℤ → Bool
is_not_pos (pos m) = leb m 0
is_not_pos (negsuc m) = true

-- z != 0
abbrev pub is_nonzero : ℤ → Bool
is_nonzero (pos m) = elim m [ ℕ.zero ↦ false | ℕ.suc k ↦ true ]
is_nonzero (negsuc m) = true

-- A number of results within a limit, or within a default where the limit is not positive.
abbrev pub WithinLimit : ℕ → ℤ → ℕ → Type 0
WithinLimit default limit n =
    ((k : ℕ) × (limit ≡ pos (suc k)) × (n ≤ suc k)) ⊎ ((is_not_pos limit ≡ true) × (n ≤ default))
