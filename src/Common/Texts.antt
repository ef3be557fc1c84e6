-- ===== src/Common/Texts.antt =====
-- The test of two texts, read both ways.
use Prim.Native.String.{String}
use mathlib.Core.Path.{◌≡◌}
use mathlib.Core.Logic.{◌≢◌}
use mathlib.Core.Bool.{true, false}
use native.Mathlib.Omega.{arith}
use text.Mathlib.Text.{◌==◌}
use text.Mathlib.TextEquality.{eq_iff}

pub eq_of_test : (a b : String) → (a == b) ≡ true → a ≡ b
eq_of_test a b = (eq_iff a b).0

pub ne_of_test : (a b : String) → (a == b) ≡ false → a ≢ b
ne_of_test a b h = λ p. ground (arith, eq_iff a b)

pub test_of_ne : (a b : String) → a ≢ b → (a == b) ≡ false
test_of_ne a b h = ground (arith, eq_iff a b)
