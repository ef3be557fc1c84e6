-- ===== src/Knowledge/Fuzzy.antt =====
-- knowledge/internal/fuzzy/fuzzy.go: the edit distance of two texts, which the source reads as bytes,
-- and the normal form of a name. What unicode and strings.ToLower say of a rune is a parameter.
pub mod Scripts
pub mod Shortest
use graph_agent_dev_kit.Common.{
  ℕ, zero, suc, ◌+◌, Bool, ◌||◌, List, [], ◌∷◌, length, leb, nat_eqb, if◌then◌else◌,
}

abbrev pub Bytes : Type 0
Bytes = List ℕ

abbrev pub min : ℕ → ℕ → ℕ
min m n = if leb m n then m else n

abbrev pub cost : ℕ → ℕ → ℕ
cost x y = if nat_eqb x y then 0 else 1

-- prev, before the loop: the numbers from `n` on, one more than there are bytes.
unfoldable pub first_row : ℕ → Bytes → List ℕ
first_row n [] = n ∷ []
first_row n (b ∷ bs) = n ∷ first_row (suc n) bs

-- curr[j] for the bytes that are left: `left` is curr[j-1], and the row before starts at prev[j-1].
unfoldable pub fill_row : ℕ → ℕ → Bytes → List ℕ → List ℕ
fill_row left a (b ∷ bs) (p ∷ q ∷ prev) =
    let d = min (left + 1) (min (q + 1) (p + cost a b)) in d ∷ fill_row d a bs (q ∷ prev)
fill_row left a bs prev = []

-- for i := 1; i <= la; i++
unfoldable pub rows : ℕ → Bytes → Bytes → List ℕ → List ℕ
unfolding fill_row
rows i [] b prev = prev
rows i (x ∷ a) b prev = rows (suc i) a b (i ∷ fill_row i x b prev)

-- prev[lb]
unfoldable pub last_of : ℕ → List ℕ → ℕ
last_of d [] = d
last_of d (x ∷ xs) = last_of x xs

-- LevenshteinDistance
unfoldable pub levenshtein_distance : Bytes → Bytes → ℕ
unfolding first_row rows last_of
levenshtein_distance [] b = length b
levenshtein_distance (x ∷ a) [] = length (x ∷ a)
levenshtein_distance (x ∷ a) (y ∷ b) = last_of 0 (rows 1 (x ∷ a) (y ∷ b) (first_row 0 (y ∷ b)))

-- Normalize, on the runes of strings.ToLower(s)
unfoldable pub normalize : (ℕ → ℕ) → (ℕ → Bool) → (ℕ → Bool) → List ℕ → List ℕ
normalize to_lower is_letter is_digit [] = []
normalize to_lower is_letter is_digit (r ∷ rs) =
    let rest = normalize to_lower is_letter is_digit rs in
    let l = to_lower r in if is_letter l || is_digit l then l ∷ rest else rest
