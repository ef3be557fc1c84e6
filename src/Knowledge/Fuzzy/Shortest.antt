-- ===== src/Knowledge/Fuzzy/Shortest.antt =====
-- About LevenshteinDistance of knowledge/internal/fuzzy/fuzzy.go and the shortest edit script.
use graph_agent_dev_kit.Common.{
  ℕ, suc, ◌+◌, ◌≤◌, List, [], ◌∷◌, ◌++◌, length, ◌≡◌, refl, ap, ap₂, subst, sym, ◌∙◌, arith,
}
use mathlib.Core.List.{append-nil}
use graph_agent_dev_kit.Knowledge.Fuzzy.{
  Bytes, first_row, fill_row, rows, last_of, levenshtein_distance,
}
use graph_agent_dev_kit.Knowledge.Fuzzy.Scripts.{
  Edits, done, keep, change, delete, insert, lev, lev_nil, lev-least, lev-script, resized,
}

-- A text turned round in front of another.
unfoldable rev_onto : Bytes → Bytes → Bytes
rev_onto [] acc = acc
rev_onto (x ∷ xs) acc = rev_onto xs (x ∷ acc)

rev_onto-rev_onto : (xs acc ys : Bytes) → rev_onto (rev_onto xs acc) ys ≡ rev_onto acc (xs ++ ys)
unfolding rev_onto
rev_onto-rev_onto [] acc ys = refl
rev_onto-rev_onto (x ∷ xs) acc ys = rev_onto-rev_onto xs (x ∷ acc) ys

rev_onto_self : (xs : Bytes) → rev_onto (rev_onto xs []) [] ≡ xs
unfolding rev_onto
rev_onto_self xs = rev_onto-rev_onto xs [] [] ∙ append-nil xs

-- A script can be read from the end.
rev_onto-Edits :
    {a b c d : Bytes} {n m : ℕ}
    → Edits a b n
    → Edits c d m
    → Edits (rev_onto a c) (rev_onto b d) (n + m)
unfolding rev_onto
rev_onto-Edits {c = c} {d = d} {m = m} done e' = resized (omega arith) e'
rev_onto-Edits (keep x e) e' = rev_onto-Edits e (keep x e')
rev_onto-Edits {m = m} (change x y {n = n} e) e' =
    resized (omega arith) (rev_onto-Edits e (change x y e'))
rev_onto-Edits {m = m} (delete x {n = n} e) e' =
    resized (omega arith) (rev_onto-Edits e (delete x e'))
rev_onto-Edits {m = m} (insert y {n = n} e) e' =
    resized (omega arith) (rev_onto-Edits e (insert y e'))

-- The distances of a turned text from the prefixes of `b` that are longer than `rb`.
unfoldable distances : Bytes → Bytes → Bytes → List ℕ
distances ra rb [] = []
distances ra rb (y ∷ b) = lev ra (y ∷ rb) ∷ distances ra (y ∷ rb) b

fill_row-distances :
    (x : ℕ) (ra rb b : Bytes)
    → fill_row (lev (x ∷ ra) rb) x b (lev ra rb ∷ distances ra rb b) ≡ distances (x ∷ ra) rb b
unfolding fill_row distances lev
fill_row-distances x ra rb [] = refl
fill_row-distances x ra rb (y ∷ b) =
    ap (λ l. lev (x ∷ ra) (y ∷ rb) ∷ l) (fill_row-distances x ra (y ∷ rb) b)

rows-distances :
    (a b ra : Bytes)
    → rows (suc (length ra)) a b (lev ra [] ∷ distances ra [] b)
      ≡ lev (rev_onto a ra) [] ∷ distances (rev_onto a ra) [] b
unfolding rows rev_onto
rows-distances [] b ra = refl
rows-distances (x ∷ a) b ra =
    ap₂ (λ i l. rows (suc (suc (length ra))) a b (i ∷ l)) (sym (lev_nil (x ∷ ra)))
      (ap (λ i. fill_row i x b (lev ra [] ∷ distances ra [] b)) (sym (lev_nil (x ∷ ra)))
        ∙ fill_row-distances x ra [] b)
    ∙ rows-distances a b (x ∷ ra)

last_of-distances :
    (d : ℕ) (ra rb b : Bytes) → last_of d (lev ra rb ∷ distances ra rb b) ≡ lev ra (rev_onto b rb)
unfolding last_of distances rev_onto
last_of-distances d ra rb [] = refl
last_of-distances d ra rb (y ∷ b) = last_of-distances (lev ra rb) ra (y ∷ rb) b

first_row-distances : (rb b : Bytes) → first_row (length rb) b ≡ lev [] rb ∷ distances [] rb b
unfolding first_row distances lev
first_row-distances rb [] = refl
first_row-distances rb (y ∷ b) = ap (λ l. length rb ∷ l) (first_row-distances (y ∷ rb) b)

length-rev_onto : (xs acc : Bytes) → length (rev_onto xs acc) ≡ length xs + length acc
unfolding rev_onto
length-rev_onto [] acc = omega arith
length-rev_onto (x ∷ xs) acc = omega (arith, length-rev_onto xs (x ∷ acc))

distance-lev : (a b : Bytes) → levenshtein_distance a b ≡ lev (rev_onto a []) (rev_onto b [])
unfolding levenshtein_distance rows lev rev_onto
distance-lev [] b = sym (length-rev_onto b [] ∙ omega arith)
distance-lev (x ∷ a) [] =
    sym (lev_nil (rev_onto (x ∷ a) []) ∙ length-rev_onto (x ∷ a) [] ∙ omega arith)
distance-lev (x ∷ a) (y ∷ b) =
    ap (λ r. last_of 0 (rows 1 (x ∷ a) (y ∷ b) r)) (first_row-distances [] (y ∷ b))
    ∙ ap (last_of 0) (rows-distances (x ∷ a) (y ∷ b) [])
    ∙ last_of-distances 0 (rev_onto (x ∷ a) []) [] (y ∷ b)

turned : {a b : Bytes} {n : ℕ} → Edits a b n → Edits (rev_onto a []) (rev_onto b []) n
turned e = resized (omega arith) (rev_onto-Edits e done)

pub record IsShortest (a b : Bytes) (d : ℕ) : Type 0 where
  pub script : Edits a b d
  pub least : (n : ℕ) → Edits a b n → d ≤ n

-- LevenshteinDistance of two texts is the length of a shortest script of changes, deletions and
-- insertions of bytes that turns the one into the other: there is a script of that length, and
-- no script is shorter.
pub distance-IsShortest : (a b : Bytes) → IsShortest a b (levenshtein_distance a b)
distance-IsShortest a b = record {
  script =
      subst (λ c. Edits c b (levenshtein_distance a b)) (rev_onto_self a)
        (subst (λ d. Edits (rev_onto (rev_onto a []) []) d (levenshtein_distance a b))
          (rev_onto_self b)
          (resized (sym (distance-lev a b)) (turned (lev-script (rev_onto a []) (rev_onto b [])))));
  least = λ n e. subst (λ d. d ≤ n) (sym (distance-lev a b)) (lev-least (turned e));
}
