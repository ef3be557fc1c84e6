-- ===== src/Rag/Chunker/Fits.antt =====
-- About the sizes of the chunks of rag/chunker/chunker.go.
use graph_agent_dev_kit.Common.{
  ℕ, zero, suc, ◌+◌, ◌-◌, ◌/◌, ◌≤◌, ◌<◌, List, [], ◌∷◌, ◌++◌, length, take, drop, ltb, leb,
  if◌then◌else◌, Bool, true, false, Bool-cases, inl, inr, ◌⊎◌, All, All-append, ◌≡◌, refl, ap, ◌∙◌,
  arith,
}
use mathlib.Core.List.{append-nil}
use graph_agent_dev_kit.Knowledge.Fuzzy.{Bytes}
use graph_agent_dev_kit.Rag.Chunker.{
  ChunkerConfig, ChunkerCalls, is_long, longest_front, at_least_one, split_point, hard_chunks,
  hard_split, merge_parts, refine, split_recursive,
}

abbrev pub concat : List Bytes → Bytes
concat [] = []
concat (chunk ∷ chunks) = chunk ++ concat chunks

take-append-drop : (n : ℕ) (text : Bytes) → take n text ++ drop n text ≡ text
take-append-drop zero text = refl
take-append-drop (suc n) [] = refl
take-append-drop (suc n) (b ∷ text) = ap (◌∷◌ b) (take-append-drop n text)

length-drop_le : (n : ℕ) (text : Bytes) → length (drop n text) ≤ length text
length-drop_le zero text = omega arith
length-drop_le (suc n) [] = omega arith
length-drop_le (suc n) (b ∷ text) = omega (arith, length-drop_le n text)

All-if :
    (P : Bytes → Type 0) (b : Bool) (xs ys : List Bytes)
    → (b ≡ true → All P xs)
    → (b ≡ false → All P ys)
    → All P (if b then xs else ys)
All-if P true xs ys f g = f refl
All-if P false xs ys f g = g refl

module _ (calls : ChunkerCalls) (cfg : ChunkerConfig) where
  -- A chunk within the limit, or of one byte.
  abbrev pub Fits : Bytes → Type 0
  Fits chunk = (is_long calls cfg chunk ≡ false) ⊎ (length chunk ≡ 1)

  longest_front-short :
      (fuel lo hi : ℕ) (text : Bytes)
      → is_long calls cfg (take lo text) ≡ false
      → is_long calls cfg (take (longest_front calls cfg fuel lo hi text) text) ≡ false
  unfolding longest_front
  longest_front-short zero lo hi text h = h
  longest_front-short (suc fuel) lo hi text h =
      let mid = (lo + hi + 1) / 2 in
      elim (Bool-cases (ltb lo hi)) [
        | inr q ↦ rw (q, longest_front) h
        | inl q ↦ elim (Bool-cases (is_long calls cfg (take mid text))) [
          | inl p ↦ rw (q, p, longest_front) (longest_front-short fuel lo (mid - 1) text h)
          | inr p ↦ rw (q, p, longest_front) (longest_front-short fuel mid hi text p)
        ]
      ]

  point-Fits :
      (n : ℕ) (b : ℕ) (text : Bytes)
      → is_long calls cfg (take n (b ∷ text)) ≡ false
      → Fits (take (at_least_one n) (b ∷ text))
  point-Fits zero b text h = inr refl
  point-Fits (suc n) b text h = inl h

  point-shrinks :
      (n : ℕ) (b : ℕ) (text : Bytes) → length (drop (at_least_one n) (b ∷ text)) ≤ length text
  point-shrinks zero b text = omega arith
  point-shrinks (suc n) b text = length-drop_le n text

  -- The chunks of a text: together they are the text, and each fits.
  abbrev pub AreChunks : Bytes → List Bytes → Type 0
  AreChunks text chunks = (concat chunks ≡ text) × All Fits chunks

  hard_chunks-AreChunks :
      (fuel : ℕ) (text : Bytes)
      → is_long calls cfg [] ≡ false
      → length text < fuel
      → AreChunks text (hard_chunks calls cfg fuel text)
  unfolding hard_chunks split_point
  hard_chunks-AreChunks zero text h f = absurd (omega arith)
  hard_chunks-AreChunks (suc fuel) [] h f = rw h (refl, tt)
  hard_chunks-AreChunks (suc fuel) (b ∷ text) h f =
      elim (Bool-cases (is_long calls cfg (b ∷ text))) [
        | inr q ↦ rw q (append-nil (b ∷ text), (inl q, tt))
        | inl q ↦
            let n = longest_front calls cfg (length (b ∷ text)) 0 (length (b ∷ text)) (b ∷ text) in
            let left = drop (at_least_one n) (b ∷ text) in
            let rest = hard_chunks-AreChunks fuel left h (omega (arith, point-shrinks n b text)) in
            let short =
              longest_front-short (length (b ∷ text)) 0 (length (b ∷ text)) (b ∷ text) h in
            rw q (
              ap (λ t. take (at_least_one n) (b ∷ text) ++ t) rest.0
                  ∙ take-append-drop (at_least_one n) (b ∷ text),
              (point-Fits n b text short, rest.1),
            )
      ]

  -- Where the empty text is within the limit, hardSplit ends within a round for each byte and
  -- one more: its chunks together are the text, and each of them is within the limit or a single
  -- byte.
  pub hard_split-AreChunks :
      (text : Bytes) → is_long calls cfg [] ≡ false → AreChunks text (hard_split calls cfg text)
  unfolding hard_split
  hard_split-AreChunks text h = hard_chunks-AreChunks (suc (length text)) text h (omega arith)

  refine-Fits :
      (recurse : Bytes → List Bytes) (chunks : List Bytes)
      → ((chunk : Bytes) → All Fits (recurse chunk))
      → All Fits (refine calls cfg recurse chunks)
  unfolding refine
  refine-Fits recurse [] h = tt
  refine-Fits recurse (chunk ∷ chunks) h = elim (Bool-cases (is_long calls cfg chunk)) [
    | inl q ↦ rw q (
        All-append Fits (recurse chunk) (refine calls cfg recurse chunks) (h chunk)
          (refine-Fits recurse chunks h))
    | inr q ↦ rw q (inl q, refine-Fits recurse chunks h)
  ]

  -- Where the empty text is within the limit, every chunk that splitRecursive gives is within
  -- the limit or a single byte, whatever the separators and however strings.Split cuts.
  pub split_recursive-Fits :
      (seps : List Bytes) (text : Bytes)
      → is_long calls cfg [] ≡ false
      → All Fits (split_recursive calls cfg seps text)
  unfolding split_recursive
  split_recursive-Fits [] text h =
      All-if Fits (is_long calls cfg text) (hard_split calls cfg text) (text ∷ [])
        (λ q. (hard_split-AreChunks text h).1) (λ q. (inl q, tt))
  split_recursive-Fits (sep ∷ seps) text h = elim (Bool-cases (is_long calls cfg text)) [
    | inr q ↦ rw q (inl q, tt)
    | inl q ↦ elim (Bool-cases (leb (length (calls.split text sep)) 1)) [
      | inl p ↦ rw (q, p) (split_recursive-Fits seps text h)
      | inr p ↦
          rw (q, p)
            (refine-Fits (split_recursive calls cfg seps)
              (merge_parts calls cfg sep (calls.split text sep) ([], []))
              (λ chunk. split_recursive-Fits seps chunk h))
    ]
  ]
