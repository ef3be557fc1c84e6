-- ===== src/Rag/Context/Budget.antt =====
-- About the budget of tokens of rag/contextassembler/default.go.
use graph_agent_dev_kit.Common.{
  ℕ, suc, ◌+◌, ◌≤◌, String, List, [], ◌∷◌, true, false, ◌≡◌, refl, ap, length, take, drop, arith,
  Bool-cases, inl, inr,
}
use graph_agent_dev_kit.Common.Int.{pos}
use graph_agent_dev_kit.Rag.Hits.{SearchHit}
use graph_agent_dev_kit.Rag.Context.{ContextBlock, citation, is_over, assemble_parts, assemble}

over_lem : (m n : ℕ) → is_over (pos (suc m)) n ≡ true → suc (suc m) ≤ n
unfolding is_over
over_lem m n h = ground arith

fits_lem : (m n : ℕ) → is_over (pos (suc m)) n ≡ false → n ≤ suc m
unfolding is_over
fits_lem m n h = ground arith

module _ {F S : Type 0} (count_tokens : String → ℕ) where
  -- The tokens of the texts of hits.
  abbrev pub total_tokens : List (SearchHit F S) → ℕ
  total_tokens [] = 0
  total_tokens (hit ∷ hits) = count_tokens hit.variant.text + total_tokens hits

  -- The blocks of hits, numbered from the i-th on.
  abbrev pub cited : ℕ → List (SearchHit F S) → List ContextBlock
  cited i [] = []
  cited i (hit ∷ hits) =
      record { text = hit.variant.text; citation = citation i; provenance = hit.provenance }
      ∷ cited (suc i) hits

  -- The hits that are left out start with one that the budget has no room for.
  abbrev pub NoRoom : ℕ → ℕ → List (SearchHit F S) → Type 0
  NoRoom max n [] = Unit
  NoRoom max n (hit ∷ hits) = suc max ≤ n + count_tokens hit.variant.text

  -- What a loop from the i-th hit on, with n tokens so far, gives within `max`.
  pub record IsWithin (max i n : ℕ) (hits : List (SearchHit F S)) (bs : List ContextBlock)
      (total : ℕ) : Type 0 where
    pub prefix : bs ≡ cited i (take (length bs) hits)
    pub counted : total ≡ n + total_tokens (take (length bs) hits)
    pub bounded : total ≤ max
    pub greedy : NoRoom max total (drop (length bs) hits)

  parts-IsWithin :
      (m i n : ℕ) (hits : List (SearchHit F S))
      → n ≤ suc m
      → IsWithin
          (suc m)
          i
          n
          hits
          (assemble_parts count_tokens (pos (suc m)) i n hits).blocks
          (assemble_parts count_tokens (pos (suc m)) i n hits).token_count
  unfolding assemble_parts
  parts-IsWithin m i n [] h = record {
    prefix = refl;
    counted = omega arith;
    bounded = h;
    greedy = tt;
  }
  parts-IsWithin m i n (hit ∷ hits) h =
      let total = n + count_tokens hit.variant.text in
      elim (Bool-cases (is_over (pos (suc m)) total)) [
        | inl q ↦ rw q (record {
          prefix = refl;
          counted = omega arith;
          bounded = h;
          greedy = over_lem m total q;
        })
        | inr q ↦
            let rest = parts-IsWithin m (suc i) total hits (fits_lem m total q) in
            rw q (record {
              prefix =
                  ap
                    (λ bs.
                      record {
                        text = hit.variant.text;
                        citation = citation i;
                        provenance = hit.provenance;
                      }
                      ∷ bs)
                    rest.prefix;
              counted = omega (arith, rest.counted);
              bounded = rest.bounded;
              greedy = rest.greedy;
            })
      ]

  -- With a positive budget of tokens, the default assembler gives numbered blocks of the first
  -- hits, its count is the sum of the tokens of their texts and within the budget, and where
  -- hits are left out the next one would exceed it.
  pub assemble-budget :
      (quote : String → String) (m : ℕ) (query : String) (hits : List (SearchHit F S))
      → IsWithin
          (suc m)
          0
          0
          hits
          (assemble count_tokens quote (pos (suc m)) query hits).blocks
          (assemble count_tokens quote (pos (suc m)) query hits).token_count
  unfolding assemble
  assemble-budget quote m query hits = parts-IsWithin m 0 0 hits (omega arith)
