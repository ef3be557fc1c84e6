-- ===== src/Rag/Context.antt =====
-- rag/contextassembler/default.go. The count of tokens and the %q of fmt are parameters.
pub mod Budget
use graph_agent_dev_kit.Common.{
  ℕ, zero, suc, ◌+◌, String, ◌==◌, ◌<>◌, ◌&&◌, List, [], ◌∷◌, Bool, true, false, not, if◌then◌else◌,
}
use graph_agent_dev_kit.Common.Int.{ℤ, is_not_pos, le_int}
use graph_agent_dev_kit.Common.Decimal.{decimal}
use graph_agent_dev_kit.Rag.Memstore.{Provenance}
use graph_agent_dev_kit.Rag.Hits.{SearchHit}

pub record ContextBlock : Type 0 where
  pub text : String
  pub citation : String
  pub provenance : Provenance

pub record AssembledContext : Type 0 where
  pub prompt : String
  pub blocks : List ContextBlock
  pub token_count : ℕ

-- strings.Join
unfoldable pub join_with : String → List String → String
join_with sep [] = ""
join_with sep (t ∷ []) = t
join_with sep (t ∷ u ∷ ts) = t <> (sep <> join_with sep (u ∷ ts))

-- The variables that the loop of Assemble builds.
pub record Parts : Type 0 where
  pub blocks : List ContextBlock
  pub parts : List String
  pub token_count : ℕ

abbrev pub no_parts : ℕ → Parts
no_parts n = record { blocks = []; parts = []; token_count = n }

-- fmt.Sprintf("[%d]", i+1)
unfoldable pub citation : ℕ → String
unfolding decimal
citation i = "[" <> (decimal (suc i) <> "]")

-- source, with the title where there is no address.
unfoldable pub source_of : Provenance → String
source_of p = if p.source_uri == "" then p.document_title else p.source_uri

-- "if a.MaxTokens > 0 && tokenCount+tokens > a.MaxTokens"
unfoldable pub is_over : ℤ → ℕ → Bool
is_over max n = not (is_not_pos max) && not (le_int n max)

module _ {F S : Type 0} (count_tokens : String → ℕ) where
  -- for i, hit := range hits, from the i-th on, with `n` tokens so far.
  unfoldable pub assemble_parts : ℤ → ℕ → ℕ → List (SearchHit F S) → Parts
  unfolding is_over citation source_of
  assemble_parts max i n [] = no_parts n
  assemble_parts max i n (hit ∷ hits) =
      let text = hit.variant.text in
      let total = n + count_tokens text in
      let rest = assemble_parts max (suc i) total hits in
      if is_over max total then no_parts n else record {
        blocks =
            record { text = text; citation = citation i; provenance = hit.provenance }
            ∷ rest.blocks;
        parts =
            (citation i <> (" " <> (text <> (" (Source: " <> (source_of hit.provenance <> ")")))))
            ∷ rest.parts;
        token_count = rest.token_count;
      }

  -- Assemble
  unfoldable pub assemble : (String → String) → ℤ → String → List (SearchHit F S) → AssembledContext
  unfolding assemble_parts join_with
  assemble quote max query hits =
      let p = assemble_parts max 0 0 hits in
      record {
        prompt = "Context for query " <> (quote query <> (":\n\n" <> join_with "\n\n" p.parts));
        blocks = p.blocks;
        token_count = p.token_count;
      }
