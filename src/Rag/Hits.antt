-- ===== src/Rag/Hits.antt =====
-- rag/types/types.go: the hits of a search and its options, and the filters on metadata that
-- rag/memstore/store.go and rag/bm25retriever/retriever.go share. A score is of any type, with the
-- operations on float64 that the code uses.
use graph_agent_dev_kit.Common.{
  ℕ, String, ◌==◌, Option, none, some, List, [], ◌∷◌, ◌++◌, Bool, true, false, not, elem,
  if◌then◌else◌,
}
use graph_agent_dev_kit.Common.Dict.{Dict, get, put}
use graph_agent_dev_kit.Common.Int.{ℤ, pos}
use graph_agent_dev_kit.Common.Search.{contains}
use graph_agent_dev_kit.Rag.Memstore.{ContentVariant, Provenance}

pub record SearchHit (F S : Type 0) : Type 0 where
  pub variant : ContentVariant F
  pub score : S
  pub provenance : Provenance

pub data FilterOp : Type 0 where
  filter_eq filter_neq filter_contains : FilterOp

pub record MetadataFilter : Type 0 where
  pub key : String
  pub op : FilterOp
  pub value : String

pub record SearchOptions (S : Type 0) : Type 0 where
  pub content_types : List String
  pub limit : ℤ
  pub metadata_filters : List MetadataFilter
  pub min_score : S

pub record SearchConfig (S : Type 0) : Type 0 where
  pub content_types : List String
  pub limit : ℤ
  pub metadata_filters : List MetadataFilter
  pub min_score : S
  pub assemble_context : Bool
  pub max_tokens : ℤ

-- float64: 0, a + b, 1 / n, a > b.
pub record Scores (S : Type 0) : Type 0 where
  pub zero_score : S
  pub plus : S → S → S
  pub reciprocal : ℕ → S
  pub greater : S → S → Bool

module _ {S : Type 0} where
  -- WithContentTypes, WithLimit, WithMetadataFilter, WithMinScore, WithContextAssembly
  unfoldable pub with_content_types : List String → SearchConfig S → SearchConfig S
  with_content_types kinds c = record c { content_types = kinds }

  unfoldable pub with_limit : ℤ → SearchConfig S → SearchConfig S
  with_limit n c = record c { limit = n }

  unfoldable pub with_metadata_filter : String → FilterOp → String → SearchConfig S → SearchConfig S
  with_metadata_filter key op value c = record c {
    metadata_filters = c.metadata_filters ++ record { key = key; op = op; value = value } ∷ [];
  }

  unfoldable pub with_min_score : S → SearchConfig S → SearchConfig S
  with_min_score x c = record c { min_score = x }

  unfoldable pub with_context_assembly : ℤ → SearchConfig S → SearchConfig S
  with_context_assembly n c = record c { assemble_context = true; max_tokens = n }

  -- for _, o := range opts, from the defaults of Search.
  unfoldable pub apply_options :
      List (SearchConfig S → SearchConfig S) → SearchConfig S → SearchConfig S
  apply_options [] c = c
  apply_options (o ∷ os) c = apply_options os (o c)

  unfoldable pub search_config : Scores S → List (SearchConfig S → SearchConfig S) → SearchConfig S
  unfolding apply_options
  search_config scores opts = apply_options opts (record {
    content_types = [];
    limit = pos 10;
    metadata_filters = [];
    min_score = scores.zero_score;
    assemble_context = false;
    max_tokens = pos 0;
  })

-- One turn of matchFilters, and matchFilters.
unfoldable pub match_filter : FilterOp → String → Option String → Bool
unfolding contains
match_filter filter_eq value none = false
match_filter filter_eq value (some v) = v == value
match_filter filter_neq value none = true
match_filter filter_neq value (some v) = not (v == value)
match_filter filter_contains value none = false
match_filter filter_contains value (some v) = contains v value

unfoldable pub match_filters : Dict String → List MetadataFilter → Bool
unfolding match_filter
match_filters meta [] = true
match_filters meta (f ∷ fs) =
    let rest = match_filters meta fs in
    if match_filter f.op f.value (get meta f.key) then rest else false

-- mergeMetadata: the second map is written over the first.
unfoldable pub write_all : Dict String → Dict String → Dict String
write_all merged [] = merged
write_all merged ((k, v) ∷ d) = write_all (put merged k v) d

unfoldable pub merge_metadata : Dict String → Dict String → Dict String
unfolding write_all
merge_metadata doc_meta variant_meta = write_all (write_all [] doc_meta) variant_meta

-- "if len(opts.ContentTypes) > 0": whether the type is one of those asked for.
unfoldable pub wants_type : List String → String → Bool
wants_type [] kind = true
wants_type (k ∷ ks) kind = elem kind (k ∷ ks)
