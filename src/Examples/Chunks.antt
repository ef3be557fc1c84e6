-- ===== src/Examples/Chunks.antt =====
-- A short limit for rag/chunker, with a token for each byte.
use graph_agent_dev_kit.Common.{ℕ, String, [], ◌∷◌, length, All, ◌≡◌, refl}
use graph_agent_dev_kit.Knowledge.Fuzzy.{Bytes}
use graph_agent_dev_kit.Rag.Memstore.{Document, ContentVariant}
use graph_agent_dev_kit.Rag.Chunker.{
  ChunkerConfig, ChunkerCalls, hard_split, split_recursive, chunk,
}
use graph_agent_dev_kit.Rag.Chunker.Fits.{
  Fits, AreChunks, split_recursive-Fits, hard_split-AreChunks,
}
use graph_agent_dev_kit.Rag.Chunker.Repeated.{chunk-repeated}

abbrev plain_calls : ChunkerCalls
plain_calls = record {
  estimate_tokens = λ text. length text;
  split = λ text sep. text ∷ [];
  trim_space = λ text. text;
  bytes_of = λ text. [];
  text_of = λ text. "";
  ids = λ n. "";
}

abbrev two_tokens : ChunkerConfig
two_tokens = record { max_tokens = 2; overlap = 0; separators = (32 ∷ []) ∷ [] }

abbrev five : Bytes
five = 1 ∷ 2 ∷ 3 ∷ 4 ∷ 5 ∷ []

five_cut : hard_split plain_calls two_tokens five ≡ (1 ∷ 2 ∷ []) ∷ (3 ∷ 4 ∷ []) ∷ (5 ∷ []) ∷ []
unfolding hard_split
five_cut = refl

hard_split-AreChunks_example :
    AreChunks plain_calls two_tokens five (hard_split plain_calls two_tokens five)
hard_split-AreChunks_example = hard_split-AreChunks plain_calls two_tokens five refl

split_recursive-Fits_example :
    All (Fits plain_calls two_tokens) (split_recursive plain_calls two_tokens ((32 ∷ []) ∷ []) five)
split_recursive-Fits_example =
    split_recursive-Fits plain_calls two_tokens ((32 ∷ []) ∷ []) five refl

abbrev short : String → ContentVariant ℕ
short id = record {
  uuid = id;
  section_uuid = "s";
  content_type = "text";
  mime_type = "";
  bytes = [];
  text = "";
  embedding = [];
  metadata = [];
}

abbrev pair : Document ℕ
pair = record {
  uuid = "d";
  source_uri = "";
  fingerprint = "";
  title = "";
  metadata = [];
  sections =
      record {
        uuid = "s";
        document_uuid = "d";
        position = 0;
        heading = "";
        variants = short "a" ∷ short "b" ∷ [];
      }
      ∷ [];
}

chunk-repeated_example :
    (chunk plain_calls two_tokens pair).sections
    ≡ record {
      uuid = "s";
      document_uuid = "d";
      position = 0;
      heading = "";
      variants = short "a" ∷ short "b" ∷ [];
    }
      ∷ record {
        uuid = "s";
        document_uuid = "d";
        position = 1;
        heading = "";
        variants = short "a" ∷ short "b" ∷ [];
      }
      ∷ []
chunk-repeated_example = chunk-repeated plain_calls two_tokens pair ((refl, (refl, tt)), tt)
