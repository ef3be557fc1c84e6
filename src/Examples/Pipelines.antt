-- ===== src/Examples/Pipelines.antt =====
-- Configurations for rag/internal/pipeline.
use graph_agent_dev_kit.Common.{
  ℕ, String, none, [], ◌∷◌, Result, ok, err, true, false, ◌≡◌, refl, ne_of_test,
}
use graph_agent_dev_kit.Common.Dict.{get, put}
use graph_agent_dev_kit.Types.Errors.{Error, opaque_error, wrapped}
use graph_agent_dev_kit.Rag.Memstore.{
  Document, ContentVariant, empty_store, document_not_found, find_by_fingerprint, create_document,
  store_original,
}
use graph_agent_dev_kit.Rag.Pipeline.{
  Config, Held, RawDocument, IngestResult, dedup_skip, ingest, update, reconstruct,
}
use graph_agent_dev_kit.Rag.Pipeline.Stored.{KeepsFingerprint, IsKept}
use graph_agent_dev_kit.Rag.Pipeline.Ingested.{ingest-IsKept, ingest_again}
use graph_agent_dev_kit.Rag.Pipeline.Updated.{update_loses}

abbrev paragraph : ContentVariant ℕ
paragraph = record {
  uuid = "v";
  section_uuid = "s";
  content_type = "text";
  mime_type = "text/plain";
  bytes = [];
  text = "hello";
  embedding = [];
  metadata = [];
}

abbrev note : String → Document ℕ
note mark = record {
  uuid = "u";
  source_uri = "file:///";
  fingerprint = mark;
  title = "";
  metadata = [];
  sections =
      record {
        uuid = "s";
        document_uuid = "u";
        position = 0;
        heading = "";
        variants = paragraph ∷ [];
      }
      ∷ [];
}

abbrev note_bytes : RawDocument
note_bytes = record { source_uri = "file:///"; mime_type = "text/plain"; bytes = []; metadata = [] }

-- The extractor reads the note, or fails.
abbrev plain_config : Result Error (Document ℕ) → Config ℕ ℕ
plain_config extracted = record {
  sha256_hex = λ bytes. "f";
  extract = λ raw w. (extracted, w);
  chunker = none;
  embedders = none;
  dedup = dedup_skip;
  store_originals = true;
  indexers = [];
  graph = none;
}

abbrev reads : Config ℕ ℕ
reads = plain_config (ok (note ""))

abbrev fails : Config ℕ ℕ
fails = plain_config (err (opaque_error "unreadable"))

abbrev fresh : Held ℕ ℕ
fresh = record { store = empty_store; outside = 0 }

abbrev filled : Held ℕ ℕ
filled = record {
  store = record {
    docs = ("u", note "f") ∷ [];
    originals = ("u", []) ∷ [];
    fingerprints = ("f", "u") ∷ [];
  };
  outside = 0;
}

abbrev added : IngestResult
added = record { document_uuid = "u"; deduplicated = false; sections = 1; variants = 1 }

reads_keep : KeepsFingerprint reads
unfolding KeepsFingerprint
reads_keep chunk named doc doc' w e = absurd cc

ingested : ingest reads note_bytes fresh ≡ (ok added, filled)
unfolding ingest find_by_fingerprint create_document get put store_original
ingested = refl

ingest-IsKept_example : IsKept "f" added filled.store
ingest-IsKept_example =
    ingest-IsKept reads note_bytes fresh filled added reads_keep (ne_of_test "f" "" refl) ingested
      refl

ingest_again_example :
    ingest reads note_bytes filled
    ≡ (ok (record { document_uuid = "u"; deduplicated = true; sections = 0; variants = 0 }), filled)
ingest_again_example =
    ingest_again reads note_bytes fresh filled added reads_keep (ne_of_test "f" "" refl) refl
      ingested

-- A store that holds the note under another fingerprint.
abbrev other : Held ℕ ℕ
other = record { store = create_document (note "g") empty_store; outside = 0 }

other_unknown : find_by_fingerprint "f" other.store ≡ err document_not_found
unfolding create_document find_by_fingerprint get put
other_unknown = refl

update_loses_example :
    ((update fails "u" note_bytes other).0
      ≡ err (wrapped "extract content" (opaque_error "unreadable")))
    × (reconstruct "u" (update fails "u" note_bytes other).1
        ≡ err (wrapped "get document" document_not_found))
update_loses_example =
    update_loses fails "u" note_bytes other (opaque_error "unreadable") other_unknown refl
