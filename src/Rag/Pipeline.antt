-- ===== src/Rag/Pipeline.antt =====
-- rag/internal/pipeline/pipeline.go in front of the store in memory: Ingest, Update, Delete, Lookup,
-- Reconstruct. SHA-256, the extractor, the chunker, the embedders, the indexes and the graph are
-- parameters, and their state is the state `W` beside the store. What is only logged leaves no trace.
pub mod Stored
pub mod Ingested
pub mod Updated
use graph_agent_dev_kit.Common.{
  ℕ, ◌+◌, String, ◌==◌, ◌&&◌, ◌<>◌, Option, none, some, List, [], ◌∷◌, ◌++◌, Result, ok, err, Exec,
  raise, pure, modify, ◌>>=◌, if◌then◌else◌, Bool, true, false, not, length,
}
use graph_agent_dev_kit.Common.Dict.{Dict}
use graph_agent_dev_kit.Common.Decimal.{decimal}
use graph_agent_dev_kit.Types.Errors.{Error, opaque_error, wrapped, panics, in_context}
use graph_agent_dev_kit.Knowledge.Graph.{EpisodeInput}
use graph_agent_dev_kit.Rag.Memstore.{
  Store, Document, Section, ContentVariant, Provenance, create_document, delete_document,
  get_document, find_by_fingerprint, store_original, get_variant,
}

pub record RawDocument : Type 0 where
  pub source_uri : String
  pub mime_type : String
  pub bytes : List ℕ
  pub metadata : Dict String

pub data DedupBehavior : Type 0 where
  dedup_skip dedup_replace : DedupBehavior

pub record IngestResult : Type 0 where
  pub document_uuid : String
  pub deduplicated : Bool
  pub sections : ℕ
  pub variants : ℕ

-- The Indexer that a retriever may be.
pub record Indexer (F W : Type 0) : Type 0 where
  pub index : Document F → Exec W Error (Unit {0})
  pub remove : String → Exec W Error (Unit {0})

-- Config, for the operations that write; `indexers` are those of the retrievers that are one.
pub record Config (F W : Type 0) : Type 0 where
  pub sha256_hex : List ℕ → String
  pub extract : RawDocument → Exec W Error (Document F)
  pub chunker : Option (Document F → Exec W Error (Document F))
  pub embedders : Option (List (ContentVariant F) → Exec W Error (List (List F)))
  pub dedup : DedupBehavior
  pub store_originals : Bool
  pub indexers : List (Indexer F W)
  pub graph : Option (EpisodeInput → Exec W Error (Unit {0}))

-- The store, and the state of what the configuration names.
pub record Held (F W : Type 0) : Type 0 where
  pub store : Store F
  pub outside : W

-- err != ErrDocumentNotFound
unfoldable pub is_not_found : Error → Bool
is_not_found (opaque_error d) = d == "document not found"
is_not_found _ = false

module _ {F : Type 0} where
  -- Variants[j].Embedding = embeddings[idx], idx++: too few of them are an index out of range.
  unfoldable pub fill_variants :
      List (ContentVariant F) → List (List F) → Option (List (ContentVariant F) × List (List F))
  fill_variants [] es = some ([], es)
  fill_variants (v ∷ vs) [] = none
  fill_variants (v ∷ vs) (e ∷ es) = elim (fill_variants vs es) [
    | none ↦ none
    | some r ↦ some (record v { embedding = e } ∷ r.0, r.1)
  ]

  unfoldable pub fill_sections : List (Section F) → List (List F) → Option (List (Section F))
  unfolding fill_variants
  fill_sections [] es = some []
  fill_sections (sec ∷ secs) es = elim (fill_variants sec.variants es) [
    | none ↦ none
    | some r ↦ elim (fill_sections secs r.1) [
      | none ↦ none
      | some secs' ↦ some (record sec { variants = r.0 } ∷ secs')
    ]
  ]

  -- allVariants
  unfoldable pub all_variants : List (Section F) → List (ContentVariant F)
  all_variants [] = []
  all_variants (sec ∷ secs) = sec.variants ++ all_variants secs

  -- The variables of Ingest that name a section of the graph.
  unfoldable pub episode : Document F → Section F → ContentVariant F → EpisodeInput
  unfolding decimal
  episode doc sec v = record {
    name = if sec.heading == "" then "section-" <> decimal sec.position else sec.heading;
    body = v.text;
    source = doc.source_uri;
    group_id = doc.uuid;
    metadata =
        ("content_type", v.content_type)
        ∷ ("section_uuid", sec.uuid)
        ∷ ("variant_uuid", v.uuid)
        ∷ [];
  }

module _ {F W : Type 0} where
  -- A call of something outside the store, and fmt.Errorf on its error.
  unfoldable pub outside_call : {A : Type 0} → String → Exec W Error A → Exec (Held F W) Error A
  outside_call d m h = let r = m h.outside in (in_context d r.0, record h { outside = r.1 })

  -- "if p.cfg.Chunker != nil"
  unfoldable pub chunk_document : Config F W → Document F → Exec (Held F W) Error (Document F)
  unfolding outside_call
  chunk_document cfg doc = elim cfg.chunker [
    | none ↦ pure doc
    | some chunk ↦ outside_call "chunk" (chunk doc)
  ]

  unfoldable pub filled : Document F → List (List F) → Exec (Held F W) Error (Document F)
  unfolding fill_sections
  filled doc es h = elim (fill_sections doc.sections es) [
    | none ↦ (err panics, h)
    | some secs ↦ (ok (record doc { sections = secs }), h)
  ]

  -- "if len(allVariants) > 0"
  unfoldable pub embed_variants :
      (List (ContentVariant F) → Exec W Error (List (List F)))
      → Document F
      → List (ContentVariant F)
      → Exec (Held F W) Error (Document F)
  unfolding outside_call filled
  embed_variants embed doc [] = pure doc
  embed_variants embed doc (v ∷ vs) = do
    es ← outside_call "embed variants" (embed (v ∷ vs))
    filled doc es

  -- "if p.cfg.Embedders != nil"
  unfoldable pub embed_document : Config F W → Document F → Exec (Held F W) Error (Document F)
  unfolding all_variants embed_variants
  embed_document cfg doc = elim cfg.embedders [
    | none ↦ pure doc
    | some embed ↦ embed_variants embed doc (all_variants doc.sections)
  ]

  -- for _, retriever := range p.cfg.Retrievers, in Ingest and in Delete.
  unfoldable pub index_all : Document F → List (Indexer F W) → Exec (Held F W) Error (Unit {0})
  unfolding outside_call
  index_all doc [] = pure tt
  index_all doc (x ∷ xs) = do
    done ← outside_call "index for retriever" (x.index doc)
    index_all doc xs

  unfoldable pub remove_all : String → List (Indexer F W) → W → W
  remove_all uuid [] w = w
  remove_all uuid (x ∷ xs) w = remove_all uuid xs (x.remove uuid w).1

  -- The loops over the sections and the variants that tell the graph of the texts.
  unfoldable pub graph_variants :
      (EpisodeInput → Exec W Error (Unit {0}))
      → Document F
      → Section F
      → List (ContentVariant F)
      → W
      → W
  unfolding episode
  graph_variants ingest_episode doc sec [] w = w
  graph_variants ingest_episode doc sec (v ∷ vs) w = graph_variants ingest_episode doc sec vs (
      if v.content_type == "text" && not (v.text == "")
      then (ingest_episode (episode doc sec v) w).1
      else w)

  unfoldable pub graph_sections :
      (EpisodeInput → Exec W Error (Unit {0})) → Document F → List (Section F) → W → W
  unfolding graph_variants
  graph_sections ingest_episode doc [] w = w
  graph_sections ingest_episode doc (sec ∷ secs) w =
      graph_sections ingest_episode doc secs (graph_variants ingest_episode doc sec sec.variants w)

  unfoldable pub graph_document : Config F W → Document F → W → W
  unfolding graph_sections
  graph_document cfg doc w = elim cfg.graph [
    | none ↦ w
    | some ingest_episode ↦ graph_sections ingest_episode doc doc.sections w
  ]

  -- "if p.cfg.StoreOriginals"
  unfoldable pub keep_original : Config F W → RawDocument → Document F → Held F W → Held F W
  keep_original cfg raw doc h =
      if cfg.store_originals
      then record h { store = store_original doc.uuid raw.bytes h.store }
      else h

  -- Ingest from the writes to the store on.
  unfoldable pub store_document :
      Config F W → RawDocument → Document F → Exec (Held F W) Error IngestResult
  unfolding index_all graph_document all_variants keep_original
  store_document cfg raw doc = do
    created ← modify (λ (h : Held F W). record h { store = create_document doc h.store }) tt
    stored ← modify (keep_original cfg raw doc) tt
    indexed ← index_all doc cfg.indexers
    modify (λ (h : Held F W). record h { outside = graph_document cfg doc h.outside })
        (record {
          document_uuid = doc.uuid;
          deduplicated = false;
          sections = length doc.sections;
          variants = length (all_variants doc.sections);
        })

  -- Ingest from the chunker on, and from the extractor on.
  unfoldable pub refine_document :
      Config F W → RawDocument → Document F → Exec (Held F W) Error IngestResult
  unfolding chunk_document embed_document store_document
  refine_document cfg raw doc = do
    chunked ← chunk_document cfg doc
    embedded ← embed_document cfg chunked
    store_document cfg raw embedded

  unfoldable pub ingest_new : Config F W → RawDocument → String → Exec (Held F W) Error IngestResult
  unfolding outside_call refine_document
  ingest_new cfg raw fingerprint = do
    extracted ← outside_call "extract content" (cfg.extract raw)
    refine_document cfg raw (record extracted { fingerprint = fingerprint })

  -- "if existing != nil"
  unfoldable pub ingest_found :
      DedupBehavior
      → Config F W
      → RawDocument
      → String
      → Document F
      → Exec (Held F W) Error IngestResult
  unfolding ingest_new
  ingest_found dedup_skip cfg raw fingerprint existing h = (
    ok (record { document_uuid = existing.uuid; deduplicated = true; sections = 0; variants = 0 }),
    h,
  )
  ingest_found dedup_replace cfg raw fingerprint existing h =
      ingest_new cfg raw fingerprint (record h { store = delete_document existing.uuid h.store })

  -- Ingest, after the lookup of the fingerprint.
  unfoldable pub ingest_after :
      Result Error (Option (Document F))
      → Config F W
      → RawDocument
      → String
      → Exec (Held F W) Error IngestResult
  unfolding is_not_found ingest_new ingest_found
  ingest_after (err e) cfg raw fingerprint h =
      if is_not_found e
      then ingest_new cfg raw fingerprint h
      else raise (wrapped "fingerprint lookup" e) h
  ingest_after (ok none) cfg raw fingerprint h = ingest_new cfg raw fingerprint h
  ingest_after (ok (some existing)) cfg raw fingerprint h =
      ingest_found cfg.dedup cfg raw fingerprint existing h

  -- Ingest
  unfoldable pub ingest : Config F W → RawDocument → Exec (Held F W) Error IngestResult
  unfolding ingest_after
  ingest cfg raw h =
      let fingerprint = cfg.sha256_hex raw.bytes in
      ingest_after (find_by_fingerprint fingerprint h.store) cfg raw fingerprint h

  -- Delete: the store in memory does not fail.
  unfoldable pub delete_all : Config F W → String → Held F W → Held F W
  unfolding remove_all
  delete_all cfg uuid h = record {
    store = delete_document uuid h.store;
    outside = remove_all uuid cfg.indexers h.outside;
  }

  -- Update
  unfoldable pub update : Config F W → String → RawDocument → Exec (Held F W) Error IngestResult
  unfolding delete_all ingest
  update cfg uuid raw h = ingest cfg raw (delete_all cfg uuid h)

  -- Reconstruct
  unfoldable pub reconstruct : String → Held F W → Result Error (Document F)
  reconstruct uuid h = in_context "get document" (get_document uuid h.store)
