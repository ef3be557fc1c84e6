-- ===== src/Rag/Memstore.antt =====
-- rag/memstore/store.go: the store of documents in memory, without the search. A document is a value
-- here: the store is the only one that writes to it. The numbers of an embedding are of any type.
pub mod Indexed
pub mod History
pub mod Replaced
use graph_agent_dev_kit.Common.{
  ℕ, String, ◌==◌, ◌++◌, Option, none, some, List, [], ◌∷◌, Result, ok, err, Exec, if◌then◌else◌,
  Bool, true, false,
}
use graph_agent_dev_kit.Common.Dict.{Dict, get, put, delete}
use graph_agent_dev_kit.Types.Errors.{Error, opaque_error}

-- rag/types/types.go; the times of a document are not read.
pub record ContentVariant (F : Type 0) : Type 0 where
  pub uuid : String
  pub section_uuid : String
  pub content_type : String
  pub mime_type : String
  pub bytes : List ℕ
  pub text : String
  pub embedding : List F
  pub metadata : Dict String

pub record Section (F : Type 0) : Type 0 where
  pub uuid : String
  pub document_uuid : String
  pub position : ℕ
  pub heading : String
  pub variants : List (ContentVariant F)

pub record Document (F : Type 0) : Type 0 where
  pub uuid : String
  pub source_uri : String
  pub fingerprint : String
  pub title : String
  pub metadata : Dict String
  pub sections : List (Section F)

pub record Provenance : Type 0 where
  pub document_uuid : String
  pub document_title : String
  pub source_uri : String
  pub section_uuid : String
  pub section_heading : String
  pub section_index : ℕ

pub record Store (F : Type 0) : Type 0 where
  pub docs : Dict (Document F)
  pub originals : Dict (List ℕ)
  pub fingerprints : Dict String

abbrev pub document_not_found : Error
document_not_found = opaque_error "document not found"

abbrev pub variant_not_found : Error
variant_not_found = opaque_error "variant not found"

module _ {F : Type 0} where
  -- New
  abbrev pub empty_store : Store F
  empty_store = record { docs = []; originals = []; fingerprints = [] }

  -- CreateDocument
  unfoldable pub create_document : Document F → Store F → Store F
  create_document doc s = record s {
    docs = put s.docs doc.uuid doc;
    fingerprints =
        if doc.fingerprint == ""
        then s.fingerprints
        else put s.fingerprints doc.fingerprint doc.uuid;
  }

  -- GetDocument
  unfoldable pub get_document : String → Store F → Result Error (Document F)
  get_document uuid s = elim (get s.docs uuid) [ none ↦ err document_not_found | some doc ↦ ok doc ]

  -- FindByFingerprint: `none` is the nil document that a missing uuid gives.
  unfoldable pub find_by_fingerprint : String → Store F → Result Error (Option (Document F))
  find_by_fingerprint fingerprint s = elim (get s.fingerprints fingerprint) [
    | none ↦ err document_not_found
    | some uuid ↦ ok (get s.docs uuid)
  ]

  -- DeleteDocument
  unfoldable pub delete_document : String → Store F → Store F
  delete_document uuid s = elim (get s.docs uuid) [
    | none ↦ s
    | some doc ↦ record {
      docs = delete s.docs uuid;
      originals = delete s.originals uuid;
      fingerprints = delete s.fingerprints doc.fingerprint;
    }
  ]

  -- StoreOriginal and GetOriginal
  unfoldable pub store_original : String → List ℕ → Store F → Store F
  store_original uuid bytes s = record s { originals = put s.originals uuid bytes }

  unfoldable pub get_original : String → Store F → Result Error (List ℕ)
  get_original uuid s = elim (get s.originals uuid) [
    | none ↦ err document_not_found
    | some bytes ↦ ok bytes
  ]

  -- A document with other sections, written back.
  unfoldable pub with_sections : Document F → List (Section F) → Document F
  with_sections doc sections = record doc { sections = sections }

  -- CreateSection
  unfoldable pub create_section : Section F → Exec (Store F) Error (Unit {0})
  unfolding with_sections
  create_section section s = elim (get s.docs section.document_uuid) [
    | none ↦ (err document_not_found, s)
    | some doc ↦
        let grown = with_sections doc (doc.sections ++ section ∷ []) in
        (ok tt, record s { docs = put s.docs section.document_uuid grown })
  ]

  -- GetSections
  unfoldable pub get_sections : String → Store F → Result Error (List (Section F))
  get_sections uuid s = elim (get s.docs uuid) [
    | none ↦ err document_not_found
    | some doc ↦ ok doc.sections
  ]

  -- The first section of a document that the variant belongs to gets it.
  unfoldable pub add_variant : ContentVariant F → List (Section F) → Option (List (Section F))
  add_variant v [] = none
  add_variant v (sec ∷ secs) =
      let rest = add_variant v secs in
      if sec.uuid == v.section_uuid
      then some (record sec { variants = sec.variants ++ v ∷ [] } ∷ secs)
      else elim rest [ none ↦ none | some secs' ↦ some (sec ∷ secs') ]

  -- The loops over the variants of a document with `variantUUID`.
  unfoldable pub set_embedding :
      String → List F → List (ContentVariant F) → Option (List (ContentVariant F))
  set_embedding uuid e [] = none
  set_embedding uuid e (v ∷ vs) =
      let rest = set_embedding uuid e vs in
      if v.uuid == uuid
      then some (record v { embedding = e } ∷ vs)
      else elim rest [ none ↦ none | some vs' ↦ some (v ∷ vs') ]

  unfoldable pub embed_sections : String → List F → List (Section F) → Option (List (Section F))
  unfolding set_embedding
  embed_sections uuid e [] = none
  embed_sections uuid e (sec ∷ secs) =
      let rest = embed_sections uuid e secs in
      elim (set_embedding uuid e sec.variants) [
        | some vs ↦ some (record sec { variants = vs } ∷ secs)
        | none ↦ elim rest [ none ↦ none | some secs' ↦ some (sec ∷ secs') ]
      ]

  -- for _, doc := range s.docs: the first document whose sections change.
  unfoldable pub change_first :
      (List (Section F) → Option (List (Section F)))
      → Dict (Document F)
      → Option (Dict (Document F))
  unfolding with_sections
  change_first change [] = none
  change_first change ((k, doc) ∷ docs) =
      let rest = change_first change docs in
      elim (change doc.sections) [
        | some secs ↦ some ((k, with_sections doc secs) ∷ docs)
        | none ↦ elim rest [ none ↦ none | some docs' ↦ some ((k, doc) ∷ docs') ]
      ]

  unfoldable pub on_first :
      (List (Section F) → Option (List (Section F))) → Exec (Store F) Error (Unit {0})
  unfolding change_first
  on_first change s = elim (change_first change s.docs) [
    | none ↦ (err document_not_found, s)
    | some docs ↦ (ok tt, record s { docs = docs })
  ]

  -- CreateVariant
  unfoldable pub create_variant : ContentVariant F → Exec (Store F) Error (Unit {0})
  unfolding on_first add_variant
  create_variant v = on_first (add_variant v)

  -- UpdateVariantEmbedding
  unfoldable pub update_variant_embedding : String → List F → Exec (Store F) Error (Unit {0})
  unfolding on_first embed_sections
  update_variant_embedding uuid e = on_first (embed_sections uuid e)

  -- The first variant of a section, of a document and of the store with an id.
  unfoldable pub find_variant : String → List (ContentVariant F) → Option (ContentVariant F)
  find_variant uuid [] = none
  find_variant uuid (v ∷ vs) = if v.uuid == uuid then some v else find_variant uuid vs

  unfoldable pub find_in_sections :
      String → List (Section F) → Option (Section F × ContentVariant F)
  unfolding find_variant
  find_in_sections uuid [] = none
  find_in_sections uuid (sec ∷ secs) =
      let rest = find_in_sections uuid secs in
      elim (find_variant uuid sec.variants) [ some v ↦ some (sec, v) | none ↦ rest ]

  abbrev pub provenance_of : Document F → Section F → Provenance
  provenance_of doc sec = record {
    document_uuid = doc.uuid;
    document_title = doc.title;
    source_uri = doc.source_uri;
    section_uuid = sec.uuid;
    section_heading = sec.heading;
    section_index = sec.position;
  }

  unfoldable pub find_in_docs : String → Dict (Document F) → Option (ContentVariant F × Provenance)
  unfolding find_in_sections
  find_in_docs uuid [] = none
  find_in_docs uuid ((k, doc) ∷ docs) =
      let rest = find_in_docs uuid docs in
      elim (find_in_sections uuid doc.sections) [
        | some r ↦ some (r.1, provenance_of doc r.0)
        | none ↦ rest
      ]

  -- GetVariant
  unfoldable pub get_variant : String → Store F → Result Error (ContentVariant F × Provenance)
  unfolding find_in_docs
  get_variant uuid s = elim (find_in_docs uuid s.docs) [
    | none ↦ err variant_not_found
    | some r ↦ ok r
  ]
