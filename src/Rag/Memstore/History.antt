-- ===== src/Rag/Memstore/History.antt =====
-- Every store that the operations of rag/memstore/store.go build from an empty one.
use graph_agent_dev_kit.Common.{
  ℕ, String, Option-cases, inl, inr, Option, none, some, List, ok, err, ◌≡◌, refl, ap, sym, ◌∙◌,
}
use graph_agent_dev_kit.Common.Dict.{get}
use graph_agent_dev_kit.Rag.Memstore.{
  Store, Document, Section, ContentVariant, empty_store, create_document, delete_document,
  get_document, document_not_found, store_original, create_section, create_variant,
  update_variant_embedding, find_by_fingerprint,
}
use graph_agent_dev_kit.Rag.Memstore.Indexed.{
  IsIndexed, on_first-IsIndexed, create_section-IsIndexed, create_document-IsIndexed,
  delete_document-IsIndexed,
}

module _ {F : Type 0} where
  -- One call. A document is created under a new id.
  pub data StoreStep (s : Store F) : Store F → Type 0 where
    created : (doc : Document F) → get s.docs doc.uuid ≡ none → StoreStep s (create_document doc s)
    deleted : (uuid : String) → StoreStep s (delete_document uuid s)
    original_stored : (uuid : String) (bytes : List ℕ) → StoreStep s (store_original uuid bytes s)
    section_created : (section : Section F) → StoreStep s (create_section section s).1
    variant_created : (variant : ContentVariant F) → StoreStep s (create_variant variant s).1
    embedding_updated :
        (uuid : String) (e : List F) → StoreStep s (update_variant_embedding uuid e s).1

  pub data StoreReached : Store F → Type 0 where
    opened : StoreReached empty_store
    later : {s u : Store F} → StoreReached s → StoreStep s u → StoreReached u

  step-IsIndexed : {s u : Store F} → StoreStep s u → IsIndexed s → IsIndexed u
  step-IsIndexed {s} (created doc fresh) v = create_document-IsIndexed doc s v fresh
  step-IsIndexed {s} (deleted uuid) v = delete_document-IsIndexed uuid s v
  step-IsIndexed {s} (original_stored uuid bytes) v =
      unfold store_original in record { keyed = v.keyed; named = v.named }
  step-IsIndexed {s} (section_created section) v = create_section-IsIndexed section s v
  step-IsIndexed {s} (variant_created variant) v = unfold create_variant in on_first-IsIndexed _ s v
  step-IsIndexed {s} (embedding_updated uuid e) v =
      unfold update_variant_embedding in on_first-IsIndexed _ s v

  reached-IsIndexed : {s : Store F} → StoreReached s → IsIndexed s
  reached-IsIndexed opened = record {
    keyed = λ k d e. absurd (unfold get in cc e);
    named = λ f u e. absurd (unfold get in cc e);
  }
  reached-IsIndexed (later r x) = step-IsIndexed x (reached-IsIndexed r)

  -- In every store that calls of CreateDocument with a new id, DeleteDocument, StoreOriginal,
  -- CreateSection, CreateVariant and UpdateVariantEmbedding reach from an empty one, whatever
  -- their order and errors, a fingerprint that FindByFingerprint answers without an error gives
  -- a document with that fingerprint, and GetDocument of its id gives the same document.
  pub find_by_fingerprint-found :
      (s : Store F) (f : String) (answer : Option (Document F))
      → StoreReached s
      → find_by_fingerprint f s ≡ ok answer
      → (d : Document F) × (answer ≡ some d) × (d.fingerprint ≡ f) × (get_document d.uuid s ≡ ok d)
  unfolding find_by_fingerprint get_document
  find_by_fingerprint-found s f answer r e = elim (Option-cases (get s.fingerprints f)) [
    | inl h ↦
        absurd
          (let gone : err document_not_found ≡ ok answer = rw (h, find_by_fingerprint) at e in cc)
    | inr (u, h) ↦
        let v = reached-IsIndexed r in
        let n = v.named f u h in
        let whole : ok (get s.docs u) ≡ ok answer = rw (h, find_by_fingerprint) at e in
        let same : get s.docs u ≡ answer = cc in
        (
          n.document,
          sym same ∙ n.found,
          n.same,
          got n.document (ap (get s.docs) (v.keyed u n.document n.found) ∙ n.found),
        )
  ]
    where
      got : (d : Document F) → get s.docs d.uuid ≡ some d → get_document d.uuid s ≡ ok d
      got d h = rw (h, get_document) refl
