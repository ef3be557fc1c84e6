-- ===== src/Rag/Pipeline/Updated.antt =====
-- About an Update of rag/internal/pipeline/pipeline.go whose new content is not readable.
use graph_agent_dev_kit.Common.{
  String, none, ok, err, ◌≡◌, refl, ap, ◌∙◌, inl, inr, Option-cases, eq_refl, arith,
}
use graph_agent_dev_kit.Common.Dict.{get, get-delete}
use graph_agent_dev_kit.Types.Errors.{Error, wrapped, in_context}
use graph_agent_dev_kit.Rag.Memstore.{
  Store, delete_document, get_document, find_by_fingerprint, document_not_found,
}
use graph_agent_dev_kit.Rag.Pipeline.{
  Config, Held, RawDocument, outside_call, ingest_new, ingest_after, ingest, reconstruct,
  is_not_found, delete_all, update, remove_all,
}

module _ {F : Type 0} where
  deleted_none : (uuid : String) (s : Store F) → get (delete_document uuid s).docs uuid ≡ none
  deleted_none uuid s = elim (Option-cases (get s.docs uuid)) [
    | inl q ↦ unfold delete_document in rw (q, delete_document) q
    | inr (doc, q) ↦
        unfold delete_document in
        rw (q, delete_document) (get-delete s.docs uuid uuid ∙ rw (eq_refl uuid) refl)
  ]

  deleted_gone :
      (uuid : String) (s : Store F)
      → get_document uuid (delete_document uuid s) ≡ err document_not_found
  unfolding get_document
  deleted_gone uuid s = rw (deleted_none uuid s, get_document) refl

  unmarked :
      (f : String) (s : Store F)
      → find_by_fingerprint f s ≡ err document_not_found
      → get s.fingerprints f ≡ none
  unfolding find_by_fingerprint
  unmarked f s e = elim (Option-cases (get s.fingerprints f)) [
    | inl q ↦ q
    | inr (u, q) ↦ absurd (
        let gone : ok (get s.docs u) ≡ err document_not_found = rw (q, find_by_fingerprint) at e in
        cc)
  ]

  deleted_unmarked :
      (uuid f : String) (s : Store F)
      → get s.fingerprints f ≡ none
      → get (delete_document uuid s).fingerprints f ≡ none
  deleted_unmarked uuid f s e = elim (Option-cases (get s.docs uuid)) [
    | inl q ↦ unfold delete_document in rw (q, delete_document) e
    | inr (doc, q) ↦
        unfold delete_document in
        rw (q, delete_document) (get-delete s.fingerprints doc.fingerprint f ∙ rw e (ground arith))
  ]

  deleted_not_found :
      (uuid f : String) (s : Store F)
      → find_by_fingerprint f s ≡ err document_not_found
      → find_by_fingerprint f (delete_document uuid s) ≡ err document_not_found
  unfolding find_by_fingerprint
  deleted_not_found uuid f s e =
      rw (deleted_unmarked uuid f s (unmarked f s e), find_by_fingerprint) refl

module _ {F W : Type 0} where
  -- When the extractor fails on the new content and no document has its hash, Update returns
  -- that error, and the old document is gone: Reconstruct of its id fails.
  pub update_loses :
      (cfg : Config F W) (uuid : String) (raw : RawDocument) (h : Held F W) (e : Error)
      → find_by_fingerprint (cfg.sha256_hex raw.bytes) h.store ≡ err document_not_found
      → (cfg.extract raw (remove_all uuid cfg.indexers h.outside)).0 ≡ err e
      → ((update cfg uuid raw h).0 ≡ err (wrapped "extract content" e))
        × (reconstruct uuid (update cfg uuid raw h).1
            ≡ err (wrapped "get document" document_not_found))
  unfolding update ingest ingest_after is_not_found ingest_new outside_call reconstruct delete_all
  update_loses cfg uuid raw h e new fails =
      rw (deleted_not_found uuid (cfg.sha256_hex raw.bytes) h.store new, ingest_after, fails)
        (refl, ap (in_context "get document") (deleted_gone uuid h.store))
