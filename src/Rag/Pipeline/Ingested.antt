-- ===== src/Rag/Pipeline/Ingested.antt =====
-- About a successful Ingest of rag/internal/pipeline/pipeline.go.
use graph_agent_dev_kit.Common.{
  String, Option, none, some, Result, ok, err, raise, ◌>>=◌, ◌≡◌, ◌≢◌, refl, ap, sym, ◌∙◌, inl, inr,
  true, false, continue-eq-ok, Bool-cases, subst,
}
use graph_agent_dev_kit.Types.Errors.{Error, wrapped}
use graph_agent_dev_kit.Rag.Memstore.{Store, Document, delete_document, find_by_fingerprint}
use graph_agent_dev_kit.Rag.Pipeline.{
  Config, Held, RawDocument, IngestResult, dedup_skip, dedup_replace, outside_call, chunk_document,
  embed_document, store_document, refine_document, ingest_new, ingest_found, ingest_after, ingest,
  DedupBehavior, is_not_found,
}
use graph_agent_dev_kit.Rag.Pipeline.Stored.{
  KeepsFingerprint, IsKept, embed_document-fingerprint, chunk_document-fingerprint,
  store_document-IsKept,
}

module _ {F : Type 0} where
  abbrev Again : String → IngestResult → Store F → Type 0
  Again f r s =
      (d : Document F) × (find_by_fingerprint f s ≡ ok (some d)) × (d.uuid ≡ r.document_uuid)

  kept-Again : {f : String} {r : IngestResult} {s : Store F} → IsKept f r s → Again f r s
  kept-Again k = (k.document, k.indexed, k.named)

module _ {F W : Type 0} where
  refine_document-IsKept :
      (cfg : Config F W) (raw : RawDocument) (doc : Document F) (h h' : Held F W) {r : IngestResult}
      → KeepsFingerprint cfg
      → doc.fingerprint ≢ ""
      → refine_document cfg raw doc h ≡ (ok r, h')
      → IsKept doc.fingerprint r h'.store
  unfolding refine_document
  refine_document-IsKept cfg raw doc h h' {r} keeps marked e =
      let (chunked, h1, chunk, e1) =
        continue-eq-ok (λ c. embed_document cfg c >>= store_document cfg raw)
          (chunk_document cfg doc h) e in
      let (embedded, h2, embed, e2) =
        continue-eq-ok (store_document cfg raw) (embed_document cfg chunked h1) e1 in
      let same : embedded.fingerprint ≡ doc.fingerprint =
        embed_document-fingerprint cfg chunked embedded h1 h2 embed
        ∙ chunk_document-fingerprint cfg doc chunked h h1 keeps chunk in
      subst (λ x. IsKept x r h'.store) same
        (store_document-IsKept cfg raw embedded h2 h' (λ p. marked (sym same ∙ p)) e2)

  ingest_new-IsKept :
      (cfg : Config F W) (raw : RawDocument) (f : String) (h h' : Held F W) {r : IngestResult}
      → KeepsFingerprint cfg
      → f ≢ ""
      → ingest_new cfg raw f h ≡ (ok r, h')
      → IsKept f r h'.store
  unfolding ingest_new
  ingest_new-IsKept cfg raw f h h' keeps marked e =
      let (extracted, h1, _, e1) =
        continue-eq-ok (λ x. refine_document cfg raw (record x { fingerprint = f }))
          (outside_call "extract content" (cfg.extract raw) h) e in
      refine_document-IsKept cfg raw (record extracted { fingerprint = f }) h1 h' keeps marked e1

  ingest_found-IsKept :
      (b : DedupBehavior) (cfg : Config F W) (raw : RawDocument) (f : String) (d : Document F)
      (h h' : Held F W) {r : IngestResult}
      → KeepsFingerprint cfg
      → f ≢ ""
      → r.deduplicated ≡ false
      → ingest_found b cfg raw f d h ≡ (ok r, h')
      → IsKept f r h'.store
  unfolding ingest_found
  ingest_found-IsKept dedup_skip cfg raw f d h h' keeps marked new e = absurd cc
  ingest_found-IsKept dedup_replace cfg raw f d h h' keeps marked new e =
      ingest_new-IsKept cfg raw f (record h { store = delete_document d.uuid h.store }) h' keeps
        marked e

  ingest_after-IsKept :
      (o : Result Error (Option (Document F))) (cfg : Config F W) (raw : RawDocument) (f : String)
      (h h' : Held F W) {r : IngestResult}
      → KeepsFingerprint cfg
      → f ≢ ""
      → r.deduplicated ≡ false
      → ingest_after o cfg raw f h ≡ (ok r, h')
      → IsKept f r h'.store
  unfolding ingest_after
  ingest_after-IsKept (err x) cfg raw f h h' {r} keeps marked new e =
      elim (Bool-cases (is_not_found x)) [
        | inl q ↦ ingest_new-IsKept cfg raw f h h' keeps marked (rw q at e)
        | inr q ↦
            absurd
              (let gone : raise (wrapped "fingerprint lookup" x) h ≡ (ok r, h') = rw q at e in cc)
      ]
  ingest_after-IsKept (ok none) cfg raw f h h' keeps marked new e =
      ingest_new-IsKept cfg raw f h h' keeps marked e
  ingest_after-IsKept (ok (some d)) cfg raw f h h' keeps marked new e =
      ingest_found-IsKept cfg.dedup cfg raw f d h h' keeps marked new e

  -- With a chunker that keeps the fingerprint and a hash that is not empty, a successful Ingest
  -- that is not deduplicated leaves in the store a document under the id that it returns, which
  -- GetDocument and FindByFingerprint of the hash give, with as many sections and variants as it
  -- reports.
  pub ingest-IsKept :
      (cfg : Config F W) (raw : RawDocument) (h h' : Held F W) (r : IngestResult)
      → KeepsFingerprint cfg
      → cfg.sha256_hex raw.bytes ≢ ""
      → ingest cfg raw h ≡ (ok r, h')
      → r.deduplicated ≡ false
      → IsKept (cfg.sha256_hex raw.bytes) r h'.store
  unfolding ingest
  ingest-IsKept cfg raw h h' r keeps marked e new =
      ingest_after-IsKept (find_by_fingerprint (cfg.sha256_hex raw.bytes) h.store) cfg raw
        (cfg.sha256_hex raw.bytes) h h' keeps marked new e

  ingest_found-Again :
      (cfg : Config F W) (raw : RawDocument) (f : String) (d : Document F) (h h' : Held F W)
      {r : IngestResult}
      → find_by_fingerprint f h.store ≡ ok (some d)
      → ingest_found dedup_skip cfg raw f d h ≡ (ok r, h')
      → Again f r h'.store
  unfolding ingest_found
  ingest_found-Again cfg raw f d h h' {r} found e =
      let same : h ≡ h' = ap (λ p. p.1) e in
      (d, subst (λ (x : Held F W). find_by_fingerprint f x.store ≡ ok (some d)) same found, cc)

  ingest_after-Again :
      (o : Result Error (Option (Document F))) (cfg : Config F W) (raw : RawDocument) (f : String)
      (h h' : Held F W) {r : IngestResult}
      → KeepsFingerprint cfg
      → f ≢ ""
      → cfg.dedup ≡ dedup_skip
      → find_by_fingerprint f h.store ≡ o
      → ingest_after o cfg raw f h ≡ (ok r, h')
      → Again f r h'.store
  unfolding ingest_after
  ingest_after-Again (err x) cfg raw f h h' {r} keeps marked skip found e =
      elim (Bool-cases (is_not_found x)) [
        | inl q ↦ kept-Again (ingest_new-IsKept cfg raw f h h' keeps marked (rw q at e))
        | inr q ↦
            absurd
              (let gone : raise (wrapped "fingerprint lookup" x) h ≡ (ok r, h') = rw q at e in cc)
      ]
  ingest_after-Again (ok none) cfg raw f h h' keeps marked skip found e =
      kept-Again (ingest_new-IsKept cfg raw f h h' keeps marked e)
  ingest_after-Again (ok (some d)) cfg raw f h h' keeps marked skip found e =
      ingest_found-Again cfg raw f d h h' found (rw skip at e)

  -- With a chunker that keeps the fingerprint, a hash that is not empty and DedupSkip, after a
  -- successful Ingest another Ingest of the same raw document gives the id of the first, marked
  -- as deduplicated, and changes nothing.
  pub ingest_again :
      (cfg : Config F W) (raw : RawDocument) (h h' : Held F W) (r : IngestResult)
      → KeepsFingerprint cfg
      → cfg.sha256_hex raw.bytes ≢ ""
      → cfg.dedup ≡ dedup_skip
      → ingest cfg raw h ≡ (ok r, h')
      → ingest cfg raw h' ≡ (
        ok (record {
          document_uuid = r.document_uuid;
          deduplicated = true;
          sections = 0;
          variants = 0;
        }),
        h',
      )
  unfolding ingest ingest_after ingest_found
  ingest_again cfg raw h h' r keeps marked skip e =
      let (d, found, same) =
        ingest_after-Again (find_by_fingerprint (cfg.sha256_hex raw.bytes) h.store) cfg raw
          (cfg.sha256_hex raw.bytes) h h' keeps marked skip refl e in
      rw (found, ingest_after, skip, ingest_found, same) refl
