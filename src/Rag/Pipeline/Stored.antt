-- ===== src/Rag/Pipeline/Stored.antt =====
-- What the parts of Ingest in rag/internal/pipeline/pipeline.go do to a document and to the store.
use graph_agent_dev_kit.Common.{
  String, some, List, [], ◌∷◌, Result, ok, err, Exec, pure, raise, ◌≡◌, ◌≢◌, refl, ap, sym, ◌∙◌,
  inl, inr, Option-cases, Result-cases, false, length, test_of_ne, continue, continue-eq-ok,
  Bool-cases, subst, modify,
}
use graph_agent_dev_kit.Common.Dict.{get, get-put_self}
use graph_agent_dev_kit.Types.Errors.{Error, in_context, panics}
use graph_agent_dev_kit.Rag.Memstore.{
  Store, Document, ContentVariant, create_document, get_document, find_by_fingerprint,
  store_original,
}
use graph_agent_dev_kit.Rag.Pipeline.{
  Config, Held, RawDocument, IngestResult, Indexer, outside_call, chunk_document, filled,
  fill_sections, all_variants, embed_document, embed_variants, index_all, keep_original,
  graph_document, store_document,
}

-- The document that a call gave stands in the store.
pub record IsKept {F : Type 0} (fingerprint : String) (r : IngestResult) (s : Store F)
    : Type 0 where
  pub document : Document F
  pub found : get_document r.document_uuid s ≡ ok document
  pub marked : document.fingerprint ≡ fingerprint
  pub indexed : find_by_fingerprint fingerprint s ≡ ok (some document)
  pub named : document.uuid ≡ r.document_uuid
  pub sections_counted : r.sections ≡ length document.sections
  pub variants_counted : r.variants ≡ length (all_variants document.sections)

module _ {F : Type 0} where
  -- The result of Ingest for a document that it stores.
  abbrev stored_result : Document F → IngestResult
  stored_result doc = record {
    document_uuid = doc.uuid;
    deduplicated = false;
    sections = length doc.sections;
    variants = length (all_variants doc.sections);
  }

  found-IsKept :
      (doc : Document F) (s : Store F)
      → get s.docs doc.uuid ≡ some doc
      → get s.fingerprints doc.fingerprint ≡ some doc.uuid
      → IsKept doc.fingerprint (stored_result doc) s
  unfolding get_document find_by_fingerprint
  found-IsKept doc s there named = record {
    document = doc;
    found = rw (there, get_document) refl;
    marked = refl;
    indexed = rw (named, find_by_fingerprint) (ap (λ o. ok o) there);
    named = refl;
    sections_counted = refl;
    variants_counted = refl;
  }

  created-named :
      (doc : Document F) (s : Store F)
      → doc.fingerprint ≢ ""
      → get (create_document doc s).fingerprints doc.fingerprint ≡ some doc.uuid
  unfolding create_document
  created-named doc s marked =
      rw (test_of_ne doc.fingerprint "" marked)
        (get-put_self s.fingerprints doc.fingerprint doc.uuid)

module _ {F W : Type 0} where
  -- A chunker gives a document with the fingerprint of the one it gets.
  unfoldable pub KeepsFingerprint : Config F W → Type 0
  KeepsFingerprint cfg =
      (chunk : Document F → Exec W Error (Document F))
      → cfg.chunker ≡ some chunk
      → (doc doc' : Document F) (w : W) → (chunk doc w).0 ≡ ok doc'
      → doc'.fingerprint ≡ doc.fingerprint

  outside_call-ok :
      {A : Type 0} (d : String) (m : Exec W Error A) (h : Held F W) {a : A} {h' : Held F W}
      → outside_call d m h ≡ (ok a, h')
      → (m h.outside).0 ≡ ok a
  unfolding outside_call
  outside_call-ok d m h {a} {h'} e =
      let one : in_context d (m h.outside).0 ≡ ok a = ap (λ p. p.0) e in
      elim (Result-cases (m h.outside).0) [
        | inl (b, q) ↦ let two : ok b ≡ ok a = rw q at one in q ∙ two
        | inr (x, q) ↦ absurd (let two : in_context d (err x) ≡ ok a = rw q at one in cc)
      ]

  pure-fingerprint :
      (doc doc' : Document F) (h h' : Held F W)
      → pure {E = Error} doc h ≡ (ok doc', h')
      → doc'.fingerprint ≡ doc.fingerprint
  pure-fingerprint doc doc' h h' e =
      let same : doc ≡ doc' = cc in ap (λ (x : Document F). x.fingerprint) (sym same)

  pub chunk_document-fingerprint :
      (cfg : Config F W) (doc doc' : Document F) (h h' : Held F W)
      → KeepsFingerprint cfg
      → chunk_document cfg doc h ≡ (ok doc', h')
      → doc'.fingerprint ≡ doc.fingerprint
  unfolding KeepsFingerprint chunk_document
  chunk_document-fingerprint cfg doc doc' h h' keeps e = elim (Option-cases cfg.chunker) [
    | inl q ↦ pure-fingerprint doc doc' h h' (rw (q, chunk_document) at e)
    | inr (chunk, q) ↦
        keeps chunk q doc doc' h.outside
          (outside_call-ok "chunk" (chunk doc) h (rw (q, chunk_document) at e))
  ]

  filled-fingerprint :
      (doc doc' : Document F) (es : List (List F)) (h h' : Held F W)
      → filled doc es h ≡ (ok doc', h')
      → doc'.fingerprint ≡ doc.fingerprint
  unfolding filled
  filled-fingerprint doc doc' es h h' e = elim (Option-cases (fill_sections doc.sections es)) [
    | inl q ↦ absurd (let gone : raise panics h ≡ (ok doc', h') = rw (q, filled) at e in cc)
    | inr (secs, q) ↦
        pure-fingerprint (record doc { sections = secs }) doc' h h' (rw (q, filled) at e)
  ]

  embed_variants-fingerprint :
      (embed : List (ContentVariant F) → Exec W Error (List (List F))) (doc doc' : Document F)
      (vs : List (ContentVariant F)) (h h' : Held F W)
      → embed_variants embed doc vs h ≡ (ok doc', h')
      → doc'.fingerprint ≡ doc.fingerprint
  unfolding embed_variants
  embed_variants-fingerprint embed doc doc' [] h h' e = pure-fingerprint doc doc' h h' e
  embed_variants-fingerprint embed doc doc' (v ∷ vs) h h' e =
      let (es, s, _, rest) =
        continue-eq-ok (filled doc) (outside_call "embed variants" (embed (v ∷ vs)) h) e in
      filled-fingerprint doc doc' es s h' rest

  pub embed_document-fingerprint :
      (cfg : Config F W) (doc doc' : Document F) (h h' : Held F W)
      → embed_document cfg doc h ≡ (ok doc', h')
      → doc'.fingerprint ≡ doc.fingerprint
  unfolding embed_document
  embed_document-fingerprint cfg doc doc' h h' e = elim (Option-cases cfg.embedders) [
    | inl q ↦ pure-fingerprint doc doc' h h' (rw (q, embed_document) at e)
    | inr (embed, q) ↦
        embed_variants-fingerprint embed doc doc' (all_variants doc.sections) h h'
          (rw (q, embed_document) at e)
  ]

  continue-store :
      {A B : Type 0} (f : A → Exec (Held F W) Error B) (r : Result Error A × Held F W)
      → ((a : A) (h : Held F W) → (f a h).1.store ≡ h.store)
      → (continue f r).1.store ≡ r.1.store
  continue-store f (ok a, h) keeps = keeps a h
  continue-store f (err e, h) keeps = refl

  pub index_all-store :
      (doc : Document F) (xs : List (Indexer F W)) (h : Held F W)
      → (index_all doc xs h).1.store ≡ h.store
  unfolding index_all outside_call
  index_all-store doc [] h = refl
  index_all-store doc (x ∷ xs) h =
      continue-store (λ done. index_all doc xs) (outside_call "index for retriever" (x.index doc) h)
        (λ a h'. index_all-store doc xs h')

  -- What CreateDocument and StoreOriginal leave.
  created-IsKept :
      (cfg : Config F W) (raw : RawDocument) (doc : Document F) (h : Held F W)
      → doc.fingerprint ≢ ""
      → IsKept doc.fingerprint
          (stored_result doc)
          (keep_original cfg raw doc (record h { store = create_document doc h.store })).store
  created-IsKept cfg raw doc h marked =
      let there : get (create_document doc h.store).docs doc.uuid ≡ some doc =
        unfold create_document in get-put_self h.store.docs doc.uuid doc in
      let named = created-named doc h.store marked in
      elim (Bool-cases cfg.store_originals) [
        | inl q ↦
            unfold keep_original in
            rw (q, keep_original)
              (unfold store_original in
                found-IsKept doc (store_original doc.uuid raw.bytes (create_document doc h.store))
                  there named)
        | inr q ↦
            unfold keep_original in
            rw (q, keep_original) (found-IsKept doc (create_document doc h.store) there named)
      ]

  pub store_document-IsKept :
      (cfg : Config F W) (raw : RawDocument) (doc : Document F) (h h' : Held F W) {r : IngestResult}
      → doc.fingerprint ≢ ""
      → store_document cfg raw doc h ≡ (ok r, h')
      → IsKept doc.fingerprint r h'.store
  unfolding store_document
  store_document-IsKept cfg raw doc h h' {r} marked e =
      let kept : Held F W =
        keep_original cfg raw doc (record h { store = create_document doc h.store }) in
      let (_, s, indexed, rest) =
        continue-eq-ok
          (λ done.
            modify (λ (h : Held F W). record h { outside = graph_document cfg doc h.outside })
              (stored_result doc))
          (index_all doc cfg.indexers kept) e in
      let same : stored_result doc ≡ r = cc in
      let store : kept.store ≡ h'.store =
        sym (index_all-store doc cfg.indexers kept)
        ∙ ap (λ p. p.1.store) indexed
        ∙ ap (λ p. p.1.store) rest in
      subst (λ x. IsKept doc.fingerprint x h'.store) same
        (subst (λ x. IsKept doc.fingerprint (stored_result doc) x) store
          (created-IsKept cfg raw doc h marked))
