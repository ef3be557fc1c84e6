-- ===== src/Rag/Memstore/Replaced.antt =====
-- About a document of rag/memstore/store.go that is created again under its id with another
-- fingerprint.
use graph_agent_dev_kit.Common.{
  String, ◌==◌, none, some, ok, ◌≡◌, ◌≢◌, refl, ap, sym, ◌∙◌, eq_refl, if◌then◌else◌, test_of_ne,
  subst,
}
use graph_agent_dev_kit.Common.Dict.{get, get-put, delete, get-put_self, get-delete_ne, get-delete}
use graph_agent_dev_kit.Rag.Memstore.{
  Store, Document, create_document, delete_document, find_by_fingerprint,
}

module _ {F : Type 0} where
  created_doc :
      (doc : Document F) (s : Store F) → get (create_document doc s).docs doc.uuid ≡ some doc
  unfolding create_document
  created_doc doc s = get-put_self s.docs doc.uuid doc

  created_fingerprint :
      (doc : Document F) (s : Store F) (f : String)
      → doc.fingerprint ≢ ""
      → get (create_document doc s).fingerprints f
        ≡ (if doc.fingerprint == f then some doc.uuid else get s.fingerprints f)
  unfolding create_document
  created_fingerprint doc s f marked =
      rw (test_of_ne doc.fingerprint "" marked) (get-put s.fingerprints doc.fingerprint f doc.uuid)

  -- The entry of another fingerprint outlives the document that it names.
  find-deleted :
      (t : Store F) (u f : String) (doc : Document F)
      → get t.docs u ≡ some doc
      → doc.fingerprint ≢ f
      → get t.fingerprints f ≡ some u
      → find_by_fingerprint f (delete_document u t) ≡ ok none
  find-deleted t u f doc h other named =
      let left : get (delete t.fingerprints doc.fingerprint) f ≡ some u =
        get-delete_ne t.fingerprints doc.fingerprint f other ∙ named in
      let gone : get (delete t.docs u) u ≡ none = get-delete t.docs u u ∙ rw (eq_refl u) refl in
      let rest : Store F = record {
        docs = delete t.docs u;
        originals = delete t.originals u;
        fingerprints = delete t.fingerprints doc.fingerprint;
      } in
      let whole : delete_document u t ≡ rest =
        unfold delete_document in rw (h, delete_document) refl in
      let found : find_by_fingerprint f rest ≡ ok none =
        unfold find_by_fingerprint in rw (left, find_by_fingerprint) (ap (λ o. ok o) gone) in
      subst (λ x. find_by_fingerprint f x ≡ ok none) (sym whole) found

  -- When a document is created again under its id with another fingerprint, neither being empty,
  -- and then deleted, FindByFingerprint of the first fingerprint answers without an error and
  -- without a document.
  replaced_fingerprint_stays :
      (doc doc' : Document F) (s : Store F)
      → doc'.uuid ≡ doc.uuid
      → doc.fingerprint ≢ ""
      → doc'.fingerprint ≢ ""
      → doc'.fingerprint ≢ doc.fingerprint
      → find_by_fingerprint doc.fingerprint
          (delete_document doc.uuid (create_document doc' (create_document doc s)))
        ≡ ok none
  replaced_fingerprint_stays doc doc' s same marked marked' other =
      let first = create_document doc s in
      let both = create_document doc' first in
      let there : get both.docs doc.uuid ≡ some doc' =
        subst (λ u. get both.docs u ≡ some doc') same (created_doc doc' first) in
      let named : get both.fingerprints doc.fingerprint ≡ some doc.uuid =
        created_fingerprint doc' first doc.fingerprint marked'
        ∙ rw (test_of_ne doc'.fingerprint doc.fingerprint other) (
            created_fingerprint doc s doc.fingerprint marked ∙ rw (eq_refl doc.fingerprint) refl) in
      find-deleted both doc.uuid doc.fingerprint doc' there other named
