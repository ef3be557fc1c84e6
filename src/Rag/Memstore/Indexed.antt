-- ===== src/Rag/Memstore/Indexed.antt =====
-- About the index of fingerprints of rag/memstore/store.go.
use graph_agent_dev_kit.Common.{
  String, ◌==◌, Bool-cases, Option-cases, inl, inr, Option, none, some, List, [], ◌∷◌, ◌++◌, ◌≡◌,
  refl, ap, sym, ◌∙◌, subst, eq_of_test, ◌⊎◌, true, false,
}
use graph_agent_dev_kit.Common.Dict.{
  Dict, get, put, delete, get-put, get-put_cases, get-put_self, get-put_ne, get-delete_cases,
  get-delete_ne,
}
use graph_agent_dev_kit.Rag.Memstore.{
  Store, Document, Section, create_document, delete_document, create_section, with_sections,
  change_first, on_first,
}

module _ {F : Type 0} where
  -- The document that an entry of the index names.
  pub record Names (docs : Dict (Document F)) (fingerprint uuid : String) : Type 0 where
    pub document : Document F
    pub found : get docs uuid ≡ some document
    pub same : document.fingerprint ≡ fingerprint

  -- Every entry of the index names a document with its fingerprint, and ids are keys.
  pub record IsIndexed (s : Store F) : Type 0 where
    pub keyed : (k : String) (d : Document F) → get s.docs k ≡ some d → d.uuid ≡ k
    pub named : (f u : String) → get s.fingerprints f ≡ some u → Names s.docs f u

  -- What the index knows of an entry.
  unfoldable header : Option (Document F) → Option (String × String)
  header none = none
  header (some d) = some (d.uuid, d.fingerprint)

  header-found :
      (o : Option (Document F)) (u f : String)
      → header o ≡ some (u, f)
      → (d : Document F) × (o ≡ some d) × (d.uuid ≡ u) × (d.fingerprint ≡ f)
  unfolding header
  header-found none u f e = absurd cc
  header-found (some d) u f e = (d, refl, cc, cc)

  -- Documents may change in their sections.
  kept-IsIndexed :
      (s : Store F) (docs : Dict (Document F))
      → ((k : String) → header (get s.docs k) ≡ header (get docs k))
      → IsIndexed s
      → IsIndexed (record s { docs = docs })
  unfolding header
  kept-IsIndexed s docs kept v = record {
    keyed = λ k d e.
        let (old, found, same, _) =
          header-found (get s.docs k) d.uuid d.fingerprint (kept k ∙ ap header e) in
        sym same ∙ v.keyed k old found;
    named = λ f u e.
        let n = v.named f u e in
        let (d, found, _, same) =
          header-found (get docs u) n.document.uuid n.document.fingerprint
            (sym (kept u) ∙ ap header n.found) in
        record { document = d; found = found; same = same ∙ n.same };
  }

  at_head :
      (j k : String) (doc : Document F) (d : Dict (Document F)) (secs : List (Section F))
      → ((j == k) ≡ true) ⊎ ((j == k) ≡ false)
      → header (get ((j, doc) ∷ d) k) ≡ header (get ((j, with_sections doc secs) ∷ d) k)
  unfolding get with_sections header
  at_head j k doc d secs (inl same) = rw same refl
  at_head j k doc d secs (inr other) = rw other refl

  in_tail :
      (j k : String) (doc : Document F) (d rest : Dict (Document F))
      → ((j == k) ≡ true) ⊎ ((j == k) ≡ false)
      → header (get d k) ≡ header (get rest k)
      → header (get ((j, doc) ∷ d) k) ≡ header (get ((j, doc) ∷ rest) k)
  unfolding get
  in_tail j k doc d rest (inl same) e = rw same refl
  in_tail j k doc d rest (inr other) e = rw other e

  change_first-kept :
      (change : List (Section F) → Option (List (Section F))) (d d' : Dict (Document F))
      → change_first change d ≡ some d'
      → (k : String) → header (get d k) ≡ header (get d' k)
  unfolding change_first get with_sections header
  change_first-kept change [] d' e k = absurd cc
  change_first-kept change ((j, doc) ∷ d) d' e k = elim (Option-cases (change doc.sections)) [
    | inr (secs, h) ↦
        let whole : some ((j, with_sections doc secs) ∷ d) ≡ some d' = rw (h, change_first) at e in
        let now : (j, with_sections doc secs) ∷ d ≡ d' = cc in
        subst (λ x. header (get ((j, doc) ∷ d) k) ≡ header (get x k)) now
          (at_head j k doc d secs (Bool-cases (j == k)))
    | inl h ↦ elim (Option-cases (change_first change d)) [
      | inl q ↦ absurd (let gone : none ≡ some d' = rw (h, q, change_first) at e in cc)
      | inr (rest, q) ↦
          let whole : some ((j, doc) ∷ rest) ≡ some d' = rw (h, q, change_first) at e in
          let now : (j, doc) ∷ rest ≡ d' = cc in
          subst (λ x. header (get ((j, doc) ∷ d) k) ≡ header (get x k)) now
            (in_tail j k doc d rest (Bool-cases (j == k)) (change_first-kept change d rest q k))
    ]
  ]

  pub on_first-IsIndexed :
      (change : List (Section F) → Option (List (Section F))) (s : Store F)
      → IsIndexed s
      → IsIndexed (on_first change s).1
  on_first-IsIndexed change s v = elim (Option-cases (change_first change s.docs)) [
    | inl h ↦ unfold on_first in rw (h, on_first) v
    | inr (docs, h) ↦
        unfold on_first in
        rw (h, on_first) (kept-IsIndexed s docs (change_first-kept change s.docs docs h) v)
  ]

  section_kept :
      (section : Section F) (doc : Document F) (s : Store F)
      → get s.docs section.document_uuid ≡ some doc
      → (k : String)
      → header (get s.docs k)
        ≡ header (
            get
              (put s.docs section.document_uuid (with_sections doc (doc.sections ++ section ∷ [])))
              k)
  unfolding with_sections header
  section_kept section doc s h k =
      let grown : Document F = with_sections doc (doc.sections ++ section ∷ []) in
      let id = section.document_uuid in
      elim (Bool-cases (id == k)) [
        | inl same ↦
            let now : get (put s.docs id grown) k ≡ some grown =
              get-put s.docs id k grown ∙ rw same refl in
            ap header (ap (get s.docs) (sym (eq_of_test id k same)) ∙ h) ∙ ap header (sym now)
        | inr other ↦
            let now : get (put s.docs id grown) k ≡ get s.docs k =
              get-put s.docs id k grown ∙ rw other refl in
            ap header (sym now)
      ]

  pub create_section-IsIndexed :
      (section : Section F) (s : Store F) → IsIndexed s → IsIndexed (create_section section s).1
  create_section-IsIndexed section s v = elim (Option-cases (get s.docs section.document_uuid)) [
    | inl h ↦ unfold create_section in rw (h, create_section) v
    | inr (doc, h) ↦
        unfold create_section in
        rw (h, create_section) (kept-IsIndexed s _ (section_kept section doc s h) v)
  ]

  -- A document under a new id is created.
  pub create_document-IsIndexed :
      (doc : Document F) (s : Store F)
      → IsIndexed s
      → get s.docs doc.uuid ≡ none
      → IsIndexed (create_document doc s)
  unfolding create_document
  create_document-IsIndexed doc s v fresh = record {
    keyed = λ k d e. elim (get-put_cases s.docs doc.uuid k doc e) [
      | inl (same, new) ↦ subst (λ x. x.uuid ≡ k) new same
      | inr (_, old) ↦ v.keyed k d old
    ];
    named = λ f u e. elim (Bool-cases (doc.fingerprint == "")) [
      | inl blank ↦ kept f u (v.named f u (rw blank at e))
      | inr marked ↦
          elim (get-put_cases s.fingerprints doc.fingerprint f doc.uuid (rw marked at e)) [
            | inl (same, new) ↦
                subst (λ x. Names (put s.docs doc.uuid doc) f x) new
                  (record { document = doc; found = get-put_self s.docs doc.uuid doc; same = same })
            | inr (_, old) ↦ kept f u (v.named f u old)
          ]
    ];
  }
    where
      kept : (f u : String) → Names s.docs f u → Names (put s.docs doc.uuid doc) f u
      kept f u n = record {
        document = n.document;
        found =
            get-put_ne s.docs doc.uuid u doc (λ p.
              absurd
                (let gone : none ≡ some n.document = sym fresh ∙ ap (get s.docs) p ∙ n.found in cc))
            ∙ n.found;
        same = n.same;
      }

  deleted-IsIndexed :
      (uuid : String) (doc : Document F) (s : Store F)
      → get s.docs uuid ≡ some doc
      → IsIndexed s
      → IsIndexed (record {
        docs = delete s.docs uuid;
        originals = delete s.originals uuid;
        fingerprints = delete s.fingerprints doc.fingerprint;
      })
  deleted-IsIndexed uuid doc s h v = record {
    keyed = λ k d e. v.keyed k d (get-delete_cases s.docs uuid k e).1;
    named = λ f u e.
        let (other, old) = get-delete_cases s.fingerprints doc.fingerprint f e in
        let n = v.named f u old in
        record {
          document = n.document;
          found =
              get-delete_ne s.docs uuid u (λ p. other (
                let one : some doc ≡ some n.document = sym h ∙ ap (get s.docs) p ∙ n.found in
                let one' : doc ≡ n.document = cc in
                ap (λ (x : Document F). x.fingerprint) one' ∙ n.same))
              ∙ n.found;
          same = n.same;
        };
  }

  pub delete_document-IsIndexed :
      (uuid : String) (s : Store F) → IsIndexed s → IsIndexed (delete_document uuid s)
  delete_document-IsIndexed uuid s v = elim (Option-cases (get s.docs uuid)) [
    | inl h ↦ unfold delete_document in rw (h, delete_document) v
    | inr (doc, h) ↦
        unfold delete_document in rw (h, delete_document) (deleted-IsIndexed uuid doc s h v)
  ]
