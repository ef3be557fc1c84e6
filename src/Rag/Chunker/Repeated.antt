-- ===== src/Rag/Chunker/Repeated.antt =====
-- About sections of several short variants in rag/chunker/chunker.go.
use graph_agent_dev_kit.Common.{
  ℕ, ◌+◌, String, ◌==◌, List, [], ◌∷◌, ◌++◌, length, true, All, ◌≡◌, refl, sym, ap, ap₂, ◌∙◌, arith,
  not, ◌||◌,
}
use graph_agent_dev_kit.Rag.Memstore.{Document, Section, ContentVariant}
use graph_agent_dev_kit.Rag.Chunker.{
  ChunkerConfig, ChunkerCalls, is_long, variant_sections, section_sections, all_sections, chunk,
}

module _ {F : Type 0} where
  -- A section once for each variant of a list, and every section once for each of its variants.
  abbrev pub copies : Section F → List (ContentVariant F) → List (Section F)
  copies sec [] = []
  copies sec (v ∷ vs) = sec ∷ copies sec vs

  abbrev pub all_copies : List (Section F) → List (Section F)
  all_copies [] = []
  all_copies (sec ∷ secs) = copies sec sec.variants ++ all_copies secs

  -- Sections with positions that count up from a number.
  abbrev pub placed_from : ℕ → List (Section F) → List (Section F)
  placed_from idx [] = []
  placed_from idx (sec ∷ secs) = record sec { position = idx } ∷ placed_from (idx + 1) secs

  length-placed_from :
      (idx : ℕ) (secs : List (Section F)) → length (placed_from idx secs) ≡ length secs
  length-placed_from idx [] = refl
  length-placed_from idx (sec ∷ secs) = omega (arith, length-placed_from (idx + 1) secs)

  placed_from-append :
      (xs ys : List (Section F)) (idx next : ℕ)
      → idx + length xs ≡ next
      → placed_from idx (xs ++ ys) ≡ placed_from idx xs ++ placed_from next ys
  placed_from-append [] ys idx next e = ap (λ n. placed_from n ys) (omega (arith, e))
  placed_from-append (x ∷ xs) ys idx next e =
      ap (◌∷◌ (record x { position = idx }))
        (placed_from-append xs ys (idx + 1) next (omega (arith, e)))

  module _ (calls : ChunkerCalls) (cfg : ChunkerConfig) where
    -- A variant that is no text, or one within the limit.
    abbrev pub IsShort : ContentVariant F → Type 0
    IsShort v =
        (not (v.content_type == "text") || not (is_long calls cfg (calls.bytes_of v.text))) ≡ true

    abbrev pub HasShort : Section F → Type 0
    HasShort sec = All IsShort sec.variants

    section_sections-copies :
        (doc_uuid : String) (sec : Section F) (vs : List (ContentVariant F)) (idx : ℕ)
        → All IsShort vs
        → section_sections calls cfg doc_uuid sec vs idx ≡ placed_from idx (copies sec vs)
    unfolding section_sections variant_sections
    section_sections-copies doc_uuid sec [] idx h = refl
    section_sections-copies doc_uuid sec (v ∷ vs) idx h = rw (h.0) (
        ap (◌∷◌ (record sec { position = idx }))
          (section_sections-copies doc_uuid sec vs (idx + 1) h.1))

    all_sections-copies :
        (doc_uuid : String) (secs : List (Section F)) (idx : ℕ)
        → All HasShort secs
        → all_sections calls cfg doc_uuid secs idx ≡ placed_from idx (all_copies secs)
    unfolding all_sections
    all_sections-copies doc_uuid [] idx h = refl
    all_sections-copies doc_uuid (sec ∷ secs) idx h =
        let own = section_sections calls cfg doc_uuid sec sec.variants idx in
        let same = section_sections-copies doc_uuid sec sec.variants idx h.0 in
        let long : length own ≡ length (copies sec sec.variants) =
          ap length same ∙ length-placed_from idx (copies sec sec.variants) in
        ap₂ ◌++◌ same (all_sections-copies doc_uuid secs (idx + length own) h.1)
        ∙ sym (
            placed_from-append (copies sec sec.variants) (all_copies secs) idx (idx + length own)
              (omega (arith, long)))

    -- In a document whose variants are no text or within the limit, the sections that Chunk
    -- gives are each section once for each of its variants, with its ids, heading and variants
    -- each time and only the position counted anew.
    pub chunk-repeated :
        (doc : Document F)
        → All HasShort doc.sections
        → (chunk calls cfg doc).sections ≡ placed_from 0 (all_copies doc.sections)
    unfolding chunk
    chunk-repeated doc h = all_sections-copies doc.uuid doc.sections 0 h
