-- ===== src/Rag/Chunker/Numbered.antt =====
-- About the sections that rag/chunker/chunker.go makes.
use graph_agent_dev_kit.Common.{
  ℕ, suc, ◌+◌, String, ◌==◌, List, [], ◌∷◌, ◌++◌, length, Bool-cases, inl, inr, ◌≡◌, refl, subst,
  arith, not, ◌||◌,
}
use graph_agent_dev_kit.Knowledge.Fuzzy.{Bytes}
use graph_agent_dev_kit.Rag.Memstore.{Document, Section, ContentVariant}
use graph_agent_dev_kit.Rag.Chunker.{
  ChunkerConfig, ChunkerCalls, is_empty, is_long, split_recursive, apply_overlap, chunk_section,
  chunk_sections, variant_sections, section_sections, all_sections, chunk,
}

module _ {F : Type 0} where
  -- Sections whose positions are the numbers from the i-th on.
  abbrev pub Numbered : ℕ → List (Section F) → Type 0
  Numbered i [] = Unit
  Numbered i (sec ∷ secs) = (sec.position ≡ i) × Numbered (suc i) secs

  Numbered-append :
      (i : ℕ) (xs ys : List (Section F))
      → Numbered i xs
      → Numbered (i + length xs) ys
      → Numbered i (xs ++ ys)
  Numbered-append i [] ys h k =
      let same : i + 0 ≡ i = omega arith in subst (λ n. Numbered n ys) same k
  Numbered-append i (x ∷ xs) ys h k =
      let same : i + suc (length xs) ≡ suc i + length xs = omega arith in
      (h.0, Numbered-append (suc i) xs ys h.1 (subst (λ n. Numbered n ys) same k))

  module _ (calls : ChunkerCalls) (cfg : ChunkerConfig) where
    chunk_sections-Numbered :
        (doc_uuid : String) (sec : Section F) (v : ContentVariant F) (chunks : List Bytes) (idx : ℕ)
        → Numbered idx (chunk_sections calls cfg doc_uuid sec v chunks idx)
    unfolding chunk_sections chunk_section
    chunk_sections-Numbered doc_uuid sec v [] idx = tt
    chunk_sections-Numbered doc_uuid sec v (chunk ∷ chunks) idx =
        elim (Bool-cases (is_empty (calls.trim_space chunk))) [
          | inl q ↦ rw q (chunk_sections-Numbered doc_uuid sec v chunks idx)
          | inr q ↦ rw q (refl, chunk_sections-Numbered doc_uuid sec v chunks (suc idx))
        ]

    variant_sections-Numbered :
        (doc_uuid : String) (sec : Section F) (v : ContentVariant F) (idx : ℕ)
        → Numbered idx (variant_sections calls cfg doc_uuid sec v idx)
    variant_sections-Numbered doc_uuid sec v idx =
        elim (Bool-cases
          (not (v.content_type == "text") || not (is_long calls cfg (calls.bytes_of v.text)))) [
            | inl q ↦ unfold variant_sections in rw q (refl, tt)
            | inr q ↦
                unfold variant_sections in
                rw q (
                  chunk_sections-Numbered doc_uuid sec v
                    (apply_overlap calls cfg
                      (split_recursive calls cfg cfg.separators (calls.bytes_of v.text)))
                    idx)
          ]

    section_sections-Numbered :
        (doc_uuid : String) (sec : Section F) (vs : List (ContentVariant F)) (idx : ℕ)
        → Numbered idx (section_sections calls cfg doc_uuid sec vs idx)
    unfolding section_sections
    section_sections-Numbered doc_uuid sec [] idx = tt
    section_sections-Numbered doc_uuid sec (v ∷ vs) idx =
        let own = variant_sections calls cfg doc_uuid sec v idx in
        Numbered-append idx own (section_sections calls cfg doc_uuid sec vs (idx + length own))
          (variant_sections-Numbered doc_uuid sec v idx)
          (section_sections-Numbered doc_uuid sec vs (idx + length own))

    all_sections-Numbered :
        (doc_uuid : String) (secs : List (Section F)) (idx : ℕ)
        → Numbered idx (all_sections calls cfg doc_uuid secs idx)
    unfolding all_sections
    all_sections-Numbered doc_uuid [] idx = tt
    all_sections-Numbered doc_uuid (sec ∷ secs) idx =
        let own = section_sections calls cfg doc_uuid sec sec.variants idx in
        Numbered-append idx own (all_sections calls cfg doc_uuid secs (idx + length own))
          (section_sections-Numbered doc_uuid sec sec.variants idx)
          (all_sections-Numbered doc_uuid secs (idx + length own))

    -- The sections that Chunk makes are numbered from 0 on.
    pub chunk-Numbered : (doc : Document F) → Numbered 0 (chunk calls cfg doc).sections
    unfolding chunk
    chunk-Numbered doc = all_sections-Numbered doc.uuid doc.sections 0
