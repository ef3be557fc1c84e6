-- ===== src/Rag/Chunker.antt =====
-- rag/chunker/chunker.go, for limits that are not negative. A text is its bytes; the count of tokens,
-- strings.Split and strings.TrimSpace, and the bytes of a text are parameters, and so are the ids of
-- the sections and variants that are made, two for each position.
pub mod Fits
pub mod Numbered
pub mod Repeated
use graph_agent_dev_kit.Common.{
  ℕ, zero, suc, ◌+◌, ◌-◌, ◌*◌, ◌/◌, String, ◌==◌, List, [], ◌∷◌, ◌++◌, length, take, drop, ltb, leb,
  if◌then◌else◌, Bool, true, false, ◌&&◌, ◌||◌, not,
}
use graph_agent_dev_kit.Knowledge.Fuzzy.{Bytes}
use graph_agent_dev_kit.Rag.Memstore.{Document, Section, ContentVariant}

pub record ChunkerConfig : Type 0 where
  pub max_tokens : ℕ
  pub overlap : ℕ
  pub separators : List Bytes

-- What the chunker calls of other packages.
pub record ChunkerCalls : Type 0 where
  pub estimate_tokens : Bytes → ℕ
  pub split : Bytes → Bytes → List Bytes
  pub trim_space : Bytes → Bytes
  pub bytes_of : String → Bytes
  pub text_of : Bytes → String
  pub ids : ℕ → String

abbrev pub is_empty : Bytes → Bool
is_empty [] = true
is_empty (b ∷ bs) = false

-- "if lo == 0 { lo = 1 }"
abbrev pub at_least_one : ℕ → ℕ
at_least_one zero = 1
at_least_one (suc n) = suc n

module _ (calls : ChunkerCalls) (cfg : ChunkerConfig) where
  abbrev pub is_long : Bytes → Bool
  is_long text = ltb cfg.max_tokens (calls.estimate_tokens text)

  -- for lo < hi, in hardSplit
  unfoldable pub longest_front : ℕ → ℕ → ℕ → Bytes → ℕ
  longest_front zero lo hi text = lo
  longest_front (suc fuel) lo hi text =
      let mid = (lo + hi + 1) / 2 in
      elim (ltb lo hi) [
        | false ↦ lo
        | true ↦ elim (is_long (take mid text)) [
          | true ↦ longest_front fuel lo (mid - 1) text
          | false ↦ longest_front fuel mid hi text
        ]
      ]

  unfoldable pub split_point : Bytes → ℕ
  unfolding longest_front
  split_point text = at_least_one (longest_front (length text) 0 (length text) text)

  -- for estimateTokens(text) > c.cfg.MaxTokens
  unfoldable pub hard_chunks : ℕ → Bytes → List Bytes
  unfolding split_point
  hard_chunks zero text = []
  hard_chunks (suc fuel) text =
      let rest = hard_chunks fuel (drop (split_point text) text) in
      if is_long text
      then take (split_point text) text ∷ rest
      else (if is_empty text then [] else text ∷ [])

  -- hardSplit: every round takes a byte at least.
  unfoldable pub hard_split : Bytes → List Bytes
  unfolding hard_chunks
  hard_split text = hard_chunks (suc (length text)) text

  -- One turn of the loop over the parts: the chunks so far, and `current`.
  unfoldable pub add_part : Bytes → Bytes → List Bytes × Bytes → List Bytes × Bytes
  add_part sep part (chunks, current) =
      let candidate = (if is_empty current then current else current ++ sep) ++ part in
      if is_long candidate && not (is_empty current)
      then (chunks ++ current ∷ [], part)
      else (chunks, candidate)

  unfoldable pub merge_parts : Bytes → List Bytes → List Bytes × Bytes → List Bytes
  unfolding add_part
  merge_parts sep [] (chunks, current) = if is_empty current then chunks else chunks ++ current ∷ []
  merge_parts sep (part ∷ parts) s = merge_parts sep parts (add_part sep part s)

  -- "Recurse on any chunks that are still too large."
  unfoldable pub refine : (Bytes → List Bytes) → List Bytes → List Bytes
  refine recurse [] = []
  refine recurse (chunk ∷ chunks) =
      (if is_long chunk then recurse chunk else chunk ∷ []) ++ refine recurse chunks

  -- splitRecursive, with the separators that are left.
  unfoldable pub split_recursive : List Bytes → Bytes → List Bytes
  unfolding hard_split merge_parts refine
  split_recursive [] text = if is_long text then hard_split text else text ∷ []
  split_recursive (sep ∷ seps) text =
      let parts = calls.split text sep in
      if is_long text
      then (if leb (length parts) 1
          then split_recursive seps text
          else refine (split_recursive seps) (merge_parts sep parts ([], [])))
      else text ∷ []

  -- for lo < hi, in applyOverlap
  unfoldable pub suffix_start : ℕ → ℕ → ℕ → Bytes → ℕ
  suffix_start zero lo hi prev = lo
  suffix_start (suc fuel) lo hi prev =
      let mid = (lo + hi) / 2 in
      elim (ltb lo hi) [
        | false ↦ lo
        | true ↦ elim (ltb cfg.overlap (calls.estimate_tokens (drop mid prev))) [
          | true ↦ suffix_start fuel (mid + 1) hi prev
          | false ↦ suffix_start fuel lo mid prev
        ]
      ]

  unfoldable pub overlap_text : Bytes → Bytes
  unfolding suffix_start
  overlap_text prev =
      if ltb cfg.overlap (calls.estimate_tokens prev)
      then drop (suffix_start (length prev) 0 (length prev) prev) prev
      else prev

  unfoldable pub overlapped : Bytes → List Bytes → List Bytes
  unfolding overlap_text
  overlapped prev [] = []
  overlapped prev (chunk ∷ chunks) = (overlap_text prev ++ chunk) ∷ overlapped chunk chunks

  -- applyOverlap
  unfoldable pub apply_overlap : List Bytes → List Bytes
  unfolding overlapped
  apply_overlap [] = []
  apply_overlap (chunk ∷ chunks) =
      if ltb 0 cfg.overlap then chunk ∷ overlapped chunk chunks else chunk ∷ chunks

  module _ {F : Type 0} where
    -- The section of a chunk.
    unfoldable pub chunk_section : String → Section F → ContentVariant F → ℕ → Bytes → Section F
    chunk_section doc_uuid sec v idx chunk = record {
      uuid = calls.ids (2 * idx);
      document_uuid = doc_uuid;
      position = idx;
      heading = sec.heading;
      variants =
          record {
            uuid = calls.ids (2 * idx + 1);
            section_uuid = calls.ids (2 * idx);
            content_type = v.content_type;
            mime_type = v.mime_type;
            bytes = [];
            text = calls.text_of chunk;
            embedding = [];
            metadata = v.metadata;
          }
          ∷ [];
    }

    -- for _, chunk := range chunks
    unfoldable pub chunk_sections :
        String → Section F → ContentVariant F → List Bytes → ℕ → List (Section F)
    unfolding chunk_section
    chunk_sections doc_uuid sec v [] idx = []
    chunk_sections doc_uuid sec v (chunk ∷ chunks) idx =
        let trimmed = calls.trim_space chunk in
        if is_empty trimmed
        then chunk_sections doc_uuid sec v chunks idx
        else chunk_section doc_uuid sec v idx trimmed
          ∷ chunk_sections doc_uuid sec v chunks (suc idx)

    -- One variant: the whole section once more, or the sections of its chunks.
    unfoldable pub variant_sections : String → Section F → ContentVariant F → ℕ → List (Section F)
    unfolding split_recursive apply_overlap chunk_sections
    variant_sections doc_uuid sec v idx =
        if not (v.content_type == "text") || not (is_long (calls.bytes_of v.text))
        then record sec { position = idx } ∷ []
        else chunk_sections doc_uuid sec v
            (apply_overlap (split_recursive cfg.separators (calls.bytes_of v.text))) idx

    unfoldable pub section_sections :
        String → Section F → List (ContentVariant F) → ℕ → List (Section F)
    unfolding variant_sections
    section_sections doc_uuid sec [] idx = []
    section_sections doc_uuid sec (v ∷ vs) idx =
        let own = variant_sections doc_uuid sec v idx in
        own ++ section_sections doc_uuid sec vs (idx + length own)

    unfoldable pub all_sections : String → List (Section F) → ℕ → List (Section F)
    unfolding section_sections
    all_sections doc_uuid [] idx = []
    all_sections doc_uuid (sec ∷ secs) idx =
        let own = section_sections doc_uuid sec sec.variants idx in
        own ++ all_sections doc_uuid secs (idx + length own)

    -- Chunk
    unfoldable pub chunk : Document F → Document F
    unfolding all_sections
    chunk doc = record doc { sections = all_sections doc.uuid doc.sections 0 }
