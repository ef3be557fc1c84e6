-- ===== src/Rag/EmbeddingCache/Transparent.antt =====
-- About the cache of rag/embeddingcache/cache.go in front of an embedder that answers each variant by
-- itself.
use graph_agent_dev_kit.Common.{◌≤◌, String, some, length, ◌≡◌}
use graph_agent_dev_kit.Common.Dict.{Dict, get}
use graph_agent_dev_kit.Rag.Memstore.{ContentVariant}
use graph_agent_dev_kit.Rag.EmbeddingCache.{key_text, Cache}

module _ {E : Type 0} (digest : String → String) (answer : String → E) where
  -- A cache that holds no more than it may, and only what the inner embedder answers.
  pub record IsSound (c : Cache E) : Type 0 where
    pub bounded : length c.lru ≤ c.max_size
    pub sound : (a : String) (e : E) → get c.lru (digest a) ≡ some e → e ≡ answer a

module _ {F E : Type 0} (digest : String → String) (answer : String → E)
    (no_collision : (a b : String) → digest a ≡ digest b → a ≡ b) where
  -- What the inner embedder answers for a variant.
  abbrev pub answer_of : ContentVariant F → E
  answer_of v = answer (key_text v)
