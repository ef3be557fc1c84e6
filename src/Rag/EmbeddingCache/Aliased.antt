-- ===== src/Rag/EmbeddingCache/Aliased.antt =====
-- About variants that rag/embeddingcache/cache.go does not tell apart: cacheKey leaves out the bytes.
use graph_agent_dev_kit.Common.{
  eq_refl, ℕ, suc, String, ◌<>◌, none, some, List, [], ◌∷◌, Result, ok, ◌≡◌, refl, ap, ap₂, sym,
  subst,
}
use graph_agent_dev_kit.Common.Dict.{get}
use graph_agent_dev_kit.Rag.Memstore.{ContentVariant}
use graph_agent_dev_kit.Rag.EmbeddingCache.{
  cache_key, Cache, put_entry, misses, collect_hits, store_all, embed_misses, embed,
}

get-put_entry :
    {E : Type 0} (k : String) (e : E) (c : Cache E) (n : ℕ)
    → get c.lru k ≡ none
    → c.max_size ≡ suc n
    → get (put_entry k e c).lru k ≡ some e
unfolding put_entry get
get-put_entry k e c n h size = rw (h, put_entry, size, eq_refl k) refl

module _ {F E : Type 0} (digest : String → String) where
  -- One variant whose key is not in the cache, and one whose key is.
  embed-missed :
      {Err : Type 0} (inner : List (ContentVariant F) → Result Err (List E)) (v : ContentVariant F)
      (e : E) (c : Cache E)
      → get c.lru (cache_key digest v) ≡ none
      → inner (v ∷ []) ≡ ok (e ∷ [])
      → (embed digest inner (v ∷ []) c).1 ≡ put_entry (cache_key digest v) e c
  unfolding embed collect_hits misses embed_misses store_all
  embed-missed inner v e c h answer = rw (h, collect_hits, answer, embed_misses) refl

  embed-hit :
      {Err : Type 0} (inner : List (ContentVariant F) → Result Err (List E)) (v : ContentVariant F)
      (e : E) (c : Cache E)
      → get c.lru (cache_key digest v) ≡ some e
      → (embed digest inner (v ∷ []) c).0 ≡ ok (some e ∷ [])
  unfolding embed collect_hits misses embed_misses
  embed-hit inner v e c h = rw (h, collect_hits) refl

  -- When a variant that is not in a cache of a positive size was embedded with success, a later
  -- batch of one variant with the same content type and text is answered with that embedding,
  -- whatever the bytes of the two are and whatever the embedder would answer.
  pub embed-aliased :
      {Err : Type 0} (first later : List (ContentVariant F) → Result Err (List E))
      (v w : ContentVariant F) (e : E) (c : Cache E) (n : ℕ)
      → v.content_type ≡ w.content_type
      → v.text ≡ w.text
      → c.max_size ≡ suc n
      → get c.lru (cache_key digest v) ≡ none
      → first (v ∷ []) ≡ ok (e ∷ [])
      → (embed digest later (w ∷ []) (embed digest first (v ∷ []) c).1).0 ≡ ok (some e ∷ [])
  embed-aliased first later v w e c n kind text size fresh answer =
      let key : cache_key digest v ≡ cache_key digest w =
        ap digest (ap₂ (λ a b. a <> (":" <> b)) kind text) in
      let kept : get (put_entry (cache_key digest v) e c).lru (cache_key digest w) ≡ some e =
        subst (λ k. get (put_entry (cache_key digest v) e c).lru k ≡ some e) key
          (get-put_entry (cache_key digest v) e c n fresh size) in
      let same = embed-missed first v e c fresh answer in
      embed-hit later w e (embed digest first (v ∷ []) c).1
        (subst (λ x. get x.lru (cache_key digest w) ≡ some e) (sym same) kept)
