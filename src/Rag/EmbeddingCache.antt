-- ===== src/Rag/EmbeddingCache.antt =====
-- rag/embeddingcache/cache.go: a cache in front of an embedder. The list of the source, with the map of
-- its elements, is the list of keys and embeddings, the most recently used first. A call is one step.
-- The inner embedder and the
-- digest (SHA-256 in hexadecimal) are parameters, and a nil embedding is none.
pub mod Transparent
pub mod Aliased
use graph_agent_dev_kit.Common.{
  ℕ, String, ◌==◌, ◌<>◌, Option, none, some, List, [], ◌∷◌, Result, ok, err, Exec, take,
  if◌then◌else◌,
}
use graph_agent_dev_kit.Common.Dict.{Dict, get, delete}
use graph_agent_dev_kit.Rag.Memstore.{ContentVariant}

pub record Cache (E : Type 0) : Type 0 where
  pub lru : Dict E
  pub max_size : ℕ

-- c.lru.MoveToFront, with the embedding that the element holds after it.
unfoldable pub to_front : {E : Type 0} → String → E → Dict E → Dict E
to_front k e d = (k, e) ∷ delete d k

-- put: a new element may push the oldest ones out.
unfoldable pub put_entry : {E : Type 0} → String → E → Cache E → Cache E
unfolding to_front
put_entry k e c = elim (get c.lru k) [
  | some old ↦ record c { lru = to_front k e c.lru }
  | none ↦ record c { lru = take c.max_size ((k, e) ∷ c.lru) }
]

-- The variants whose result is still nil.
unfoldable pub misses : {V E : Type 0} → List V → List (Option E) → List V
misses (v ∷ vs) (none ∷ rs) = v ∷ misses vs rs
misses (v ∷ vs) (some e ∷ rs) = misses vs rs
misses _ _ = []

-- results[idx] = missEmbeddings[i], for as many as there are.
unfoldable pub fill_results : {E : Type 0} → List (Option E) → List E → List (Option E)
fill_results (none ∷ rs) (e ∷ es) = some e ∷ fill_results rs es
fill_results (some r ∷ rs) es = some r ∷ fill_results rs es
fill_results rs _ = rs

-- The text that cacheKey hashes.
abbrev pub key_text : {F : Type 0} → ContentVariant F → String
key_text v = v.content_type <> (":" <> v.text)

-- cacheKey
abbrev pub cache_key : {F : Type 0} → (String → String) → ContentVariant F → String
cache_key digest v = digest (key_text v)

module _ {F E : Type 0} (digest : String → String) where
  -- "Compute cache keys and collect hits."
  unfoldable pub collect_hits : List (ContentVariant F) → Cache E → List (Option E) × Cache E
  unfolding to_front
  collect_hits [] c = ([], c)
  collect_hits (v ∷ vs) c = elim (get c.lru (cache_key digest v)) [
    | none ↦ let r = collect_hits vs c in (none ∷ r.0, r.1)
    | some e ↦
        let r = collect_hits vs (record c { lru = to_front (cache_key digest v) e c.lru }) in
        (some e ∷ r.0, r.1)
  ]

  -- "Store results and update cache."
  unfoldable pub store_all : List (ContentVariant F) → List E → Cache E → Cache E
  unfolding put_entry
  store_all (v ∷ vs) (e ∷ es) c = store_all vs es (put_entry (cache_key digest v) e c)
  store_all _ _ c = c

  -- The miss batch, where there is one.
  unfoldable pub embed_misses :
      {Err : Type 0}
      → (List (ContentVariant F) → Result Err (List E))
      → List (ContentVariant F)
      → List (Option E)
      → Cache E
      → Result Err (List (Option E)) × Cache E
  unfolding store_all fill_results
  embed_misses inner [] rs c = (ok rs, c)
  embed_misses inner (v ∷ vs) rs c = elim (inner (v ∷ vs)) [
    | err e ↦ (err e, c)
    | ok es ↦ (ok (fill_results rs es), store_all (v ∷ vs) es c)
  ]

  -- Embed
  unfoldable pub embed :
      {Err : Type 0}
      → (List (ContentVariant F) → Result Err (List E))
      → List (ContentVariant F)
      → Exec (Cache E) Err (List (Option E))
  unfolding collect_hits embed_misses misses
  embed inner vs c = let r = collect_hits vs c in embed_misses inner (misses vs r.0) r.0 r.1
