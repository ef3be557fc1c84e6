-- ===== src/Examples/Caches.antt =====
-- A cache of one entry for rag/embeddingcache, where the embedding of a text is the key text with a
-- mark, and the digest of a text is the text.
use graph_agent_dev_kit.Common.{String, ◌<>◌, some, List, [], ◌∷◌, map, Result, ok, ◌≡◌, refl, ℕ}
use graph_agent_dev_kit.Common.Dict.{get}
use graph_agent_dev_kit.Rag.Memstore.{ContentVariant}
use graph_agent_dev_kit.Rag.EmbeddingCache.{Cache, key_text, embed}
use graph_agent_dev_kit.Rag.EmbeddingCache.Aliased.{embed-aliased}

abbrev marked : String → String
marked t = t <> "!"

abbrev own_digest : String → String
own_digest t = t

abbrev text_variant : String → ContentVariant ℕ
text_variant t = record {
  uuid = "";
  section_uuid = "";
  content_type = "text";
  mime_type = "";
  bytes = [];
  text = t;
  embedding = [];
  metadata = [];
}

abbrev marker : List (ContentVariant ℕ) → Result String (List String)
marker vs = ok (map (λ v. marked (key_text v)) vs)

abbrev one_entry : Cache String
one_entry = record { lru = ("text:a", marked "text:a") ∷ []; max_size = 1 }

-- Two images, which have bytes and no text.
abbrev image : ℕ → ContentVariant ℕ
image n = record {
  uuid = "";
  section_uuid = "";
  content_type = "image";
  mime_type = "image/png";
  bytes = n ∷ [];
  text = "";
  embedding = [];
  metadata = [];
}

abbrev empty_cache : Cache String
empty_cache = record { lru = []; max_size = 2 }

abbrev white : List (ContentVariant ℕ) → Result String (List String)
white vs = ok ("white" ∷ [])

abbrev black : List (ContentVariant ℕ) → Result String (List String)
black vs = ok ("black" ∷ [])

embed-aliased_example :
    (embed own_digest black
      (image 255 ∷ [])
      (embed own_digest white (image 0 ∷ []) empty_cache).1).0
    ≡ ok (some "white" ∷ [])
unfolding get
embed-aliased_example =
    embed-aliased own_digest white black (image 0) (image 255) "white" empty_cache 1 refl refl refl
      refl refl
