-- ===== src/Examples/Batches.antt =====
-- A registry for rag/embedderregistry with an embedder of images and one of everything else.
use graph_agent_dev_kit.Common.{
  ℕ, ◌+◌, String, ◌==◌, false, some, List, [], ◌∷◌, map, ok, ◌≡◌, refl, All, Bool-cases, inl, inr,
  if◌then◌else◌, eq_of_test, subst, ap, ap₂, sym,
}
use graph_agent_dev_kit.Common.Dict.{get, put}
use graph_agent_dev_kit.Rag.EmbedderRegistry.{
  Registry, Embedder, register, new_text_only, embedder_for, registry_embed,
}
use graph_agent_dev_kit.Rag.EmbedderRegistry.Ordered.{Answers, registry_embed-ordered}

abbrev kind_of : String × ℕ → String
kind_of v = v.0

abbrev embedding_of : String × ℕ → ℕ
embedding_of v = if "image" == v.0 then v.1 + 100 else v.1

abbrev image_embedder : Embedder (String × ℕ) ℕ
image_embedder vs = ok (map (λ v. v.1 + 100) vs)

abbrev text_embedder : Embedder (String × ℕ) ℕ
text_embedder vs = ok (map (λ v. v.1) vs)

abbrev two_embedders : Registry (String × ℕ) ℕ
two_embedders = record { specific = ("image", image_embedder) ∷ []; fallback = some text_embedder }

two_embedders_made : register "image" image_embedder (new_text_only text_embedder) ≡ two_embedders
unfolding register new_text_only put
two_embedders_made = refl

image_points :
    (batch : List (String × ℕ))
    → All (λ v. kind_of v ≡ "image") batch
    → map (λ (v : String × ℕ). v.1 + 100) batch ≡ map embedding_of batch
image_points [] h = refl
image_points (v ∷ batch) h = ap₂ ◌∷◌ (rw (h.0) refl) (image_points batch h.1)

text_points :
    (ct : String) (batch : List (String × ℕ))
    → ("image" == ct) ≡ false
    → All (λ v. kind_of v ≡ ct) batch
    → map (λ (v : String × ℕ). v.1) batch ≡ map embedding_of batch
text_points ct [] other h = refl
text_points ct (v ∷ batch) other h = ap₂ ◌∷◌ (rw (h.0, other) refl) (text_points ct batch other h.1)

two_embedders-Answers : Answers kind_of embedding_of two_embedders
unfolding Answers embedder_for get
two_embedders-Answers ct batch h = elim (Bool-cases ("image" == ct)) [
  | inl q ↦ (
    image_embedder,
    rw (q, embedder_for) refl,
    ap (λ x. ok x)
        (image_points batch
          (subst (λ k. All (λ (v : String × ℕ). v.0 ≡ k) batch) (sym (eq_of_test "image" ct q)) h)),
  )
  | inr q ↦ (text_embedder, rw (q, embedder_for) refl, ap (λ x. ok x) (text_points ct batch q h))
]

registry_embed-ordered_example :
    registry_embed kind_of two_embedders (("text", 1) ∷ ("image", 2) ∷ ("text", 3) ∷ [])
    ≡ ok (some 1 ∷ some 102 ∷ some 3 ∷ [])
registry_embed-ordered_example =
    registry_embed-ordered kind_of embedding_of two_embedders
      (("text", 1) ∷ ("image", 2) ∷ ("text", 3) ∷ []) two_embedders-Answers
