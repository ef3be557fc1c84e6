-- ===== src/Rag/Nearest/Accepted.antt =====
-- About the hits of SearchByEmbedding in rag/memstore/store.go.
use graph_agent_dev_kit.Common.{
  ℕ, ap, false, arith, Member, Option, none, some, ◌≢◌, ◌==◌, eq_of_test, elem, ne_of_test, zero,
  suc, ◌≤◌, String, List, [], ◌∷◌, true, ◌⊎◌, inl, inr, Bool-cases, All, All-append, length,
  length-take_le, ◌≡◌, refl,
}
use graph_agent_dev_kit.Common.Dict.{Dict, get}
use graph_agent_dev_kit.Common.Perms.{All-perm, All-take}
use graph_agent_dev_kit.Rag.Memstore.{Store, Document, Section, ContentVariant, provenance_of}
use graph_agent_dev_kit.Common.Int.{ℤ, pos, negsuc, WithinLimit}
use graph_agent_dev_kit.Common.Search.{contains}
use graph_agent_dev_kit.Rag.Hits.{
  SearchHit, SearchOptions, MetadataFilter, FilterOp, filter_eq, filter_neq, filter_contains,
  match_filter, match_filters, merge_metadata, wants_type,
}
use graph_agent_dev_kit.Rag.Nearest.{
  Nearness, has_embedding, is_near, hit_limit, accepts, variant_hits, section_hits, document_hits,
  search_by_embedding,
}
use mathlib.Core.List.{Permᴰ}

-- What a filter asks of the value under its key, where there is one.
abbrev pub Matches : FilterOp → String → Option String → Type 0
Matches filter_eq value found = found ≡ some value
Matches filter_neq value found = found ≢ some value
Matches filter_contains value found = (v : String) × (found ≡ some v) × (contains v value ≡ true)

match_filter-Matches :
    (op : FilterOp) (value : String) (found : Option String)
    → match_filter op value found ≡ true
    → Matches op value found
unfolding match_filter
match_filter-Matches filter_eq value none h = absurd cc
match_filter-Matches filter_eq value (some v) h = ap (λ x. some x) (eq_of_test v value h)
match_filter-Matches filter_neq value none h = λ e. cc
match_filter-Matches filter_neq value (some v) h =
    λ e. let same : v ≡ value = cc in ne_of_test v value (ground arith) same
match_filter-Matches filter_contains value none h = absurd cc
match_filter-Matches filter_contains value (some v) h = (v, refl, h)

abbrev pub AllMatch : Dict String → List MetadataFilter → Type 0
AllMatch meta filters = All (λ f. Matches f.op f.value (get meta f.key)) filters

match_filters-AllMatch :
    (meta : Dict String) (fs : List MetadataFilter)
    → match_filters meta fs ≡ true
    → AllMatch meta fs
unfolding match_filters
match_filters-AllMatch meta [] h = tt
match_filters-AllMatch meta (f ∷ fs) h =
    elim (Bool-cases (match_filter f.op f.value (get meta f.key))) [
      | inl q ↦ (
        match_filter-Matches f.op f.value (get meta f.key) q,
        match_filters-AllMatch meta fs (rw q at h),
      )
      | inr q ↦ absurd (let no : false ≡ true = rw q at h in cc)
    ]

elem-Member : (a : String) (l : List String) → elem a l ≡ true → Member a l
elem-Member a [] h = absurd cc
elem-Member a (x ∷ l) h = elim (Bool-cases (a == x)) [
  | inl q ↦ inl (eq_of_test a x q)
  | inr q ↦ inr (elem-Member a l (rw q at h))
]

wants_type-Member :
    (kinds : List String) (kind : String)
    → wants_type kinds kind ≡ true
    → (kinds ≡ []) ⊎ Member kind kinds
unfolding wants_type
wants_type-Member [] kind h = inl refl
wants_type-Member (k ∷ ks) kind h = inr (elem-Member kind (k ∷ ks) h)

has_embedding-some : {F : Type 0} (e : List F) → has_embedding e ≡ true → e ≢ []
has_embedding-some [] h = absurd cc
has_embedding-some (x ∷ e) h = λ q. cc

hit_limit-WithinLimit : (z : ℤ) (n : ℕ) → n ≤ hit_limit z → WithinLimit 10 z n
unfolding hit_limit
hit_limit-WithinLimit (pos zero) n h = inr (refl, h)
hit_limit-WithinLimit (pos (suc k)) n h = inl (k, refl, ground arith)
hit_limit-WithinLimit (negsuc k) n h = inr (refl, h)

module _ {F S : Type 0} (near : Nearness F S) (opts : SearchOptions S) where
  -- A hit of a variant that stands in a section of a document, and that passes the tests.
  pub record IsHit (e : List F) (docs : Dict (Document F)) (hit : SearchHit F S) : Type 0 where
    pub key : String
    pub document : Document F
    pub section : Section F
    pub in_store : Member (key, document) docs
    pub in_document : Member section document.sections
    pub in_section : Member hit.variant section.variants
    pub placed : hit.provenance ≡ provenance_of document section
    pub scored : hit.score ≡ near.similarity e hit.variant.embedding
    pub embedded : hit.variant.embedding ≢ []
    pub typed : (opts.content_types ≡ []) ⊎ Member hit.variant.content_type opts.content_types
    pub filtered :
        AllMatch (merge_metadata document.metadata hit.variant.metadata) opts.metadata_filters
    pub near_enough :
        (near.scores.greater opts.min_score near.scores.zero_score ≡ false)
        ⊎ (near.scores.greater opts.min_score hit.score ≡ false)

  -- The tests, one by one.
  accepts-cases :
      (e : List F) (doc : Document F) (v : ContentVariant F)
      → accepts near opts e doc v ≡ true
      → (wants_type opts.content_types v.content_type ≡ true)
        × (has_embedding v.embedding ≡ true)
        × (match_filters (merge_metadata doc.metadata v.metadata) opts.metadata_filters ≡ true)
        × (is_near near opts (near.similarity e v.embedding) ≡ true)
  unfolding accepts
  accepts-cases e doc v h = ground arith

  is_near-cases :
      (x : S)
      → is_near near opts x ≡ true
      → (near.scores.greater opts.min_score near.scores.zero_score ≡ false)
        ⊎ (near.scores.greater opts.min_score x ≡ false)
  unfolding is_near
  is_near-cases x h = ground arith

  variant_hits_step :
      (e : List F) (docs : Dict (Document F)) (k : String) (doc : Document F) (sec : Section F)
      (v : ContentVariant F) (vs : List (ContentVariant F))
      → Member (k, doc) docs
      → Member sec doc.sections
      → Member v sec.variants
      → All (IsHit e docs) (variant_hits near opts e doc sec vs)
      → All (IsHit e docs) (variant_hits near opts e doc sec (v ∷ vs))
  variant_hits_step e docs k doc sec v vs a b c rest =
      elim (Bool-cases (accepts near opts e doc v)) [
        | inl q ↦
            let (typed, embedded, filtered, close) = accepts-cases e doc v q in
            unfold variant_hits in
            rw q (
              record {
                key = k;
                document = doc;
                section = sec;
                in_store = a;
                in_document = b;
                in_section = c;
                placed = refl;
                scored = refl;
                embedded = has_embedding-some v.embedding embedded;
                typed = wants_type-Member opts.content_types v.content_type typed;
                filtered =
                    match_filters-AllMatch (merge_metadata doc.metadata v.metadata)
                      opts.metadata_filters filtered;
                near_enough = is_near-cases (near.similarity e v.embedding) close;
              },
              rest,
            )
        | inr q ↦ unfold variant_hits in rw q rest
      ]

  variant_hits-IsHit :
      (e : List F) (docs : Dict (Document F)) (k : String) (doc : Document F) (sec : Section F)
      (vs : List (ContentVariant F))
      → Member (k, doc) docs
      → Member sec doc.sections
      → ((v : ContentVariant F) → Member v vs → Member v sec.variants)
      → All (IsHit e docs) (variant_hits near opts e doc sec vs)
  variant_hits-IsHit e docs k doc sec [] a b c = unfold variant_hits in tt
  variant_hits-IsHit e docs k doc sec (v ∷ vs) a b c =
      variant_hits_step e docs k doc sec v vs a b (c v (inl refl))
        (variant_hits-IsHit e docs k doc sec vs a b (λ u m. c u (inr m)))

  section_hits-IsHit :
      (e : List F) (docs : Dict (Document F)) (k : String) (doc : Document F)
      (secs : List (Section F))
      → Member (k, doc) docs
      → ((sec : Section F) → Member sec secs → Member sec doc.sections)
      → All (IsHit e docs) (section_hits near opts e doc secs)
  unfolding section_hits
  section_hits-IsHit e docs k doc [] a b = tt
  section_hits-IsHit e docs k doc (sec ∷ secs) a b =
      All-append (IsHit e docs) (variant_hits near opts e doc sec sec.variants) _
        (variant_hits-IsHit e docs k doc sec sec.variants a (b sec (inl refl)) (λ u m. m))
        (section_hits-IsHit e docs k doc secs a (λ u m. b u (inr m)))

  document_hits-IsHit :
      (e : List F) (docs rest : Dict (Document F))
      → ((x : String × Document F) → Member x rest → Member x docs)
      → All (IsHit e docs) (document_hits near opts e rest)
  unfolding document_hits
  document_hits-IsHit e docs [] a = tt
  document_hits-IsHit e docs ((k, doc) ∷ rest) a =
      All-append (IsHit e docs) (section_hits near opts e doc doc.sections) _
        (section_hits-IsHit e docs k doc doc.sections (a (k, doc) (inl refl)) (λ u m. m))
        (document_hits-IsHit e docs rest (λ u m. a u (inr m)))

  -- When the sort permutes its argument, SearchByEmbedding gives at most as many hits as a
  -- positive limit, or 10 where it is not positive, and every hit is a variant that stands in a
  -- section of a document of the store, with the provenance of that section and the similarity
  -- of its embedding as the score: its embedding is not empty, its content type is one of those
  -- asked for where any are, the metadata of the document and the variant have under the key of
  -- every filter the value, or another, or one that contains it, as the filter says, and a least
  -- score above zero is not greater than the score.
  pub search_by_embedding-IsHit :
      (e : List F) (s : Store F)
      → ((hits : List (SearchHit F S)) → Permᴰ (near.sort_by_score hits) hits)
      → All (IsHit e s.docs) (search_by_embedding near opts e s)
        × WithinLimit 10 opts.limit (length (search_by_embedding near opts e s))
  unfolding search_by_embedding
  search_by_embedding-IsHit e s sorts = (
    All-take (IsHit e s.docs) (hit_limit opts.limit)
        (near.sort_by_score (document_hits near opts e s.docs))
        (All-perm (IsHit e s.docs) (sorts (document_hits near opts e s.docs))
          (document_hits-IsHit e s.docs s.docs (λ u m. m))),
    hit_limit-WithinLimit opts.limit _ (
        length-take_le (hit_limit opts.limit)
          (near.sort_by_score (document_hits near opts e s.docs))),
  )
