-- ===== src/Knowledge/Engine/Joined.antt =====
-- About the relations that knowledge/internal/engine/engine.go creates for an episode.
use graph_agent_dev_kit.Common.{
  ℕ, String, Option, none, some, List, [], ◌∷◌, ◌++◌, map, Result, ok, err, continue-eq-ok,
  Option-cases, inl, inr, Bool, true, false, elem, elem-append, All, ◌≡◌, refl, ap, ◌∙◌, subst,
  arith, if◌then◌else◌, eq_refl,
}
use graph_agent_dev_kit.Common.Dict.{get, get-put_cases}
use graph_agent_dev_kit.Types.Errors.{Error, in_context}
use graph_agent_dev_kit.Knowledge.Graph.{
  Entity, Relation, EpisodeInput, GraphIngestResult, ExtractedEntity, ExtractedRelation,
}
use graph_agent_dev_kit.Knowledge.Engine.{
  GraphEngine, GraphStore, Upserted, keep_entity, upsert_entities, deduplicate_and_upsert,
  create_known, create_relation_of, create_relations, created_relation, and_some,
  is_relation_duplicate, ingest_extracted, ingest_episode, id_or_empty, uuids_of, no_extractor,
  store_not_ready,
}

abbrev pub entity_id : Entity → String
entity_id e = e.uuid

-- An id of an entity of a list.
abbrev pub IsOf : List Entity → String → Type 0
IsOf es uuid = elem uuid (map entity_id es) ≡ true

abbrev pub Joins : List Entity → Relation → Type 0
Joins es rel = IsOf es rel.source_uuid × IsOf es rel.target_uuid

-- Every id of the map is the id of an entity that was answered.
record IsListed (u : Upserted) : Type 0 where
  listed : (name uuid : String) → get u.entity_uuids name ≡ some uuid → IsOf u.entities uuid

map_id-append :
    (xs ys : List Entity) → map entity_id (xs ++ ys) ≡ map entity_id xs ++ map entity_id ys
map_id-append [] ys = refl
map_id-append (x ∷ xs) ys = ap (◌∷◌ x.uuid) (map_id-append xs ys)

IsOf-append : (es fs : List Entity) (uuid : String) → IsOf es uuid → IsOf (es ++ fs) uuid
IsOf-append es fs uuid h =
    ap (elem uuid) (map_id-append es fs)
    ∙ elem-append uuid (map entity_id es) (map entity_id fs)
    ∙ rw h refl

IsOf-last : (es : List Entity) (e : Entity) → IsOf (es ++ e ∷ []) e.uuid
IsOf-last es e =
    ap (elem e.uuid) (map_id-append es (e ∷ []))
    ∙ elem-append e.uuid (map entity_id es) (e.uuid ∷ [])
    ∙ ground (arith, eq_refl e.uuid)

keep_entity-IsListed :
    (ent : ExtractedEntity) (r : Result Error String) (u : Upserted)
    → IsListed u
    → IsListed (keep_entity ent r u)
unfolding keep_entity
keep_entity-IsListed ent (err e) u h = h
keep_entity-IsListed ent (ok id) u h = record {
  listed = λ name uuid e.
      let new : Entity = record {
        uuid = id;
        name = ent.name;
        kind = ent.kind;
        summary = ent.summary;
      } in
      elim (get-put_cases u.entity_uuids ent.name name id e) [
        | inl (_, same) ↦ subst (IsOf (u.entities ++ new ∷ [])) same (IsOf-last u.entities new)
        | inr (_, old) ↦ IsOf-append u.entities (new ∷ []) uuid (h.listed name uuid old)
      ];
}

-- The relation that a call created, if any, joins entities of a list.
abbrev JoinsAny : List Entity → Option Relation → Type 0
JoinsAny es none = Unit
JoinsAny es (some rel) = Joins es rel

created_relation-JoinsAny :
    (es : List Entity) (now : ℕ) (rel : ExtractedRelation) (src tgt : String)
    (r : Result Error String)
    → IsOf es src
    → IsOf es tgt
    → JoinsAny es (created_relation now rel src tgt r)
unfolding created_relation
created_relation-JoinsAny es now rel src tgt (ok uuid) hs ht = (hs, ht)
created_relation-JoinsAny es now rel src tgt (err e) hs ht = tt

unless_JoinsAny :
    {W : Type 0} (es : List Entity) (b : Bool) (w : W) (r : Option Relation × W)
    → JoinsAny es r.0
    → JoinsAny es (if b then (none, w) else r).0
unless_JoinsAny es true w r h = tt
unless_JoinsAny es false w r h = h

and_some-Joins :
    (es : List Entity) (o : Option Relation) (rels : List Relation)
    → JoinsAny es o
    → All (Joins es) rels
    → All (Joins es) (and_some o rels)
and_some-Joins es none rels h hs = hs
and_some-Joins es (some rel) rels h hs = (h, hs)

module _ {V W : Type 0} (g : GraphEngine V W) (s : GraphStore V W) where
  upsert_entities-IsListed :
      (ents : List ExtractedEntity) (u : Upserted) (w : W)
      → IsListed u
      → IsListed (upsert_entities g s ents u w).0
  unfolding upsert_entities
  upsert_entities-IsListed [] u w h = h
  upsert_entities-IsListed (ent ∷ ents) u w h =
      let r = deduplicate_and_upsert g s ent w in
      upsert_entities-IsListed ents (keep_entity ent r.0 u) r.1 (keep_entity-IsListed ent r.0 u h)

  create_known-JoinsAny :
      (es : List Entity) (now : ℕ) (rel : ExtractedRelation) (src tgt : String) (w : W)
      → IsOf es src
      → IsOf es tgt
      → JoinsAny es (create_known g s now rel src tgt w).0
  unfolding create_known
  create_known-JoinsAny es now rel src tgt w hs ht =
      unless_JoinsAny es (is_relation_duplicate g s src tgt rel.fact w) w _
        (created_relation-JoinsAny es now rel src tgt _ hs ht)

  create_relation_of-JoinsAny :
      (u : Upserted) (now : ℕ) (rel : ExtractedRelation) (w : W)
      → IsListed u
      → JoinsAny u.entities (create_relation_of g s now u.entity_uuids rel w).0
  unfolding create_relation_of
  create_relation_of-JoinsAny u now rel w h = elim (Option-cases (get u.entity_uuids rel.source)) [
    | inl q ↦ rw (q, create_relation_of) tt
    | inr (src, q) ↦ elim (Option-cases (get u.entity_uuids rel.target)) [
      | inl p ↦ rw (q, p, create_relation_of) tt
      | inr (tgt, p) ↦
          rw (q, p, create_relation_of)
            (create_known-JoinsAny u.entities now rel src tgt w (h.listed rel.source src q)
              (h.listed rel.target tgt p))
    ]
  ]

  create_relations-Joins :
      (u : Upserted) (now : ℕ) (rels : List ExtractedRelation) (w : W)
      → IsListed u
      → All (Joins u.entities) (create_relations g s now u.entity_uuids rels w).0
  unfolding create_relations
  create_relations-Joins u now [] w h = tt
  create_relations-Joins u now (rel ∷ rels) w h =
      let r = create_relation_of g s now u.entity_uuids rel w in
      and_some-Joins u.entities r.0 (create_relations g s now u.entity_uuids rels r.1).0
        (create_relation_of-JoinsAny u now rel w h) (create_relations-Joins u now rels r.1 h)

  ingest_extracted-Joins :
      (now : ℕ) (input : EpisodeInput) (found : List ExtractedEntity × List ExtractedRelation)
      (w w' : W) (r : GraphIngestResult)
      → ingest_extracted g s now input found w ≡ (ok r, w')
      → All (Joins r.entity_nodes) r.episodic_edges
  unfolding ingest_extracted
  ingest_extracted-Joins now input found w w' r e =
      let start : Upserted = record { entity_uuids = []; entities = [] } in
      let listed : IsListed start = record { listed = λ name uuid q. absurd (unfold get in cc) } in
      let u = upsert_entities g s found.0 start w in
      let rels = create_relations g s now u.0.entity_uuids found.1 u.1 in
      let answer : GraphIngestResult = record {
        uuid = id_or_empty (s.create_episode input (uuids_of u.0.entity_uuids) rels.1).0;
        name = input.name;
        entity_nodes = u.0.entities;
        episodic_edges = rels.0;
      } in
      let same : answer ≡ r = cc in
      subst (λ (x : GraphIngestResult). All (Joins x.entity_nodes) x.episodic_edges) same
        (create_relations-Joins u.0 now found.1 u.1
          (upsert_entities-IsListed found.0 start w listed))

module _ {V W : Type 0} where
  -- Every relation that a successful IngestEpisode reports joins two ids of entities that it
  -- reports, whatever the store, the extractor and the embedder answer.
  pub ingest_episode-Joins :
      (g : GraphEngine V W) (now : ℕ) (input : EpisodeInput) (w w' : W) (r : GraphIngestResult)
      → ingest_episode g now input w ≡ (ok r, w')
      → All (Joins r.entity_nodes) r.episodic_edges
  unfolding ingest_episode
  ingest_episode-Joins g now input w w' r e = elim (Option-cases g.extractor) [
    | inl q ↦
        absurd (let gone : (err no_extractor, w) ≡ (ok r, w') = rw (q, ingest_episode) at e in cc)
    | inr (extract, q) ↦ elim (Option-cases g.store) [
      | inl p ↦
          absurd (
            let gone : (err store_not_ready, w) ≡ (ok r, w') = rw (q, p, ingest_episode) at e in cc)
      | inr (s, p) ↦
          let x = extract input.body w in
          let (found, w1, _, e1) =
            continue-eq-ok (ingest_extracted g s now input) (in_context "extract" x.0, x.1)
              (rw (q, p, ingest_episode) at e) in
          ingest_extracted-Joins g s now input found w1 w' r e1
    ]
  ]
