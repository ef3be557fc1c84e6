-- ===== src/Knowledge/Engine.antt =====
-- knowledge/internal/engine/engine.go: IngestEpisode and SearchFacts over any store. The store, the
-- extractor and the embedder are parameters; their state is `W`. `is_fuzzy_match` is
-- fuzzy.IsFuzzyMatch at the threshold 0.8, and `is_same_fact` is fuzzy.Similarity >= 0.92. Log lines
-- leave no trace. The map of entities is read in the order of its entries.
pub mod Joined
use graph_agent_dev_kit.Common.{
  ℕ, suc, ◌+◌, String, ◌<>◌, Option, none, some, List, [], ◌∷◌, ◌++◌, Result, ok, err, Exec, raise,
  continue, if◌then◌else◌, Bool, true, false, ◌||◌,
}
use graph_agent_dev_kit.Common.Dict.{Dict, get, put}
use graph_agent_dev_kit.Types.Errors.{Error, opaque_error, wrapped, in_context}
use graph_agent_dev_kit.Knowledge.Graph.{
  Entity, Relation, RelationInput, EpisodeInput, GraphIngestResult, ExtractedEntity,
  ExtractedRelation,
}

-- The part of the interface Store that IngestEpisode calls. An embedding that is nil is empty.
pub record GraphStore (V W : Type 0) : Type 0 where
  pub upsert_entity : ExtractedEntity → List V → Exec W Error String
  pub find_entities_by_name_type : String → String → W → Result Error (List Entity)
  pub find_entities_by_fuzzy_name : String → ℕ → W → Result Error (List Entity)
  pub create_relation : RelationInput → Exec W Error String
  pub find_relations_between : String → String → W → Result Error (List Relation)
  pub create_episode : EpisodeInput → List String → Exec W Error String

pub record GraphEngine (V W : Type 0) : Type 0 where
  pub store : Option (GraphStore V W)
  pub extractor : Option (String → Exec W Error (List ExtractedEntity × List ExtractedRelation))
  pub embedder : Option (List String → Exec W Error (List (List V)))
  pub is_fuzzy_match : String → String → Bool
  pub is_same_fact : String → String → Bool

abbrev pub no_extractor : Error
no_extractor = opaque_error "extractor not configured"

abbrev pub store_not_ready : Error
store_not_ready = opaque_error "store not ready"

-- candidate.Name in place of the name of an extracted entity.
unfoldable pub merged_entity : Entity → ExtractedEntity → ExtractedEntity
merged_entity candidate ent = record ent { name = candidate.name }

-- The relations that still hold, and their facts.
unfoldable pub any_same_fact : (String → String → Bool) → String → List Relation → Bool
any_same_fact is_same_fact fact [] = false
any_same_fact is_same_fact fact (rel ∷ rels) =
    let rest = any_same_fact is_same_fact fact rels in
    elim rel.invalid_at [ some t ↦ rest | none ↦ is_same_fact rel.fact fact || rest ]

-- The first candidate whose name is similar.
unfoldable pub first_match : (String → String → Bool) → String → List Entity → Option Entity
first_match is_fuzzy_match name [] = none
first_match is_fuzzy_match name (candidate ∷ candidates) =
    let rest = first_match is_fuzzy_match name candidates in
    if is_fuzzy_match name candidate.name then some candidate else rest

-- for _, uuid := range entityUUIDs
abbrev pub uuids_of : Dict String → List String
uuids_of [] = []
uuids_of ((k, uuid) ∷ d) = uuid ∷ uuids_of d

-- What steps 2 and 3 have built so far.
pub record Upserted : Type 0 where
  pub entity_uuids : Dict String
  pub entities : List Entity

-- embeddings[0], where there is one.
unfoldable pub first_embedding : {V : Type 0} → Result Error (List (List V)) → List V
first_embedding (ok (e ∷ es)) = e
first_embedding _ = []

-- Step 2: an entity whose upsert fails is left out.
unfoldable pub keep_entity : ExtractedEntity → Result Error String → Upserted → Upserted
keep_entity ent (err e) u = u
keep_entity ent (ok uuid) u = record {
  entity_uuids = put u.entity_uuids ent.name uuid;
  entities =
      u.entities
      ++ record { uuid = uuid; name = ent.name; kind = ent.kind; summary = ent.summary } ∷ [];
}

abbrev pub and_some : Option Relation → List Relation → List Relation
and_some none rels = rels
and_some (some rel) rels = rel ∷ rels

-- The id of an episode that is not created is empty.
abbrev pub id_or_empty : Result Error String → String
id_or_empty (ok uuid) = uuid
id_or_empty (err e) = ""

-- The relation that is answered, none where it was not created.
unfoldable pub created_relation :
    ℕ → ExtractedRelation → String → String → Result Error String → Option Relation
created_relation now rel src tgt (err e) = none
created_relation now rel src tgt (ok uuid) = some (record {
  uuid = uuid;
  source_uuid = src;
  target_uuid = tgt;
  kind = rel.kind;
  fact = rel.fact;
  created_at = now;
  valid_at = now;
  invalid_at = none;
})

module _ {V W : Type 0} where
  unfoldable pub entity_embedding : GraphEngine V W → ExtractedEntity → W → List V × W
  unfolding first_embedding
  entity_embedding g ent w = elim g.embedder [
    | none ↦ ([], w)
    | some embed ↦
        let r = embed ((ent.name <> (" " <> ent.summary)) ∷ []) w in (first_embedding r.0, r.1)
  ]

  -- The entity that is upserted: the extracted one, or one with the name of a similar entity.
  unfoldable pub resolve_entity :
      GraphEngine V W → GraphStore V W → ExtractedEntity → W → ExtractedEntity
  unfolding first_match merged_entity
  resolve_entity g s ent w = elim (s.find_entities_by_name_type ent.name ent.kind w) [
    | ok (e ∷ es) ↦ ent
    | _ ↦ elim (s.find_entities_by_fuzzy_name ent.name 10 w) [
      | err e ↦ ent
      | ok candidates ↦ elim (first_match g.is_fuzzy_match ent.name candidates) [
        | none ↦ ent
        | some candidate ↦ merged_entity candidate ent
      ]
    ]
  ]

  -- deduplicateAndUpsertEntity
  unfoldable pub deduplicate_and_upsert :
      GraphEngine V W → GraphStore V W → ExtractedEntity → Exec W Error String
  unfolding entity_embedding resolve_entity
  deduplicate_and_upsert g s ent w =
      let e = entity_embedding g ent w in s.upsert_entity (resolve_entity g s ent e.1) e.0 e.1

  -- isRelationDuplicate; an error counts as false.
  unfoldable pub is_relation_duplicate :
      GraphEngine V W → GraphStore V W → String → String → String → W → Bool
  unfolding any_same_fact
  is_relation_duplicate g s src tgt fact w = elim (s.find_relations_between src tgt w) [
    | err e ↦ false
    | ok existing ↦ any_same_fact g.is_same_fact fact existing
  ]

  unfoldable pub upsert_entities :
      GraphEngine V W → GraphStore V W → List ExtractedEntity → Upserted → W → Upserted × W
  unfolding deduplicate_and_upsert keep_entity
  upsert_entities g s [] u w = (u, w)
  upsert_entities g s (ent ∷ ents) u w =
      let r = deduplicate_and_upsert g s ent w in
      upsert_entities g s ents (keep_entity ent r.0 u) r.1

  -- Step 3, for two entities that are known: none where the relation is left out.
  unfoldable pub create_known :
      GraphEngine V W
      → GraphStore V W
      → ℕ
      → ExtractedRelation
      → String
      → String
      → W
      → Option Relation × W
  unfolding is_relation_duplicate created_relation
  create_known g s now rel src tgt w =
      if is_relation_duplicate g s src tgt rel.fact w
      then (none, w)
      else let r =
          s.create_relation
            (record {
              source_uuid = src;
              target_uuid = tgt;
              kind = rel.kind;
              fact = rel.fact;
              valid_at = now;
            })
            w in
        (created_relation now rel src tgt r.0, r.1)

  unfoldable pub create_relation_of :
      GraphEngine V W
      → GraphStore V W
      → ℕ
      → Dict String
      → ExtractedRelation
      → W
      → Option Relation × W
  unfolding create_known
  create_relation_of g s now known rel w = elim (get known rel.source) [
    | none ↦ (none, w)
    | some src ↦ elim (get known rel.target) [
      | none ↦ (none, w)
      | some tgt ↦ create_known g s now rel src tgt w
    ]
  ]

  unfoldable pub create_relations :
      GraphEngine V W
      → GraphStore V W
      → ℕ
      → Dict String
      → List ExtractedRelation
      → W
      → List Relation × W
  unfolding create_relation_of
  create_relations g s now known [] w = ([], w)
  create_relations g s now known (rel ∷ rels) w =
      let r = create_relation_of g s now known rel w in
      let rest = create_relations g s now known rels r.1 in (and_some r.0 rest.0, rest.1)

  -- IngestEpisode from step 2 on.
  unfoldable pub ingest_extracted :
      GraphEngine V W
      → GraphStore V W
      → ℕ
      → EpisodeInput
      → List ExtractedEntity × List ExtractedRelation
      → Exec W Error GraphIngestResult
  unfolding upsert_entities create_relations
  ingest_extracted g s now input found w =
      let e = upsert_entities g s found.0 (record { entity_uuids = []; entities = [] }) w in
      let r = create_relations g s now e.0.entity_uuids found.1 e.1 in
      let episode = s.create_episode input (uuids_of e.0.entity_uuids) r.1 in
      (
        ok (record {
          uuid = id_or_empty episode.0;
          name = input.name;
          entity_nodes = e.0.entities;
          episodic_edges = r.0;
        }),
        episode.1,
      )

  -- IngestEpisode, at the time `now`
  unfoldable pub ingest_episode :
      GraphEngine V W → ℕ → EpisodeInput → Exec W Error GraphIngestResult
  unfolding ingest_extracted
  ingest_episode g now input w = elim g.extractor [
    | none ↦ (err no_extractor, w)
    | some extract ↦ elim g.store [
      | none ↦ (err store_not_ready, w)
      | some s ↦
          let r = extract input.body w in
          continue (ingest_extracted g s now input) (in_context "extract" r.0, r.1)
    ]
  ]
