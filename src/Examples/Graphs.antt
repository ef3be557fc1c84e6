-- ===== src/Examples/Graphs.antt =====
-- An engine for knowledge/internal/engine over a store that gives ids by counting.
use graph_agent_dev_kit.Common.{
  ℕ, ◌+◌, String, ◌==◌, none, some, List, [], ◌∷◌, Result, ok, false, ◌≡◌, refl, All, ltb, subst,
}
use graph_agent_dev_kit.Common.Dict.{get, put}
use graph_agent_dev_kit.Common.Int.{pos}
use graph_agent_dev_kit.Types.Errors.{Error}
use graph_agent_dev_kit.Rag.Hits.{Scores}
use graph_agent_dev_kit.Knowledge.Graph.{
  Entity, EpisodeInput, GraphIngestResult, ExtractedEntity, ExtractedRelation,
}
use graph_agent_dev_kit.Knowledge.Engine.{GraphStore, GraphEngine, ingest_episode}
use graph_agent_dev_kit.Knowledge.Engine.Joined.{Joins, ingest_episode-Joins}
use graph_agent_dev_kit.Knowledge.Ranking.{
  Fact, ScoredFact, FactOptions, no_fact, search_facts, vector_results, or_none,
}
use graph_agent_dev_kit.Knowledge.Ranking.Fused.{AreFound, search_facts-AreFound}
use graph_agent_dev_kit.Knowledge.Ranking.Totals.{Asked}
use mathlib.Core.List.Permᴰ

abbrev counting : GraphStore ℕ ℕ
counting = record {
  upsert_entity = λ ent e w. (ok ent.name, w + 1);
  find_entities_by_name_type = λ name kind w. ok [];
  find_entities_by_fuzzy_name = λ name n w. ok [];
  create_relation = λ rel w. (ok "r", w + 1);
  find_relations_between = λ a b w. ok [];
  create_episode = λ input uuids w. (ok "ep", w + 1);
}

abbrev ada : ExtractedEntity
ada = record { name = "ada"; kind = "person"; summary = "" }

abbrev bob : ExtractedEntity
bob = record { name = "bob"; kind = "person"; summary = "" }

abbrev knows : String → ExtractedRelation
knows target = record { source = "ada"; target = target; kind = "knows"; fact = "ada knows" }

-- The second relation names an entity that was not extracted.
abbrev engine : GraphEngine ℕ ℕ
engine = record {
  store = some counting;
  extractor = some (λ body w. (ok (ada ∷ bob ∷ [], knows "bob" ∷ knows "eve" ∷ []), w));
  embedder = none;
  is_fuzzy_match = λ a b. false;
  is_same_fact = λ a b. a == b;
}

abbrev episode : EpisodeInput
episode = record { name = "n"; body = "b"; source = ""; group_id = ""; metadata = [] }

abbrev person : String → Entity
person name = record { uuid = name; name = name; kind = "person"; summary = "" }

abbrev one_relation : GraphIngestResult
one_relation = record {
  uuid = "ep";
  name = "n";
  entity_nodes = person "ada" ∷ person "bob" ∷ [];
  episodic_edges =
      record {
        uuid = "r";
        source_uuid = "ada";
        target_uuid = "bob";
        kind = "knows";
        fact = "ada knows";
        created_at = 7;
        valid_at = 7;
        invalid_at = none;
      }
      ∷ [];
}

ingested_one : ingest_episode engine 7 episode 0 ≡ (ok one_relation, 4)
unfolding ingest_episode get put
ingested_one = refl

ingest_episode-Joins_example : All (Joins one_relation.entity_nodes) one_relation.episodic_edges
ingest_episode-Joins_example = ingest_episode-Joins engine 7 episode 0 4 one_relation ingested_one

abbrev fact : String → ScoredFact ℕ
fact id = record { fact = record no_fact { uuid = id; name = "knows" }; score = 0 }

abbrev counts : Scores ℕ
counts = record {
  zero_score = 0;
  plus = λ a b. a + b;
  reciprocal = λ n. 1;
  greater = λ a b. ltb b a;
}

abbrev options : FactOptions
options = record { group_id = ""; limit = pos 2 }

abbrev by_embedding : ℕ → FactOptions → Result Error (List (ScoredFact ℕ))
by_embedding v o = ok (fact "a" ∷ fact "b" ∷ [])

abbrev by_text : String → FactOptions → Result Error (List (ScoredFact ℕ))
by_text q o = ok (fact "b" ∷ fact "c" ∷ [])

abbrev IsKnowing : Fact → Type 0
IsKnowing f = f.name ≡ "knows"

abbrev by_any : String → String → Result Error (List (ScoredFact ℕ))
by_any a b = ok (fact a ∷ fact b ∷ [])

knowing :
    (a b : String) (sfs : List (ScoredFact ℕ))
    → by_any a b ≡ ok sfs
    → All (λ (sf : ScoredFact ℕ). IsKnowing sf.fact) sfs
knowing a b sfs e =
    let same : fact a ∷ fact b ∷ [] ≡ sfs = cc in
    subst (All (λ (sf : ScoredFact ℕ). sf.fact.name ≡ "knows")) same (refl, (refl, tt))

search_facts-AreFound_example :
    (n : ℕ) × Asked (pos 2) n
    × AreFound IsKnowing counts
        (λ d. d)
        (vector_results (some (λ qs. ok (1 ∷ []))) by_embedding "q" options)
        (or_none (by_text "q" options))
        n
        (search_facts counts (λ d. d) (some (λ qs. ok (1 ∷ []))) by_embedding by_text "q" options)
search_facts-AreFound_example =
    search_facts-AreFound IsKnowing counts (λ d. d) (some (λ qs. ok (1 ∷ []))) by_embedding by_text
      "q" options (λ d. Permᴰ.refl d) (λ v sfs e. knowing "a" "b" sfs e)
      (λ sfs e. knowing "b" "c" sfs e)
