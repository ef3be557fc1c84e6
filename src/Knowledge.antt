-- ===== src/Knowledge.antt =====
-- knowledge: the knowledge graph.
pub mod Fuzzy
pub mod Graph
pub mod Engine
pub mod Ranking
