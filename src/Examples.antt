-- ===== src/Examples.antt =====
-- Tests on concrete inputs, and the theorems applied to them.
mod Trees
mod Wires
mod Saves
mod Journals
mod Loops
mod Logs
mod Agents
mod Providers
mod Ollama
mod Names
mod Caches
mod Documents
mod Pipelines
mod Searches
mod Chunks
mod Batches
mod Graphs
mod Ratings
