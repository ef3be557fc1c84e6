-- ===== src/Lib.antt =====
-- saige: a branching conversation tree, the agent loop that runs on it, the parts that the loop is made
-- of (agent/), and pieces of its retrieval (rag/) and of its knowledge graph (knowledge/).
--
-- The tree (agent/tree) keeps every message as a node under its parent, names the tips of branches,
-- and writes each new node to a write-ahead log (agent/store/memwal is the one in memory) before it
-- shows it. The loop (agent/agent.go) reads the history of a branch, takes settings out of it, compacts
-- it where that is configured (agent/types/compactor.go), asks a provider, which may retry or fall back
-- (agent/provider), collects the answer with an aggregator (agent/aggregator.go), and appends the answer
-- and the tools' results to the branch.
--
-- Which file models what:
--   Common            shared names, Go's maps as association lists (Dict), results, %d (Decimal), int
--   Types/Content     agent/types/content.go, message.go    Types/Node      agent/types/node.go
--   Types/TreePath    TreePath of agent/types/node.go
--   Types/Errors      agent/types/errors.go                 Types/Wal       agent/types/wal.go
--   Types/Delta       agent/types/delta.go, marker.go       Types/Compactor agent/types/compactor.go
--   Memwal            agent/store/memwal/memwal.go: Begin, Append, Commit, Abort, Recover, Replay
--   Tree/State        agent/tree/tree.go: Tree, New, getNode, walAddNode
--   Tree/Grow         AddChild, AddFeedback, Branch, UpdateUserMessage, SetActive, Checkpoint, Rewind
--   Tree/Archive      Archive, Restore                      Tree/Paths      Path, NodePath, Flatten
--   Tree/Diff         agent/tree/diff.go                    Tree/Compact    agent/tree/compact.go
--   Agent/Aggregator  agent/aggregator.go                   Agent/Replay    agent/stream.go: Replay
--   Agent/Prepare     prepareMessages, mergeConfig          Agent/Files     resolveFiles
--   Tree/Serialize    agent/tree/serialize.go               Agent/Session   agent/session.go
--   Agent/Tools       executeToolsConcurrently              Agent/Branching tryCompact, persistCompacted
--   Agent/Loop        runLoop, callProvider                 Agent/Env       what the loop only calls
--   Provider/Retry    agent/provider/retry/retry.go         Provider/Fallback agent/provider/fallback
--   Knowledge/Fuzzy   knowledge/internal/fuzzy              Rag/EmbeddingCache rag/embeddingcache/cache.go
--   Rag/Memstore, Rag/Nearest  rag/memstore/store.go, the second with SearchByEmbedding and with
--                     Retrieve of rag/vectorretriever/retriever.go
--   Rag/Pipeline      rag/internal/pipeline: Ingest, Update Rag/Search      Search, Lookup, with Rag/Fusion
--   Rag/ParentRetriever rag/parentretriever/retriever.go
--   Rag/Hits          hits and options of rag/types         Rag/Context     rag/contextassembler/default.go
--   Rag/EmbedderRegistry rag/embedderregistry               Rag/Chunker     rag/chunker/chunker.go
--   Knowledge/Graph   values of knowledge/types             Knowledge/Engine, Knowledge/Ranking
--                     knowledge/internal/engine/engine.go: IngestEpisode and SearchFacts
--   Tree/Load         FromStore of agent/tree/tree.go
--   Agent/Feedback    Feedback, FeedbackSummary of agent/agent.go
--   Provider/Ollama   agent/provider/ollama/adapter.go      Common/Search   strings.Contains
-- The other files under these names hold proofs; Examples holds tests and concrete inputs.
--
-- State is explicit: an operation is a function from a state to a result and a state, and a mutex
-- that is held over a method makes the method one step. A map keeps its entries in some order: a
-- new key comes last, and the program may see any order. Ids and times are arguments, since uuid
-- and time are not of this program, and so are the provider, the tools, the resolvers and the
-- extractors (Agent/Env). The log is any implementation of the interface Wal. encoding/json and os
-- are records of operations, and what they are documented to do is a hypothesis of the theorems
-- that need it. A channel is the list of what it carries. Goroutines of tool calls write slots of
-- their own, and the model takes them one after the other.
--
-- Fuel: the climb to the root and the walks of Archive and Restore have one unit more than there are
-- nodes, which the depths of a well-formed tree bound; the agent loop has an argument, and one unit
-- more than the iteration cap is enough. A run of the agent loop has a result of its own for a climb
-- without end and for a panic, as that of a sliding window with a negative size. All nodes of one
-- recursive Archive or Restore get one time, where the program reads the clock for each. Numbers of Go's uint64 wrap at 2^64.
--
-- Not modelled: SQL storage, the adapters of other providers and HTTP, telemetry, terminals, eval/,
-- tools/ and cmd/, the rest of rag/ and knowledge/, and the concurrency inside an event stream.
pub mod Common
pub mod Types
pub mod Memwal
pub mod Tree
pub mod Agent
pub mod Provider
pub mod Rag
pub mod Knowledge
pub mod Examples
