-- ===== src/Lib.antt =====
-- Vatbrain is a memory service for coding agents: what an agent learns is stored as episodic
-- memories, rules and pitfalls, ranked when it is asked for, and reweighted by feedback. The library
-- models its engines and its in-memory backend; each file names the code that it is about.
--
-- The parts, and how they interact:
--   * Models: the records of internal/models and the tests on them.
--   * Vector: similarity and top-k of internal/vector, and its binary form in Vector.Encoded.
--   * Embedder: the embedders of internal/embedder. Embedder.Keyword is keyword.go, Embedder.Dual dual.go,
--     Embedder.Pool and Embedder.Openai are the worker pool and the remote batches of batch.go, and
--     Embedder.Expand is the expansion of a question of expand.go.
--   * Store: the interface of internal/store/memory_store.go as a record of operations, which the
--     engines take as a parameter. Store.WorkingMemory is internal/store/working_memory.go, and
--     Store.Memory is the backend of internal/store/memory, which fills the interface. Store.Lru is the
--     cache of internal/store/lru.
--   * Core: the engines of internal/core, a file each. Core.Write is write_pipeline.go, which runs
--     Core.Gate (significance_gate.go), Core.Surprise (surprise.go), Core.Separation
--     (pattern_separation.go), Core.Decay (weight_decay.go), Core.Update (update_tracker.go) and
--     Core.Link (link_on_write.go) on an event, and then the store. Core.Risk is risk_engine.go,
--     Core.Retrieval retrieval_engine.go, Core.Conflict conflict.go, Core.Attribution attribution.go
--     and Core.Reconsolidation reconsolidation_engine.go. Core.Consolidation is a run of
--     consolidation_engine.go over any store, and Core.Extractor is pitfall_extractor.go, which the
--     run calls: Cluster groups the memories of an entity, Draft and Parse make a pitfall of a group,
--     Merge joins those that are alike, and Pipeline is the whole extraction.
--   * Provider: Provider.Prefetch is the recall block of internal/provider/retrieve.go,
--     Provider.Condense is internal/provider/condense.go, which cuts the block to its budget,
--     Provider.Derive reads messages as derive.go and relative_time.go do, Provider.Turns hands the
--     turns of internal/provider/server.go to the write pipeline, and Provider.Server has the sessions
--     and the mirrored entries of internal/provider/lifecycle.go. Provider.Retrieve is the retrieval of
--     retrieve.go, on which Provider.Recall, the prefetches of server.go, and Provider.Edit, the context
--     of an edit of risk.go, stand. Provider.Hooks is hooks.go,
--     and Provider.Daemon hands each request of server.go to its handler.
--   * Watcher: a scan of internal/watcher over the files of agents. Watcher.Seen is provider.go,
--     Watcher.Keywords and Watcher.Refiner are refiner.go, and Watcher.Scan is watcher.go, which writes to
--     any store.
--   * Mcp: the handlers of internal/mcp/pitfall_workbench.go, over any store. Mcp.Workbench has those that
--     change a pitfall, and Mcp.Listing those that read.
--   * Tests: sample data, and the theorems applied to it.
--
-- How the code is modelled:
--   * A method of a store is an action: it takes the store and returns its result, or an error,
--     beside the store it leaves. Contexts are left out, and a mutex makes a method one step.
--   * A Go map is an association list with one pair for each key, in some order; Go's `sort.Slice`
--     is an insertion sort, one of the orders that it may return where elements tie.
--   * `float64` is a parameter: any type with the operations of Float. What proofs use of it is
--     stated in Float.Laws, and Float.Fixed gives numbers in thousandths that satisfy it.
--   * Identifiers and times are numbers, with 0 for the nil identifier and the zero time; a reading
--     of the clock, a fresh identifier, a parse of an identifier and an embedding are parameters.
--   * `int` is a natural number where the code counts, and an integer where it tests a sign. No
--     arithmetic of the modelled code comes near 2^63.
--   * Messages that the code formats for a reader are parameters where a record keeps them, and left
--     out elsewhere; errors are told apart by kind.
--   * Texts that code takes apart are lists of code points; other texts are strings.
--   * What workers do at once is a sequence of steps in an arbitrary order, and a remote service is a state
--     that its requests change.
--   * The client of a language model is a function from two prompts to its answer, if it has one, and
--     the decoding of JSON and of a score are parameters. The goroutines of a consolidation run are
--     run one after the other; one that a handler of the daemon starts is a step of its own, which comes
--     later.
--
-- Every loop is a structural recursion, but for five on fuel. The cut of the recall block has the
-- length of the list as its fuel, and each round takes one item off. The merging of clusters has the
-- number of memories, and each round leaves one cluster less. The joining of pitfalls has their number,
-- and each round takes a group away. The chunks of a batch have the number of texts, and each round goes
-- on by a text at least. The search for all matches of a pattern has the length of the text, and each round
-- takes a rune off at least. So the fuel is enough.
--
-- Not modelled: the SQL and graph backends and the saved consolidation runs; the choice of an embedder;
-- remote models; the HTTP interface; the request decoding of the daemon, its ping and its shutdown; the
-- other tools of internal/mcp; the adapters of the watcher; the benchmark; the commands and the
-- configuration. They reach outside the process, or are not covered yet.
pub mod Prelude
pub mod Float
pub mod Models
pub mod Vector
pub mod Embedder
pub mod Store
pub mod Core
pub mod Watcher
pub mod Provider
pub mod Mcp
pub mod Tests
