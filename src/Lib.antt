-- ===== src/Lib.antt =====
-- ajq runs jq programs whose semantic operators (`sem_match`, `sem_classify`, ...) are judged by a
-- language model. This library models its core over explicit state.
--
-- A query with semantic calls runs in three phases (internal/engine/semantic.go). The program is run
-- with callbacks that collect a judgement for each call (harvest); the collected judgements are
-- answered from a cache or by one batch to the backend (resolve); and the program is run again with
-- callbacks that read the cache (execute). The input is cut into frames, and the frames into windows
-- under a byte budget; each window goes through the three phases.
--
-- What models what:
-- - Semantics: internal/semantics/registry.go, the operators' table and `Lookup`.
-- - Value, Backend: the dynamic values, `Judgement` and `Result` (internal/backend/backend.go; here
--   `Answer`).
-- - Schema: internal/schema/schema.go, `Build`, `ForJudgement` and `Validate`.
-- - Cache: internal/cache/cache.go, the `Store`; Cache/Canonical, Cache/Number and Cache/Key its keys;
--   Cache/Disk is internal/cache/disk.go, the disk store behind it, without `Status` and `Clear`.
-- - Desugar: internal/desugar/desugar.go, the rewriting of `=~` and `!~` into calls of `sem_match`,
--   which a query goes through first. Desugar/Scan reads words, comments and strings, Desugar/Loop is
--   the form of the loops over positions, Desugar/Operand finds the operands, and Desugar/Rewrite is
--   `Rewrite`.
-- - Plan: the data of internal/plan/types.go, and `finish` and `executionModeFor` of
--   internal/plan/build.go; Plan/Scan is `scanSemanticCalls` of
--   internal/plan/source_scan.go and Plan/Attach `attachSourceRanges`.
-- - Engine: the call cap and the counters of internal/engine/engine.go and the state
--   `semanticRuntime`; Engine/Call makes judgements out of calls; Engine/Callback has the functions
--   that gojq calls; Engine/Resolve is `resolve`. Engine/Interleaved is
--   internal/engine/interleaved.go, where every call is resolved as it is made,
--   Engine/Windowed what internal/engine/engine.go does with one window, and Engine/Windowed/Whole
--   `executeThreePhase`, the loop over the windows; Engine/Explain is
--   internal/engine/explain_estimate.go, the counts that `--explain` reports.
-- - Input: internal/input/framer.go without the JSON framer, and in Input/Window
--   internal/input/window.go.
-- - Dispatch: internal/backend/batchdispatch/batchdispatch.go, `runSequential`; Dispatch/Parallel is
--   `runParallel` as a step relation between goroutines.
-- - Prelude, Result: helpers. Tests: theorems at concrete data.
--
-- Stateful code takes its state and returns it; an error is a value, without its text. What is not
-- under this repository is a parameter: the backend is a function of the batches sent so far and of
-- the batch, the JSON codec, the hash and float formatting are records of functions, the framer of a
-- window iterator and the reader of the raw framer are lists of what they give, errors included, and
-- a context is the list of what it answers when it is asked.
--
-- An int64 counter is a natural number. The window iterator runs on fuel: each round takes a frame,
-- so two more rounds than the framer has events are enough, which is proved; the loop over the
-- windows has three more, since a window takes a frame at least. `Rewrite` recurses on
-- texts with fewer of the bytes `~` and backslash, of which it has one more call than a query has of
-- them, and its loops go forward, so each has as many rounds as there are positions. Both are proved
-- to be enough, the second by a relation for the loop of the source, which has no bound.
--
-- Not modelled: gojq and the walk over its syntax tree, the providers' HTTP clients, the command
-- line, the daemon, the installation of models, and the benchmarks.
pub mod Prelude
pub mod Result
pub mod Value
pub mod Semantics
pub mod Backend
pub mod Schema
pub mod Cache
pub mod Desugar
pub mod Plan
pub mod Input
pub mod Dispatch
pub mod Engine
pub mod Tests
