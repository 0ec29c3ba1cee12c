-- ===== src/Lib.antt =====
-- RustyGo: arenas, scopes and arena-backed codecs for Go, and the analyses that place allocations.
--
-- An `Arena` (arena.go) is a list of chunks, each a buffer mapped from the operating system (arena_unix.go)
-- with a bump offset. `TryAlloc` and `TryAllocAligned` take bytes from the active chunk, from the chunks
-- behind it, or from a new chunk up to `maxCap`. `Mark`/`Rewind` and the savepoints of checkpoint.go move the
-- offsets back. A `Scope` allocates through its arena, counts the bytes, runs clean-up functions when it
-- exits, and may poison what it handed out. Typed allocation decides between arena and heap by reflection. A
-- `Region` is an arena with a scope; a `LocalArena` is the variant for one goroutine; an `ArenaBuffer`
-- (buffer.go) grows in a scope. An `ArenaCache` (cache.go) keeps its entries in two arenas that it exchanges. A
-- `Pool` (pool.go) reuses objects, a `Session` (session.go) buffers of the Go heap, a `ShardedArenaPool`
-- (arena_sharded.go) arenas; an `AutoTuner` (autotune.go) learns the size of arenas. The codecs (codec/proto.go,
-- codec/msgpack.go, codec/ws.go, codec/json.go, codec/codec.go) decode into scopes. The analyses (internal/analysis) summarise functions, follow each allocation of a
-- function to where it may escape, and decide between arena and heap.
--
-- Files, and what they model:
--   Base: 64-bit words and Go's `int` over the native numbers, results with errors and panics, lists, bits.
--   Memory: `Os` is package syscall as a parameter (mmap, mprotect, munmap and the page size), `IsOs` what
--     the Linux manual promises of it, with pages of 4096 bytes; the system keeps no state, so that the Munmap after a
--     failed Mprotect changes nothing; `allocArenaBuffer`, `allocArenaBufferWithGuard`, `newChunk`.
--   Chunk: `isPowerOfTwo`, `tryAlloc`, `tryAllocAligned`, where a call is a round of its compare-and-swap loop
--     that is not disturbed. Chunk/Race has the rounds of many goroutines as a step relation, whose atomic
--     actions are the load of the offset and the compare-and-swap.
--   Arena: State (the record, the options, `NewArena`), Alloc (`TryAlloc` to `AllocAligned`, `allocSlow`),
--     Marks (`Reset`, `UsedBytes`, `Stats`, `Close`, `Mark`, `Rewind`), Savepoints (checkpoint.go). The
--     other files of Arena prove. The pointer `a.active` is the index of its chunk, and a slice is the
--     chunk's index with the bounds.
--   Scope: the scope, Scope/Typed the typed allocation, Scope/Pooled the maps and channels that a scope gives back
--     to a `sync.Pool`. The arena of a scope is an argument.
--   Region, LocalArena, Buffer, Metrics: the types of the same names; Metrics is metrics.go.
--   Pool: pool.go with one call after the other; Pool/Race has the loops of the lock-free stack as a step
--     relation over nodes, whose atomic actions are the load of the head, the accesses to `next` and the
--     compare-and-swap. `sync.Pool` is a parameter here and in Session (session.go), with what its documentation
--     promises, and so is the largest size that `make` accepts in Session, above which it panics.
--   Cache: cache.go; a slice names the generation whose arena it lies in, and Memory reads and writes the bytes
--     behind it. Carve, Stored, Rotation, Lookups and Promotion prove.
--   Sharded: arena_sharded.go. AutoTuner: autotune.go, with its floating-point products as parameters.
--   Codec: Wire (positions and byte orders), Proto, MsgPack, Simd (codec/simd.go), Ws (codec/ws.go), Json
--     (codec/json.go), Reader (codec/codec.go). A decoder is its bytes and its position, and a method answers with
--     the result and the new decoder. Strings are their bytes.
--   Analysis: the analyses of internal/analysis. Ssa is what they read of golang.org/x/tools/go/ssa, as data;
--     Summary is summary/, Lifetime is lifetime/ (Ownership, Graph, Regions and Search are ownership.go, graph.go,
--     regions.go and escapes.go; Flows and Report are the passes of analyzer.go), Escape is escape/. The names in
--     the messages and IDs are numbers. A search is given the roots that the tracker answers.
--   Tests: concrete runs, and each theorem at a concrete input.
--
-- Bounds: numbers are exact, and every conversion or sum of the source that can wrap has its `% 2 ^ 64`
-- written out. Sums of chunk lengths and of offsets are exact without it, since the chunks are disjoint
-- parts of one address space of less than 2 ^ 63 bytes. The loop over the ten groups of a varint runs over
-- the shifts 0, 7, ..., 63 that the source's condition admits, and `ReadVarint` has ten rounds; the number of
-- shards doubles on fuel, the number that is wanted, which it reaches; `appendVarint` recurses on the accessibility
-- of `<`; most other loops are over lists. In Analysis four recursions have fuel: the search of `CheckEscape`
-- has two more than the graph has edges, `GetRoot` one more than `AddAlias` was called, `analyzeValueFlow`
-- two more than the function has instructions, the rounds of `AnalyzeSummaries` one more than there are
-- flags. A search visits a value once, a chain of aliases grows by at most one link with each `AddAlias`, and
-- each round but the last sets a flag.
--
-- Not modelled: finalizers; the mutexes of the arena, the cache and the shards, behind which calls come one after
-- the other; the call stack that `CallerSiteKey` reads; the
-- functions that run a callback in a scope of a sharded or an auto-tuned arena; the Windows and WebAssembly
-- mappings; text and HTTP output of the metrics; the walk over the functions and packages of a program, the vet
-- analyzer, the rewriter and the commands, which work on packages outside the repository.
pub mod Base
pub mod Memory
pub mod Chunk
pub mod Metrics
pub mod Arena
pub mod Scope
pub mod LocalArena
pub mod Region
pub mod Buffer
pub mod Codec
pub mod Analysis
pub mod Pool
pub mod Cache
pub mod AutoTuner
pub mod Sharded
pub mod Session
pub mod Tests
