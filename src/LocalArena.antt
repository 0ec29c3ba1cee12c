-- ===== src/LocalArena.antt =====
-- `LocalArena` of arena.go: the unsynchronised bump allocator for one goroutine.
pub mod Grow
use rustygo.Base.{
  ℕ, zero, suc, ◌+◌, ◌-◌, ◌%◌, ◌^◌, Bool, true, false, not, ◌&&◌, ◌||◌, Option, none, some, List,
  [], ◌∷◌, ◌++◌, ℤ, pos, negsuc, pos_part, is_positive, u64, ltb, leb, if◌then◌else◌, Result, ok,
  err, panic, or_panic, arena_size, alloc_size, alignment, slice_bounds, index_range, length,
  get_elem?, set, drop, map,
}
use rustygo.Memory.{Os, Chunk, Error, new_chunk}
use rustygo.Chunk.{Span, is_power_of_two, aligned_offset}
use rustygo.Arena.State.{Slice, slice_of}
use rustygo.Arena.Alloc.{capacity_of}
use rustygo.Arena.Marks.{at_zero, stats_loop, release_all}

pub record LocalArena : Type 0 where
  pub chunks : List Chunk
  pub active_idx : ℕ
  pub chunk_size : ℕ
  pub closed : Bool

abbrev first_local : ℕ → Result Error Chunk → Result Error LocalArena
first_local size (ok c) =
    ok (record { chunks = c ∷ []; active_idx = 0; chunk_size = size; closed = false })
first_local size (err e) = or_panic (err e)
first_local size (panic p) = panic p

unfoldable pub new_local_arena : Os → ℤ → Result Error LocalArena
new_local_arena os size =
    if not (is_positive size)
    then panic arena_size
    else first_local (pos_part size) (new_chunk os (pos_part size) false)

abbrev pub Local : Type 0
Local = Result Error Slice × LocalArena

-- `chk.off = end; return chk.buf[lo:end]` on the chunk with index `i`; slicing out of range panics.
unfoldable pub bump : LocalArena → ℕ → Chunk → ℕ → ℕ → Local
bump la i c lo end = (
  if leb lo end && leb end c.size
      then ok (record { chunk = i; lo = lo; hi = end })
      else panic slice_bounds,
  record la { chunks = set la.chunks i (record c { off = end }); active_idx = i },
)

-- `alignedOff >= chk.off && end <= uint64(len(chk.buf))`
unfoldable pub has_room : Chunk → ℕ → ℕ → Bool
has_room c lo end = leb c.off lo && leb end c.size

-- The chunks from index `i` on; `none` if no one has room.
unfoldable pub bump_later : LocalArena → ℕ → ℕ → ℕ → List Chunk → Option Local
bump_later la n align i [] = none
bump_later la n align i (c ∷ cs) =
    let lo = aligned_offset c.base c.off (align - 1) in
    let end = u64 (lo + n) in
    let rest = bump_later la n align (suc i) cs in
    if has_room c lo end then some (bump la i c lo end) else rest

-- A new chunk as large as all others together, or as the request; its offset is set without a test.
abbrev pub bump_new : LocalArena → ℕ → ℕ → Result Error Chunk → Local
bump_new la n align (ok c) =
    let lo = aligned_offset c.base 0 (align - 1) in
    bump (record la { chunks = la.chunks ++ (c ∷ []) }) (length la.chunks) c lo (u64 (lo + n))
bump_new la n align (err e) = (or_panic (err e), la)
bump_new la n align (panic p) = (panic p, la)

abbrev or_grow : Option Local → Local → Local
or_grow none r = r
or_grow (some r) _ = r

unfoldable pub grow_and_alloc : Os → LocalArena → ℕ → ℕ → Local
grow_and_alloc os la n align =
    let cur_cap = capacity_of la.chunks in
    let new_size = if ltb cur_cap n then n else cur_cap in
    or_grow (bump_later la n align (suc la.active_idx) (drop (suc la.active_idx) la.chunks))
      (bump_new la n align (new_chunk os new_size false))

abbrev bump_active : Os → LocalArena → ℕ → ℕ → Option Chunk → Local
bump_active os la n align none = (panic index_range, la)
bump_active os la n align (some c) =
    let lo = aligned_offset c.base c.off (align - 1) in
    let end = u64 (lo + n) in
    if has_room c lo end then bump la la.active_idx c lo end else grow_and_alloc os la n align

unfoldable pub alloc_aligned : Os → LocalArena → ℤ → ℤ → Local
alloc_aligned os la n align =
    if not (is_positive n)
    then (panic alloc_size, la)
    else if not (is_power_of_two align)
    then (panic alignment, la)
    else bump_active os la (pos_part n) (pos_part align) (get_elem? la.chunks la.active_idx)

unfoldable pub alloc : Os → LocalArena → ℤ → Local
alloc os la n = alloc_aligned os la n (pos 1)

unfoldable pub alloc_cache_aligned : Os → LocalArena → ℤ → Local
alloc_cache_aligned os la n = alloc_aligned os la n (pos 64)

unfoldable pub capacity : LocalArena → ℕ
capacity la = capacity_of la.chunks

unfoldable pub stats : LocalArena → ℕ × ℕ
stats la = stats_loop la.chunks 0 0

unfoldable pub reset : LocalArena → LocalArena
reset la = record la { chunks = map at_zero la.chunks; active_idx = 0 }

unfoldable pub close : Os → LocalArena → Result Error (Unit {0}) × LocalArena
close os la =
    if la.closed
    then (ok tt, la)
    else (release_all os la.chunks, record la { closed = true; chunks = [] })
