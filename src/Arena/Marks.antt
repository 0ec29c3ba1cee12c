-- ===== src/Arena/Marks.antt =====
-- `Reset`, the byte counts, `Close`, and `Mark` with `Rewind`, of arena.go.
use rustygo.Base.{
  ℕ, zero, suc, ◌+◌, ◌*◌, ◌/◌, ◌^◌, true, ◌&&◌, Option, none, some, List, [], ◌∷◌, ltb, ◌==◌,
  if◌then◌else◌, Result, ok, err, panic, bit_and, bit_or, length, get_elem?, map, u64,
}
use rustygo.Memory.{Os, Chunk, Error, invalid_arena_mark, rewind_forward}
use rustygo.Metrics.{Metrics, record_arena_closed}
use rustygo.Arena.State.{Arena}
use rustygo.Arena.Alloc.{capacity_of}

abbrev pub at_zero : Chunk → Chunk
at_zero c = record c { off = 0 }

-- `if len(a.chunks) > 0 { a.active.Store(a.chunks[0]) }`
abbrev pub first_active : List Chunk → Option ℕ → Option ℕ
first_active [] act = act
first_active (c ∷ cs) act = some 0

unfoldable pub reset : Arena → Arena
reset a = record a { chunks = map at_zero a.chunks; active = first_active a.chunks a.active }

unfoldable pub used_of : List Chunk → ℕ
used_of [] = 0
used_of (c ∷ cs) = c.off + used_of cs

unfoldable pub used_bytes : Arena → ℕ
unfolding used_of
used_bytes a = used_of a.chunks

unfoldable pub capacity : Arena → ℕ
unfolding capacity_of
capacity a = capacity_of a.chunks

-- One loop with two sums.
unfoldable pub stats_loop : List Chunk → ℕ → ℕ → ℕ × ℕ
stats_loop [] used cap = (used, cap)
stats_loop (c ∷ cs) used cap = stats_loop cs (used + c.off) (cap + c.size)

unfoldable pub stats : Arena → ℕ × ℕ
unfolding stats_loop
stats a = stats_loop a.chunks 0 0

-- What the release function of a chunk answers; a nil one, or an empty buffer, is not called.
unfoldable pub release_chunk : Os → Chunk → Result Error (Unit {0})
release_chunk os c = elim c.release [
  | none ↦ ok tt
  | some n ↦ if ltb 0 c.size then os.munmap c.base n else ok tt
]

abbrev first_error : Result Error (Unit {0}) → Result Error (Unit {0}) → Result Error (Unit {0})
first_error (ok _) r = r
first_error (err e) r = err e
first_error (panic p) r = panic p

-- Every chunk is released, and the first error is kept.
unfoldable pub release_all : Os → List Chunk → Result Error (Unit {0})
unfolding release_chunk
release_all os [] = ok tt
release_all os (c ∷ cs) = first_error (release_chunk os c) (release_all os cs)

unfoldable pub close : Os → Arena → Metrics → Result Error (Unit {0}) × Arena × Metrics
close os a m = if a.closed then (ok tt, a, m) else (
  release_all os a.chunks,
  record a { chunks = []; active = none; closed = true },
  record_arena_closed m a.chunk_size,
)

-- The index in the high half of a 64-bit word, the offset in the low half.
unfoldable pub make_mark : ℕ → ℕ → ℕ
make_mark chunk_idx off = bit_or (u64 (chunk_idx * 2 ^ 32)) (bit_and off 0xFFFFFFFF)

unfoldable pub parse_mark : ℕ → ℕ × ℕ
parse_mark m = (m / 2 ^ 32, bit_and m 0xFFFFFFFF)

abbrev pub mark_first : List Chunk → ℕ
mark_first [] = make_mark 0 0
mark_first (c ∷ cs) = make_mark 0 c.off

abbrev pub mark_at : List Chunk → ℕ → Option Chunk → ℕ
mark_at cs i none = mark_first cs
mark_at cs i (some c) = make_mark i c.off

abbrev pub mark_active : List Chunk → Option ℕ → ℕ
mark_active cs none = mark_first cs
mark_active cs (some i) = mark_at cs i (get_elem? cs i)

unfoldable pub mark : Arena → ℕ
mark a = mark_active a.chunks a.active

-- `targetChunk.off = off`, and 0 in the chunks behind it.
unfoldable pub cut_back : List Chunk → ℕ → ℕ → List Chunk
cut_back [] i off = []
cut_back (c ∷ cs) zero off = record c { off = off } ∷ map at_zero cs
cut_back (c ∷ cs) (suc i) off = c ∷ cut_back cs i off

-- The index of the active chunk if the loop meets it, and the initial 0 if not.
abbrev pub found_index : Option ℕ → ℕ → ℕ
found_index none n = 0
found_index (some i) n = if ltb i n then i else 0

abbrev pub off_of : Option Chunk → ℕ
off_of none = 0
off_of (some c) = c.off

abbrev pub rewind_to : Arena → ℕ → ℕ → Option Chunk → Result Error (Unit {0}) × Arena
rewind_to a i off none = (err invalid_arena_mark, a)
rewind_to a i off (some target) =
    if ltb target.size off
    then (err invalid_arena_mark, a)
    else if ltb (found_index a.active (length a.chunks)) i
    then (err rewind_forward, a)
    else if i == found_index a.active (length a.chunks)
        && ltb (off_of (get_elem? a.chunks (found_index a.active (length a.chunks)))) off
    then (err rewind_forward, a)
    else (ok tt, record a { chunks = cut_back a.chunks i off; active = some i })

unfoldable pub rewind : Arena → ℕ → Result Error (Unit {0}) × Arena
rewind a m =
    let (target_idx, target_off) = parse_mark m in
    rewind_to a target_idx target_off (get_elem? a.chunks target_idx)
