-- ===== src/Tests/Arenas.antt =====
-- Theorems about arenas, marks and savepoints on concrete arenas.
use rustygo.Base.{
  inr, ℕ, ◌^◌, ◌<◌, ◌≡◌, refl, false, some, List, [], ◌∷◌, arith, pos, Result, ok, err,
}
use rustygo.Memory.{Os, Error, new_chunk, arena_out_of_memory}
use rustygo.Arena.State.{Arena}
use rustygo.Arena.Alloc.{try_alloc, try_alloc_aligned, next_size, capacity_of}
use rustygo.Arena.Marks.{used_bytes, close, make_mark, parse_mark, mark, rewind}
use rustygo.Arena.Savepoints.{savepoint, rollback, transaction}
use rustygo.Arena.Offsets.{All, offset_at}
use rustygo.Arena.Calls.{Allocates, try_alloc-Allocates, try_alloc_aligned-Allocates}
use rustygo.Arena.Live.{Request, bytes, aligned_bytes, serve, IsCall, Served, serve_disjoint}
use rustygo.Arena.Rewind.{parse_mark-make_mark, rewind-mark}
use rustygo.Arena.Rollback.{IsBack, rollback-savepoint, Concludes, transaction-Concludes}
use rustygo.Arena.Room.{Succeeds, try_alloc-Succeeds, try_alloc-close}
use rustygo.Tests.Data.{
  test_os, test_os-IsOs, test_arena, test_arena-IsValid, mapped_chunk, test_metrics,
}

abbrev requests : List (Os × Request)
requests =
    (test_os, bytes (pos 24))
    ∷ (test_os, aligned_bytes (pos 8000) (pos 64))
    ∷ (test_os, bytes (pos 20000))
    ∷ (test_os, aligned_bytes (pos 8) (pos 3))
    ∷ []

requests-IsCall : All IsCall requests
requests-IsCall = (
  (test_os-IsOs, omega arith),
  (
    (test_os-IsOs, (omega arith, omega arith)),
    ((test_os-IsOs, omega arith), ((test_os-IsOs, (omega arith, omega arith)), tt)),
  ),
)

-- Three of the four requests are served: two from the second chunk, one from a new chunk.
served_three :
    (serve (test_arena 0) requests).0
    ≡ record { chunk = 1; lo = 7; hi = 31 }
      ∷ record { chunk = 1; lo = 64; hi = 8064 }
      ∷ record { chunk = 2; lo = 0; hi = 20000 }
      ∷ []
unfolding serve rustygo.Arena.Live.call try_alloc rustygo.Arena.Alloc.try_active
    rustygo.Chunk.try_alloc try_alloc_aligned rustygo.Chunk.is_power_of_two
    rustygo.Chunk.try_alloc_aligned rustygo.Chunk.aligned_offset rustygo.Arena.Alloc.alloc_slow
    rustygo.Arena.Alloc.try_chunk rustygo.Arena.Alloc.try_later rustygo.Arena.Alloc.try_chunks
    rustygo.Arena.Alloc.grow next_size new_chunk
served_three = refl

serve_disjoint_example : Served (serve (test_arena 0) requests)
serve_disjoint_example =
    serve_disjoint requests (test_arena 0) (test_arena-IsValid 0) requests-IsCall

try_alloc-Allocates_example :
    Allocates 24 1 (test_arena 0) (try_alloc test_os (test_arena 0) (pos 24))
try_alloc-Allocates_example =
    try_alloc-Allocates test_os (test_arena 0) 24 test_os-IsOs (test_arena-IsValid 0) (omega arith)
      (omega arith)

try_alloc_aligned-Allocates_example :
    Allocates 100
      (2 ^ 6)
      (test_arena 0)
      (try_alloc_aligned test_os (test_arena 0) (pos 100) (pos (2 ^ 6)))
try_alloc_aligned-Allocates_example =
    try_alloc_aligned-Allocates test_os (test_arena 0) 100 6 test_os-IsOs (test_arena-IsValid 0)
      (omega arith) (omega arith) (omega arith)

parse_mark-make_mark_example : parse_mark (make_mark 3 4294967301) ≡ (3, 5)
parse_mark-make_mark_example = parse_mark-make_mark 3 4294967301

rewind-mark_example :
    let (r, d) = rewind (serve (test_arena 0) requests).1 (mark (test_arena 0)) in
    (r ≡ ok tt)
    × (d.active ≡ some 1)
    × ((j : ℕ) → offset_at d.chunks j ≡ offset_at (test_arena 0).chunks j)
    × (used_bytes d ≡ used_bytes (test_arena 0))
rewind-mark_example =
    rewind-mark (test_arena 0) 1 requests (test_arena-IsValid 0) refl (omega arith) (omega arith)
      requests-IsCall

-- A later state with one more chunk.
abbrev later_arena : Arena
later_arena = record (test_arena 0) {
  chunks = mapped_chunk 50 ∷ mapped_chunk 60 ∷ record (mapped_chunk 70) { off = 9 } ∷ [];
  active = some 2;
}

rollback-savepoint_example :
    let (r, d) = rollback 77 later_arena (some (savepoint 77 (test_arena 0))) in
    (r ≡ ok tt) × IsBack (test_arena 0) d
rollback-savepoint_example =
    rollback-savepoint 77 (test_arena 0) later_arena 1 (test_arena-IsValid 0) refl (omega arith)

-- A function that allocates and then fails.
abbrev failing : Arena → Result Error (Unit {0}) × Arena
failing a = (err arena_out_of_memory, later_arena)

transaction-Concludes_example :
    Concludes
      (test_arena 0)
      (err arena_out_of_memory, later_arena)
      (transaction 77 (test_arena 0) failing)
transaction-Concludes_example =
    transaction-Concludes 77 (test_arena 0) 1 failing (test_arena-IsValid 0) refl (omega arith)

limited : next_size (test_arena 20000) 24 ≡ some 7712
unfolding next_size
limited = refl

mapped : (n : ℕ) → n < 2 ^ 40 → new_chunk test_os n false ≡ ok (mapped_chunk n)
unfolding new_chunk
mapped n h = ground arith

try_alloc-Succeeds_example : Succeeds (try_alloc test_os (test_arena 22000) (pos 9000))
unfolding capacity_of
try_alloc-Succeeds_example =
    try_alloc-Succeeds test_os (test_arena 22000) 9000 test_os-IsOs (test_arena-IsValid 22000)
      (omega arith) (omega arith) (inr (omega arith))
      (λ size lo hi. (mapped_chunk size, mapped size (omega arith)))

try_alloc-close_example :
    let b = (close test_os (test_arena 0) test_metrics).1 in
    Succeeds (try_alloc test_os b (pos 24))
    × (close test_os (try_alloc test_os b (pos 24)).1 test_metrics
        ≡ (ok tt, (try_alloc test_os b (pos 24)).1, test_metrics))
try_alloc-close_example =
    try_alloc-close test_os test_os (test_arena 0) test_metrics test_metrics 24 (mapped_chunk 4096)
      test_os-IsOs (test_arena-IsValid 0) refl refl (omega arith) (omega arith)
      (mapped 4096 (omega arith))
