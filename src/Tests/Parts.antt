-- ===== src/Tests/Parts.antt =====
-- Theorems about chunks, mappings, metrics and the local arena on concrete data.
use rustygo.Base.{
  ℕ, zero, suc, ◌+◌, ◌%◌, ◌^◌, ◌≤◌, ◌<◌, ◌≡◌, ◌≢◌, ◌⊎◌, inl, inr, refl, Bool, true, false, List, [],
  ◌∷◌, ◌↔◌, arith, ℤ, pos, leb_ℤ, Result, ok, err, panic, length, take, replicate, ap,
}
use rustygo.Memory.{new_chunk}
use rustygo.Metrics.Balance.{IsWords}
use rustygo.Chunk.{try_alloc_aligned}
use rustygo.Chunk.Fits.{Fits, try_alloc_aligned-Fits}
use rustygo.LocalArena.{LocalArena, grow_and_alloc}
use rustygo.LocalArena.Grow.{OnlyAligned, grow_and_alloc-exact}
use rustygo.Buffer.{ArenaBuffer, Source, IsSource, write}
use rustygo.Buffer.Appends.{Appends, write-Appends}
use rustygo.Tests.Data.{
  test_os, test_os-IsOs, first_chunk, first_chunk-IsMapped, mapped_chunk, test_metrics,
}

try_alloc_aligned-Fits_example :
    Fits first_chunk 100 (2 ^ 6) (try_alloc_aligned first_chunk (pos 100) (pos (2 ^ 6)))
try_alloc_aligned-Fits_example =
    try_alloc_aligned-Fits first_chunk 100 6 first_chunk-IsMapped (omega arith) (omega arith)
      (omega arith)

guarded :
    new_chunk test_os 5000 true
    ≡ ok (record (mapped_chunk 5000) { release = rustygo.Base.some 12288 })
unfolding new_chunk
guarded = refl

test_metrics-IsWords : IsWords test_metrics
test_metrics-IsWords = record {
  allocated = omega arith;
  arenas = omega arith;
  scopes = omega arith;
}

abbrev local_arena : LocalArena
local_arena = record {
  chunks = first_chunk ∷ [];
  active_idx = 0;
  chunk_size = 4096;
  closed = false;
}

mapped_8192 : new_chunk test_os 8192 false ≡ ok (mapped_chunk 8192)
unfolding new_chunk
mapped_8192 = refl

-- The chunk lies on a page, and not on a multiple of 2 ^ 17.
grow_and_alloc-exact_example :
    OnlyAligned 8192
      (2 ^ 17)
      local_arena
      (mapped_chunk 8192)
      (grow_and_alloc test_os local_arena 8192 (2 ^ 17))
unfolding rustygo.Arena.Alloc.capacity_of
grow_and_alloc-exact_example =
    grow_and_alloc-exact test_os local_arena 8192 17 (mapped_chunk 8192) test_os-IsOs refl
      (omega arith) (omega arith) (omega arith) mapped_8192 (omega arith)

-- Every request is met with zeros.
abbrev zeros : Source
zeros n = ok (replicate n 0)

zeros-IsSource : IsSource zeros
zeros-IsSource = record { sized = λ n bs e. sized_zeros n bs e }
  where
    length_zeros : (n : ℕ) → length {A = ℕ} (replicate n 0) ≡ n
    length_zeros zero = refl
    length_zeros (suc n) = ap suc (length_zeros n)

    sized_zeros : (n : ℕ) (bs : List ℕ) → zeros n ≡ ok bs → length bs ≡ n
    sized_zeros n bs e = grind (arith, length_zeros n)

abbrev test_buffer : ArenaBuffer
test_buffer = record { buf = 1 ∷ 2 ∷ 3 ∷ []; len = 2 }

write-Appends_example :
    Appends zeros test_buffer (7 ∷ 8 ∷ []) (write zeros test_buffer (7 ∷ 8 ∷ []))
write-Appends_example = write-Appends zeros test_buffer (7 ∷ 8 ∷ []) zeros-IsSource (omega arith)
