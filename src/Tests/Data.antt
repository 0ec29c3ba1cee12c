-- ===== src/Tests/Data.antt =====
-- A system, chunks, arenas and scopes with concrete values.
use rustygo.Base.{
  ℕ, zero, suc, ◌+◌, ◌-◌, ◌^◌, ◌<◌, ◌≡◌, refl, true, false, some, [], ◌∷◌, arith, ltb,
  if◌then◌else◌, Result, ok, err,
}
use rustygo.Memory.{Os, IsOs, Chunk, Error, errno}
use rustygo.Metrics.{Metrics}
use rustygo.Chunk.Fits.{IsMapped}
use rustygo.Arena.State.{Arena}
use rustygo.Arena.Offsets.{offset_at}
use rustygo.Arena.Invariant.{IsValid}
use rustygo.Scope.{Scope}

-- A system that maps up to 2 ^ 40 bytes at a fixed address.
abbrev pub test_mmap : ℕ → Result Error ℕ
test_mmap n = if ltb n (2 ^ 40) then ok 65536 else err (errno 12)

abbrev pub test_os : Os
test_os = record {
  page_size = 4096;
  mmap = test_mmap;
  mprotect = λ base n. ok tt;
  munmap = λ base n. ok tt;
}

mapped_at : (n base : ℕ) → test_mmap n ≡ ok base → (base ≡ 65536) × (n < 2 ^ 40)
mapped_at n base e = ground arith

pub test_os-IsOs : IsOs test_os
test_os-IsOs = record {
  pages = refl;
  page_start = λ n base e. rw (mapped_at n base e).0 refl;
  in_space = λ n base e. omega (arith, mapped_at n base e);
}

abbrev pub first_chunk : Chunk
first_chunk = record { size = 4096; base = 4096; off = 100; release = some 4096 }

abbrev pub second_chunk : Chunk
second_chunk = record { size = 8192; base = 16384; off = 7; release = some 8192 }

abbrev pub mapped_chunk : ℕ → Chunk
mapped_chunk n = record { size = n; base = 65536; off = 0; release = some n }

pub first_chunk-IsMapped : IsMapped first_chunk
first_chunk-IsMapped = record { within = omega arith; in_space = omega arith }

pub second_chunk-IsMapped : IsMapped second_chunk
second_chunk-IsMapped = record { within = omega arith; in_space = omega arith }

-- Two chunks, the second one active, and room for growth up to `max_cap`.
abbrev pub test_arena : ℕ → Arena
test_arena max_cap = record {
  chunks = first_chunk ∷ second_chunk ∷ [];
  active = some 1;
  chunk_size = 4096;
  max_cap = max_cap;
  geometric_growth = true;
  poison_on_exit = true;
  poison_pattern = 0xdd;
  guard_pages = false;
  closed = false;
}

none_behind : (j : ℕ) → 1 < j → offset_at (first_chunk ∷ second_chunk ∷ []) j ≡ 0
none_behind zero h = absurd (omega arith)
none_behind (suc zero) h = absurd (omega arith)
none_behind (suc (suc j)) h = refl

pub test_arena-IsValid : (max_cap : ℕ) → IsValid (test_arena max_cap)
test_arena-IsValid max_cap = record {
  mapped = (first_chunk-IsMapped, (second_chunk-IsMapped, tt));
  active_ok = (omega arith, none_behind);
  int_size = omega arith;
}

abbrev pub test_metrics : Metrics
test_metrics = record {
  allocated_bytes = 12288;
  used_bytes = 0;
  active_arenas = 1;
  active_scopes = 2 ^ 64 - 1;
  high_water_mark_bytes = 12288;
  gc_bypassed_bytes_total = 0;
}

-- A scope with a clean-up function over the numbers, that has handed out five bytes.
abbrev pub test_scope : Scope ℕ
test_scope = record {
  used = 5;
  active = true;
  cleanups = (λ w. w + w) ∷ [];
  poison_on_exit = true;
  poison_pattern = 0xdd;
  allocs = record { chunk = 1; lo = 2; hi = 7 } ∷ [];
}
