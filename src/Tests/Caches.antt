-- ===== src/Tests/Caches.antt =====
-- A cache of two generations of eight bytes each.
use rustygo.Base.{
  ◌⊎◌, ℕ, zero, suc, ◌+◌, ◌<◌, ◌≡◌, ◌≤◌, refl, true, false, some, List, [], ◌∷◌, arith, ok,
}
use rustygo.Arena.State.{Arena, Slice}
use rustygo.Metrics.{Metrics}
use rustygo.Arena.Offsets.{offset_at}
use rustygo.Arena.Invariant.{IsValid}
use rustygo.Cache.{ArenaCache, Generation, Entry, Val, outside, inside, set, get, delete, contents}
use rustygo.Cache.Lookups.{set-used}
use rustygo.Tests.Data.{test_os, test_os-IsOs, mapped_chunk, test_metrics}

abbrev empty_arena : Arena
empty_arena = record {
  chunks = mapped_chunk 4096 ∷ [];
  active = some 0;
  chunk_size = 8;
  max_cap = 0;
  geometric_growth = true;
  poison_on_exit = false;
  poison_pattern = 0;
  guard_pages = false;
  closed = false;
}

abbrev generation : Generation
generation = record {
  first = true;
  arena = empty_arena;
  scope = record {
    used = 0;
    active = true;
    cleanups = [];
    poison_on_exit = false;
    poison_pattern = 0;
    allocs = [];
  };
  entries = [];
  used = 0;
  bytes = λ _ _. 0;
}

abbrev empty_cache : ArenaCache
empty_cache = record {
  active = generation;
  old = record generation { first = false };
  max_gen_bytes = 8;
  closed = false;
}

abbrev key_b : List ℕ
key_b = 98 ∷ []

abbrev value : List ℕ
value = 5 ∷ 6 ∷ 7 ∷ []

-- What `Set` leaves of the cache.
abbrev after_set : ArenaCache → List ℕ → List ℕ → ArenaCache
after_set c key bs = (set test_os c key (outside bs) test_metrics).1

-- The entries a and b in the first generation, and c in the second one.
abbrev three_entries : ArenaCache
three_entries =
    after_set (after_set (after_set empty_cache (97 ∷ []) (1 ∷ [])) key_b value) (99 ∷ [])
      (9 ∷ 9 ∷ 9 ∷ 9 ∷ 9 ∷ 9 ∷ [])

-- The value of b in the first arena.
abbrev value_b : Slice
value_b = record { chunk = 0; lo = 3; hi = 6 }

-- The promotion of b writes over the slice that `Get` returns.
overwritten :
    contents (get test_os three_entries key_b test_metrics).1 (inside true value_b) ≡ 7 ∷ 6 ∷ 7 ∷ []
unfolding get set contents rustygo.Scope.Typed.alloc_slice rustygo.Scope.Typed.alloc_slice_cap
    rustygo.Scope.Typed.goes_to_heap rustygo.Arena.Alloc.alloc_aligned
    rustygo.Arena.Alloc.alloc_aligned_or_err rustygo.Chunk.is_power_of_two
    rustygo.Arena.Alloc.try_alloc_aligned rustygo.Arena.Alloc.try_active
    rustygo.Chunk.try_alloc_aligned rustygo.Chunk.aligned_offset rustygo.Scope.track_alloc
    rustygo.Scope.exit rustygo.Scope.enter_scope rustygo.Arena.Marks.reset
    rustygo.Cache.Memory.same_bytes rustygo.Cache.remove rustygo.Cache.Memory.read
    rustygo.Cache.Memory.read_from rustygo.Cache.Memory.write
overwritten = refl

empty_arena-IsValid : IsValid empty_arena
empty_arena-IsValid = record {
  mapped = (record { within = omega arith; in_space = omega arith }, tt);
  active_ok = (omega arith, none_behind);
  int_size = omega arith;
}
  where
    none_behind : (j : ℕ) → 0 < j → offset_at empty_arena.chunks j ≡ 0
    none_behind zero h = absurd (omega arith)
    none_behind (suc j) h = refl

abbrev metrics_after : Metrics
metrics_after = (set test_os empty_cache key_b (outside value) test_metrics).2

set_succeeds :
    set test_os empty_cache key_b (outside value) test_metrics
    ≡ (ok tt, after_set empty_cache key_b value, metrics_after)
unfolding get set contents rustygo.Scope.Typed.alloc_slice rustygo.Scope.Typed.alloc_slice_cap
    rustygo.Scope.Typed.goes_to_heap rustygo.Arena.Alloc.alloc_aligned
    rustygo.Arena.Alloc.alloc_aligned_or_err rustygo.Chunk.is_power_of_two
    rustygo.Arena.Alloc.try_alloc_aligned rustygo.Arena.Alloc.try_active
    rustygo.Chunk.try_alloc_aligned rustygo.Chunk.aligned_offset rustygo.Scope.track_alloc
    rustygo.Scope.exit rustygo.Scope.enter_scope rustygo.Arena.Marks.reset
    rustygo.Cache.Memory.same_bytes rustygo.Cache.remove
set_succeeds = refl

set-used_example :
    let used = (after_set empty_cache key_b value).active.used in
    ((0 + 4 ≤ 8) × (used ≡ 0 + 4)) ⊎ ((8 < 0 + 4) × (used ≡ 4))
set-used_example =
    set-used test_os empty_cache key_b (outside value) test_metrics
      (after_set empty_cache key_b value) metrics_after test_os-IsOs empty_arena-IsValid
      empty_arena-IsValid refl (omega arith) (omega arith) set_succeeds

-- Only the old generation has b, and the active one counts seven bytes.
abbrev entry_b : Entry
entry_b = record { key = record { chunk = 0; lo = 2; hi = 3 }; val = value_b }

abbrev nearly_full : ArenaCache
nearly_full = record {
  active = record generation { used = 7 };
  old = record generation { first = false; entries = (key_b, entry_b) ∷ []; used = 4 };
  max_gen_bytes = 8;
  closed = false;
}

abbrev promoted : ArenaCache
promoted = (get test_os nearly_full key_b test_metrics).1

abbrev metrics_promoted : Metrics
metrics_promoted = (get test_os nearly_full key_b test_metrics).2
