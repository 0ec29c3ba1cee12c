-- ===== src/Arena/State.antt =====
-- `Arena` of arena.go: the record, its options, and `NewArena`.
-- `active` is the index in `chunks` of the chunk that the pointer `a.active` refers to.
use rustygo.Base.{
  ℕ, Bool, true, false, not, Option, none, some, List, [], ◌∷◌, ℤ, pos_part, is_positive,
  if◌then◌else◌, Result, ok, err, panic, or_panic, arena_size,
}
use rustygo.Memory.{Os, Chunk, Error, new_chunk}
use rustygo.Metrics.{Metrics, record_arena_created}
use rustygo.Chunk.{Span}

pub record Arena : Type 0 where
  pub chunks : List Chunk
  pub active : Option ℕ
  pub chunk_size : ℕ
  pub max_cap : ℕ
  pub geometric_growth : Bool
  pub poison_on_exit : Bool
  pub poison_pattern : ℕ
  pub guard_pages : Bool
  pub closed : Bool

-- A byte slice of an arena: the part `buf[lo:hi]` of the chunk with the given index.
pub record Slice : Type 0 where
  pub chunk : ℕ
  pub lo : ℕ
  pub hi : ℕ

abbrev pub ArenaOption : Type 0
ArenaOption = Arena → Arena

unfoldable pub with_chunk_size : ℤ → ArenaOption
with_chunk_size size a = if is_positive size then record a { chunk_size = pos_part size } else a

unfoldable pub with_max_capacity : ℤ → ArenaOption
with_max_capacity max_cap a =
    if is_positive max_cap then record a { max_cap = pos_part max_cap } else a

unfoldable pub with_geometric_growth : Bool → ArenaOption
with_geometric_growth enabled a = record a { geometric_growth = enabled }

unfoldable pub with_poison_on_scope_exit : ℕ → ArenaOption
with_poison_on_scope_exit pattern_byte a = record a {
  poison_on_exit = true;
  poison_pattern = pattern_byte;
}

unfoldable pub with_guard_pages : Bool → ArenaOption
with_guard_pages enabled a = record a { guard_pages = enabled }

-- The loop over `opts`; a nil option is skipped.
unfoldable pub apply_options : List (Option ArenaOption) → Arena → Arena
apply_options [] a = a
apply_options (none ∷ opts) a = apply_options opts a
apply_options (some opt ∷ opts) a = apply_options opts (opt a)

abbrev pub blank_arena : ℕ → Arena
blank_arena size = record {
  chunks = [];
  active = none;
  chunk_size = size;
  max_cap = 0;
  geometric_growth = true;
  poison_on_exit = false;
  poison_pattern = 0;
  guard_pages = false;
  closed = false;
}

abbrev pub first_chunk : Arena → Metrics → Result Error Chunk → Result Error Arena × Metrics
first_chunk a m (ok c) =
    (ok (record a { chunks = c ∷ []; active = some 0 }), record_arena_created m a.chunk_size)
first_chunk a m (err e) = (or_panic (err e), m)
first_chunk a m (panic p) = (panic p, m)

unfoldable pub new_arena :
    Os → ℤ → List (Option ArenaOption) → Metrics → Result Error Arena × Metrics
unfolding apply_options
new_arena os size opts m =
    if not (is_positive size)
    then (panic arena_size, m)
    else let a = apply_options opts (blank_arena (pos_part size)) in
      first_chunk a m (new_chunk os a.chunk_size a.guard_pages)

unfoldable pub new_fixed_arena : Os → ℤ → Metrics → Result Error Arena × Metrics
unfolding new_arena with_max_capacity
new_fixed_arena os size m = new_arena os size (some (with_max_capacity size) ∷ []) m

abbrev pub slice_of : ℕ → Span → Slice
slice_of i s = record { chunk = i; lo = s.lo; hi = s.hi }
