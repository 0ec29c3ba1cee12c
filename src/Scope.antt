-- ===== src/Scope.antt =====
-- `Scope` of arena.go: allocation that is counted, clean-up functions, and poisoning on exit.
-- `W` is the state that the registered clean-up functions change; they do not use the scope itself.
-- The arena that a scope points to is an argument of its operations, and comes back changed.
pub mod Typed
pub mod Exits
pub mod Interfaces
pub mod Pooled
use rustygo.Base.{
  ℕ, zero, suc, ◌+◌, ◌-◌, ◌*◌, ◌%◌, ◌^◌, Bool, true, false, not, ◌&&◌, ◌||◌, Option, none, some,
  List, [], ◌∷◌, ◌++◌, ℤ, pos, negsuc, is_positive, to_i64, u64, ltb, leb, ◌==◌, if◌then◌else◌,
  Result, ok, err, panic, or_panic, or_err, scope_inactive, scope_exited, alloc_size,
}
use rustygo.Memory.{Os, Error, scope_is_inactive, invalid_alloc_size, arena_out_of_memory}
use rustygo.Metrics.{Metrics, record_scope_enter, record_scope_exit}
use rustygo.Arena.State.{Arena, Slice}
use rustygo.Arena.Alloc.{Answer, try_alloc as arena_try_alloc}

pub record Scope (W : Type 0) : Type 0 where
  pub used : ℕ
  pub active : Bool
  pub cleanups : List (W → W)
  pub poison_on_exit : Bool
  pub poison_pattern : ℕ
  pub allocs : List Slice

-- The bytes of an arena, by chunk and position.
abbrev pub Bytes : Type 0
Bytes = ℕ → ℕ → ℕ

module _ {W : Type 0} where
  unfoldable pub enter_scope : Arena → Metrics → Scope W × Metrics
  enter_scope a m = (
    record {
      used = 0;
      active = true;
      cleanups = [];
      poison_on_exit = a.poison_on_exit;
      poison_pattern = a.poison_pattern;
      allocs = [];
    },
    record_scope_enter m,
  )

  unfoldable pub on_exit : Scope W → (W → W) → Scope W
  on_exit s fn = record s { cleanups = s.cleanups ++ (fn ∷ []) }

  unfoldable pub track_alloc : Scope W → Slice → Scope W
  track_alloc s buf =
      let s' = record s { used = u64 (s.used + (buf.hi - buf.lo)) } in
      if s.poison_on_exit then record s' { allocs = s.allocs ++ (buf ∷ []) } else s'

  abbrev pub tracked : Scope W → Answer → Option Slice × Arena × Scope W
  tracked s (none, a) = (none, a, s)
  tracked s (some buf, a) = (some buf, a, track_alloc s buf)

  unfoldable pub try_alloc : Os → Arena → Scope W → ℤ → Option Slice × Arena × Scope W
  try_alloc os a s n =
      if not s.active || not (is_positive n)
      then (none, a, s)
      else tracked s (arena_try_alloc os a n)

  abbrev out_of_memory : Option Slice × Arena × Scope W → Result Error Slice × Arena × Scope W
  out_of_memory (r, a, s) = (or_err r arena_out_of_memory, a, s)

  unfoldable pub alloc_or_err : Os → Arena → Scope W → ℤ → Result Error Slice × Arena × Scope W
  alloc_or_err os a s n =
      if not s.active
      then (err scope_is_inactive, a, s)
      else if not (is_positive n)
      then (err invalid_alloc_size, a, s)
      else out_of_memory (try_alloc os a s n)

  abbrev or_nil : Option Slice × Arena × Scope W → Result Error (Option Slice) × Arena × Scope W
  or_nil (r, a, s) = (ok r, a, s)

  -- `ok none` is the nil slice, which stands for a full arena here.
  unfoldable pub alloc : Os → Arena → Scope W → ℤ → Result Error (Option Slice) × Arena × Scope W
  alloc os a s n =
      if not s.active
      then (panic scope_inactive, a, s)
      else if not (is_positive n)
      then (panic alloc_size, a, s)
      else or_nil (try_alloc os a s n)

  unfoldable pub used_bytes : Scope W → ℤ
  used_bytes s = to_i64 s.used

  -- From the last one registered to the first.
  unfoldable pub run_cleanups : List (W → W) → W → W
  run_cleanups [] w = w
  run_cleanups (f ∷ fs) w = f (run_cleanups fs w)

-- `for i := range b { b[i] = s.poisonPattern }`
unfoldable pub poison_slice : ℕ → Slice → Bytes → Bytes
poison_slice pattern_byte b bytes i x =
    if i == b.chunk && leb b.lo x && ltb x b.hi then pattern_byte else bytes i x

unfoldable pub poison_all : ℕ → List Slice → Bytes → Bytes
poison_all pattern_byte [] bytes = bytes
poison_all pattern_byte (b ∷ bs) bytes =
    poison_all pattern_byte bs (poison_slice pattern_byte b bytes)

pub record Exited (W : Type 0) : Type 0 where
  pub scope : Scope W
  pub world : W
  pub bytes : Bytes
  pub metrics : Metrics

module _ {W : Type 0} where
  unfoldable pub exit : Scope W → W → Bytes → Metrics → Result Error (Exited W)
  exit s w bytes m =
      if not s.active
      then panic scope_exited
      else ok (record {
        scope = record s {
          active = false;
          cleanups = [];
          allocs = if s.poison_on_exit then [] else s.allocs;
        };
        world = run_cleanups s.cleanups w;
        bytes = if s.poison_on_exit then poison_all s.poison_pattern s.allocs bytes else bytes;
        metrics = record_scope_exit m (to_i64 s.used);
      })
