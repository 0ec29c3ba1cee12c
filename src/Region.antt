-- ===== src/Region.antt =====
-- `Region` of arena.go: an arena and its scope as one value.
-- `NewRegion` sets both pointers and `Done` clears both, and nothing else changes them to or from nil: a
-- region is the pair, or `none` after `Done`. The nil `*Region` is not modelled.
pub mod Reuse
use rustygo.Base.{
  Bool, true, false, Option, none, some, [], ℤ, Result, ok, err, panic, ◌>>=◌, region_inactive,
  if◌then◌else◌,
}
use rustygo.Memory.{Os, Error}
use rustygo.Metrics.{Metrics}
use rustygo.Arena.State.{Arena, new_arena}
use rustygo.Arena.Marks.{reset as arena_reset, close as arena_close}
use rustygo.Scope.{Scope, Bytes, Exited, enter_scope, exit}
use rustygo.Scope.Typed.{TypeParam, Storage, alloc_value, alloc_slice, alloc_slice_cap}

abbrev pub Region : Type 0 → Type 0
Region W = Option (Arena × Scope W)

-- What the clean-up functions, the memory and the counters are after a call.
pub record Around (W : Type 0) : Type 0 where
  pub world : W
  pub bytes : Bytes
  pub metrics : Metrics

module _ {W : Type 0} where
  abbrev pub entered : Arena → Metrics → Region W × Metrics
  entered a m = let (s, m') = enter_scope a m in (some (a, s), m')

  abbrev with_arena : Result Error Arena × Metrics → Result Error (Region W × Metrics)
  with_arena (ok a, m) = ok (entered a m)
  with_arena (err e, m) = err e
  with_arena (panic p, m) = panic p

  unfoldable pub new_region : Os → ℤ → Metrics → Result Error (Region W × Metrics)
  new_region os size m = with_arena (new_arena os size [] m)

  abbrev around_exit : Exited W → Around W
  around_exit e = record { world = e.world; bytes = e.bytes; metrics = e.metrics }

  -- `if r.scope != nil && r.scope.Active() { r.scope.Exit() }`
  unfoldable pub leave : Scope W → Around W → Result Error (Around W)
  leave s x =
      if s.active then (exit s x.world x.bytes x.metrics >>= λ e. ok (around_exit e)) else ok x

  abbrev reenter : Arena → Around W → Region W × Around W
  reenter a x = let (r, m) = entered (arena_reset a) x.metrics in (r, record x { metrics = m })

  unfoldable pub reset : Region W → Around W → Result Error (Region W × Around W)
  reset none x = ok (none, x)
  reset (some (a, s)) x = leave s x >>= λ y. ok (reenter a y)

  abbrev release : Os → Arena → Around W → Result Error (Unit {0}) × Region W × Around W
  release os a x =
      let (r, a', m) = arena_close os a x.metrics in (r, none, record x { metrics = m })

  -- The error that `Done` returns, and the region without its arena.
  unfoldable pub done :
      Os → Region W → Around W → Result Error (Result Error (Unit {0}) × Region W × Around W)
  done os none x = ok (ok tt, none, x)
  done os (some (a, s)) x = leave s x >>= λ y. ok (release os a y)

  abbrev held : Result Error Storage × Arena × Scope W → Result Error Storage × Region W
  held (r, a, s) = (r, some (a, s))

  unfoldable pub new : Os → Region W → TypeParam → Result Error Storage × Region W
  new os none t = (panic region_inactive, none)
  new os (some (a, s)) t = held (alloc_value os a s t)

  unfoldable pub new_slice : Os → Region W → TypeParam → ℤ → Result Error Storage × Region W
  new_slice os none t n = (panic region_inactive, none)
  new_slice os (some (a, s)) t n = held (alloc_slice os a s t n)

  unfoldable pub slice_cap : Os → Region W → TypeParam → ℤ → ℤ → Result Error Storage × Region W
  slice_cap os none t len capacity = (panic region_inactive, none)
  slice_cap os (some (a, s)) t len capacity = held (alloc_slice_cap os a s t len capacity)
