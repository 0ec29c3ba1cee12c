-- ===== src/Region/Reuse.antt =====
-- A region from one lifetime to the next, and after its end.
use rustygo.Metrics.{record_scope_exit}
use rustygo.Base.{
  to_i64, ◌≡◌, refl, true, Bool-cases, inl, inr, none, some, [], Result, ok, panic, region_inactive,
  if◌then◌else◌,
}
use rustygo.Memory.{Os, Error}
use rustygo.Arena.State.{Arena}
use rustygo.Arena.Marks.{used_bytes, capacity}
use rustygo.Arena.Marks as marks
use rustygo.Arena.Invariant.{IsValid}
use rustygo.Arena.Lifecycle.{reset_lem}
use rustygo.Scope.{Scope, enter_scope, exit, run_cleanups, poison_all}
use rustygo.Scope.Typed.{TypeParam}
use rustygo.Region.{Region, Around, leave, reset, done, new}

-- The outcome of `Reset`: the same memory with no byte in use, an active scope that has handed out nothing and
-- has no clean-up function, and the clean-up functions of the old scope run if it was active.
abbrev pub Renews :
    {W : Type 0} → Arena → Scope W → Around W → Result Error (Region W × Around W) → Type 0
Renews {W = W} a s x r =
    (b : Arena) × (t : Scope W) × (y : Around W) × (r ≡ ok (some (b, t), y))
    × IsValid b
    × (used_bytes b ≡ 0)
    × (capacity b ≡ capacity a)
    × (t.active ≡ true)
    × (t.used ≡ 0)
    × (t.cleanups ≡ [])
    × (y.world ≡ (if s.active then run_cleanups s.cleanups x.world else x.world))

leave-eq :
    {W : Type 0} (s : Scope W) (x : Around W)
    → (y : Around W) × (leave s x ≡ ok y)
      × (y.world ≡ (if s.active then run_cleanups s.cleanups x.world else x.world))
unfolding leave exit
leave-eq s x = elim (Bool-cases s.active) [
  | inl e ↦ (
    record {
      world = run_cleanups s.cleanups x.world;
      bytes = if s.poison_on_exit then poison_all s.poison_pattern s.allocs x.bytes else x.bytes;
      metrics = record_scope_exit x.metrics (to_i64 s.used);
    },
    rw e refl,
    rw e refl,
  )
  | inr e ↦ (x, rw e refl, rw e refl)
]

-- `Region.Reset` of a region over a valid arena never panics; it ends the old scope if that is still active,
-- keeps the memory, and starts a fresh scope.
pub reset-Renews :
    {W : Type 0} (a : Arena) (s : Scope W) (x : Around W)
    → IsValid a
    → Renews a s x (reset (some (a, s)) x)
unfolding reset enter_scope
reset-Renews a s x v =
    let (y, e, w) = leave-eq s x in
    let (valid, unused, kept) = reset_lem a v in
    let (t, m) = enter_scope (marks.reset a) y.metrics in
    (
      marks.reset a,
      t,
      record y { metrics = m },
      rw e refl,
      valid,
      unused,
      kept,
      refl,
      refl,
      refl,
      w,
    )

abbrev pub ended : {W : Type 0} → Region W
ended = none

-- `Done` ends a region for good, whatever the system answers: the next `Done` answers with no error and
-- changes nothing, and `New` panics.
pub after_done :
    {W : Type 0} (os os' : Os) (a : Arena) (s : Scope W) (x x' : Around W) (t : TypeParam)
    → (r : Result Error (Unit {0})) × (y : Around W) × (done os (some (a, s)) x ≡ ok (r, none, y))
      × (done {W = W} os' ended x' ≡ ok (ok tt, none, x'))
      × (new {W = W} os' ended t ≡ (panic region_inactive, none))
unfolding done new
after_done os os' a s x x' t =
    let (y, e, w) = leave-eq s x in
    let (r, b, m) = marks.close os a y.metrics in
    (r, record y { metrics = m }, rw e refl, refl, refl)
