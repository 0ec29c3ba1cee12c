-- ===== src/Arena/Lifecycle.antt =====
-- `NewArena`, `Reset`, the byte counts, `Close`, and what the limit on the capacity promises.
use rustygo.Base.{
  ℕ, zero, suc, ◌+◌, ◌≤◌, ◌<◌, ◌≡◌, refl, ◌∙◌, Option, none, some, List, [], ◌∷◌, arith, ok, map,
  false,
}
use mathlib.Core.Path.{ap₂}
use rustygo.Memory.{Os, Chunk}
use rustygo.Metrics.{Metrics}
use rustygo.Chunk.Fits.{IsMapped}
use rustygo.Arena.State.{Arena}
use rustygo.Arena.Alloc.{capacity_of, next_size}
use rustygo.Arena.Marks.{
  at_zero, first_active, reset, used_of, used_bytes, capacity, stats_loop, stats, close,
}
use rustygo.Arena.Offsets.{All, offset_at}
use rustygo.Arena.Invariant.{ActiveOk, IsValid}

stats_loop-sum :
    (cs : List Chunk) (used cap : ℕ)
    → stats_loop cs used cap ≡ (used + used_of cs, cap + capacity_of cs)
unfolding stats_loop used_of capacity_of
stats_loop-sum [] used cap = ap₂ (λ (x y : ℕ). (x, y)) (omega arith) (omega arith)
stats_loop-sum (c ∷ cs) used cap =
    stats_loop-sum cs (used + c.off) (cap + c.size)
    ∙ ap₂ (λ (x y : ℕ). (x, y)) (omega arith) (omega arith)

-- The offsets stay within the sizes, chunk by chunk.
used-le-capacity : (cs : List Chunk) → All IsMapped cs → used_of cs ≤ capacity_of cs
unfolding used_of capacity_of
used-le-capacity [] h = omega arith
used-le-capacity (c ∷ cs) h = omega (arith, h.0.within, used-le-capacity cs h.1)

-- On a valid arena `Stats` is the pair of what `UsedBytes` and `Capacity` report, and the bytes in
-- use are at most the capacity.
pub stats_lem :
    (a : Arena) → IsValid a → (stats a ≡ (used_bytes a, capacity a)) × (used_bytes a ≤ capacity a)
unfolding stats used_bytes capacity
stats_lem a v = (
  stats_loop-sum a.chunks 0 0 ∙ ap₂ (λ (x y : ℕ). (x, y)) (omega arith) (omega arith),
  used-le-capacity a.chunks v.mapped,
)

zero-IsMapped : (cs : List Chunk) → All IsMapped cs → All IsMapped (map at_zero cs)
zero-IsMapped [] h = tt
zero-IsMapped (c ∷ cs) h =
    (record { within = omega arith; in_space = h.0.in_space }, zero-IsMapped cs h.1)

zero_offsets : (cs : List Chunk) (j : ℕ) → offset_at (map at_zero cs) j ≡ 0
zero_offsets [] j = refl
zero_offsets (c ∷ cs) zero = refl
zero_offsets (c ∷ cs) (suc j) = zero_offsets cs j

zero_used :
    (cs : List Chunk)
    → (used_of (map at_zero cs) ≡ 0) × (capacity_of (map at_zero cs) ≡ capacity_of cs)
unfolding used_of capacity_of
zero_used [] = (refl, refl)
zero_used (c ∷ cs) = (omega (arith, zero_used cs), omega (arith, zero_used cs))

zero_active :
    (cs : List Chunk) (o : Option ℕ) → ActiveOk o cs → ActiveOk (first_active cs o) (map at_zero cs)
zero_active [] none h = refl
zero_active [] (some i) h = absurd (omega (arith, h.0))
zero_active (c ∷ cs) o h = (omega arith, λ j _. zero_offsets (c ∷ cs) j)

-- `Reset` keeps a valid arena valid and its capacity, and no byte is in use after it.
pub reset_lem :
    (a : Arena)
    → IsValid a
    → IsValid (reset a) × (used_bytes (reset a) ≡ 0) × (capacity (reset a) ≡ capacity a)
unfolding reset used_bytes capacity
reset_lem a v = (
  record {
    mapped = zero-IsMapped a.chunks v.mapped;
    active_ok = zero_active a.chunks a.active v.active_ok;
    int_size = v.int_size;
  },
  (zero_used a.chunks).0,
  (zero_used a.chunks).1,
)

-- `Close` leaves a valid arena with no memory, whatever the system answers. A second `Close` answers
-- with no error, and changes neither the arena nor the metrics.
pub close_twice :
    (os os' : Os) (a : Arena) (m : Metrics)
    → IsValid a
    → a.closed ≡ false
    → let (r, b, m') = close os a m in
      IsValid b × (capacity b ≡ 0) × (used_bytes b ≡ 0) × (close os' b m' ≡ (ok tt, b, m'))
unfolding close capacity used_bytes capacity_of used_of
close_twice os os' a m v e =
    rw e (record { mapped = tt; active_ok = refl; int_size = v.int_size }, refl, refl, refl)

-- Where a limit on the capacity is set and a new chunk has a size, the capacity with that chunk is at most the
-- limit.
pub next_size-le-max_cap :
    (a : Arena) (n size : ℕ)
    → 0 < a.max_cap
    → next_size a n ≡ some size
    → capacity_of a.chunks + size ≤ a.max_cap
unfolding next_size
next_size-le-max_cap a n size h e = ground arith
