-- ===== src/Sharded/Making.antt =====
-- What `NewShardedArenaPool` of arena_sharded.go makes.
use rustygo.Base.{
  ℕ, zero, suc, ◌+◌, ◌*◌, ◌-◌, ◌^◌, ◌≤◌, ◌<◌, ◌≡◌, refl, ap, ◌∙◌, inl, inr, ltb, replicate,
  length-replicate, is_positive, pos_part, ℤ, if◌then◌else◌, length, Bool-cases, arith,
}
use native.Mathlib.Nat.{pow-suc}
use rustygo.Base.Every.{All}
use rustygo.Sharded.{round_up, wanted_shards, new_sharded_arena_pool, shards_count, empty_shard}
use rustygo.Sharded.Lending.{IsPool, IsShard}

round_up-power : (fuel k n : ℕ) → (j : ℕ) × (round_up fuel (2 ^ k) n ≡ 2 ^ j)
unfolding round_up
round_up-power zero k n = (k, refl)
round_up-power (suc fuel) k n = elim (Bool-cases (ltb (2 ^ k) n)) [
  | inl less ↦
      let (j, e) = round_up-power fuel (suc k) n in
      (j, rw less (ap (λ (c : ℕ). round_up fuel c n) (omega (arith, pow-suc 2 k)) ∙ e))
  | inr enough ↦ (k, rw enough refl)
]

round_up-ge : (fuel count n : ℕ) → 0 < count → n ≤ count + fuel → n ≤ round_up fuel count n
unfolding round_up
round_up-ge zero count n h k = omega arith
round_up-ge (suc fuel) count n h k =
    ground (arith, round_up-ge fuel (count * 2) n (omega arith) (omega arith))

new_shards : (c n : ℕ) → All IsShard (replicate c (empty_shard n))
new_shards zero n = tt
new_shards (suc c) n = ((tt, omega arith), new_shards c n)

wanted-ge : (procs : ℕ) → (4 ≤ wanted_shards procs) × (procs * 2 ≤ wanted_shards procs)
wanted-ge procs = ground arith

-- NewShardedArenaPool makes a pool whose shards are within their bounds, with at least four shards and at least
-- two for each processor.
pub new_sharded_arena_pool-IsPool :
    (procs : ℕ) (slab_size max_per_shard : ℤ)
    → IsPool (new_sharded_arena_pool procs slab_size max_per_shard)
      × (4 ≤ length (new_sharded_arena_pool procs slab_size max_per_shard).shards)
      × (procs * 2 ≤ length (new_sharded_arena_pool procs slab_size max_per_shard).shards)
unfolding new_sharded_arena_pool
new_sharded_arena_pool-IsPool procs slab_size max_per_shard =
    let n = if is_positive max_per_shard then pos_part max_per_shard else 32 in
    let count : length (replicate (shards_count procs) (empty_shard n)) ≡ shards_count procs =
      length-replicate (shards_count procs) (empty_shard n) in
    let enough : wanted_shards procs ≤ shards_count procs =
      round_up-ge (wanted_shards procs) 1 (wanted_shards procs) (omega arith) (omega arith) in
    let (k, power) = round_up-power (wanted_shards procs) 0 (wanted_shards procs) in
    (
      record {
        power = k;
        count = count ∙ power;
        low_bits = ap (λ (c : ℕ). c - 1) power;
        shards_ok = new_shards (shards_count procs) n;
      },
      rw count (omega (arith, (wanted-ge procs).0)),
      rw count (omega (arith, (wanted-ge procs).1)),
    )
