-- ===== src/Tests/Stores.antt =====
-- Sharded arena pools and the tuner with concrete values.
use rustygo.Base.{
  List, false, ltb_ℤ, length, replicate, length-replicate, ◌⊎◌, ℕ, ◌+◌, ◌%◌, ◌≤◌, ◌<◌, ◌≡◌, refl,
  some, none, true, Option, inr, [], ◌∷◌, arith, ℤ, pos, ok, add_int,
}
use rustygo.Sharded.{ShardedArenaPool, new_sharded_arena_pool, borrow, release}
use rustygo.Sharded.Lending.{IsPool, FromShard, FromNew, borrow-IsUnused, release-IsPool}
use rustygo.Sharded.Making.{new_sharded_arena_pool-IsPool}
use rustygo.Arena.State.{Arena}
use rustygo.Arena.Fresh.{IsUnused}
use rustygo.AutoTuner.{AutoTuner, new_auto_tuner, calibrate, site, recommended_size}
use rustygo.AutoTuner.Sizes.{recommended_size_lem}
use rustygo.Session.{Buf, BufPool, Session, borrow as session_borrow}
use rustygo.Session.Recycling.{
  IsBufPool, Call, releasing, borrowing, using, IsCall, run, Sized, run-Within,
}
use rustygo.Base.Every.{All}
use rustygo.Tests.Data.{test_os, test_os-IsOs, test_arena, test_arena-IsValid, test_metrics}

abbrev small_pool : ShardedArenaPool
small_pool = new_sharded_arena_pool 3 (pos 4096) (pos 1)

small_pool-IsPool : IsPool small_pool
small_pool-IsPool = (new_sharded_arena_pool-IsPool 3 (pos 4096) (pos 1)).0

abbrev after_release : ShardedArenaPool
after_release = (release test_os small_pool (some (test_arena 0)) test_metrics).1

release-IsPool_example :
    ((release test_os small_pool (some (test_arena 0)) test_metrics).0 ≡ ok tt)
    × IsPool after_release
release-IsPool_example =
    release-IsPool test_os small_pool (test_arena 0) test_metrics small_pool-IsPool
      (test_arena-IsValid 0)

-- The counter comes back to the shard with the arena.
abbrev refilled : ShardedArenaPool
refilled = record after_release { counter = 0 }

refilled-IsPool : IsPool refilled
refilled-IsPool =
    let p =
      (release-IsPool test_os small_pool (test_arena 0) test_metrics small_pool-IsPool
        (test_arena-IsValid 0)).1 in
    record { power = p.power; count = p.count; low_bits = p.low_bits; shards_ok = p.shards_ok }

borrow-IsUnused_example :
    IsPool (borrow test_os refilled test_metrics).1
    × (FromShard refilled 1 (borrow test_os refilled test_metrics)
        ⊎ FromNew test_os test_metrics refilled 1 (borrow test_os refilled test_metrics))
    × ((a : Arena) → (borrow test_os refilled test_metrics).0 ≡ ok a → IsUnused a)
unfolding new_sharded_arena_pool release
borrow-IsUnused_example =
    borrow-IsUnused test_os refilled test_metrics 4096 test_os-IsOs refilled-IsPool refl
      (omega arith)

-- Products that keep the old value and add a quarter.
abbrev average : ℤ → ℤ → ℤ
average old new = old

abbrev headroom : ℤ → ℤ
headroom n = add_int n (pos 1250)

abbrev tuner : AutoTuner
tuner = calibrate average headroom (new_auto_tuner (pos 4096) (pos 65536)) 7 (pos 5000)

calibrated : site 7 tuner.sites ≡ some (record { estimated_bytes = pos 5000; samples = pos 1 })
unfolding calibrate new_auto_tuner
calibrated = refl

recommended_size_lem_example :
    (r : ℕ) × (recommended_size average headroom tuner 7 ≡ pos r)
    × (r % 4096 ≡ 0)
    × (4096 ≤ r)
    × (r < 65536 + 4096)
unfolding calibrate new_auto_tuner
recommended_size_lem_example =
    recommended_size_lem average headroom tuner 7
      (record { estimated_bytes = pos 5000; samples = pos 1 }) 4096 65536 refl refl (omega arith)
      (omega arith) calibrated

-- A `sync.Pool` that keeps one buffer at most.
abbrev one_buffer : BufPool (Option Buf)
one_buffer = record { get = λ q. (q, none); put = λ q b. some b; new = none }

abbrev Has : Option Buf → Buf → Type 0
Has q b = q ≡ some b

one_buffer-IsBufPool : IsBufPool one_buffer Has
one_buffer-IsBufPool = record {
  from_put = λ q b c e. inr cc;
  from_get = λ q b e. e;
  less = λ q c e. absurd cc;
  from_new = λ b e. cc;
}

abbrev new_one : Session (Option Buf)
new_one = record { pool = none; max_retain = pos 8; zero_on_release = true; hits = 0; misses = 0 }

abbrev used_buf : Buf
used_buf = record { mem = 1 ∷ 2 ∷ 3 ∷ []; len = 2 }

-- The buffer is kept, lent to a function that writes 7, 7 and 7, and kept again; the request above 16 panics.
abbrev session_calls : List Call
session_calls =
    releasing (some used_buf)
    ∷ using (pos 3) (λ b. (0, replicate (length b.mem) 7))
    ∷ borrowing (pos 17)
    ∷ releasing (some used_buf)
    ∷ []

session_calls-IsCall : All IsCall session_calls
session_calls-IsCall =
    (omega arith, (λ b. length-replicate {A = ℕ} (length b.mem) 7, (tt, (omega arith, tt))))

-- After the calls a request for 3 bytes is served from the buffer that is kept.
run-Within_example :
    ((b : Buf)
      → (run one_buffer 16 new_one session_calls).pool ≡ some b
      → ltb_ℤ (pos 8) (pos (length b.mem)) ≡ false)
    × Sized 16 3 (session_borrow one_buffer 16 (run one_buffer 16 new_one session_calls) (pos 3)).0
run-Within_example =
    run-Within one_buffer 16 Has one_buffer-IsBufPool new_one session_calls 3 refl
      session_calls-IsCall (omega arith)
