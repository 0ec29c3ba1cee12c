-- ===== src/Sharded.antt =====
-- arena_sharded.go: a pool of arenas in shards. The locks are not modelled: every call runs alone. An arena is
-- its state, and a shard has its arenas with the last one first.
pub mod Lending
pub mod Making
use rustygo.Base.{
  ℕ, zero, suc, ◌+◌, ◌*◌, ◌-◌, Bool, true, false, Option, none, some, List, [], ◌∷◌, if◌then◌else◌,
  ltb, ℤ, pos, pos_part, is_positive, bit_and, u64, Result, ok, err, panic, index_range, length,
  replicate, get_elem?, set, map,
}
use rustygo.Memory.{Os, Error}
use rustygo.Metrics.{Metrics}
use rustygo.Arena.State.{Arena, new_arena}
use rustygo.Arena.Marks.{reset, close as arena_close}

pub record Shard : Type 0 where
  pub arenas : List Arena
  pub max_arenas : ℕ

pub record ShardedArenaPool : Type 0 where
  pub shards : List Shard
  pub mask : ℕ
  pub slab_size : ℤ
  pub counter : ℕ
  pub closed : Bool

-- `for shardsCount < n`, with at most as many rounds as the fuel.
unfoldable pub round_up : ℕ → ℕ → ℕ → ℕ
round_up zero count n = count
round_up (suc fuel) count n =
    let more = round_up fuel (count * 2) n in if ltb count n then more else count

-- `procs` is `runtime.GOMAXPROCS(0)`.
abbrev pub wanted_shards : ℕ → ℕ
wanted_shards procs = let n = procs * 2 in if ltb n 4 then 4 else n

abbrev pub shards_count : ℕ → ℕ
shards_count procs = round_up (wanted_shards procs) 1 (wanted_shards procs)

abbrev pub empty_shard : ℕ → Shard
empty_shard n = record { arenas = []; max_arenas = n }

unfoldable pub new_sharded_arena_pool : ℕ → ℤ → ℤ → ShardedArenaPool
unfolding round_up
new_sharded_arena_pool procs slab_size max_per_shard = record {
  shards =
      replicate (shards_count procs)
        (empty_shard (if is_positive max_per_shard then pos_part max_per_shard else 32));
  mask = shards_count procs - 1;
  slab_size = if is_positive slab_size then slab_size else pos 65536;
  counter = 0;
  closed = false;
}

-- `atomic.AddUint64(&p.counter, 1)`
abbrev pub counted : ShardedArenaPool → ShardedArenaPool
counted p = record p { counter = u64 (p.counter + 1) }

abbrev pub shard_index : ShardedArenaPool → ℕ
shard_index p = bit_and p.counter p.mask

abbrev pub Lent : Type 0
Lent = Result Error Arena × ShardedArenaPool × Metrics

abbrev pub fresh : Os → ShardedArenaPool → Metrics → Lent
fresh os p m = let (r, m') = new_arena os p.slab_size [] m in (r, p, m')

abbrev pub pop : Os → ShardedArenaPool → Metrics → ℕ → ℕ → List Arena → Lent
pop os p m i n [] = fresh os p m
pop os p m i n (a ∷ as') = (
  ok (reset a),
  record p { shards = set p.shards i (record { arenas = as'; max_arenas = n }) },
  m,
)

abbrev pub take_from : Os → ShardedArenaPool → Metrics → ℕ → Option Shard → Lent
take_from os p m i none = (panic index_range, p, m)
take_from os p m i (some s) = pop os p m i s.max_arenas s.arenas

unfoldable pub borrow : Os → ShardedArenaPool → Metrics → Lent
borrow os p m =
    let q = counted p in
    if p.closed
    then fresh os p m
    else take_from os q m (shard_index q) (get_elem? q.shards (shard_index q))

-- `a.Close()`, its error dropped.
abbrev pub closing :
    Os → Arena → ShardedArenaPool → Metrics → Result Error (Unit {0}) × ShardedArenaPool × Metrics
closing os a p m = let (r, a', m') = arena_close os a m in (ok tt, p, m')

abbrev pub give :
    Os
    → Arena
    → ShardedArenaPool
    → Metrics
    → ℕ
    → Option Shard
    → Result Error (Unit {0}) × ShardedArenaPool × Metrics
give os a p m i none = (panic index_range, p, m)
give os a p m i (some s) =
    if ltb (length s.arenas) s.max_arenas
    then (ok tt, record p { shards = set p.shards i (record s { arenas = a ∷ s.arenas }) }, m)
    else closing os a p m

-- `none` is the nil arena.
unfoldable pub release :
    Os
    → ShardedArenaPool
    → Option Arena
    → Metrics
    → Result Error (Unit {0}) × ShardedArenaPool × Metrics
release os p none m = (ok tt, p, m)
release os p (some a) m =
    let q = counted p in
    if p.closed
    then closing os a p m
    else give os (reset a) q m (shard_index q) (get_elem? q.shards (shard_index q))

-- The order in which the arenas are closed does not show.
unfoldable pub close_arenas : Os → List Arena → Metrics → Metrics
close_arenas os [] m = m
close_arenas os (a ∷ as') m = let (r, a', m') = arena_close os a m in close_arenas os as' m'

unfoldable pub close_shards : Os → List Shard → Metrics → Metrics
unfolding close_arenas
close_shards os [] m = m
close_shards os (s ∷ ss) m = close_shards os ss (close_arenas os s.arenas m)

unfoldable pub close : Os → ShardedArenaPool → Metrics → ShardedArenaPool × Metrics
unfolding close_shards
close os p m = if p.closed then (p, m) else (
  record p { closed = true; shards = map {A = Shard} (λ s. record s { arenas = [] }) p.shards },
  close_shards os p.shards m,
)
