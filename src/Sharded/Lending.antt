-- ===== src/Sharded/Lending.antt =====
-- What arena_sharded.go lends, and that its shards keep within their bounds.
use rustygo.Base.{
  bit_and, u64, ◌+◌, ℕ, zero, suc, ◌-◌, ◌^◌, ◌≤◌, ◌<◌, ◌≡◌, refl, ap, sym, ◌∙◌, ◌⊎◌, inl, inr, Bool,
  true, false, Option, some, List, [], ◌∷◌, ltb, ltb→lt, pos, ℤ, if◌then◌else◌, Result, ok, length,
  set, length-set, get_elem?, Bool-cases, arith,
}
use mathlib.Core.Path.{subst}
use native.Mathlib.Nat.{mod-lt, one-le-pow}
use rustygo.Base.Bits.{bit_and_low}
use rustygo.Base.Every.{All}
use rustygo.Memory.{Os, IsOs, Error}
use rustygo.Metrics.{Metrics}
use rustygo.Arena.State.{Arena, new_arena}
use rustygo.Arena.Marks.{reset}
use rustygo.Arena.Invariant.{IsValid}
use rustygo.Arena.Fresh.{IsUnused, new_arena-IsUnused}
use rustygo.Arena.Lifecycle.{reset_lem}
use rustygo.Sharded.{
  Shard, ShardedArenaPool, shard_index, counted, fresh, pop, take_from, Lent, borrow, closing, give,
  release,
}

-- A shard keeps valid arenas with nothing in use.
abbrev pub IsShard : Shard → Type 0
IsShard s = All IsUnused s.arenas × (length s.arenas ≤ s.max_arenas)

-- The number of shards is a power of two, the mask has the bits below it, and every shard is within its bound.
pub record IsPool (p : ShardedArenaPool) : Type 0 where
  pub power : ℕ
  pub count : length p.shards ≡ 2 ^ power
  pub low_bits : p.mask ≡ 2 ^ power - 1
  pub shards_ok : All IsShard p.shards

index-lt : (p : ShardedArenaPool) → IsPool p → shard_index p < length p.shards
index-lt p v =
    rw (v.low_bits, v.count, bit_and_low v.power p.counter)
      (mod-lt p.counter (one-le-pow v.power 2 (omega arith)))

get_elem?-some :
    (ss : List Shard) (i : ℕ)
    → i < length ss
    → All IsShard ss
    → (s : Shard) × (get_elem? ss i ≡ some s) × IsShard s
get_elem?-some [] i h v = absurd (omega arith)
get_elem?-some (s ∷ ss) zero h (v, vs) = (s, refl, v)
get_elem?-some (s ∷ ss) (suc i) h (v, vs) = get_elem?-some ss i (omega arith) vs

All-set :
    (ss : List Shard) (i : ℕ) (s : Shard) → All IsShard ss → IsShard s → All IsShard (set ss i s)
All-set [] i s vs v = tt
All-set (t ∷ ts) zero s (w, ws) v = (v, ws)
All-set (t ∷ ts) (suc i) s (w, ws) v = (w, All-set ts i s ws v)

IsPool-set :
    (p : ShardedArenaPool) (i : ℕ) (s : Shard)
    → IsPool p
    → IsShard s
    → IsPool (record p { shards = set p.shards i s })
IsPool-set p i s v w = record {
  power = v.power;
  count = length-set p.shards i s ∙ v.count;
  low_bits = v.low_bits;
  shards_ok = All-set p.shards i s v.shards_ok w;
}

-- The pool is open and its shard `i` has arenas: the call takes the first one out, resets it, and leaves the others.
abbrev pub FromShard : ShardedArenaPool → ℕ → Lent → Type 0
FromShard p i (r, q, m') =
    (s : Shard) × (a : Arena) × (rest : List Arena) × (p.closed ≡ false)
    × (get_elem? p.shards i ≡ some s)
    × (s.arenas ≡ a ∷ rest)
    × (r ≡ ok (reset a))
    × (q.shards ≡ set p.shards i (record { arenas = rest; max_arenas = s.max_arenas }))

-- The pool is closed or its shard `i` is empty: the call answers what `NewArena` does, and the shards stay.
abbrev pub FromNew : Os → Metrics → ShardedArenaPool → ℕ → Lent → Type 0
FromNew os m p i (r, q, m') =
    ((p.closed ≡ true) ⊎ ((s : Shard) × (get_elem? p.shards i ≡ some s) × (s.arenas ≡ [])))
    × ((r, m') ≡ new_arena os p.slab_size [] m)
    × (q.shards ≡ p.shards)

-- The pool stays as it should be, and an arena from a shard is valid and empty.
abbrev pub Lends : Os → Metrics → ShardedArenaPool → ℕ → Lent → Type 0
Lends os m p i (r, q, m') =
    IsPool q
    × ((FromShard p i (r, q, m') × ((a : Arena) × (r ≡ ok a) × IsUnused a))
        ⊎ FromNew os m p i (r, q, m'))

pop-Lends :
    (os : Os) (p : ShardedArenaPool) (m : Metrics) (i : ℕ) (s : Shard) (as' : List Arena)
    → p.closed ≡ false
    → get_elem? p.shards i ≡ some s
    → s.arenas ≡ as'
    → IsPool p
    → All IsUnused as'
    → length as' ≤ s.max_arenas
    → Lends os m p i (pop os p m i s.max_arenas as')
pop-Lends os p m i s [] open_pool found e v w h = (v, inr (inr (s, found, e), refl, refl))
pop-Lends os p m i s (a ∷ as') open_pool found e v (c, w) h =
    let (valid, empty, _) = reset_lem a c.0 in
    (
      IsPool-set p i (record { arenas = as'; max_arenas = s.max_arenas }) v (w, omega arith),
      inl ((s, a, as', open_pool, found, e, refl, refl), (reset a, refl, (valid, empty))),
    )

counted-IsPool : (p : ShardedArenaPool) → IsPool p → IsPool (counted p)
counted-IsPool p v = record {
  power = v.power;
  count = v.count;
  low_bits = v.low_bits;
  shards_ok = v.shards_ok;
}

borrow-Lends :
    (os : Os) (p : ShardedArenaPool) (m : Metrics)
    → IsPool p
    → Lends os m p (shard_index (counted p)) (borrow os p m)
unfolding borrow
borrow-Lends os p m v = elim (Bool-cases p.closed) [ inl e ↦ if_closed e | inr e ↦ if_open e ]
  where
    q : ShardedArenaPool
    q = counted p

    lent : Bool → Lent
    lent b =
        if b
        then fresh os p m
        else take_from os q m (shard_index q) (get_elem? q.shards (shard_index q))

    if_closed : p.closed ≡ true → Lends os m p (shard_index q) (lent p.closed)
    if_closed e =
        subst (λ (b : Bool). Lends os m p (shard_index q) (lent b)) (sym e)
          (v, inr (inl e, refl, refl))

    if_open : p.closed ≡ false → Lends os m p (shard_index q) (lent p.closed)
    if_open e =
        let w = counted-IsPool p v in
        let (s, found, ok_shard) =
          get_elem?-some q.shards (shard_index q) (index-lt q w) v.shards_ok in
        subst (λ (b : Bool). Lends os m p (shard_index q) (lent b)) (sym e)
          (subst
            (λ (o : Option Shard).
              Lends os m p (shard_index q) (take_from os q m (shard_index q) o))
            (sym found)
            (pop-Lends os q m (shard_index q) s s.arenas e found refl w ok_shard.0 ok_shard.1))

give-IsPool :
    (os : Os) (a : Arena) (p : ShardedArenaPool) (m : Metrics) (i : ℕ) (s : Shard)
    → IsPool p
    → IsUnused a
    → IsShard s
    → ((give os a p m i (some s)).0 ≡ ok tt) × IsPool (give os a p m i (some s)).1
give-IsPool os a p m i s v c (w, l) = elim (Bool-cases (ltb (length s.arenas) s.max_arenas)) [
  | inl room ↦ rw room (
    refl,
    IsPool-set p i (record { arenas = a ∷ s.arenas; max_arenas = s.max_arenas }) v
        ((c, w), ltb→lt _ _ room),
  )
  | inr full ↦ rw full (refl, v)
]

-- Borrow from a pool whose shards are within their bounds, with an int slab size and over a system that keeps its
-- promises, looks at the shard that the count of calls selects. If the pool is open and that shard has arenas, the
-- call takes the first one out of the shard, leaves every other arena in its place and returns the one taken,
-- reset; if the pool is closed or the shard is empty, it answers what NewArena answers and leaves the shards alone.
-- An arena that it returns is valid with nothing in use, and the shards stay within their bounds.
pub borrow-IsUnused :
    (os : Os) (p : ShardedArenaPool) (m : Metrics) (n : ℕ)
    → IsOs os
    → IsPool p
    → p.slab_size ≡ pos n
    → n < 2 ^ 63
    → let i = bit_and (u64 (p.counter + 1)) p.mask in
      IsPool (borrow os p m).1
      × (FromShard p i (borrow os p m) ⊎ FromNew os m p i (borrow os p m))
      × ((a : Arena) → (borrow os p m).0 ≡ ok a → IsUnused a)
borrow-IsUnused os p m n w v e h = go (borrow os p m) (borrow-Lends os p m v)
  where
    i : ℕ
    i = shard_index (counted p)

    ok_injective : {a b : Arena} → ◌≡◌ {A = Result Error Arena} (ok a) (ok b) → a ≡ b
    ok_injective t = cc

    go :
        (x : Lent)
        → Lends os m p i x
        → IsPool x.1
          × (FromShard p i x ⊎ FromNew os m p i x)
          × ((a : Arena) → x.0 ≡ ok a → IsUnused a)
    go x (k, inl (out, (a, same, u))) =
        (k, inl out, λ b t. subst IsUnused (ok_injective (sym same ∙ t)) u)
    go x (k, inr (which, same, kept)) =
        let made = ap (λ y. y.0) same ∙ ap (λ (z : ℤ). (new_arena os z [] m).0) e in
        (k, inr (which, same, kept), λ b t. new_arena-IsUnused os n m b w h (sym made ∙ t))

-- Release of a valid arena to a pool whose shards are within their bounds returns without a panic, and the shards
-- stay within their bounds with valid and empty arenas.
pub release-IsPool :
    (os : Os) (p : ShardedArenaPool) (a : Arena) (m : Metrics)
    → IsPool p
    → IsValid a
    → ((release os p (some a) m).0 ≡ ok tt) × IsPool (release os p (some a) m).1
unfolding release
release-IsPool os p a m v h = elim (Bool-cases p.closed) [
  | inl e ↦ subst (λ (b : Bool). Kept (released b)) (sym e) (refl, v)
  | inr e ↦
      let w = counted-IsPool p v in
      let (s, found, ok_shard) =
        get_elem?-some q.shards (shard_index q) (index-lt q w) v.shards_ok in
      subst (λ (b : Bool). Kept (released b)) (sym e)
        (subst (λ (o : Option Shard). Kept (give os (reset a) q m (shard_index q) o)) (sym found)
          (give-IsPool os (reset a) q m (shard_index q) s w ((reset_lem a h).0, (reset_lem a h).1)
            ok_shard))
]
  where
    q : ShardedArenaPool
    q = counted p

    Kept : Result Error (Unit {0}) × ShardedArenaPool × Metrics → Type 0
    Kept r = (r.0 ≡ ok tt) × IsPool r.1

    released : Bool → Result Error (Unit {0}) × ShardedArenaPool × Metrics
    released b =
        if b
        then closing os a p m
        else give os (reset a) q m (shard_index q) (get_elem? q.shards (shard_index q))
