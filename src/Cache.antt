-- ===== src/Cache.antt =====
-- `ArenaCache` of cache.go: two generations, each an arena with its scope, its entries and its memory.
-- The locks are not modelled: every call runs alone.
pub mod Memory
pub mod Carve
pub mod Stored
pub mod Lookups
pub mod Promotion
pub mod Rotation
use rustygo.Base.{
  ℕ, ◌+◌, ◌-◌, Bool, true, false, ◌&&◌, Option, none, some, List, [], ◌∷◌, ◌==◌, if◌then◌else◌, ltb,
  ℤ, pos, pos_part, is_positive, Result, ok, err, panic, ◌>>=◌, length,
}
use rustygo.Memory.{Os, Error}
use rustygo.Metrics.{Metrics}
use rustygo.Arena.State.{Arena, Slice, new_arena}
use rustygo.Arena.Marks.{reset as arena_reset, close as arena_close}
use rustygo.Scope.{Scope, Bytes, enter_scope, exit}
use rustygo.Scope.Typed.{TypeParam, Storage, on_heap, in_arena, scalar, alloc_slice}
use rustygo.Cache.Memory.{read, write, same_bytes}

-- `cacheEntry`; `Slice` lies in the arena of the entry's generation.
pub record Entry : Type 0 where
  pub key : Slice
  pub val : Slice

-- The map, by the bytes of the key.
abbrev pub Entries : Type 0
Entries = List (List ℕ × Entry)

-- `first` tells the two generations apart, as their addresses do.
pub record Generation : Type 0 where
  pub first : Bool
  pub arena : Arena
  pub scope : Scope (Unit {0})
  pub entries : Entries
  pub used : ℕ
  pub bytes : Bytes

pub record ArenaCache : Type 0 where
  pub active : Generation
  pub old : Generation
  pub max_gen_bytes : ℕ
  pub closed : Bool

-- A byte slice of the caller's, or one in the arena of a generation.
pub data Val : Type 0 where
  outside : List ℕ → Val
  inside : Bool → Slice → Val

abbrev pub Called : Type 0 → Type 0
Called A = Result Error A × ArenaCache × Metrics

unfoldable pub lookup : List ℕ → Entries → Option Entry
lookup key [] = none
lookup key ((k, e) ∷ es) = let rest = lookup key es in if same_bytes key k then some e else rest

unfoldable pub remove : List ℕ → Entries → Entries
remove key [] = []
remove key ((k, e) ∷ es) =
    let rest = remove key es in if same_bytes key k then rest else (k, e) ∷ rest

abbrev pub put : List ℕ → Entry → Entries → Entries
put key e es = (key, e) ∷ remove key es

-- New mappings are zero.
abbrev opened : Bool → Result Error Arena × Metrics → Result Error Generation × Metrics
opened first (ok a, m) =
    let (s, m') = enter_scope a m in
    (
      ok (record { first = first; arena = a; scope = s; entries = []; used = 0; bytes = λ _ _. 0 }),
      m',
    )
opened first (err e, m) = (err e, m)
opened first (panic p, m) = (panic p, m)

unfoldable pub new_cache_generation : Os → ℤ → Bool → Metrics → Result Error Generation × Metrics
new_cache_generation os size first m = opened first (new_arena os size [] m)

-- `if g.scope.Active() { g.scope.Exit() }`
abbrev pub leave : Generation → Metrics → Result Error (Bytes × Metrics)
leave g m =
    if g.scope.active
    then (exit g.scope tt g.bytes m >>= λ e. ok (e.bytes, e.metrics))
    else ok (g.bytes, m)

abbrev pub reopened : Generation → Bytes × Metrics → Generation × Metrics
reopened g (bytes, m) =
    let (s, m') = enter_scope (arena_reset g.arena) m in
    (record g { arena = arena_reset g.arena; scope = s; entries = []; used = 0; bytes = bytes }, m')

unfoldable pub reset : Generation → Metrics → Result Error (Generation × Metrics)
reset g m = leave g m >>= λ x. ok (reopened g x)

abbrev released : Os → Generation → Bytes × Metrics → Generation × Metrics
released os g (bytes, m) =
    let (r, a, m') = arena_close os g.arena m in (record g { arena = a; bytes = bytes }, m')

-- The error of `Close` is dropped. The scope is not used again.
unfoldable pub close_generation : Os → Generation → Metrics → Result Error (Generation × Metrics)
close_generation os g m = leave g m >>= λ x. ok (released os g x)

abbrev with_old :
    ℕ → Generation → Result Error Generation × Metrics → Result Error ArenaCache × Metrics
with_old size g (ok h, m) =
    (ok (record { active = g; old = h; max_gen_bytes = size; closed = false }), m)
with_old size g (err e, m) = (err e, m)
with_old size g (panic p, m) = (panic p, m)

abbrev with_active : Os → ℕ → Result Error Generation × Metrics → Result Error ArenaCache × Metrics
with_active os size (ok g, m) = with_old size g (new_cache_generation os (pos size) false m)
with_active os size (err e, m) = (err e, m)
with_active os size (panic p, m) = (panic p, m)

abbrev pub default_gen_bytes : ℕ
default_gen_bytes = 8388608

unfoldable pub new_arena_cache : Os → ℤ → Metrics → Result Error ArenaCache × Metrics
new_arena_cache os size m =
    let n = if is_positive size then pos_part size else default_gen_bytes in
    with_active os n (new_cache_generation os (pos n) true m)

abbrev pub val_length : Val → ℕ
val_length (outside bs) = length bs
val_length (inside first s) = s.hi - s.lo

abbrev pub same_flag : Bool → Bool → Bool
same_flag true b = b
same_flag false true = false
same_flag false false = true

-- The bytes that a slice has now.
unfoldable pub contents : ArenaCache → Val → List ℕ
contents c (outside bs) = bs
contents c (inside first s) =
    if same_flag first c.active.first then read c.active.bytes s else read c.old.bytes s

-- Where the entry does not fit: the old generation is cleared, and the two change places.
unfoldable pub rotate : ArenaCache → ℕ → Metrics → Result Error (ArenaCache × Metrics)
unfolding reset
rotate c n m =
    if ltb c.max_gen_bytes (c.active.used + n)
    then (reset c.old m >>= λ x. ok (record c { active = x.0; old = c.active }, x.1))
    else ok (c, m)

abbrev pub byte_param : TypeParam
byte_param = record { shape = scalar; size = 1; align = 1 }

-- A slice of bytes is never on the heap.
abbrev pub slice_in : Storage → Slice
slice_in on_heap = record { chunk = 0; lo = 0; hi = 0 }
slice_in (in_arena s) = s

abbrev pub carved :
    ArenaCache → Result Error Storage × Arena × Scope (Unit {0}) → Result Error Slice × ArenaCache
carved c (r, a, s) =
    (r >>= λ x. ok (slice_in x), record c { active = record c.active { arena = a; scope = s } })

-- `AllocSlice[byte](c.active.scope, n)`
unfoldable pub carve : Os → ArenaCache → ℕ → Result Error Slice × ArenaCache
carve os c n = carved c (alloc_slice os c.active.arena c.active.scope byte_param (pos n))

abbrev pub copy_to : ArenaCache → Slice → List ℕ → ArenaCache
copy_to c s src = record c { active = record c.active { bytes = write c.active.bytes s src } }

abbrev pub enter : ArenaCache → List ℕ → Entry → ℕ → ArenaCache
enter c key e n = record c {
  active = record c.active { entries = put key e c.active.entries; used = c.active.used + n };
}

abbrev pub store_val :
    List ℕ → Val → Slice → Result Error Slice × ArenaCache → Result Error (Unit {0}) × ArenaCache
store_val key v k_buf (ok v_buf, c) = (
  ok tt,
  enter (copy_to c v_buf (contents c v)) key (record { key = k_buf; val = v_buf })
      (length key + val_length v),
)
store_val key v k_buf (err e, c) = (err e, c)
store_val key v k_buf (panic p, c) = (panic p, c)

abbrev pub store_key :
    Os → List ℕ → Val → Result Error Slice × ArenaCache → Result Error (Unit {0}) × ArenaCache
store_key os key v (ok k_buf, c) =
    let c' = copy_to c k_buf key in store_val key v k_buf (carve os c' (val_length v))
store_key os key v (err e, c) = (err e, c)
store_key os key v (panic p, c) = (panic p, c)

abbrev pub store :
    Os
    → List ℕ
    → Val
    → ArenaCache
    → Metrics
    → Result Error (ArenaCache × Metrics)
    → Called (Unit {0})
store os key v c m (ok (c', m')) =
    let (r, c'') = store_key os key v (carve os c' (length key)) in (r, c'', m')
store os key v c m (err e) = (err e, c, m)
store os key v c m (panic p) = (panic p, c, m)

unfoldable pub set : Os → ArenaCache → List ℕ → Val → Metrics → Called (Unit {0})
unfolding carve rotate contents
set os c key v m =
    if c.closed then (ok tt, c, m) else store os key v c m (rotate c (length key + val_length v) m)

abbrev pub answered : Val → Called (Unit {0}) → Called (Option Val)
answered v (ok u, c, m) = (ok (some v), c, m)
answered v (err e, c, m) = (err e, c, m)
answered v (panic p, c, m) = (panic p, c, m)

-- An entry of the old generation is set again.
abbrev pub get_old : Os → ArenaCache → List ℕ → Metrics → Option Entry → Called (Option Val)
get_old os c key m none = (ok none, c, m)
get_old os c key m (some e) = let v = inside c.old.first e.val in answered v (set os c key v m)

abbrev pub get_active : Os → ArenaCache → List ℕ → Metrics → Option Entry → Called (Option Val)
get_active os c key m (some e) = (ok (some (inside c.active.first e.val)), c, m)
get_active os c key m none = get_old os c key m (lookup key c.old.entries)

-- `none` is the answer `nil, false`.
unfoldable pub get : Os → ArenaCache → List ℕ → Metrics → Called (Option Val)
unfolding lookup set
get os c key m =
    let found = get_active os c key m (lookup key c.active.entries) in
    if c.closed then (ok none, c, m) else found

-- `AllocSlice[byte]` of the caller's scope: whether it panics.
abbrev pub ScopeAlloc : Type 0
ScopeAlloc = ℤ → Result Error (Unit {0})

abbrev pub copied_out : Option ScopeAlloc → Called (Option Val) → Called (Option Val)
copied_out none (r, c, m) = (r, c, m)
copied_out (some alloc) (ok (some v), c, m) =
    (alloc (pos (val_length v)) >>= λ _. ok (some (outside (contents c v))), c, m)
copied_out (some alloc) (r, c, m) = (r, c, m)

unfoldable pub get_scope :
    Os → ArenaCache → List ℕ → Option ScopeAlloc → Metrics → Called (Option Val)
get_scope os c key scope m = copied_out scope (get os c key m)

unfoldable pub delete : ArenaCache → List ℕ → ArenaCache
unfolding remove
delete c key = record c {
  active = record c.active { entries = remove key c.active.entries };
  old = record c.old { entries = remove key c.old.entries };
}

unfoldable pub len : ArenaCache → ℕ
len c = length c.active.entries

unfoldable pub close : Os → ArenaCache → Metrics → Result Error (ArenaCache × Metrics)
unfolding close_generation
close os c m =
    if c.closed
    then ok (c, m)
    else (close_generation os c.active m >>= λ x. close_generation os c.old x.1 >>= λ y.
        ok (record c { active = x.0; old = y.0; closed = true }, y.1))
