-- ===== src/Pool.antt =====
-- pool.go: the pool of objects, one call after the other. An object is a number, with its raw bytes in `memory`; the
-- lock-free stack is a list of objects, as Race shows.
pub mod Race
pub mod Reuse
use rustygo.Base.{
  ℕ, zero, suc, ◌+◌, ◌*◌, Bool, true, false, Option, none, some, List, [], ◌∷◌, ℤ, pos, negsuc,
  leb_ℤ, add_int, ◌==◌, if◌then◌else◌, Result, ok, err, panic, free_nil, double_free,
  no_constructor, length, replicate, map,
}
use rustygo.Memory.{Error}

pub data PoolBackend : Type 0 where
  treiber sync : PoolBackend

-- `sync.Pool` without `New`: `Get` hands out something that was put in, or nil.
pub record SyncPool (S : Type 0) : Type 0 where
  pub get : S → Option ℕ × S
  pub put : S → ℕ → S

-- `tracker` is none where the build has no `rustygo_debug`. `made` counts the calls of `newFn`, which make the
-- objects 0, 1 and so on.
pub record Pool (S : Type 0) : Type 0 where
  pub stack : List ℕ
  pub sync_pool : S
  pub backend : PoolBackend
  pub reset_fn : Option (List ℕ → List ℕ)
  pub zero_on_free : Bool
  pub poison_on_free : Bool
  pub poison_pattern : ℕ
  pub tracker : Option (ℕ → Bool)
  pub in_use : ℤ
  pub total : ℤ
  pub peak : ℤ
  pub made : ℕ
  pub memory : ℕ → List ℕ

abbrev pub put_at : {A : Type 0} → (ℕ → A) → ℕ → A → ℕ → A
put_at f o a x = if x == o then a else f x

unfoldable pub update_peak : ℤ → ℤ → ℤ
update_peak peak val = if leb_ℤ val peak then peak else val

abbrev pub tracking : Option (ℕ → Bool) → ℕ → Bool → Option (ℕ → Bool)
tracking none o b = none
tracking (some t) o b = some (put_at t o b)

-- The set must have the object; without the debug build there is no test.
abbrev pub is_tracked : Option (ℕ → Bool) → ℕ → Bool
is_tracked none o = true
is_tracked (some t) o = t o

abbrev pub PoolOption : Type 0 → Type 0
PoolOption S = Pool S → Pool S

module _ {S : Type 0} where
  unfoldable pub with_pool_backend : PoolBackend → PoolOption S
  with_pool_backend b p = record p { backend = b }

  unfoldable pub with_reset_fn : (List ℕ → List ℕ) → PoolOption S
  with_reset_fn f p = record p { reset_fn = some f }

  unfoldable pub with_zero_on_free : PoolOption S
  with_zero_on_free p = record p { zero_on_free = true }

  unfoldable pub with_poison_on_free : ℕ → PoolOption S
  with_poison_on_free pattern_byte p = record p {
    poison_on_free = true;
    poison_pattern = pattern_byte;
  }

  abbrev pub apply_option : Option (PoolOption S) → Pool S → Pool S
  apply_option none p = p
  apply_option (some opt) p = opt p

  unfoldable pub apply_options : List (Option (PoolOption S)) → Pool S → Pool S
  apply_options [] p = p
  apply_options (o ∷ os) p = apply_options os (apply_option o p)

  -- `debug` is `poolDebug`; `has_new` says that `newFn` is not nil.
  unfoldable pub new_pool :
      (debug has_new : Bool) → S → List (Option (PoolOption S)) → Result Error (Pool S)
  unfolding apply_options
  new_pool debug has_new s opts =
      if has_new
      then ok (
          apply_options opts (record {
            stack = [];
            sync_pool = s;
            backend = treiber;
            reset_fn = none;
            zero_on_free = false;
            poison_on_free = false;
            poison_pattern = 0;
            tracker = if debug then some (λ o. false) else none;
            in_use = pos 0;
            total = pos 0;
            peak = pos 0;
            made = 0;
            memory = λ o. [];
          }))
      else panic no_constructor

  unfoldable pub new_sync_pool :
      (debug has_new : Bool) → S → List (Option (PoolOption S)) → Result Error (Pool S)
  unfolding new_pool with_pool_backend
  new_sync_pool debug has_new s opts =
      new_pool debug has_new s (some (with_pool_backend sync) ∷ opts)

  unfoldable pub debug_mark_alloc : Pool S → ℕ → Pool S
  debug_mark_alloc p o = record p { tracker = tracking p.tracker o true }

  unfoldable pub debug_mark_free : Pool S → ℕ → Pool S
  debug_mark_free p o = record p { tracker = tracking p.tracker o false }

module _ {S : Type 0} (sp : SyncPool S) (new_fn : ℕ → List ℕ) where
  -- `atomic.AddInt64(&p.total, 1)` and `p.newFn()`, whose object has the bytes that `new_fn` says.
  unfoldable pub make : Pool S → ℕ × Pool S
  make p = (
    p.made,
    record p {
      total = add_int p.total (pos 1);
      made = suc p.made;
      memory = put_at p.memory p.made (new_fn p.made);
    },
  )

  abbrev pub take_sync : Pool S → Option ℕ × S → ℕ × Pool S
  unfolding make
  take_sync p (none, s) = make (record p { sync_pool = s })
  take_sync p (some o, s) = (o, record p { sync_pool = s })

  unfoldable pub alloc_treiber : Pool S → List ℕ → ℕ × Pool S
  unfolding make
  alloc_treiber p [] = make p
  alloc_treiber p (o ∷ os) = (o, record p { stack = os })

  abbrev pub take_object : Pool S → PoolBackend → ℕ × Pool S
  unfolding alloc_treiber make
  take_object p sync = take_sync p (sp.get p.sync_pool)
  take_object p treiber = alloc_treiber p p.stack

  abbrev pub count_alloc : ℕ × Pool S → ℕ × Pool S
  unfolding debug_mark_alloc update_peak
  count_alloc (o, p) =
      let n = add_int p.in_use (pos 1) in
      (o, record (debug_mark_alloc p o) { in_use = n; peak = update_peak p.peak n })

  unfoldable pub alloc : Pool S → ℕ × Pool S
  unfolding alloc_treiber make debug_mark_alloc update_peak
  alloc p = count_alloc (take_object p p.backend)

  abbrev pub reset_bytes : Option (List ℕ → List ℕ) → List ℕ → List ℕ
  reset_bytes none bs = bs
  reset_bytes (some f) bs = f bs

  unfoldable pub poison_object : ℕ → List ℕ → List ℕ
  poison_object pattern_byte bs = replicate (length bs) pattern_byte

  -- What `Free` leaves in the object: the reset function, then zeroes, then the pattern.
  unfoldable pub wiped : Pool S → List ℕ → List ℕ
  unfolding poison_object
  wiped p bs =
      let a = reset_bytes p.reset_fn bs in
      let b = if p.zero_on_free then replicate (length a) 0 else a in
      if p.poison_on_free then poison_object p.poison_pattern b else b

  abbrev pub give_back : Pool S → ℕ → PoolBackend → Pool S
  give_back p o sync = record p { sync_pool = sp.put p.sync_pool o }
  give_back p o treiber = record p { stack = o ∷ p.stack }

  -- The object behind the reset, the zeroes and the pattern, and the pool that takes it back.
  unfoldable pub overwritten : Pool S → ℕ → Pool S
  unfolding wiped
  overwritten p o = record p { memory = put_at p.memory o (wiped p (p.memory o)) }

  unfoldable pub accepted : Pool S → ℕ → Pool S
  unfolding debug_mark_free overwritten
  accepted p o = record (give_back (debug_mark_free (overwritten p o) o) o p.backend) {
    in_use = add_int p.in_use (negsuc 0);
  }

  -- `none` is the nil pointer. The object is wiped before the test of the tracker.
  unfoldable pub free : Pool S → Option ℕ → Result Error (Unit {0}) × Pool S
  unfolding accepted overwritten
  free p none = (panic free_nil, p)
  free p (some o) =
      if is_tracked p.tracker o then (ok tt, accepted p o) else (panic double_free, overwritten p o)

  -- A panic of the deferred `Release` takes the place of the result.
  abbrev pub after_release :
      Result Error (Unit {0}) → Result Error (Unit {0}) × Pool S → Result Error (Unit {0}) × Pool S
  after_release r (ok u, p) = (r, p)
  after_release r (err e, p) = (r, p)
  after_release r (panic x, p) = (panic x, p)

  abbrev pub run_borrowed :
      (ℕ → Pool S → Result Error (Unit {0}) × Pool S)
      → ℕ × Pool S
      → Result Error (Unit {0}) × Pool S
  unfolding free
  run_borrowed f (o, p) = let (r, p') = f o p in after_release r (free p' (some o))

  unfoldable pub with_borrow :
      Pool S
      → Option (ℕ → Pool S → Result Error (Unit {0}) × Pool S)
      → Result Error (Unit {0}) × Pool S
  unfolding alloc free
  with_borrow p none = (ok tt, p)
  with_borrow p (some f) = run_borrowed f (alloc p)

pub record PoolStats : Type 0 where
  pub backend : PoolBackend
  pub total_objects : ℤ
  pub peak_objects : ℤ
  pub total_bytes : ℤ
  pub peak_bytes : ℤ
  pub in_use : ℤ

-- Products of ints wrap around; `size` is `unsafe.Sizeof`.
abbrev pub mul_int : ℤ → ℕ → ℤ
mul_int a n = rustygo.Base.to_i64 (rustygo.Base.u64 (rustygo.Base.to_u64 a * n))

unfoldable pub stats : {S : Type 0} → ℕ → Pool S → PoolStats
stats size p = record {
  backend = p.backend;
  total_objects = p.total;
  peak_objects = p.peak;
  total_bytes = mul_int p.total size;
  peak_bytes = mul_int p.peak size;
  in_use = p.in_use;
}
