-- ===== src/Cache/Carve.antt =====
-- `AllocSlice[byte]` in the scope of a generation.
use rustygo.Base.{
  ℕ, zero, suc, ◌+◌, ◌*◌, ◌%◌, leb, ltb_ℤ, lt→ltb, not, ◌||◌, if◌then◌else◌, ◌^◌, ◌<◌, Bool, true,
  false, ◌≡◌, refl, ap, inl, inr, pos, Result, ok, err, panic, arith,
}
use mathlib.Core.Path.{subst}
use rustygo.Memory.{Os, IsOs, Error}
use rustygo.Chunk.{is_power_of_two}
use rustygo.Chunk.Align.{is_power_of_two_iff}
use rustygo.Arena.State.{Arena, Slice}
use rustygo.Arena.Alloc.{
  Answer, raise, or_memory_error, alloc_aligned, alloc_aligned_or_err, try_alloc_aligned,
}
use rustygo.Arena.Invariant.{IsValid}
use rustygo.Arena.Calls.{Allocates, try_alloc_aligned-Allocates}
use rustygo.Scope.{Scope, track_alloc}
use rustygo.Scope.Typed.{
  alloc_slice, alloc_slice_cap, stored, sliced, int_product, goes_to_heap, Typed,
}
use rustygo.Cache.{ArenaCache, byte_param, slice_in, carve, carved}

-- A successful allocation has its length, and leaves the arena valid.
abbrev pub Sized : ℕ → Typed (Unit {0}) → Type 0
Sized n (ok st, a, s) = ((slice_in st).hi ≡ (slice_in st).lo + n) × IsValid a × (s.active ≡ true)
Sized n (err e, a, s) = Unit
Sized n (panic p, a, s) = Unit

Sized-if :
    (n : ℕ) (t : Bool) (r q : Typed (Unit {0}))
    → (t ≡ true → Sized n r)
    → (t ≡ false → Sized n q)
    → Sized n (if t then r else q)
Sized-if n true r q h k = h refl
Sized-if n false r q h k = k refl

track_alloc-active :
    (s : Scope (Unit {0})) (buf : Slice) → s.active ≡ true → (track_alloc s buf).active ≡ true
unfolding track_alloc
track_alloc-active s buf e = ground arith

stored-Sized :
    (n total : ℕ) (a : Arena) (s : Scope (Unit {0})) (r : Answer)
    → s.active ≡ true
    → Allocates n 1 a r
    → Sized n (sliced total (stored s (raise (or_memory_error r))))
stored-Sized n total a s (r, b) e (inl (buf, q, g)) = rw q (
    Sized-if n (leb (2 ^ 64) total) _ _ (λ _. tt)
      (λ _. (g.sized, g.extends.valid, track_alloc-active s buf e)))
stored-Sized n total a s (r, b) e (inr (q, x, same)) = rw q tt

bytes-Sized :
    (os : Os) (a : Arena) (s : Scope (Unit {0})) (n total : ℕ)
    → IsOs os
    → IsValid a
    → n < 2 ^ 63
    → s.active ≡ true
    → Sized n (sliced total (stored s (alloc_aligned os a (pos n) (pos 1))))
unfolding alloc_aligned alloc_aligned_or_err
bytes-Sized os a s zero total w v h e = tt
bytes-Sized os a s (suc n) total w v h e =
    let one : is_power_of_two (pos 1) ≡ true = (is_power_of_two_iff (pos 1)).1 (0, refl) in
    rw (lt→ltb 0 (suc n) (omega arith), one)
      (stored-Sized (suc n) total a s (try_alloc_aligned os a (pos (suc n)) (pos 1)) e
        (try_alloc_aligned-Allocates os a (suc n) 0 w v (omega arith) h (omega arith)))

not_heap : goes_to_heap byte_param ≡ false
unfolding goes_to_heap
not_heap = refl

is_on : (b : Bool) → not b ≡ false → b ≡ true
is_on true h = refl
is_on false h = absurd cc

int_product_one : (n : ℕ) → n < 2 ^ 63 → int_product 1 n ≡ pos n
int_product_one n h =
    let small : (1 * n) % 2 ^ 64 ≡ n = omega arith in rw (small, lt→ltb n (2 ^ 63) h) refl

alloc_slice-Sized :
    (os : Os) (a : Arena) (s : Scope (Unit {0})) (n : ℕ)
    → IsOs os
    → IsValid a
    → n < 2 ^ 63
    → Sized n (alloc_slice os a s byte_param (pos n))
unfolding alloc_slice alloc_slice_cap
alloc_slice-Sized os a s n w v h =
    Sized-if n (not s.active) _ _ (λ _. tt)
      λ on.
        Sized-if n (ltb_ℤ (pos n) (pos 0) || ltb_ℤ (pos n) (pos n)) _ _ (λ _. tt)
          λ _.
            rw (not_heap, int_product_one n h)
              (bytes-Sized os a s n (1 * n) w v h (is_on s.active on))

-- Where an allocation in the active generation succeeds, the slice has the length that was asked for, and the
-- generation is as it was but for its arena and its scope.
pub record Carved (n : ℕ) (c : ArenaCache) (s : Slice) (c' : ArenaCache) : Type 0 where
  pub sized : s.hi ≡ s.lo + n
  pub valid : IsValid c'.active.arena
  pub same :
      c'
      ≡ record c { active = record c.active { arena = c'.active.arena; scope = c'.active.scope } }

pub carve-Carved :
    (os : Os) (c : ArenaCache) (n : ℕ) (s : Slice) (c' : ArenaCache)
    → IsOs os
    → IsValid c.active.arena
    → n < 2 ^ 63
    → carve os c n ≡ (ok s, c')
    → Carved n c s c'
unfolding carve
carve-Carved os c n s c' w v h e =
    go (alloc_slice os c.active.arena c.active.scope byte_param (pos n))
      (alloc_slice-Sized os c.active.arena c.active.scope n w v h) e
  where
    go : (r : Typed (Unit {0})) → Sized n r → carved c r ≡ (ok s, c') → Carved n c s c'
    go (ok st, a, t) (k, v', on) q =
        subst
          (λ (x : Result Error Slice × ArenaCache). (s' : Slice) → x.0 ≡ ok s' → Carved n c s' x.1)
          q
          (λ s' p.
            let same : slice_in st ≡ s' = cc in
            record {
              sized = subst (λ (u : Slice). u.hi ≡ u.lo + n) same k;
              valid = v';
              same = refl;
            })
          s refl
    go (err x, a, t) k q =
        let wrong : err x ≡ ok s = ap (λ (r : Result Error Slice × ArenaCache). r.0) q in absurd cc
    go (panic p, a, t) k q =
        let wrong : panic p ≡ ok s = ap (λ (r : Result Error Slice × ArenaCache). r.0) q in
        absurd cc
