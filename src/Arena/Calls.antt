-- ===== src/Arena/Calls.antt =====
-- The allocation calls as a whole, from the first attempt to the new chunk.
use rustygo.Base.{
  ℕ, ◌^◌, ◌≤◌, ◌<◌, ◌≡◌, refl, inl, inr, Option, none, some, arith, length, pos, Result, ok, err,
  panic, lt→ltb,
}
use native.Mathlib.Nat.{pow-suc, one-le-pow}
use rustygo.Chunk.Align.{is_power_of_two_iff}
use rustygo.Memory.{Os, IsOs, Chunk, Error, new_chunk}
use rustygo.Memory.Mapping.{IsFresh, new_chunk-IsFresh}
use rustygo.Chunk.{try_alloc as chunk_alloc}
use rustygo.Chunk.Fits.{IsMapped, Fits, try_alloc-Fits}
use rustygo.Arena.State.{Arena, Slice}
use rustygo.Arena.Alloc.{
  Attempt, Answer, take_from, try_chunk, answer, with_chunk, use_chunk, grow_by, grow, next_size,
  or_else, alloc_slow, try_alloc,
}
use rustygo.Arena.Offsets.{get_elem?-last}
use rustygo.Arena.Invariant.{IsValid, Extends}
use rustygo.Arena.Grants.{Tries, attempt-Tries, try_active-Tries, try_later-Tries}
use rustygo.Base.{zero, suc}
use rustygo.Chunk.Fits.{try_alloc_aligned-Fits}
use rustygo.Chunk.{try_alloc_aligned as chunk_alloc_aligned}
use rustygo.Arena.Alloc.{try_alloc_aligned}
pub use rustygo.Arena.Growth.{Allocates, Extends-refl, active-lt}
use rustygo.Arena.Growth.{with_chunk-Extends, same_offsets, Grants-after, next_size_bounds}

-- An attempt that is made with every request for `n` bytes at a multiple of `align`.
module _ (f : Attempt) (n align : ℕ) (fits : (c : Chunk) → IsMapped c → Fits c n align (f c)) where
  module _ (os : Os) (w : IsOs os) (a : Arena) (v : IsValid a) (h : n < 2 ^ 63) where
    use_chunk-Allocates :
        (size : ℕ) (c : Chunk) → IsFresh size c → Allocates n align a (use_chunk f a (ok c))
    use_chunk-Allocates size c new = go _ tried
      where
        b : Arena
        b = with_chunk a c

        x : Extends a b
        x = with_chunk-Extends a v size c new

        tried : Tries n align b (take_from b (length a.chunks) (f c))
        tried =
            attempt-Tries f n align fits b x.valid (length a.chunks) c (get_elem?-last a.chunks c)
              (λ k p. ground arith)

        go : (r : Option (Slice × Arena)) → Tries n align b r → Allocates n align a (answer b r)
        go r (inl e) = rw e (inr (refl, x, same_offsets a v size c new))
        go r (inr (s, d, e, g)) = rw e (
            inl (
              s,
              refl,
              Grants-after a b s d x (same_offsets a v size c new) g (λ i p. ground (
                arith,
                x.onward i (length a.chunks) p refl,
                g.not_before (length a.chunks) refl,
              )),
            ))

    grow_by-Allocates :
        (r : Result Error Chunk) (size : ℕ)
        → new_chunk os size a.guard_pages ≡ r
        → size < 2 ^ 63
        → Allocates n align a (use_chunk f a r)
    grow_by-Allocates (ok c) size e k =
        use_chunk-Allocates size c (new_chunk-IsFresh os w size k a.guard_pages c e)
    grow_by-Allocates (err x) size e k = inr (refl, Extends-refl a v, λ j. refl)
    grow_by-Allocates (panic p) size e k = inr (refl, Extends-refl a v, λ j. refl)

    pub grow-Allocates : Allocates n align a (grow f os a (pos n))
    unfolding grow
    grow-Allocates = go (next_size a n) refl
      where
        go : (o : Option ℕ) → next_size a n ≡ o → Allocates n align a (grow_by f os a o)
        go none e = inr (refl, Extends-refl a v, λ j. refl)
        go (some size) e =
            grow_by-Allocates (new_chunk os size a.guard_pages) size refl
              (next_size_bounds a n size v.int_size h e).1

  pub or_else-Allocates :
      (a : Arena) (r : Option (Slice × Arena)) (q : Answer)
      → Tries n align a r
      → Allocates n align a q
      → Allocates n align a (or_else r q)
  or_else-Allocates a r q (inl e) k = rw e k
  or_else-Allocates a r q (inr (s, b, e, g)) k = rw e (inl (s, refl, g))

-- A call keeps the arena valid, however it ends.
pub Allocates-Extends :
    (n align : ℕ) (a : Arena) (r : Answer) → Allocates n align a r → Extends a r.1
Allocates-Extends n align a r (inl (s, e, g)) = g.extends
Allocates-Extends n align a r (inr (e, x, same)) = x

-- `TryAlloc` on a valid arena, over a system that keeps its promises, for every positive int: it grants exactly
-- that many bytes of one chunk, behind all bytes in use there, and no other offset changes; or it answers with
-- no slice, and no offset changes. The arena stays valid, and its chunks stay the same memory.
pub try_alloc-Allocates :
    (os : Os) (a : Arena) (n : ℕ)
    → IsOs os
    → IsValid a
    → 0 < n
    → n < 2 ^ 63
    → Allocates n 1 a (try_alloc os a (pos n))
unfolding try_alloc alloc_slow
try_alloc-Allocates os a n w v p h = rw (lt→ltb 0 n p) (
    or_else-Allocates _ n 1 fits a _ _ (try_active-Tries _ n 1 fits a v) (
      or_else-Allocates _ n 1 slow a _ _ (try_active-Tries _ n 1 slow a v) (
        or_else-Allocates _ n 1 slow a _ _ (try_later-Tries _ n 1 slow a v)
          (grow-Allocates _ n 1 slow os w a v h))))
  where
    fits : (c : Chunk) → IsMapped c → Fits c n 1 (chunk_alloc c (pos n))
    fits c m = try_alloc-Fits c n m p h

    slow : (c : Chunk) → IsMapped c → Fits c n 1 (try_chunk (pos n) (pos 1) c)
    slow c m = unfold try_chunk in fits c m

try_chunk_wide :
    (n j : ℕ) (c : Chunk)
    → try_chunk (pos n) (pos (2 ^ suc j)) c ≡ chunk_alloc_aligned c (pos n) (pos (2 ^ suc j))
unfolding try_chunk
try_chunk_wide n j c = ground (arith, pow-suc 2 j, one-le-pow j 2)

-- `TryAllocAligned` on a valid arena, over a system that keeps its promises, for every positive int and every
-- power of two up to 2 ^ 62: it grants exactly that many bytes of one chunk, at a multiple of the alignment and
-- behind all bytes in use there, and no other offset changes; or it answers with no slice, and no offset
-- changes. The arena stays valid, and its chunks stay the same memory.
pub try_alloc_aligned-Allocates :
    (os : Os) (a : Arena) (n k : ℕ)
    → IsOs os
    → IsValid a
    → 0 < n
    → n < 2 ^ 63
    → k ≤ 62
    → Allocates n (2 ^ k) a (try_alloc_aligned os a (pos n) (pos (2 ^ k)))
unfolding try_alloc_aligned alloc_slow
try_alloc_aligned-Allocates os a n k w v p h hk =
    rw (lt→ltb 0 n p, (is_power_of_two_iff (pos (2 ^ k))).1 (k, refl))
      (or_else-Allocates _ n (2 ^ k) fits a _ _ (try_active-Tries _ n (2 ^ k) fits a v) (
        or_else-Allocates _ n (2 ^ k) (slow k hk) a _ _
          (try_active-Tries _ n (2 ^ k) (slow k hk) a v)
          (or_else-Allocates _ n (2 ^ k) (slow k hk) a _ _
            (try_later-Tries _ n (2 ^ k) (slow k hk) a v)
            (grow-Allocates _ n (2 ^ k) (slow k hk) os w a v h))))
  where
    fits : (c : Chunk) → IsMapped c → Fits c n (2 ^ k) (chunk_alloc_aligned c (pos n) (pos (2 ^ k)))
    fits c m = try_alloc_aligned-Fits c n k m p h hk

    slow :
        (j : ℕ)
        → j ≤ 62
        → (c : Chunk) → IsMapped c
        → Fits c n (2 ^ j) (try_chunk (pos n) (pos (2 ^ j)) c)
    slow zero l c m = unfold try_chunk in try_alloc-Fits c n m p h
    slow (suc j) l c m = rw (try_chunk_wide n j c) (try_alloc_aligned-Fits c n (suc j) m p h l)
