-- ===== src/Arena/Room.antt =====
-- When `TryAlloc` must succeed; a closed arena is no exception.
use rustygo.Base.{
  ℕ, ◌+◌, ◌^◌, ◌≤◌, ◌<◌, ◌≡◌, refl, ◌∙◌, Option, none, some, arith, ok, length, true, false, lt→ltb,
  pos, max, ◌⊎◌, inl, inr, ltb, leb, Bool-cases, if◌then◌else◌, ◌-◌,
}
use rustygo.Memory.{Os, IsOs, Chunk, new_chunk}
use rustygo.Memory.Mapping.{IsFresh, new_chunk-IsFresh}
use rustygo.Metrics.{Metrics}
use rustygo.Chunk.{try_alloc as chunk_alloc}
use rustygo.Chunk.Fits.{full, granted, try_alloc-Fits}
use rustygo.Arena.State.{Arena, Slice}
use rustygo.Arena.Alloc.{
  Answer, next_size, wanted_size, capacity_of, try_alloc, alloc_slow, grow, use_chunk, or_else,
  try_active, try_later, try_chunk,
}
use rustygo.Arena.Marks.{close}
use rustygo.Arena.Invariant.{IsValid, Extends}
use rustygo.Arena.Calls.{Allocates-Extends, try_alloc-Allocates}
use rustygo.Arena.Growth.{next_size_bounds}
use rustygo.Arena.Lifecycle.{close_twice}

-- The call ended with a slice.
abbrev pub Succeeds : Answer → Type 0
Succeeds r = (s : Slice) × (r.0 ≡ some s)

or_else-Succeeds : (o : Option (Slice × Arena)) (r : Answer) → Succeeds r → Succeeds (or_else o r)
or_else-Succeeds none r h = h
or_else-Succeeds (some (s, b)) r h = (s, refl)

module _ (os : Os) (a : Arena) (n size : ℕ) (c : Chunk) (new : IsFresh size c) (p : 0 < n)
    (h : n < 2 ^ 63) (room : n ≤ size) where
  -- An empty chunk that is large enough takes the request.
  fresh_chunk : (s : Slice) × ((use_chunk (try_chunk (pos n) (pos 1)) a (ok c)).0 ≡ some s)
  unfolding try_chunk
  fresh_chunk = elim (try_alloc-Fits c n new.mapped p h) [
    | full e none_left ↦
        absurd (omega (arith, none_left 0 (omega (arith, new.unused)) (omega arith), new.sized))
    | granted lo e above near fits multiple ↦
        (record { chunk = length a.chunks; lo = lo; hi = lo + n }, rw e)
  ]

grow-Succeeds :
    (os : Os) (a : Arena) (n size : ℕ) (c : Chunk)
    → IsOs os
    → IsValid a
    → 0 < n
    → n < 2 ^ 63
    → next_size a n ≡ some size
    → new_chunk os size a.guard_pages ≡ ok c
    → Succeeds (grow (try_chunk (pos n) (pos 1)) os a (pos n))
unfolding grow
grow-Succeeds os a n size c w v p h fits mapped =
    let (lo, hi) = next_size_bounds a n size v.int_size h fits in
    let new = new_chunk-IsFresh os w size hi a.guard_pages c mapped in
    rw (fits, mapped) (fresh_chunk os a n size c new p h lo)

-- Where the next chunk has a size and is mapped, the call succeeds.
mapped-Succeeds :
    (os : Os) (a : Arena) (n size : ℕ) (c : Chunk)
    → IsOs os
    → IsValid a
    → 0 < n
    → n < 2 ^ 63
    → next_size a n ≡ some size
    → new_chunk os size a.guard_pages ≡ ok c
    → Succeeds (try_alloc os a (pos n))
unfolding try_alloc alloc_slow
mapped-Succeeds os a n size c w v p h fits mapped =
    let f = try_chunk (pos n) (pos 1) in
    let grown = grow f os a (pos n) in
    let slow = or_else (try_active f a) (or_else (try_later f a) grown) in
    rw (lt→ltb 0 n p) (
      or_else-Succeeds (try_active (λ c. chunk_alloc c (pos n)) a) slow (
        or_else-Succeeds (try_active f a) (or_else (try_later f a) grown) (
          or_else-Succeeds (try_later f a) grown
            (grow-Succeeds os a n size c w v p h fits mapped))))

-- The size that the code wants has the request, and is at most the request, `chunkSize` or 16 MB.
wanted_size_bounds :
    (a : Arena) (k n : ℕ)
    → (n ≤ wanted_size a k n) × (wanted_size a k n ≤ max n (max a.chunk_size 16777216))
unfolding wanted_size
wanted_size_bounds a k n = (ground arith, ground arith)

-- The limit cuts the size down to what it leaves, which has the request.
limited_size :
    (most cap n w : ℕ)
    → 0 < n
    → n ≤ w
    → (most ≡ 0) ⊎ (cap + n ≤ most)
    → (size : ℕ) × ((if ltb 0 most
          then if leb most cap
            then none
            else if ltb most (cap + w)
            then if ltb (most - cap) n then none else some (most - cap)
            else some w
          else some w)
        ≡ some size)
      × (n ≤ size)
      × (size ≤ w)
limited_size most cap n w p h (inl e) = (w, rw e refl, h, omega arith)
limited_size most cap n w p h (inr room) = elim (Bool-cases (ltb most (cap + w))) [
  | inl cut ↦ (most - cap, ground arith, ground arith, ground arith)
  | inr whole ↦ (w, ground arith, h, omega arith)
]

-- Where the limit leaves room for the request, the next chunk has a size.
next_size-some :
    (a : Arena) (n : ℕ)
    → 0 < n
    → (a.max_cap ≡ 0) ⊎ (capacity_of a.chunks + n ≤ a.max_cap)
    → (size : ℕ) × (next_size a n ≡ some size)
      × (n ≤ size)
      × (size ≤ max n (max a.chunk_size 16777216))
unfolding next_size
next_size-some a n p room =
    let (lo, hi) = wanted_size_bounds a (capacity_of a.chunks) n in
    let (size, e, above, below) =
      limited_size a.max_cap (capacity_of a.chunks) n (wanted_size a (capacity_of a.chunks) n) p lo
        room in
    (size, e, above, omega (arith, below, hi))

-- `TryAlloc` of a positive int on a valid arena, over a system that keeps its promises: where the arena has no
-- limit, or its chunks and the request together are within the limit, and the system maps every chunk that has
-- the request and is at most as large as the greatest of the request, `chunkSize` and 16 MB, the call succeeds.
pub try_alloc-Succeeds :
    (os : Os) (a : Arena) (n : ℕ)
    → IsOs os
    → IsValid a
    → 0 < n
    → n < 2 ^ 63
    → (a.max_cap ≡ 0) ⊎ (capacity_of a.chunks + n ≤ a.max_cap)
    → ((size : ℕ)
        → n ≤ size
        → size ≤ max n (max a.chunk_size 16777216)
        → (c : Chunk) × (new_chunk os size a.guard_pages ≡ ok c))
    → Succeeds (try_alloc os a (pos n))
try_alloc-Succeeds os a n w v p h room maps =
    let (size, fits, lo, hi) = next_size-some a n p room in
    let (c, mapped) = maps size lo hi in mapped-Succeeds os a n size c w v p h fits mapped

module _ (os : Os) (a : Arena) (m : Metrics) where
  closed_flag : a.closed ≡ false → (close os a m).1.closed ≡ true
  unfolding close
  closed_flag e = rw e

  closed_guard : a.closed ≡ false → (close os a m).1.guard_pages ≡ a.guard_pages
  unfolding close
  closed_guard e = rw e

  closed_size :
      (n : ℕ)
      → a.closed ≡ false
      → a.max_cap ≡ 0
      → n ≤ a.chunk_size
      → next_size (close os a m).1 n ≡ some a.chunk_size
  unfolding close next_size
  closed_size n e cap k = rw e (ground arith)

closed_stays : (os : Os) (m : Metrics) (b : Arena) → b.closed ≡ true → close os b m ≡ (ok tt, b, m)
unfolding close
closed_stays os m b e = rw e

-- `TryAlloc` has no test of `closed`: after `Close` of a valid arena with no limit, a request for at least one
-- byte and at most `chunkSize` succeeds, if the system maps a chunk; the arena stays closed, so a later `Close`
-- does nothing and does not release the chunk.
pub try_alloc-close :
    (os os' : Os) (a : Arena) (m m' : Metrics) (n : ℕ) (c : Chunk)
    → IsOs os
    → IsValid a
    → a.closed ≡ false
    → a.max_cap ≡ 0
    → 0 < n
    → n ≤ a.chunk_size
    → new_chunk os a.chunk_size a.guard_pages ≡ ok c
    → let b = (close os a m).1 in
      Succeeds (try_alloc os b (pos n))
      × (close os' (try_alloc os b (pos n)).1 m' ≡ (ok tt, (try_alloc os b (pos n)).1, m'))
try_alloc-close os os' a m m' n c w v e cap p k mapped =
    let (bv, none_left, none_used, again) = close_twice os os' a m v e in
    (
      mapped-Succeeds os (close os a m).1 n a.chunk_size c w bv p (omega (arith, v.int_size))
          (closed_size os a m n e cap k) (rw (closed_guard os a m e) mapped),
      closed_stays os' m' _ (after.same_closed ∙ closed_flag os a m e),
    )
  where
    after : Extends (close os a m).1 (try_alloc os (close os a m).1 (pos n)).1
    after = Allocates-Extends n 1 _ _ (
        try_alloc-Allocates os (close os a m).1 n w (close_twice os os' a m v e).0 p
          (omega (arith, v.int_size)))
