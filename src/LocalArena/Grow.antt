-- ===== src/LocalArena/Grow.antt =====
-- The fast path and the new chunk of a `LocalArena`.
use rustygo.Base.{
  ℕ, suc, ◌+◌, ◌-◌, ◌%◌, ◌^◌, ◌≤◌, ◌<◌, ◌≡◌, ◌≢◌, sym, ap, ◌∙◌, ◌⊎◌, inl, inr, none, arith, ok,
  panic, slice_bounds, false, u64, length, if◌then◌else◌, ltb,
}
use native.Mathlib.Nat.{one-le-pow, mod-eq_of_lt}
use native.Mathlib.Decide.{ℕ_discrete, dec_le}
use rustygo.Memory.{Os, IsOs, Chunk, new_chunk}
use rustygo.Memory.Mapping.{new_chunk-IsFresh}
use rustygo.Chunk.{aligned_offset}
use rustygo.Chunk.Align.{aligned_offset_bounds, pow_mono}
use rustygo.Chunk.Fits.{IsMapped, multiples_apart}
use rustygo.LocalArena.{LocalArena, Local, bump, bump_new, grow_and_alloc}
use rustygo.Base.{drop, drop-length}
use rustygo.LocalArena.{bump_later}
use rustygo.Arena.Alloc.{capacity_of}

-- How the request for `n` bytes ends on a new chunk `c`: on the first multiple of the alignment, if
-- the bytes behind it suffice. If they do not, the slicing panics, with an offset past the chunk's end.
abbrev pub NewChunk : ℕ → ℕ → LocalArena → Chunk → Local → Type 0
NewChunk n align la c r =
    let i = length la.chunks in
    ((lo : ℕ) × (r.0 ≡ ok (record { chunk = i; lo = lo; hi = lo + n }))
      × ((c.base + lo) % align ≡ 0)
      × (lo < align)
      × (lo + n ≤ c.size))
    ⊎ ((r.0 ≡ panic slice_bounds) × (c.base % align ≢ 0) × (c.size < n + align))

-- The end of a request for all bytes of a new chunk: they are granted where the chunk's base is a multiple
-- of the alignment, and the slicing panics where it is not.
abbrev pub OnlyAligned : ℕ → ℕ → LocalArena → Chunk → Local → Type 0
OnlyAligned n align la c r =
    (c.base % align ≡ 0) × (r.0 ≡ ok (record { chunk = length la.chunks; lo = 0; hi = n }))
    ⊎ (c.base % align ≢ 0) × (r.0 ≡ panic slice_bounds)

module _ (la : LocalArena) (n k : ℕ) (c : Chunk) (v : IsMapped c) (hk : k ≤ 62)
    (near : c.base + 2 ^ k ≤ 2 ^ 64) where
  first : ℕ
  first = aligned_offset c.base 0 (2 ^ k - 1)

  first_bounds : (first < 2 ^ k) × ((c.base + first) % 2 ^ k ≡ 0)
  unfolding first
  first_bounds =
      let (lo, hi, m) = aligned_offset_bounds c.base 0 k (omega arith) (omega arith) in
      (omega arith, m)

  aligned_base : c.base % 2 ^ k ≡ 0 → first ≡ 0
  aligned_base e = elim (dec_le first 0) [
    | yes h ↦ omega arith
    | no h ↦ absurd (
        omega (
          arith,
          first_bounds,
          multiples_apart (2 ^ k) c.base (c.base + first) (one-le-pow k 2 (omega arith)) e
              first_bounds.1 (omega arith),
        ))
  ]

  no_wrap : n < 2 ^ 63 → u64 (first + n) ≡ first + n
  no_wrap h = mod-eq_of_lt (omega (arith, first_bounds, pow_mono 62 k hk))

  -- The new chunk serves the request unless its base is not aligned and it has no spare room.
  pub bump_new-NewChunk :
      n < 2 ^ 63 → n ≤ c.size → NewChunk n (2 ^ k) la c (bump_new la n (2 ^ k) (ok c))
  unfolding bump first
  bump_new-NewChunk h room = elim (dec_le (first + n) c.size) [
    | yes fits ↦ inl (first, rw (no_wrap h) (ground arith), first_bounds.1, first_bounds.0, fits)
    | no over ↦ inr (
      rw (no_wrap h) (ground arith),
      λ e. omega (arith, aligned_base e),
      omega (arith, first_bounds),
    )
  ]

  first_zero : first ≡ 0 → c.base % 2 ^ k ≡ 0
  first_zero e =
      let q : c.base + first ≡ c.base = omega arith in
      ap (λ (x : ℕ). x % 2 ^ k) (sym q) ∙ first_bounds.1

  -- A chunk of exactly the requested size serves an aligned base only.
  exact_chunk : n < 2 ^ 63 → c.size ≡ n → OnlyAligned n (2 ^ k) la c (bump_new la n (2 ^ k) (ok c))
  unfolding bump first
  exact_chunk h exact = elim (ℕ_discrete (c.base % 2 ^ k) 0) [
    | yes e ↦ inl (e, rw (no_wrap h) (ground (arith, aligned_base e)))
    | no ne ↦ elim (dec_le (first + n) c.size) [
      | yes fits ↦ absurd (ne (first_zero (omega arith)))
      | no over ↦ inr (ne, rw (no_wrap h) (ground arith))
    ]
  ]

last_active :
    (la : LocalArena) (n align : ℕ)
    → suc la.active_idx ≡ length la.chunks
    → bump_later la n align (suc la.active_idx) (drop (suc la.active_idx) la.chunks) ≡ none
unfolding bump_later
last_active la n align e = rw (e, drop-length la.chunks)

-- `growAndAlloc` where the last chunk is active, the request is at least the whole capacity and the system maps
-- a chunk for it, not within one alignment of the end of the address space: the new chunk has the size of the
-- request, and the result is its bytes from 0 on where its base is a multiple of the alignment, a power of two.
-- Where it is not, the code panics with a slice out of range.
pub grow_and_alloc-exact :
    (os : Os) (la : LocalArena) (n k : ℕ) (c : Chunk)
    → IsOs os
    → suc la.active_idx ≡ length la.chunks
    → capacity_of la.chunks ≤ n
    → n < 2 ^ 63
    → k ≤ 62
    → new_chunk os n false ≡ ok c
    → c.base + 2 ^ k ≤ 2 ^ 64
    → OnlyAligned n (2 ^ k) la c (grow_and_alloc os la n (2 ^ k))
unfolding grow_and_alloc
grow_and_alloc-exact os la n k c w e small h hk mapped near =
    let new = new_chunk-IsFresh os w n h false c mapped in
    let sized : (if ltb (capacity_of la.chunks) n then n else capacity_of la.chunks) ≡ n =
      ground arith in
    rw (last_active la n (2 ^ k) e, sized, mapped)
      (exact_chunk la n k c new.mapped hk near h new.sized)
