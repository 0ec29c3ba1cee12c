-- ===== src/Chunk/Fits.antt =====
-- What one allocation from a chunk does: it grants the first place where the request fits, or none
-- exists.
use rustygo.Base.{ℕ, ◌+◌, ◌-◌, ◌%◌, ◌^◌, ◌≤◌, ◌<◌, ◌≡◌, refl, true, Option, none, some, arith, pos}
use rustygo.Memory.{Chunk}
use rustygo.Chunk.{Span, is_power_of_two, aligned_offset, try_alloc, try_alloc_aligned}
use rustygo.Chunk.Align.{
  is_power_of_two_iff, aligned_offset_bounds, aligned_offset_wrapped, pow_split, pow_mono,
}
use native.Mathlib.Nat.{one-le-pow, div-add-mod, mul-mod_left}
use native.Mathlib.Decide.{dec_le}

-- The offset lies in the buffer, and the buffer below the end of the address space.
pub record IsMapped (c : Chunk) : Type 0 where
  pub within : c.off ≤ c.size
  pub in_space : c.base + c.size < 2 ^ 64

-- `n` bytes at a multiple of `a`. The first place is less than `a` bytes behind the offset.
pub data Fits (c : Chunk) (n a : ℕ) (r : Option (Span × Chunk)) : Type 0 where
  full : r ≡ none → ((lo : ℕ) → c.off ≤ lo → (c.base + lo) % a ≡ 0 → c.size < lo + n) → Fits c n a r
  granted :
      (lo : ℕ)
      → r ≡ some (record { lo = lo; hi = lo + n }, record c { off = lo + n })
      → c.off ≤ lo
      → lo < c.off + a
      → lo + n ≤ c.size
      → (c.base + lo) % a ≡ 0
      → Fits c n a r

-- `tryAlloc` on a chunk within the address space, for every positive int: it takes the bytes at the offset and
-- moves the offset to their end; or it fails, and then they do not fit in the buffer from any place behind the
-- offset on.
pub try_alloc-Fits :
    (c : Chunk) (n : ℕ) → IsMapped c → 0 < n → n < 2 ^ 63 → Fits c n 1 (try_alloc c (pos n))
unfolding try_alloc
try_alloc-Fits c n v p h = elim (dec_le (c.off + n) c.size) [
  | yes fits ↦ granted c.off (ground (arith, v)) (omega arith) (omega arith) fits (omega arith)
  | no over ↦ full (ground (arith, v)) (λ lo le _. omega arith)
]

-- Two different multiples of `a` are `a` apart.
pub multiples_apart : (a m r : ℕ) → 0 < a → m % a ≡ 0 → r % a ≡ 0 → m < r → m + a ≤ r
multiples_apart a m r p hm hr lt = grind (arith, div-add-mod m a, div-add-mod r a)

-- A multiple at or behind the current address is at or behind the least one.
least :
    (base off a lo m : ℕ)
    → 0 < a
    → off ≤ lo
    → (base + lo) % a ≡ 0
    → m % a ≡ 0
    → m < base + off + a
    → m ≤ base + lo
least base off a lo m p le hl hm near = elim (dec_le m (base + lo)) [
  | yes h ↦ h
  | no h ↦ absurd (omega (arith, multiples_apart a (base + lo) m p hl hm))
]

end_of_space : (k : ℕ) → k ≤ 62 → 2 ^ 64 % 2 ^ k ≡ 0
end_of_space k h = rw (← pow_split 64 k (omega arith)) (mul-mod_left (2 ^ (64 - k)) (2 ^ k))

module _ (c : Chunk) (n k : ℕ) (v : IsMapped c) (p : 0 < n) (h : n < 2 ^ 63) (hk : k ≤ 62) where
  abbrev offset : ℕ
  offset = aligned_offset c.base c.off (2 ^ k - 1)

  is_pow : is_power_of_two (pos (2 ^ k)) ≡ true
  is_pow = (is_power_of_two_iff (pos (2 ^ k))).1 (k, refl)

  near_end :
      c.base + c.off + 2 ^ k ≤ 2 ^ 64 → Fits c n (2 ^ k) (try_alloc_aligned c (pos n) (pos (2 ^ k)))
  unfolding try_alloc_aligned
  near_end near =
      let (above, close, multiple) = aligned_offset_bounds c.base c.off k (omega arith) near in
      elim (dec_le (offset + n) c.size) [
        | yes fits ↦ granted offset (ground (arith, is_pow, v)) above close fits multiple
        | no over ↦ full (ground (arith, is_pow, v)) (λ lo le ml. omega (
          arith,
          least c.base c.off (2 ^ k) lo (c.base + offset) (one-le-pow k 2 (omega arith)) le ml
              multiple (omega arith),
        ))
      ]

  past_end :
      2 ^ 64 < c.base + c.off + 2 ^ k → Fits c n (2 ^ k) (try_alloc_aligned c (pos n) (pos (2 ^ k)))
  unfolding try_alloc_aligned
  past_end past =
      let e = aligned_offset_wrapped c.base c.off k (omega arith) (omega (arith, v)) past in
      full (ground (arith, is_pow, v, e, pow_mono 62 k hk)) (λ lo le ml. omega (
        arith,
        v,
        least c.base c.off (2 ^ k) lo (2 ^ 64) (one-le-pow k 2 (omega arith)) le ml
            (end_of_space k hk) past,
      ))

  -- `tryAllocAligned` on a chunk within the address space, for every positive int and every power of two up to
  -- 2 ^ 62: it takes the bytes from a multiple of the alignment on, less than one alignment behind the offset, and
  -- moves the offset to their end; or it fails, and then no multiple behind the offset has room in the buffer.
  pub try_alloc_aligned-Fits : Fits c n (2 ^ k) (try_alloc_aligned c (pos n) (pos (2 ^ k)))
  try_alloc_aligned-Fits = elim (dec_le (c.base + c.off + 2 ^ k) (2 ^ 64)) [
    | yes near ↦ near_end near
    | no past ↦ past_end (omega arith)
  ]
