-- ===== src/Chunk.antt =====
-- The lock-free bump allocator of one chunk: `tryAlloc` and `tryAllocAligned` of arena.go.
-- A call is one successful round of its compare-and-swap loop.
pub mod Align
pub mod Fits
pub mod Race
use rustygo.Base.{
  ℕ, ◌+◌, ◌-◌, ◌%◌, ◌^◌, Bool, not, ◌&&◌, ◌||◌, Option, none, some, ℤ, pos, negsuc, pos_part,
  is_positive, u64, not64, sub64, ltb, ◌==◌, if◌then◌else◌, bit_and,
}
use rustygo.Memory.{Chunk}

-- The part `buf[lo:hi]` of a chunk's buffer.
pub record Span : Type 0 where
  pub lo : ℕ
  pub hi : ℕ

-- `v > 0 && (v&(v-1)) == 0`
unfoldable pub is_power_of_two : ℤ → Bool
is_power_of_two v = is_positive v && bit_and (pos_part v) (pos_part v - 1) == 0

-- `none` is the pair `nil, false`; the chunk is then as it was.
unfoldable pub try_alloc : Chunk → ℤ → Option (Span × Chunk)
try_alloc c n =
    if not (is_positive n)
    then none
    else let end = u64 (c.off + pos_part n) in
      if ltb end c.off || ltb c.size end
      then none
      else some (record { lo = c.off; hi = end }, record c { off = end })

-- `(curAddr + mask) & ^mask` less the base, on 64-bit words.
unfoldable pub aligned_offset : ℕ → ℕ → ℕ → ℕ
aligned_offset base off mask = sub64 (bit_and (u64 (u64 (base + off) + mask)) (not64 mask)) base

unfoldable pub try_alloc_aligned : Chunk → ℤ → ℤ → Option (Span × Chunk)
try_alloc_aligned c n align =
    if not (is_positive n) || not (is_power_of_two align)
    then none
    else let aligned = aligned_offset c.base c.off (pos_part align - 1) in
      let end = u64 (aligned + pos_part n) in
      if ltb aligned c.off || ltb end aligned || ltb c.size end
      then none
      else some (record { lo = aligned; hi = end }, record c { off = end })
