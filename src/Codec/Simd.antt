-- ===== src/Codec/Simd.antt =====
-- codec/simd.go: scans of eight bytes at a time. An index that is not found, -1, is `none`.
pub mod Fields
pub mod Zero
pub mod Scan
pub mod Unmask
use rustygo.Base.{
  ℕ, zero, suc, ◌+◌, ◌-◌, ◌*◌, ◌^◌, Bool, true, false, not, ◌||◌, Option, none, some, List, [], ◌∷◌,
  ◌++◌, bit_and, bit_or, bit_xor, u64, ◌==◌, if◌then◌else◌, get_or,
}
use rustygo.Codec.Wire.{little_endian, put_little}

abbrev pub lo8 : ℕ
lo8 = 0x0101010101010101

abbrev pub hi8 : ℕ
hi8 = 0x8080808080808080

-- `((w - lo8) & ^w & hi8) != 0`
unfoldable pub has_zero_byte64 : ℕ → Bool
has_zero_byte64 w = not (bit_and (bit_and (u64 (w + 2 ^ 64 - lo8)) (2 ^ 64 - 1 - w)) hi8 == 0)

-- The scan byte by byte, from index `i`.
unfoldable pub scalar_find : (ℕ → Bool) → ℕ → List ℕ → Option ℕ
scalar_find test i [] = none
scalar_find test i (b ∷ bs) =
    let rest = scalar_find test (suc i) bs in if test b then some i else rest

-- The loop over words, which stops at the first word with a hit, and the scalar scan behind it.
unfoldable pub word_find : (ℕ → Bool) → (ℕ → Bool) → ℕ → List ℕ → Option ℕ
unfolding scalar_find little_endian
word_find hit test i (a ∷ b ∷ c ∷ d ∷ e ∷ f ∷ g ∷ h ∷ bs) =
    let rest = word_find hit test (i + 8) bs in
    if hit (little_endian (a ∷ b ∷ c ∷ d ∷ e ∷ f ∷ g ∷ h ∷ []))
    then scalar_find test i (a ∷ b ∷ c ∷ d ∷ e ∷ f ∷ g ∷ h ∷ bs)
    else rest
word_find hit test i bs = scalar_find test i bs

abbrev pub is_quote_or_escape : ℕ → Bool
is_quote_or_escape b = (b == 0x22) || (b == 0x5C)

unfoldable pub quote_or_escape_in : ℕ → Bool
unfolding has_zero_byte64
quote_or_escape_in w =
    has_zero_byte64 (bit_xor w 0x2222222222222222) || has_zero_byte64 (bit_xor w 0x5C5C5C5C5C5C5C5C)

unfoldable pub find_quote_or_escape : List ℕ → Option ℕ
unfolding word_find quote_or_escape_in
find_quote_or_escape bytes = word_find quote_or_escape_in is_quote_or_escape 0 bytes

unfoldable pub byte_in : ℕ → ℕ → Bool
unfolding has_zero_byte64
byte_in target w = has_zero_byte64 (bit_xor w (u64 (target * 0x0101010101010101)))

unfoldable pub find_byte : List ℕ → ℕ → Option ℕ
unfolding word_find byte_in
find_byte bytes target = word_find (byte_in target) (λ b. b == target) 0 bytes

-- `data[i] ^= mask[i%4]`, from an index that is a multiple of four.
unfoldable pub unmask_scalar : (m0 m1 m2 m3 : ℕ) → List ℕ → List ℕ
unmask_scalar m0 m1 m2 m3 [] = []
unmask_scalar m0 m1 m2 m3 (b ∷ bs) = bit_xor b m0 ∷ unmask_scalar m1 m2 m3 m0 bs

-- `uint64(mask32) | (uint64(mask32) << 32)`
unfoldable pub mask64 : (m0 m1 m2 m3 : ℕ) → ℕ
unfolding little_endian
mask64 m0 m1 m2 m3 = let m = little_endian (m0 ∷ m1 ∷ m2 ∷ m3 ∷ []) in bit_or m (u64 (m * 2 ^ 32))

-- `UnmaskBytesVectorized`, and `unmaskVectorized` of codec/ws.go, which is the same code.
unfoldable pub unmask_bytes_vectorized : (m0 m1 m2 m3 : ℕ) → List ℕ → List ℕ
unfolding unmask_scalar mask64 little_endian put_little
unmask_bytes_vectorized m0 m1 m2 m3 (a ∷ b ∷ c ∷ d ∷ e ∷ f ∷ g ∷ h ∷ bs) =
    put_little 8 (bit_xor (little_endian (a ∷ b ∷ c ∷ d ∷ e ∷ f ∷ g ∷ h ∷ [])) (mask64 m0 m1 m2 m3))
    ++ unmask_bytes_vectorized m0 m1 m2 m3 bs
unmask_bytes_vectorized m0 m1 m2 m3 bs = unmask_scalar m0 m1 m2 m3 bs
