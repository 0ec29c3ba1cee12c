-- ===== src/Codec/Simd/Unmask.antt =====
-- Unmasking by words is unmasking byte by byte, and undoes itself.
use rustygo.Base.{
  ℕ, ◌+◌, ◌*◌, ◌/◌, ◌%◌, ◌^◌, ◌<◌, ◌≡◌, refl, ap, ◌∙◌, List, [], ◌∷◌, ◌++◌, length, bit_or, bit_xor,
  u64, arith,
}
use rustygo.Base.Every.{All}
use rustygo.Base.Bits.{bit_or_comm, bit_or_fields}
use rustygo.Codec.Wire.{little_endian, put_little}
use rustygo.Codec.Simd.{unmask_scalar, mask64, unmask_bytes_vectorized}
use rustygo.Codec.Simd.Fields.{IsByte, zip_bytes, little_endian-xor, xor-IsByte, length-zip_bytes}

put_little-little_endian :
    (bs : List ℕ) → All IsByte bs → put_little (length bs) (little_endian bs) ≡ bs
unfolding put_little little_endian
put_little-little_endian [] h = refl
put_little-little_endian (b ∷ bs) (h, k) =
    let low : (b + 256 * little_endian bs) % 256 ≡ b = omega arith in
    let high : (b + 256 * little_endian bs) / 256 ≡ little_endian bs = omega arith in
    rw (low, high, put_little-little_endian bs k) refl

module _ (m0 m1 m2 m3 : ℕ) (b0 : IsByte m0) (b1 : IsByte m1) (b2 : IsByte m2) (b3 : IsByte m3) where
  abbrev mask : List ℕ
  mask = m0 ∷ m1 ∷ m2 ∷ m3 ∷ m0 ∷ m1 ∷ m2 ∷ m3 ∷ []

  abbrev half : ℕ
  half = little_endian (m0 ∷ m1 ∷ m2 ∷ m3 ∷ [])

  mask64_lem : mask64 m0 m1 m2 m3 ≡ little_endian mask
  unfolding mask64 little_endian
  mask64_lem =
      let fits : half < 2 ^ 32 = omega arith in
      let shifted : u64 (half * 2 ^ 32) ≡ half * 2 ^ 32 = omega arith in
      omega (
        arith,
        shifted,
        bit_or_comm half (half * 2 ^ 32),
        bit_or_fields 32 half half fits,
        ap (λ (x : ℕ). bit_or half x) shifted,
      )

  -- Eight bytes at once.
  unmask_word :
      (word : List ℕ)
      → length word ≡ 8
      → All IsByte word
      → put_little 8 (bit_xor (little_endian word) (mask64 m0 m1 m2 m3))
        ≡ zip_bytes bit_xor word mask
  unmask_word word n k =
      let masks : All IsByte mask = (b0, (b1, (b2, (b3, (b0, (b1, (b2, (b3, tt)))))))) in
      let size : length (zip_bytes bit_xor word mask) ≡ 8 =
        length-zip_bytes bit_xor word mask n ∙ n in
      let back =
        put_little-little_endian (zip_bytes bit_xor word mask) (xor-IsByte word mask k masks) in
      rw (mask64_lem, little_endian-xor word mask n k masks) (rw size at back)

  -- For bytes and a mask of bytes, UnmaskBytesVectorized, and `unmaskVectorized` of the WebSocket codec, compute
  -- the exclusive or of every byte with the mask byte of its index modulo four.
  pub unmask_bytes_vectorized_lem :
      (bs : List ℕ)
      → All IsByte bs
      → unmask_bytes_vectorized m0 m1 m2 m3 bs ≡ unmask_scalar m0 m1 m2 m3 bs
  unfolding unmask_bytes_vectorized unmask_scalar
  unmask_bytes_vectorized_lem (a ∷ b ∷ c ∷ d ∷ e ∷ f ∷ g ∷ h ∷ bs)
        (ka, (kb, (kc, (kd, (ke, (kf, (kg, (kh, k)))))))) =
      let word = a ∷ b ∷ c ∷ d ∷ e ∷ f ∷ g ∷ h ∷ [] in
      let bytes : All IsByte word = (ka, (kb, (kc, (kd, (ke, (kf, (kg, (kh, tt)))))))) in
      ap (λ xs. xs ++ unmask_bytes_vectorized m0 m1 m2 m3 bs) (unmask_word word refl bytes)
      ∙ ap (λ ys. zip_bytes bit_xor word mask ++ ys) (unmask_bytes_vectorized_lem bs k)
  unmask_bytes_vectorized_lem [] k = refl
  unmask_bytes_vectorized_lem (a ∷ []) k = refl
  unmask_bytes_vectorized_lem (a ∷ b ∷ []) k = refl
  unmask_bytes_vectorized_lem (a ∷ b ∷ c ∷ []) k = refl
  unmask_bytes_vectorized_lem (a ∷ b ∷ c ∷ d ∷ []) k = refl
  unmask_bytes_vectorized_lem (a ∷ b ∷ c ∷ d ∷ e ∷ []) k = refl
  unmask_bytes_vectorized_lem (a ∷ b ∷ c ∷ d ∷ e ∷ f ∷ []) k = refl
  unmask_bytes_vectorized_lem (a ∷ b ∷ c ∷ d ∷ e ∷ f ∷ g ∷ []) k = refl
