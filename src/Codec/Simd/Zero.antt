-- ===== src/Codec/Simd/Zero.antt =====
-- `HasZeroByte64` misses no zero byte.
use rustygo.Base.{
  ℕ, zero, suc, ◌+◌, ◌-◌, ◌*◌, ◌%◌, ◌^◌, ◌<◌, false, not, ◌≡◌, ◌≢◌, refl, ap, sym, ◌∙◌, ◌⊎◌, inl,
  inr, List, [], ◌∷◌, length, length-map, length-replicate, replicate, map, bit_and, u64, ◌==◌,
  if◌then◌else◌, ltb, arith,
}
use native.Mathlib.Nat.{pow-suc}
use rustygo.Base.Every.{All}
use rustygo.Codec.Wire.{little_endian}
use rustygo.Codec.Simd.{lo8, hi8, has_zero_byte64}
use rustygo.Codec.Simd.Fields.{IsByte, zip_bytes, length-zip_bytes, and-IsByte, little_endian-and}

-- The bytes of the word minus 1 in each byte and minus the borrow `c`.
abbrev borrow : ℕ → ℕ → ℕ
borrow c b = if ltb b (1 + c) then 1 else 0

borrow_below : (c b : ℕ) → borrow c b < 2
borrow_below c b = ground arith

abbrev less_one : ℕ → List ℕ → List ℕ
less_one c [] = []
less_one c (b ∷ bs) = (b + 255 - c) % 256 ∷ less_one (borrow c b) bs

abbrev ones : ℕ → ℕ
ones zero = 0
ones (suc n) = 1 + 256 * ones n

abbrev complement : ℕ → ℕ
complement b = 255 - b

little_endian-complement :
    (bs : List ℕ)
    → All IsByte bs
    → little_endian (map complement bs) + little_endian bs + 1 ≡ 256 ^ length bs
unfolding little_endian
little_endian-complement [] h = refl
little_endian-complement (b ∷ bs) (h, k) =
    omega (arith, pow-suc 256 (length bs), little_endian-complement bs k)

little_endian-less_one :
    (c : ℕ) (bs : List ℕ)
    → c < 2
    → All IsByte bs
    → (little_endian (less_one c bs) + ones (length bs) + c ≡ little_endian bs)
      ⊎ (little_endian (less_one c bs) + ones (length bs) + c ≡ little_endian bs + 256 ^ length bs)
unfolding little_endian
little_endian-less_one zero [] h k = inl refl
little_endian-less_one (suc c) [] h k = inr (omega arith)
little_endian-less_one c (b ∷ bs) h (y, k) =
    ground
      (arith, pow-suc 256 (length bs), little_endian-less_one (borrow c b) bs (borrow_below c b) k)

little_endian-below : (bs : List ℕ) → All IsByte bs → little_endian bs < 256 ^ length bs
unfolding little_endian
little_endian-below [] h = omega arith
little_endian-below (b ∷ bs) (h, k) =
    omega (arith, pow-suc 256 (length bs), little_endian-below bs k)

less_one-IsByte : (c : ℕ) (bs : List ℕ) → All IsByte (less_one c bs)
less_one-IsByte c [] = tt
less_one-IsByte c (b ∷ bs) = (omega arith, less_one-IsByte (borrow c b) bs)

complement-IsByte : (bs : List ℕ) → All IsByte (map complement bs)
complement-IsByte [] = tt
complement-IsByte (b ∷ bs) = (omega arith, complement-IsByte bs)

abbrev tops_of : ℕ → List ℕ
tops_of n = replicate n 128

tops-IsByte : (n : ℕ) → All IsByte (tops_of n)
tops-IsByte zero = tt
tops-IsByte (suc n) = (omega arith, tops-IsByte n)

length-less_one : (c : ℕ) (bs : List ℕ) → length (less_one c bs) ≡ length bs
length-less_one c [] = refl
length-less_one c (b ∷ bs) = ap suc (length-less_one (borrow c b) bs)

-- The top bits that `HasZeroByte64` looks at.
abbrev top_bit : ℕ → ℕ → ℕ
top_bit c b = bit_and (bit_and ((b + 255 - c) % 256) (255 - b)) 128

abbrev top_bits : ℕ → List ℕ → List ℕ
top_bits c [] = []
top_bits c (b ∷ bs) = top_bit c b ∷ top_bits (borrow c b) bs

zip_bytes-top_bits :
    (c : ℕ) (bs : List ℕ)
    → zip_bytes bit_and
        (zip_bytes bit_and (less_one c bs) (map complement bs))
        (tops_of (length bs))
      ≡ top_bits c bs
zip_bytes-top_bits c [] = refl
zip_bytes-top_bits c (b ∷ bs) = ap (λ xs. top_bit c b ∷ xs) (zip_bytes-top_bits (borrow c b) bs)

zero_byte_shows : (c : ℕ) → c < 2 → top_bit c 0 ≢ 0
zero_byte_shows zero h e = absurd (omega arith)
zero_byte_shows (suc zero) h e = absurd (omega arith)
zero_byte_shows (suc (suc c)) h e = absurd (omega arith)

no_top_bit : (c : ℕ) (bs : List ℕ) → c < 2 → little_endian (top_bits c bs) ≡ 0 → All (λ b. b ≢ 0) bs
unfolding little_endian
no_top_bit c [] h e = tt
no_top_bit c (b ∷ bs) h e = (
  λ z.
      zero_byte_shows c h
        (rw z at (first_zero (top_bit c b) (little_endian (top_bits (borrow c b) bs)) e)),
  no_top_bit (borrow c b) bs (borrow_below c b) (omega arith),
)
  where
    first_zero : (x y : ℕ) → x + 256 * y ≡ 0 → x ≡ 0
    first_zero x y e = omega arith

zero_of : (x : ℕ) → not (x == 0) ≡ false → x ≡ 0
zero_of x h = ground arith

module _ (bs : List ℕ) (n : length bs ≡ 8) (k : All IsByte bs) where
  difference : u64 (little_endian bs + 2 ^ 64 - lo8) ≡ little_endian (less_one 0 bs)
  difference =
      let all : 256 ^ length bs ≡ 2 ^ 64 = rw n refl in
      let low : ones (length bs) ≡ lo8 = rw n refl in
      let fits = little_endian-below (less_one 0 bs) (less_one-IsByte 0 bs) in
      let fits' : little_endian (less_one 0 bs) < 2 ^ 64 = rw (length-less_one 0 bs, n) at fits in
      elim (little_endian-less_one 0 bs (omega arith) k) [
        | inl e ↦ omega arith
        | inr e ↦ omega arith
      ]

  inverse : 2 ^ 64 - 1 - little_endian bs ≡ little_endian (map complement bs)
  inverse =
      let all : 256 ^ length bs ≡ 2 ^ 64 = rw n refl in omega (arith, little_endian-complement bs k)

  tops : hi8 ≡ little_endian (tops_of (length bs))
  unfolding little_endian
  tops = rw n refl

  word_test :
      bit_and (bit_and (u64 (little_endian bs + 2 ^ 64 - lo8)) (2 ^ 64 - 1 - little_endian bs)) hi8
      ≡ little_endian (top_bits 0 bs)
  word_test =
      rw (difference, inverse, tops)
        (ap (λ (x : ℕ). bit_and x (little_endian (tops_of (length bs))))
            (little_endian-and (less_one 0 bs) (map complement bs) same (less_one-IsByte 0 bs)
              (complement-IsByte bs))
          ∙ little_endian-and both (tops_of (length bs)) tall
              (and-IsByte (less_one 0 bs) (map complement bs) (less_one-IsByte 0 bs)
                (complement-IsByte bs))
              (tops-IsByte (length bs))
          ∙ ap little_endian (zip_bytes-top_bits 0 bs))
    where
      both : List ℕ
      both = zip_bytes bit_and (less_one 0 bs) (map complement bs)

      same : length (less_one 0 bs) ≡ length (map complement bs)
      same = length-less_one 0 bs ∙ sym (length-map bs complement)

      tall :
          length (zip_bytes bit_and (less_one 0 bs) (map complement bs))
          ≡ length (tops_of (length bs))
      tall =
          length-zip_bytes bit_and (less_one 0 bs) (map complement bs) same
          ∙ length-less_one 0 bs
          ∙ sym (length-replicate {A = ℕ} (length bs) 128)

  -- A word for which the test is false has no zero byte.
  pub no_zero_byte : has_zero_byte64 (little_endian bs) ≡ false → All (λ b. b ≢ 0) bs
  unfolding has_zero_byte64
  no_zero_byte h = no_top_bit 0 bs (omega arith) (sym word_test ∙ zero_of _ h)
