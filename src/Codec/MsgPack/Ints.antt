-- ===== src/Codec/MsgPack/Ints.antt =====
-- The round trip of MessagePack integers.
use rustygo.Base.{
  ℕ, suc, ◌+◌, ◌%◌, ◌^◌, ◌≤◌, ◌<◌, ◌≡◌, ◌⊎◌, inl, inr, refl, ap, ◌∙◌, List, ◌∷◌, ◌++◌, arith, ℤ,
  pos, negsuc, IsInt, to_u64, ltb_ℤ, length, length-append, true, false, ok,
}
use rustygo.Codec.Wire.{Decoder, Step, advance, at_end, short, add_int, big_endian, put_big}
use rustygo.Codec.Stream.{
  add_int_small, byte_at-append, slice-append, big_endian-put_big, length-put_big,
}
use rustygo.Codec.MsgPack.{signed, token, number_after, decode_int, decode_int_token, at_most}
use rustygo.Codec.MsgPack.Encoder.{within}

-- A decoder over `pre`, a token byte and `zs`, at the token byte or `n` bytes behind it.
abbrev pub at_token : List ℕ → ℕ → List ℕ → Decoder
at_token pre t zs = record { input = pre ++ (t ∷ zs); pos = pos (length pre) }

abbrev pub behind : List ℕ → ℕ → List ℕ → ℕ → Decoder
behind pre t zs n = record { input = pre ++ (t ∷ zs); pos = pos (length pre + n) }

module _ (pre zs : List ℕ) (t : ℕ) (h : length (pre ++ (t ∷ zs)) < 2 ^ 63) where
  long : length pre + suc (length zs) < 2 ^ 63
  long = omega (arith, length-append pre (t ∷ zs))

  pub not_at_end : at_end (at_token pre t zs) ≡ false
  not_at_end = ground (arith, length-append pre (t ∷ zs))

  pub token-eq : {A : Type 0} (f : ℕ → Step A) → token (at_token pre t zs) f ≡ f t
  token-eq f = rw (not_at_end, byte_at-append t zs pre) refl

  pub advance-eq :
      (n : ℕ) → n ≤ suc (length zs) → advance (at_token pre t zs) (pos n) ≡ behind pre t zs n
  advance-eq n k =
      ap (λ (p : ℤ). record (at_token pre t zs) { pos = p })
        (add_int_small (length pre) n (omega (arith, long)))

module _ (pre ys rest : List ℕ) (t : ℕ) (h : length (pre ++ (t ∷ (ys ++ rest))) < 2 ^ 63) where
  fits : length pre + suc (length ys) ≤ length (pre ++ (t ∷ (ys ++ rest)))
  fits = omega (arith, length-append pre (t ∷ (ys ++ rest)), length-append ys rest)

  next : add_int (pos (length pre)) (pos 1) ≡ pos (suc (length pre))
  next = add_int_small (length pre) 1 (omega (arith, fits)) ∙ ap pos (omega arith)

  end : add_int (pos (suc (length pre))) (pos (length ys)) ≡ pos (suc (length pre) + length ys)
  end = add_int_small (suc (length pre)) (length ys) (omega (arith, fits))

  enough : short (at_token pre t (ys ++ rest)) (pos (suc (length ys))) ≡ false
  enough =
      ap (λ (p : ℤ). ltb_ℤ (pos (length (pre ++ (t ∷ (ys ++ rest))))) p)
        (add_int_small (length pre) (suc (length ys)) (omega (arith, fits)))
      ∙ ground (arith, fits)

  -- Reading the number behind the token byte.
  pub number_after-eq :
      number_after (at_token pre t (ys ++ rest)) (length ys)
      ≡ (ok (big_endian ys), behind pre t (ys ++ rest) (suc (length ys)))
  unfolding number_after
  number_after-eq =
      rw
        (
          enough,
          next,
          end,
          slice-append pre ys rest t,
          advance-eq pre (ys ++ rest) t h (suc (length ys)) (omega (arith, length-append ys rest)),
        )
        refl

module _ (pre rest : List ℕ) where
  -- A token of one byte.
  pub fixint :
      (b : ℕ) (v : ℤ)
      → length (pre ++ (b ∷ rest)) < 2 ^ 63
      → ((at_most b 0x7f ≡ true) × (pos b ≡ v))
        ⊎ ((at_most b 0x7f ≡ false) × (at_most 0xe0 b ≡ true) × (signed 8 b ≡ v))
      → decode_int (at_token pre b rest) ≡ (ok v, behind pre b rest 1)
  unfolding decode_int
  fixint b v h (inl (low, e)) =
      rw
        (
          not_at_end pre rest b h,
          byte_at-append b rest pre,
          low,
          e,
          advance-eq pre rest b h 1 (omega arith),
        )
        refl
  fixint b v h (inr (low, high, e)) =
      rw
        (
          not_at_end pre rest b h,
          byte_at-append b rest pre,
          low,
          high,
          e,
          advance-eq pre rest b h 1 (omega arith),
        )
        refl

  module _ (t k u : ℕ) (h : length (pre ++ (t ∷ (put_big k u ++ rest))) < 2 ^ 63) where
    number_after-put_big :
        number_after (at_token pre t (put_big k u ++ rest)) k
        ≡ (ok (u % 256 ^ k), behind pre t (put_big k u ++ rest) (suc k))
    number_after-put_big =
        rw (length-put_big k u, big_endian-put_big k u) at
          (number_after-eq pre (put_big k u) rest t h)

  pub int8 :
      (u : ℕ)
      → length (pre ++ (0xd0 ∷ (put_big 1 u ++ rest))) < 2 ^ 63
      → decode_int (at_token pre 0xd0 (put_big 1 u ++ rest))
        ≡ (ok (signed 8 (u % 256 ^ 1)), behind pre 0xd0 (put_big 1 u ++ rest) 2)
  unfolding decode_int decode_int_token
  int8 u h =
      rw (not_at_end pre _ 0xd0 h, byte_at-append 0xd0 _ pre, number_after-put_big 0xd0 1 u h) refl

  pub int16 :
      (u : ℕ)
      → length (pre ++ (0xd1 ∷ (put_big 2 u ++ rest))) < 2 ^ 63
      → decode_int (at_token pre 0xd1 (put_big 2 u ++ rest))
        ≡ (ok (signed 16 (u % 256 ^ 2)), behind pre 0xd1 (put_big 2 u ++ rest) 3)
  unfolding decode_int decode_int_token
  int16 u h =
      rw (not_at_end pre _ 0xd1 h, byte_at-append 0xd1 _ pre, number_after-put_big 0xd1 2 u h) refl

  pub int32 :
      (u : ℕ)
      → length (pre ++ (0xd2 ∷ (put_big 4 u ++ rest))) < 2 ^ 63
      → decode_int (at_token pre 0xd2 (put_big 4 u ++ rest))
        ≡ (ok (signed 32 (u % 256 ^ 4)), behind pre 0xd2 (put_big 4 u ++ rest) 5)
  unfolding decode_int decode_int_token
  int32 u h =
      rw (not_at_end pre _ 0xd2 h, byte_at-append 0xd2 _ pre, number_after-put_big 0xd2 4 u h) refl

  pub int64 :
      (u : ℕ)
      → length (pre ++ (0xd3 ∷ (put_big 8 u ++ rest))) < 2 ^ 63
      → decode_int (at_token pre 0xd3 (put_big 8 u ++ rest))
        ≡ (ok (signed 64 (u % 256 ^ 8)), behind pre 0xd3 (put_big 8 u ++ rest) 9)
  unfolding decode_int decode_int_token
  int64 u h =
      rw (not_at_end pre _ 0xd3 h, byte_at-append 0xd3 _ pre, number_after-put_big 0xd3 8 u h) refl

-- A number of `w` bits, as the low bytes of the 64-bit word.
pub signed_8 : (v : ℤ) → within (negsuc 127) (pos 127) v ≡ true → signed 8 (to_u64 v % 256 ^ 1) ≡ v
unfolding signed
signed_8 (pos n) h = ground arith
signed_8 (negsuc n) h = ground arith

pub signed_16 :
    (v : ℤ) → within (negsuc 32767) (pos 32767) v ≡ true → signed 16 (to_u64 v % 256 ^ 2) ≡ v
unfolding signed
signed_16 (pos n) h = ground arith
signed_16 (negsuc n) h = ground arith

pub signed_32 :
    (v : ℤ)
    → within (negsuc 2147483647) (pos 2147483647) v ≡ true
    → signed 32 (to_u64 v % 256 ^ 4) ≡ v
unfolding signed
signed_32 (pos n) h = ground arith
signed_32 (negsuc n) h = ground arith

pub signed_64 : (v : ℤ) → IsInt v → signed 64 (to_u64 v % 256 ^ 8) ≡ v
unfolding signed
signed_64 (pos n) h = ground arith
signed_64 (negsuc n) h = ground arith
