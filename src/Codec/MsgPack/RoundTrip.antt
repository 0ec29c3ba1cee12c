-- ===== src/Codec/MsgPack/RoundTrip.antt =====
-- `EncodeInt` and then `DecodeInt`.
use rustygo.Base.{
  ℕ, suc, ◌%◌, ◌^◌, ◌<◌, ◌≡◌, ◌⊎◌, inl, inr, refl, ap, List, [], ◌∷◌, ◌++◌, arith, ℤ, pos, negsuc,
  IsInt, to_u64, leb_ℤ, ltb_ℤ, ◌&&◌, length, length-append, true, false, Bool-cases, ok,
}
use mathlib.Core.List.{append_assoc}
use rustygo.Codec.Wire.{put_big}
use rustygo.Codec.Stream.{length-put_big}
use rustygo.Codec.MsgPack.{signed, decode_int, at_most}
use rustygo.Codec.MsgPack.Encoder.{within, encode_int}
use rustygo.Codec.MsgPack.Ints.{
  at_token, behind, fixint, int8, int16, int32, int64, signed_8, signed_16, signed_32, signed_64,
}

-- Behind `buf` the decoder reads `v`, and stops at the end of `out`.
abbrev Reads : List ℕ → List ℕ → ℤ → List ℕ → Type 0
Reads buf rest v out =
    length (out ++ rest) < 2 ^ 63
    → decode_int (record { input = out ++ rest; pos = pos (length buf) })
      ≡ (ok v, record { input = out ++ rest; pos = pos (length out) })

module _ (buf rest : List ℕ) where
  from_token :
      (t : ℕ) (zs : List ℕ) (n : ℕ) (v : ℤ)
      → suc (length zs) ≡ n
      → (length (buf ++ (t ∷ (zs ++ rest))) < 2 ^ 63
          → decode_int (at_token buf t (zs ++ rest)) ≡ (ok v, behind buf t (zs ++ rest) n))
      → Reads buf rest v (buf ++ (t ∷ zs))
  from_token t zs n v e f h =
      let g = f (rw (append_assoc buf (t ∷ zs) rest) at h) in
      rw (append_assoc buf (t ∷ zs) rest, length-append buf (t ∷ zs), e) g

  low :
      (v : ℤ)
      → within (pos 0) (pos 127) v ≡ true
      → (at_most (to_u64 v % 256) 0x7f ≡ true) × (pos (to_u64 v % 256) ≡ v)
  low (pos n) c = ground arith
  low (negsuc n) c = ground arith

  high :
      (v : ℤ)
      → (leb_ℤ (negsuc 31) v && ltb_ℤ v (pos 0)) ≡ true
      → (at_most (to_u64 v % 256) 0x7f ≡ false)
        × (at_most 0xe0 (to_u64 v % 256) ≡ true)
        × (signed 8 (to_u64 v % 256) ≡ v)
  unfolding signed
  high (pos n) c = ground arith
  high (negsuc n) c = ground arith

  one_byte :
      (v : ℤ)
      → ((at_most (to_u64 v % 256) 0x7f ≡ true) × (pos (to_u64 v % 256) ≡ v))
        ⊎ ((at_most (to_u64 v % 256) 0x7f ≡ false)
            × (at_most 0xe0 (to_u64 v % 256) ≡ true)
            × (signed 8 (to_u64 v % 256) ≡ v))
      → Reads buf rest v (buf ++ put_big 1 (to_u64 v))
  unfolding put_big
  one_byte v c =
      from_token (to_u64 v % 256) [] 1 v refl (λ h. fixint buf rest (to_u64 v % 256) v h c)

  pub reads : (v : ℤ) → IsInt v → Reads buf rest v (encode_int buf v)
  unfolding encode_int
  reads v i = elim (Bool-cases (within (pos 0) (pos 127) v)) [
    | inl c ↦ rw c (one_byte v (inl (low v c)))
    | inr c1 ↦ elim (Bool-cases (leb_ℤ (negsuc 31) v && ltb_ℤ v (pos 0))) [
      | inl c ↦ rw (c1, c) (one_byte v (inr (high v c)))
      | inr c2 ↦ elim (Bool-cases (within (negsuc 127) (pos 127) v)) [
        | inl c ↦
            rw (c1, c2, c)
              (from_token 0xd0 (put_big 1 (to_u64 v)) 2 v (ap suc (length-put_big 1 (to_u64 v)))
                (λ h. rw (signed_8 v c) at (int8 buf rest (to_u64 v) h)))
        | inr c3 ↦ elim (Bool-cases (within (negsuc 32767) (pos 32767) v)) [
          | inl c ↦
              rw (c1, c2, c3, c)
                (from_token 0xd1 (put_big 2 (to_u64 v)) 3 v (ap suc (length-put_big 2 (to_u64 v)))
                  (λ h. rw (signed_16 v c) at (int16 buf rest (to_u64 v) h)))
          | inr c4 ↦ elim (Bool-cases (within (negsuc 2147483647) (pos 2147483647) v)) [
            | inl c ↦
                rw (c1, c2, c3, c4, c)
                  (from_token 0xd2 (put_big 4 (to_u64 v)) 5 v (ap suc (length-put_big 4 (to_u64 v)))
                    (λ h. rw (signed_32 v c) at (int32 buf rest (to_u64 v) h)))
            | inr c5 ↦
                rw (c1, c2, c3, c4, c5)
                  (from_token 0xd3 (put_big 8 (to_u64 v)) 9 v (ap suc (length-put_big 8 (to_u64 v)))
                    (λ h. rw (signed_64 v i) at (int64 buf rest (to_u64 v) h)))
          ]
        ]
      ]
    ]
  ]

-- Every 64-bit integer that `EncodeInt` appends to a buffer, also with more bytes behind it, is what `DecodeInt`
-- reads at that position, and the decoder then stands right behind it, for fewer than 2 ^ 63 bytes in all.
pub decode_int-encode_int :
    (buf rest : List ℕ) (v : ℤ)
    → IsInt v
    → length (encode_int buf v ++ rest) < 2 ^ 63
    → decode_int (record { input = encode_int buf v ++ rest; pos = pos (length buf) })
      ≡ (ok v, record { input = encode_int buf v ++ rest; pos = pos (length (encode_int buf v)) })
decode_int-encode_int buf rest v i h = reads buf rest v i h
