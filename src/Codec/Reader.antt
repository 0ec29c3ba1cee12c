-- ===== src/Codec/Reader.antt =====
-- codec/codec.go: the stream reader. `io.ReadFull` is a parameter, as in Ws.
use rustygo.Base.{
  ℕ, zero, suc, ◌+◌, ◌*◌, ◌^◌, ◌&&◌, List, [], ◌∷◌, ◌==◌, if◌then◌else◌, ltb, ltb_ℤ, ℤ, pos,
  pos_part, u64, bit_and, bit_or, Result, ok, err, panic, length, get_or,
}
use rustygo.Codec.Wire.{CodecError, negative_length, varint_overflow, Allocator, big_endian}
use rustygo.Codec.Ws.{Io, ◌then_io◌}

module _ {R : Type 0} (read_full : R → ℕ → Io R (List ℕ)) where
  -- The nil slice is the empty one.
  unfoldable pub read_bytes : R → Allocator → ℤ → Io R (List ℕ)
  read_bytes r scope n =
      if ltb_ℤ n (pos 0)
      then (err negative_length, r)
      else if pos_part n == 0
      then (ok [], r)
      else (scope n, r) then_io (λ _ r'. read_full r' (pos_part n))

  -- A string is its bytes.
  unfoldable pub read_string : R → Allocator → ℤ → Io R (List ℕ)
  unfolding read_bytes
  read_string r scope n = read_bytes r scope n

  unfoldable pub read_uint32 : R → Io R ℕ
  unfolding big_endian
  read_uint32 r = read_full r 4 then_io (λ b r'. (ok (big_endian b), r'))

  unfoldable pub read_uint64 : R → Io R ℕ
  unfolding big_endian
  read_uint64 r = read_full r 8 then_io (λ b r'. (ok (big_endian b), r'))

  -- The rounds that are left of `binary.MaxVarintLen64`, with the bits read so far and the shift.
  unfoldable pub varint_rounds : ℕ → ℕ → ℕ → R → Io R ℕ
  varint_rounds zero x s r = (err varint_overflow, r)
  varint_rounds (suc left) x s r = read_full r 1 then_io (λ b r'.
      let byte_val = get_or b 0 0 in
      let more = varint_rounds left (bit_or x (u64 (bit_and byte_val 0x7f * 2 ^ s))) (s + 7) r' in
      if ltb byte_val 0x80
      then (if (left == 0) && ltb 1 byte_val
          then (err varint_overflow, r')
          else (ok (bit_or x (u64 (byte_val * 2 ^ s))), r'))
      else more)

  unfoldable pub read_varint : R → Io R ℕ
  unfolding varint_rounds
  read_varint r = varint_rounds 10 0 0 r

unfoldable pub clone_string : Allocator → List ℕ → Result CodecError (List ℕ)
clone_string scope [] = ok []
clone_string scope (b ∷ bs) = elim (scope (pos (length (b ∷ bs)))) [
  | ok u ↦ ok (b ∷ bs)
  | err e ↦ err e
  | panic p ↦ panic p
]
