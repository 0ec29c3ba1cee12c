-- ===== src/Codec/Wire.antt =====
-- What the decoders of package codec share: a byte slice with a position, the byte orders of
-- encoding/binary, 64-bit arithmetic on positions, and the allocator behind `rg.AllocSlice[byte]`.
pub use rustygo.Base.{add_int}
use rustygo.Base.{
  ℕ, zero, suc, ◌+◌, ◌-◌, ◌*◌, ◌/◌, ◌%◌, Bool, Option, none, some, List, [], ◌∷◌, ◌++◌, ℤ, negsuc,
  pos_part, leb_ℤ, ltb_ℤ, if◌then◌else◌, Result, ok, err, panic, length, get_elem?, take, drop,
}

pub data CodecError : Type 0 where
  eof unexpected_eof malformed_proto invalid_wire malformed_msgpack type_mismatch : CodecError
  control_frame_frag malformed_json negative_length varint_overflow : CodecError

pub record Decoder : Type 0 where
  pub input : List ℕ
  pub pos : ℤ

-- A decoding method: its result, and the decoder with the position where it stopped.
abbrev pub Step : Type 0 → Type 0
Step A = Result CodecError A × Decoder

abbrev pub size : Decoder → ℤ
size d = ℤ.pos (length d.input)

abbrev pub advance : Decoder → ℤ → Decoder
advance d n = record d { pos = add_int d.pos n }

-- `d.pos >= len(d.data)`, and `d.pos+n > len(d.data)`
abbrev pub at_end : Decoder → Bool
at_end d = leb_ℤ (size d) d.pos

abbrev pub short : Decoder → ℤ → Bool
short d n = ltb_ℤ (size d) (add_int d.pos n)

-- `d.data[d.pos+k]`; an index out of range panics.
abbrev pub byte_at : List ℕ → ℤ → Option ℕ
byte_at xs (ℤ.pos i) = get_elem? xs i
byte_at xs (negsuc i) = none

-- `data[lo:hi]`
unfoldable pub slice : List ℕ → ℤ → ℤ → Option (List ℕ)
slice xs lo hi =
    if leb_ℤ (ℤ.pos 0) lo
    then if leb_ℤ lo hi
      then if leb_ℤ hi (ℤ.pos (length xs))
        then some (take (pos_part hi - pos_part lo) (drop (pos_part lo) xs))
        else none
      else none
    else none

-- The value of bytes, lowest first and highest first.
unfoldable pub little_endian : List ℕ → ℕ
little_endian [] = 0
little_endian (b ∷ bs) = b + 256 * little_endian bs

unfoldable pub big_endian_from : ℕ → List ℕ → ℕ
big_endian_from acc [] = acc
big_endian_from acc (b ∷ bs) = big_endian_from (acc * 256 + b) bs

unfoldable pub big_endian : List ℕ → ℕ
unfolding big_endian_from
big_endian bs = big_endian_from 0 bs

-- `PutUint16`, `PutUint32` and `PutUint64` in the two orders, by the number of bytes.
unfoldable pub put_little : ℕ → ℕ → List ℕ
put_little zero v = []
put_little (suc k) v = v % 256 ∷ put_little k (v / 256)

unfoldable pub put_big : ℕ → ℕ → List ℕ
put_big zero v = []
put_big (suc k) v = put_big k (v / 256) ++ (v % 256 ∷ [])

-- `rg.AllocSlice[byte](scope, n)`: it returns, or it panics.
abbrev pub Allocator : Type 0
Allocator = ℤ → Result CodecError (Unit {0})

-- A nil scope allocates on the heap.
abbrev pub reserve : Option Allocator → ℤ → Result CodecError (Unit {0})
reserve none n = ok tt
reserve (some alloc) n = alloc n

-- What follows a call that may fail.
infixl 5 ◌then_do◌
abbrev pub ◌then_do◌ : {A B : Type 0} → Step A → (A → Decoder → Step B) → Step B
(ok a, d) then_do f = f a d
(err e, d) then_do f = (err e, d)
(panic p, d) then_do f = (panic p, d)
