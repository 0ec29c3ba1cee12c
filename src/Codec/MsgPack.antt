-- ===== src/Codec/MsgPack.antt =====
-- codec/msgpack.go, the decoder: one method per MessagePack token. A float is kept as its bits.
pub mod Encoder
pub mod Ints
pub mod RoundTrip
use rustygo.Base.{
  ℕ, zero, suc, ◌+◌, ◌-◌, ◌*◌, ◌/◌, ◌%◌, ◌^◌, Bool, true, false, Option, none, some, List, [], ◌∷◌,
  ◌++◌, ℤ, pos, negsuc, pos_part, is_positive, to_u64, to_i64, u64, ltb, ltb_ℤ, leb_ℤ, ◌==◌, not,
  ◌&&◌, if◌then◌else◌, Result, ok, err, panic, slice_bounds, index_range, length, bit_and, bit_or,
}
use rustygo.Codec.Wire.{
  CodecError, eof, unexpected_eof, malformed_msgpack, type_mismatch, Decoder, Step, add_int, size,
  advance, at_end, short, byte_at, slice, big_endian, put_big, Allocator, reserve, ◌then_do◌,
}

-- `b <= k`
abbrev pub at_most : ℕ → ℕ → Bool
at_most b k = ltb b (suc k)

-- `b >= lo && b <= hi`
abbrev pub between : ℕ → ℕ → ℕ → Bool
between lo hi b = at_most lo b && at_most b hi

-- `int8`, `int16`, `int32` and `int64` of an unsigned number of that width, read as an int64.
unfoldable pub signed : ℕ → ℕ → ℤ
signed w v = if ltb v (2 ^ (w - 1)) then ℤ.pos v else negsuc (2 ^ w - 1 - v)

abbrev pub on_token : {A : Type 0} → Decoder → Option ℕ → (ℕ → Step A) → Step A
on_token d none f = (panic index_range, d)
on_token d (some b) f = f b

-- The tests on the byte at the position, and `io.EOF` when there is none.
abbrev pub token : {A : Type 0} → Decoder → (ℕ → Step A) → Step A
token d f =
    let step = on_token d (byte_at d.input d.pos) f in if at_end d then (err eof, d) else step

unfoldable pub decode_nil : Decoder → Step (Unit {0})
decode_nil d =
    token d λ b. if not (b == 0xc0) then (err type_mismatch, d) else (ok tt, advance d (ℤ.pos 1))

unfoldable pub decode_bool : Decoder → Step Bool
decode_bool d = token d λ b.
    if b == 0xc2
    then (ok false, advance d (ℤ.pos 1))
    else if b == 0xc3
    then (ok true, advance d (ℤ.pos 1))
    else (err type_mismatch, d)

abbrev pub big_of : Decoder → ℕ → Option (List ℕ) → Step ℕ
big_of d n none = (panic slice_bounds, d)
big_of d n (some bs) = (ok (big_endian bs), advance d (ℤ.pos (suc n)))

-- The big-endian number in the n bytes after the token byte.
unfoldable pub number_after : Decoder → ℕ → Step ℕ
number_after d n =
    let from = add_int d.pos (ℤ.pos 1) in
    if short d (ℤ.pos (suc n))
    then (err unexpected_eof, d)
    else big_of d n (slice d.input from (add_int from (ℤ.pos n)))

abbrev pub signed_after : Decoder → ℕ → ℕ → Step ℤ
signed_after d n w = number_after d n then_do λ v e. (ok (signed w v), e)

abbrev pub unsigned_after : Decoder → ℕ → Step ℤ
unsigned_after d n = number_after d n then_do λ v e. (ok (to_i64 v), e)

-- The `switch` of `DecodeInt`.
unfoldable pub decode_int_token : Decoder → ℕ → Step ℤ
decode_int_token d b =
    if b == 0xcc
    then unsigned_after d 1
    else if b == 0xcd
    then unsigned_after d 2
    else if b == 0xce
    then unsigned_after d 4
    else if b == 0xcf
    then unsigned_after d 8
    else if b == 0xd0
    then signed_after d 1 8
    else if b == 0xd1
    then signed_after d 2 16
    else if b == 0xd2
    then signed_after d 4 32
    else if b == 0xd3
    then signed_after d 8 64
    else (err type_mismatch, d)

unfoldable pub decode_int : Decoder → Step ℤ
decode_int d = token d λ b.
    if at_most b 0x7f
    then (ok (ℤ.pos b), advance d (ℤ.pos 1))
    else if at_most 0xe0 b
    then (ok (signed 8 b), advance d (ℤ.pos 1))
    else decode_int_token d b

-- The bits of a float32 or of a float64.
pub data Float : Type 0 where
  float32 float64 : ℕ → Float

unfoldable pub decode_float64 : Decoder → Step Float
decode_float64 d = token d λ b.
    if b == 0xca
    then (number_after d 4 then_do λ v e. (ok (float32 v), e))
    else if b == 0xcb
    then (number_after d 8 then_do λ v e. (ok (float64 v), e))
    else (err type_mismatch, d)

-- A header of a string, with the length of the string.
unfoldable pub string_header : Decoder → Step ℕ
string_header d = token d λ b.
    if between 0xa0 0xbf b
    then (ok (bit_and b 0x1f), advance d (ℤ.pos 1))
    else if b == 0xd9
    then number_after d 1
    else if b == 0xda
    then number_after d 2
    else if b == 0xdb
    then number_after d 4
    else (err type_mismatch, d)

unfoldable pub bytes_header : Decoder → Step ℕ
bytes_header d = token d λ b.
    if b == 0xc4
    then number_after d 1
    else if b == 0xc5
    then number_after d 2
    else if b == 0xc6
    then number_after d 4
    else (err type_mismatch, d)

abbrev pub copied : List ℕ → Decoder → Result CodecError (Unit {0}) → Step (List ℕ)
copied raw d (ok _) = (ok raw, d)
copied raw d (err e) = (err e, d)
copied raw d (panic p) = (panic p, d)

abbrev pub with_payload : Option Allocator → ℕ → Decoder → Option (List ℕ) → Step (List ℕ)
with_payload scope n d none = (panic slice_bounds, d)
with_payload scope n d (some raw) = copied raw (advance d (ℤ.pos n)) (reserve scope (ℤ.pos n))

-- `d.data[d.pos : d.pos+length]`, copied to memory of the scope if there is one.
unfoldable pub payload : Option Allocator → ℕ → Decoder → Step (List ℕ)
payload scope n d =
    if short d (ℤ.pos n)
    then (err unexpected_eof, d)
    else with_payload scope n d (slice d.input d.pos (add_int d.pos (ℤ.pos n)))

-- `&buf[0]` of an empty buffer is never reached: `AllocSlice` has no buffer of length 0.
unfoldable pub decode_string : Option Allocator → Decoder → Step (List ℕ)
decode_string scope d = string_header d then_do payload scope

unfoldable pub decode_bytes : Option Allocator → Decoder → Step (List ℕ)
decode_bytes scope d = bytes_header d then_do payload scope

unfoldable pub decode_array_header : Decoder → Step ℕ
decode_array_header d = token d λ b.
    if between 0x90 0x9f b
    then (ok (bit_and b 0x0f), advance d (ℤ.pos 1))
    else if b == 0xdc
    then number_after d 2
    else if b == 0xdd
    then number_after d 4
    else (err type_mismatch, d)

unfoldable pub decode_map_header : Decoder → Step ℕ
decode_map_header d = token d λ b.
    if between 0x80 0x8f b
    then (ok (bit_and b 0x0f), advance d (ℤ.pos 1))
    else if b == 0xde
    then number_after d 2
    else if b == 0xdf
    then number_after d 4
    else (err type_mismatch, d)
