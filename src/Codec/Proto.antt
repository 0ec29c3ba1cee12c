-- ===== src/Codec/Proto.antt =====
-- codec/proto.go: the Protobuf wire format.
pub mod Lengths
use rustygo.Base.{
  ℕ, zero, suc, ◌+◌, ◌-◌, ◌*◌, ◌/◌, ◌%◌, ◌^◌, ◌≤◌, ◌<◌, Bool, Option, none, some, List, [], ◌∷◌,
  ◌++◌, arith, ℤ, pos_part, is_positive, to_u64, to_i64, u64, sub64, ltb_ℤ, ◌==◌, not,
  if◌then◌else◌, Result, ok, err, panic, slice_bounds, index_range, length, bit_and, bit_or,
  bit_xor,
}
use rustygo.Base.Order.{lt_wf}
use mathlib.Core.WellFounded.{Acc}
use mathlib.Core.Logic.{dite}
use native.Mathlib.Decide.{dec_le}
use rustygo.Codec.Wire.{
  CodecError, eof, unexpected_eof, malformed_proto, invalid_wire, Decoder, Step, add_int, advance,
  at_end, short, byte_at, slice, little_endian, put_little, Allocator, reserve, ◌then_do◌,
}

-- `WireType`, an int.
abbrev pub wire_varint : ℕ
wire_varint = 0

abbrev pub wire_fixed64 : ℕ
wire_fixed64 = 1

abbrev pub wire_bytes : ℕ
wire_bytes = 2

abbrev pub wire_fixed32 : ℕ
wire_fixed32 = 5

unfoldable pub has_more : Decoder → Bool
has_more d = not (at_end d)

-- One round of the loop, on the byte at the position; `rest` is the loop from the next byte on.
abbrev pub take_group : ℕ → ℕ → Decoder → ℕ → (ℕ → Decoder → Step ℕ) → Step ℕ
take_group shift val d b rest =
    let val' = bit_or val (u64 (bit_and b 0x7F * 2 ^ shift)) in
    let d' = advance d (ℤ.pos 1) in
    let more = rest val' d' in if bit_and b 0x80 == 0 then (ok val', d') else more

abbrev pub on_byte : ℕ → ℕ → Decoder → Option ℕ → (ℕ → Decoder → Step ℕ) → Step ℕ
on_byte shift val d none rest = (panic index_range, d)
on_byte shift val d (some b) rest = take_group shift val d b rest

-- `for shift < 64`: the shifts are 0, 7, …, 63, so the loop has ten rounds.
unfoldable pub varint_loop : ℕ → ℕ → ℕ → Decoder → Step ℕ
varint_loop zero shift val d = (err malformed_proto, d)
varint_loop (suc rounds) shift val d =
    let rest = λ (v : ℕ) (e : Decoder). varint_loop rounds (shift + 7) v e in
    let round = on_byte shift val d (byte_at d.input d.pos) rest in
    if at_end d then (err unexpected_eof, d) else round

unfoldable pub decode_varint : Decoder → Step ℕ
decode_varint d = varint_loop 10 0 0 d

abbrev pub to_field : ℕ → Decoder → Step (ℕ × ℕ)
to_field tag d =
    let field_num = to_i64 (tag / 8) in
    if not (is_positive field_num)
    then (err malformed_proto, d)
    else (ok (pos_part field_num, bit_and tag 0x07), d)

-- The field number and the wire type.
unfoldable pub next_field : Decoder → Step (ℕ × ℕ)
next_field d = if at_end d then (err eof, d) else (decode_varint d then_do to_field)

-- `int64((v >> 1) ^ -(v & 1))`
unfoldable pub unzigzag : ℕ → ℤ
unzigzag v = to_i64 (bit_xor (v / 2) (sub64 0 (bit_and v 1)))

unfoldable pub decode_zigzag64 : Decoder → Step ℤ
decode_zigzag64 d = decode_varint d then_do λ v e. (ok (unzigzag v), e)

abbrev pub from_slice : Decoder → ℤ → Option (List ℕ) → Step ℕ
from_slice d n none = (panic slice_bounds, d)
from_slice d n (some bs) = (ok (little_endian bs), advance d n)

unfoldable pub decode_fixed32 : Decoder → Step ℕ
decode_fixed32 d =
    if short d (ℤ.pos 4)
    then (err unexpected_eof, d)
    else from_slice d (ℤ.pos 4) (slice d.input d.pos (add_int d.pos (ℤ.pos 4)))

unfoldable pub decode_fixed64 : Decoder → Step ℕ
decode_fixed64 d =
    if short d (ℤ.pos 8)
    then (err unexpected_eof, d)
    else from_slice d (ℤ.pos 8) (slice d.input d.pos (add_int d.pos (ℤ.pos 8)))

abbrev pub copied : List ℕ → Decoder → Result CodecError (Unit {0}) → Step (List ℕ)
copied raw d (ok _) = (ok raw, d)
copied raw d (err e) = (err e, d)
copied raw d (panic p) = (panic p, d)

-- The bytes `d.data[d.pos:d.pos+l]`, copied to memory of the scope if there are any.
abbrev pub read_raw : Option Allocator → ℤ → Decoder → Option (List ℕ) → Step (List ℕ)
read_raw scope l d none = (panic slice_bounds, d)
read_raw scope l d (some raw) =
    copied raw (advance d l) (if is_positive l then reserve scope l else ok tt)

abbrev pub read_length : Option Allocator → ℕ → Decoder → Step (List ℕ)
read_length scope n d =
    let l = to_i64 n in
    if short d l
    then (err unexpected_eof, d)
    else read_raw scope l d (slice d.input d.pos (add_int d.pos l))

-- `DecodeBytes`; `DecodeString` has the same steps, and a string is its bytes.
unfoldable pub decode_bytes : Option Allocator → Decoder → Step (List ℕ)
decode_bytes scope d = decode_varint d then_do read_length scope

unfoldable pub decode_string : Option Allocator → Decoder → Step (List ℕ)
decode_string scope d = decode_varint d then_do read_length scope

abbrev pub skip_bytes : ℕ → Decoder → Step (Unit {0})
skip_bytes n d =
    if short d (to_i64 n) then (err unexpected_eof, d) else (ok tt, advance d (to_i64 n))

abbrev pub skip_fixed : Decoder → ℕ → Step (Unit {0})
skip_fixed d n = if short d (ℤ.pos n) then (err unexpected_eof, d) else (ok tt, advance d (ℤ.pos n))

unfoldable pub skip_field : Decoder → ℕ → Step (Unit {0})
skip_field d wire_type =
    if wire_type == wire_varint
    then (decode_varint d then_do λ _ e. (ok tt, e))
    else if wire_type == wire_fixed64
    then skip_fixed d 8
    else if wire_type == wire_bytes
    then (decode_varint d then_do skip_bytes)
    else if wire_type == wire_fixed32
    then skip_fixed d 4
    else (err invalid_wire, d)

pub shifted_smaller : (v : ℕ) → 0x80 ≤ v → v / 128 < v
shifted_smaller v h = omega arith

-- `for v >= 0x80`; the argument after the value says that the loop ends.
unfoldable pub append_varint_loop : List ℕ → (v : ℕ) → Acc ◌<◌ v → List ℕ
unfolding dec_le
append_varint_loop buf v (Acc.intro _ smaller) =
    dite (dec_le 0x80 v)
      (λ h.
        append_varint_loop (buf ++ (bit_or (v % 256) 0x80 ∷ [])) (v / 128)
          (smaller (v / 128) (shifted_smaller v h)))
      (λ _. buf ++ (v % 256 ∷ []))

-- The encoder is its buffer.
unfoldable pub append_varint : List ℕ → ℕ → List ℕ
append_varint buf v = append_varint_loop buf v (lt_wf.apply v)

-- `uint64((fieldNum << 3) | int(wireType))`, for a field number that is not negative.
unfoldable pub encode_tag : List ℕ → ℕ → ℕ → List ℕ
encode_tag buf field_num wire_type = append_varint buf (bit_or (u64 (field_num * 2 ^ 3)) wire_type)

unfoldable pub encode_varint : List ℕ → ℕ → ℕ → List ℕ
encode_varint buf field_num val = append_varint (encode_tag buf field_num wire_varint) val

-- `uint64((val << 1) ^ (val >> 63))`
unfoldable pub zigzag : ℤ → ℕ
zigzag v = bit_xor (u64 (to_u64 v * 2)) (if ltb_ℤ v (ℤ.pos 0) then 2 ^ 64 - 1 else 0)

unfoldable pub encode_zigzag64 : List ℕ → ℕ → ℤ → List ℕ
encode_zigzag64 buf field_num val = encode_varint buf field_num (zigzag val)

unfoldable pub encode_fixed32 : List ℕ → ℕ → ℕ → List ℕ
encode_fixed32 buf field_num val = encode_tag buf field_num wire_fixed32 ++ put_little 4 val

unfoldable pub encode_fixed64 : List ℕ → ℕ → ℕ → List ℕ
encode_fixed64 buf field_num val = encode_tag buf field_num wire_fixed64 ++ put_little 8 val

unfoldable pub encode_bytes : List ℕ → ℕ → List ℕ → List ℕ
encode_bytes buf field_num val =
    append_varint (encode_tag buf field_num wire_bytes) (u64 (length val)) ++ val

unfoldable pub encode_string : List ℕ → ℕ → List ℕ → List ℕ
encode_string buf field_num val =
    append_varint (encode_tag buf field_num wire_bytes) (u64 (length val)) ++ val
