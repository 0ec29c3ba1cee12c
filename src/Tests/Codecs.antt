-- ===== src/Tests/Codecs.antt =====
-- Theorems about the codecs on concrete bytes.
use rustygo.Base.{true, take, drop}
use rustygo.Codec.Ws.{Io, MaskKey, read_ws_frame, write_ws_frame}
use rustygo.Base.Every.{All}
use rustygo.Codec.Simd.{
  scalar_find, is_quote_or_escape, find_quote_or_escape, unmask_bytes_vectorized, unmask_scalar,
}
use rustygo.Codec.Simd.Fields.{IsByte}
use rustygo.Codec.Simd.Scan.{find_quote_or_escape-scalar_find}
use rustygo.Codec.Simd.Unmask.{unmask_bytes_vectorized_lem}
use rustygo.Base.{
  ℕ, ◌-◌, ◌^◌, ◌≡◌, refl, arith, none, some, List, [], ◌∷◌, ◌++◌, pos, negsuc, ok, panic,
  slice_bounds,
}
use rustygo.Codec.Wire.{Decoder}
use rustygo.Codec.Proto.{decode_varint, wire_bytes, skip_field, decode_bytes}
use rustygo.Codec.Proto.Lengths.{negative_length}
use rustygo.Codec.MsgPack.{decode_int}
use rustygo.Codec.MsgPack.Encoder.{encode_int}
use rustygo.Codec.MsgPack.RoundTrip.{decode_int-encode_int}

-- A nil, an int, and one more byte.
decode_int-encode_int_example :
    decode_int (record { input = encode_int (0xc0 ∷ []) (negsuc 299) ++ (7 ∷ []); pos = pos 1 }) ≡ (
      ok (negsuc 299),
      record { input = encode_int (0xc0 ∷ []) (negsuc 299) ++ (7 ∷ []); pos = pos 4 },
    )
unfolding encode_int rustygo.Codec.Wire.put_big
decode_int-encode_int_example =
    decode_int-encode_int (0xc0 ∷ []) (7 ∷ []) (negsuc 299) (omega arith) (omega arith)

-- A tag, and the length 2 ^ 64 - 11: skipping it leads back to the tag.
abbrev looping : List ℕ
looping = 0x0a ∷ 0xf5 ∷ 0xff ∷ 0xff ∷ 0xff ∷ 0xff ∷ 0xff ∷ 0xff ∷ 0xff ∷ 0xff ∷ 0x01 ∷ []

reads_length :
    decode_varint (record { input = looping; pos = pos 1 })
    ≡ (ok (2 ^ 64 - 11), record { input = looping; pos = pos 11 })
unfolding decode_varint rustygo.Codec.Proto.varint_loop
reads_length = refl

negative_length_example :
    (skip_field (record { input = looping; pos = pos 1 }) wire_bytes
      ≡ (ok tt, record { input = looping; pos = pos 0 }))
    × (decode_bytes none (record { input = looping; pos = pos 1 })
        ≡ (panic slice_bounds, record { input = looping; pos = pos 11 }))
negative_length_example =
    negative_length (record { input = looping; pos = pos 1 })
      (record { input = looping; pos = pos 11 }) none (2 ^ 64 - 11) 11 reads_length refl
      (omega arith) (omega arith) (omega arith) (omega arith) (omega arith)

abbrev scanned : List ℕ
scanned = 97 ∷ 98 ∷ 99 ∷ 100 ∷ 101 ∷ 102 ∷ 103 ∷ 104 ∷ 105 ∷ 34 ∷ 92 ∷ []

scanned-IsByte : All IsByte scanned
scanned-IsByte = (
  omega arith,
  (
    omega arith,
    (
      omega arith,
      (
        omega arith,
        (
          omega arith,
          (
            omega arith,
            (omega arith, (omega arith, (omega arith, (omega arith, (omega arith, tt))))),
          ),
        ),
      ),
    ),
  ),
)

find_quote_or_escape-scalar_find_example :
    find_quote_or_escape scanned ≡ scalar_find is_quote_or_escape 0 scanned
find_quote_or_escape-scalar_find_example = find_quote_or_escape-scalar_find scanned scanned-IsByte

-- The quote is behind the first word.
found_quote : find_quote_or_escape scanned ≡ some 9
unfolding find_quote_or_escape
found_quote = refl

unmask_bytes_vectorized_lem_example :
    unmask_bytes_vectorized 1 2 3 255 scanned ≡ unmask_scalar 1 2 3 255 scanned
unmask_bytes_vectorized_lem_example =
    unmask_bytes_vectorized_lem 1 2 3 255 (omega arith) (omega arith) (omega arith) (omega arith)
      scanned scanned-IsByte

-- A reader and a writer in memory.
read_all : List ℕ → ℕ → Io (List ℕ) (List ℕ)
read_all r n = (ok (take n r), drop n r)

write_all : List ℕ → List ℕ → Io (List ℕ) (Unit {0})
write_all w b = (ok tt, w ++ b)

abbrev key : MaskKey
key = record { m0 = 1; m1 = 2; m2 = 3; m3 = 255 }

-- What is written with a mask is read back without it.
masked_frame :
    read_ws_frame read_all (write_ws_frame write_all [] 1 true scanned (some key)).1 none
    ≡ (ok (record { opcode = 1; fin = true; payload = scanned }), [])
unfolding read_ws_frame write_ws_frame read_all write_all
masked_frame = refl

-- A length of eight bytes whose top bit is set passes as no payload at all.
negative_frame :
    read_ws_frame read_all (130 ∷ 127 ∷ 128 ∷ 0 ∷ 0 ∷ 0 ∷ 0 ∷ 0 ∷ 0 ∷ 5 ∷ 7 ∷ []) none
    ≡ (ok (record { opcode = 2; fin = true; payload = [] }), 7 ∷ [])
unfolding read_ws_frame read_all
negative_frame = refl
