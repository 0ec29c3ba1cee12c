-- ===== src/Codec/MsgPack/Encoder.antt =====
-- codec/msgpack.go, the encoder.
use rustygo.Base.{
  ℕ, ◌%◌, Bool, List, [], ◌∷◌, ◌++◌, ℤ, negsuc, to_u64, ltb_ℤ, leb_ℤ, ◌&&◌, if◌then◌else◌, length,
  bit_or,
}
use rustygo.Codec.Wire.{put_big}
use rustygo.Codec.MsgPack.{at_most}

-- The encoder is its buffer; each method appends to it.
unfoldable pub encode_nil : List ℕ → List ℕ
encode_nil buf = buf ++ (0xc0 ∷ [])

unfoldable pub encode_bool : List ℕ → Bool → List ℕ
encode_bool buf v = if v then buf ++ (0xc3 ∷ []) else buf ++ (0xc2 ∷ [])

-- `v >= lo && v <= hi`
abbrev pub within : ℤ → ℤ → ℤ → Bool
within lo hi v = leb_ℤ lo v && leb_ℤ v hi

unfoldable pub encode_int : List ℕ → ℤ → List ℕ
encode_int buf v =
    if within (ℤ.pos 0) (ℤ.pos 127) v
    then buf ++ put_big 1 (to_u64 v)
    else if leb_ℤ (negsuc 31) v && ltb_ℤ v (ℤ.pos 0)
    then buf ++ put_big 1 (to_u64 v)
    else if within (negsuc 127) (ℤ.pos 127) v
    then buf ++ (0xd0 ∷ put_big 1 (to_u64 v))
    else if within (negsuc 32767) (ℤ.pos 32767) v
    then buf ++ (0xd1 ∷ put_big 2 (to_u64 v))
    else if within (negsuc 2147483647) (ℤ.pos 2147483647) v
    then buf ++ (0xd2 ∷ put_big 4 (to_u64 v))
    else buf ++ (0xd3 ∷ put_big 8 (to_u64 v))

unfoldable pub encode_string : List ℕ → List ℕ → List ℕ
encode_string buf s =
    let l = length s in
    if at_most l 31
    then (buf ++ (bit_or 0xa0 (l % 256) ∷ [])) ++ s
    else if at_most l 255
    then (buf ++ (0xd9 ∷ put_big 1 l)) ++ s
    else if at_most l 65535
    then (buf ++ (0xda ∷ put_big 2 l)) ++ s
    else (buf ++ (0xdb ∷ put_big 4 l)) ++ s

unfoldable pub encode_bytes : List ℕ → List ℕ → List ℕ
encode_bytes buf b =
    let l = length b in
    if at_most l 255
    then (buf ++ (0xc4 ∷ put_big 1 l)) ++ b
    else if at_most l 65535
    then (buf ++ (0xc5 ∷ put_big 2 l)) ++ b
    else (buf ++ (0xc6 ∷ put_big 4 l)) ++ b

-- The size of a header is an `int`: a negative size takes the first branch.
unfoldable pub encode_array_header : List ℕ → ℤ → List ℕ
encode_array_header buf size =
    if leb_ℤ size (ℤ.pos 15)
    then buf ++ (bit_or 0x90 (to_u64 size % 256) ∷ [])
    else if leb_ℤ size (ℤ.pos 65535)
    then buf ++ (0xdc ∷ put_big 2 (to_u64 size))
    else buf ++ (0xdd ∷ put_big 4 (to_u64 size))

unfoldable pub encode_map_header : List ℕ → ℤ → List ℕ
encode_map_header buf size =
    if leb_ℤ size (ℤ.pos 15)
    then buf ++ (bit_or 0x80 (to_u64 size % 256) ∷ [])
    else if leb_ℤ size (ℤ.pos 65535)
    then buf ++ (0xde ∷ put_big 2 (to_u64 size))
    else buf ++ (0xdf ∷ put_big 4 (to_u64 size))
