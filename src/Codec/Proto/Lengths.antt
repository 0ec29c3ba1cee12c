-- ===== src/Codec/Proto/Lengths.antt =====
-- Length prefixes of 2 ^ 63 and more, which `int(length)` makes negative.
use rustygo.Base.{
  ℕ, ◌-◌, ◌^◌, ◌≤◌, ◌<◌, ◌≡◌, refl, ap, ◌∙◌, arith, Option, none, ℤ, pos, length, to_i64, ok, panic,
  slice_bounds, false, ltb_ℤ,
}
use rustygo.Codec.Wire.{Decoder, Allocator, add_int, short, slice}
use rustygo.Codec.Proto.{
  decode_varint, wire_bytes, skip_field, skip_bytes, read_length, decode_bytes,
}

module _ (e : Decoder) (n p : ℕ) (at : e.pos ≡ pos p) (big : 2 ^ 63 ≤ n) (word : n < 2 ^ 64)
    (back : 2 ^ 64 - n ≤ p) (inside : p ≤ length e.input) (int : p < 2 ^ 63) where
  moved : add_int e.pos (to_i64 n) ≡ pos (p - (2 ^ 64 - n))
  moved = ap (λ (x : ℤ). add_int x (to_i64 n)) at ∙ ground arith

  not_short : short e (to_i64 n) ≡ false
  not_short = ap (λ (x : ℤ). ltb_ℤ (pos (length e.input)) x) moved ∙ ground arith

  skip_back : skip_bytes n e ≡ (ok tt, record e { pos = pos (p - (2 ^ 64 - n)) })
  skip_back = rw (not_short, moved) refl

  reversed : slice e.input e.pos (add_int e.pos (to_i64 n)) ≡ none
  unfolding slice
  reversed = rw (moved, at) (ground arith)

  length_panics : (scope : Option Allocator) → read_length scope n e ≡ (panic slice_bounds, e)
  length_panics scope = rw (not_short, reversed) refl

-- A length prefix of 2 ^ 63 or more, where the position behind it is at least as large as the prefix is below
-- 2 ^ 64, and within the input: `SkipField` reports no error and moves the position back, and `DecodeBytes`
-- panics.
pub negative_length :
    (d e : Decoder) (scope : Option Allocator) (n p : ℕ)
    → decode_varint d ≡ (ok n, e)
    → e.pos ≡ pos p
    → 2 ^ 63 ≤ n
    → n < 2 ^ 64
    → 2 ^ 64 - n ≤ p
    → p ≤ length e.input
    → p < 2 ^ 63
    → (skip_field d wire_bytes ≡ (ok tt, record e { pos = pos (p - (2 ^ 64 - n)) }))
      × (decode_bytes scope d ≡ (panic slice_bounds, e))
unfolding skip_field decode_bytes
negative_length d e scope n p read at big word back inside int = (
  rw read (skip_back e n p at big word back inside int),
  rw read (length_panics e n p at big word back inside int scope),
)
