-- ===== src/Codec/Ws.antt =====
-- codec/ws.go: WebSocket frames. `io.ReadFull` and `Write` are parameters that take the state of the reader or the
-- writer and leave a new one.
use rustygo.Base.{
  ℕ, Bool, true, false, not, ◌&&◌, Option, none, some, List, [], ◌∷◌, ◌++◌, ℤ, pos, pos_part,
  is_positive, to_i64, bit_and, bit_or, leb, ltb, ◌==◌, if◌then◌else◌, Result, ok, err, panic,
  length, get_or,
}
use rustygo.Codec.Wire.{CodecError, control_frame_frag, big_endian, put_big, Allocator, reserve}
use rustygo.Codec.Simd.{unmask_bytes_vectorized}

pub record WsFrame : Type 0 where
  pub opcode : ℕ
  pub fin : Bool
  pub payload : List ℕ

pub record MaskKey : Type 0 where
  pub m0 : ℕ
  pub m1 : ℕ
  pub m2 : ℕ
  pub m3 : ℕ

unfoldable pub unmask_vectorized : List ℕ → MaskKey → List ℕ
unfolding unmask_bytes_vectorized
unmask_vectorized b mask = unmask_bytes_vectorized mask.m0 mask.m1 mask.m2 mask.m3 b

abbrev pub Io : Type 0 → Type 0 → Type 0
Io S A = Result CodecError A × S

-- What follows a read or a write that may fail.
infixl 5 ◌then_io◌
abbrev pub ◌then_io◌ : {S A B : Type 0} → Io S A → (A → S → Io S B) → Io S B
(ok a, s) then_io f = f a s
(err e, s) then_io f = (err e, s)
(panic p, s) then_io f = (panic p, s)

abbrev pub bit_set : ℕ → ℕ → Bool
bit_set bit b = not (bit_and b bit == 0)

module _ {R : Type 0} (read_full : R → ℕ → Io R (List ℕ)) where
  -- The length in the second byte, or the two or eight bytes behind it; as an int64 it can be negative.
  unfoldable pub read_length : ℕ → R → Io R ℤ
  unfolding big_endian
  read_length len7 r =
      if len7 == 126
      then read_full r 2 then_io (λ ext r'. (ok (pos (big_endian ext)), r'))
      else if len7 == 127
      then read_full r 8 then_io (λ ext r'. (ok (to_i64 (big_endian ext)), r'))
      else (ok (pos len7), r)

  unfoldable pub read_mask : Bool → R → Io R MaskKey
  read_mask true r = read_full r 4 then_io (λ key r'. (
    ok (record {
      m0 = get_or key 0 0;
      m1 = get_or key 1 0;
      m2 = get_or key 2 0;
      m3 = get_or key 3 0;
    }),
    r',
  ))
  read_mask false r = (ok (record { m0 = 0; m1 = 0; m2 = 0; m3 = 0 }), r)

  -- `scope` is the allocator of the scope, none for a nil scope.
  unfoldable pub read_payload : Option Allocator → ℤ → Bool → MaskKey → R → Io R (List ℕ)
  unfolding unmask_vectorized
  read_payload scope len masked mask r =
      if is_positive len
      then (reserve scope len, r) then_io (λ _ r0.
          read_full r0 (pos_part len) then_io (λ payload r1.
            (ok (if masked then unmask_vectorized payload mask else payload), r1)))
      else (ok [], r)

  unfoldable pub read_ws_frame : R → Option Allocator → Io R WsFrame
  unfolding read_length read_mask read_payload
  read_ws_frame r scope = read_full r 2 then_io (λ header r0.
      let fin = bit_set 0x80 (get_or header 0 0) in
      let opcode = bit_and (get_or header 0 0) 0x0F in
      let masked = bit_set 0x80 (get_or header 1 0) in
      if not fin && leb 8 opcode
      then (err control_frame_frag, r0)
      else read_length (bit_and (get_or header 1 0) 0x7F) r0 then_io (λ len r1.
        read_mask masked r1 then_io (λ mask r2.
          read_payload scope len masked mask r2 then_io (λ payload r3.
            (ok (record { opcode = opcode; fin = fin; payload = payload }), r3)))))

abbrev pub mask_bytes : Option MaskKey → List ℕ
mask_bytes none = []
mask_bytes (some k) = k.m0 ∷ k.m1 ∷ k.m2 ∷ k.m3 ∷ []

abbrev pub mask_bit : Option MaskKey → ℕ
mask_bit none = 0
mask_bit (some k) = 0x80

abbrev pub masked_copy : List ℕ → Option MaskKey → List ℕ
unfolding unmask_vectorized
masked_copy payload none = payload
masked_copy payload (some k) = unmask_vectorized payload k

unfoldable pub length_bytes : ℕ → ℕ → List ℕ
unfolding put_big
length_bytes b1 n =
    if leb n 125
    then bit_or b1 n ∷ []
    else if leb n 65535
    then bit_or b1 126 ∷ put_big 2 n
    else bit_or b1 127 ∷ put_big 8 n

-- `header[:pos]`
unfoldable pub frame_header : ℕ → Bool → ℕ → Option MaskKey → List ℕ
unfolding length_bytes
frame_header opcode fin n mask =
    (if fin then bit_or opcode 0x80 else opcode)
    ∷ (length_bytes (mask_bit mask) n ++ mask_bytes mask)

module _ {W : Type 0} (write : W → List ℕ → Io W (Unit {0})) where
  unfoldable pub write_ws_frame : W → ℕ → Bool → List ℕ → Option MaskKey → Io W (Unit {0})
  unfolding frame_header masked_copy
  write_ws_frame w opcode fin payload mask =
      write w (frame_header opcode fin (length payload) mask) then_io (λ _ w'.
        if ltb 0 (length payload) then write w' (masked_copy payload mask) else (ok tt, w'))
