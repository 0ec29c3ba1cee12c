-- ===== src/Codec/Stream.antt =====
-- Reading at a position inside a byte slice, and the byte orders there and back.
use rustygo.Base.{
  ℕ, zero, suc, ◌+◌, ◌-◌, ◌*◌, ◌/◌, ◌%◌, ◌^◌, ◌≤◌, ◌<◌, ◌≡◌, refl, sym, ap, ◌∙◌, List, [], ◌∷◌,
  ◌++◌, some, arith, pos, length, length-append, get_elem?, take, drop,
}
use rustygo.Codec.Wire.{add_int, slice, big_endian, big_endian_from, put_big}
use native.Mathlib.Nat.{
  pow-suc, mod-lt, mod-eq_of_lt, div-add-mod, mul-add-mod_self_left, one-le-pow, mul_assoc,
}

pub add_int_small : (a b : ℕ) → a + b < 2 ^ 63 → add_int (pos a) (pos b) ≡ pos (a + b)
add_int_small a b h = ground arith

module _ (t : ℕ) (zs : List ℕ) where
  pub byte_at-append : (pre : List ℕ) → get_elem? (pre ++ (t ∷ zs)) (length pre) ≡ some t
  byte_at-append [] = refl
  byte_at-append (x ∷ pre) = byte_at-append pre

  pub drop_past : (pre : List ℕ) → drop (suc (length pre)) (pre ++ (t ∷ zs)) ≡ zs
  drop_past [] = refl
  drop_past (x ∷ pre) = drop_past pre

pub take-append : (ys zs : List ℕ) → take (length ys) (ys ++ zs) ≡ ys
take-append [] zs = refl
take-append (y ∷ ys) zs = ap (λ (w : List ℕ). y ∷ w) (take-append ys zs)

-- The bytes behind the byte at the position.
pub slice-append :
    (pre ys rest : List ℕ) (t : ℕ)
    → slice
        (pre ++ (t ∷ (ys ++ rest)))
        (pos (suc (length pre)))
        (pos (suc (length pre) + length ys))
      ≡ some ys
unfolding slice
slice-append pre ys rest t =
    let room : suc (length pre) + length ys ≤ length (pre ++ (t ∷ (ys ++ rest))) =
      omega (arith, length-append pre (t ∷ (ys ++ rest)), length-append ys rest) in
    let n : suc (length pre) + length ys - suc (length pre) ≡ length ys = omega arith in
    grind (arith, drop_past t (ys ++ rest) pre, take-append ys rest)

big_endian_from-append :
    (acc b : ℕ) (bs : List ℕ)
    → big_endian_from acc (bs ++ (b ∷ [])) ≡ big_endian_from acc bs * 256 + b
unfolding big_endian_from
big_endian_from-append acc b [] = refl
big_endian_from-append acc b (x ∷ bs) = big_endian_from-append (acc * 256 + x) b bs

pub length-put_big : (k v : ℕ) → length (put_big k v) ≡ k
unfolding put_big
length-put_big zero v = refl
length-put_big (suc k) v =
    omega (arith, length-append (put_big k (v / 256)) (v % 256 ∷ []), length-put_big k (v / 256))

mod_byte : (v m : ℕ) → 0 < m → v / 256 % m * 256 + v % 256 ≡ v % (256 * m)
mod_byte v m h =
    let low = v / 256 % m * 256 + v % 256 in
    let small : low < 256 * m = omega (arith, mod-lt (v / 256) h) in
    let split : v ≡ 256 * m * (v / 256 / m) + low =
      omega (arith, div-add-mod (v / 256) m, mul_assoc 256 m (v / 256 / m)) in
    sym (
      ap (λ (x : ℕ). x % (256 * m)) split
      ∙ mul-add-mod_self_left (256 * m) (v / 256 / m) low
      ∙ mod-eq_of_lt small)

pub big_endian-put_big : (k v : ℕ) → big_endian (put_big k v) ≡ v % 256 ^ k
unfolding big_endian put_big
big_endian-put_big zero v = omega arith
big_endian-put_big (suc k) v =
    big_endian_from-append 0 (v % 256) (put_big k (v / 256))
    ∙ ap (λ (x : ℕ). x * 256 + v % 256) (big_endian-put_big k (v / 256))
    ∙ mod_byte v (256 ^ k) (one-le-pow k 256 (omega arith))
    ∙ ap (λ (x : ℕ). v % x) (omega (arith, pow-suc 256 k))
