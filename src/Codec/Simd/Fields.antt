-- ===== src/Codec/Simd/Fields.antt =====
-- Words as lists of bytes: the bit operations act on each byte.
use Prim.Native.Nat.{bit_xor-bitwise, differ}
use rustygo.Base.{
  ℕ, zero, suc, ◌+◌, ◌*◌, ◌/◌, ◌%◌, ◌^◌, ◌≤◌, ◌<◌, ◌≡◌, refl, ap, List, [], ◌∷◌, length, bit_and,
  bit_xor, arith,
}
use native.Mathlib.Nat.{pow-suc}
use rustygo.Base.Every.{All}
use rustygo.Base.Bits.{bit_and_digit, lowest_digit, mul-pow-suc}
use rustygo.Codec.Wire.{little_endian}

pub bit_xor_digit : (a b : ℕ) → bit_xor a b ≡ bit_xor (a / 2) (b / 2) * 2 + differ (a % 2) (b % 2)
bit_xor_digit zero b = simp bit_xor-bitwise (omega arith)
bit_xor_digit (suc a) b = simp bit_xor-bitwise (lowest_digit (λ y. y) differ a b)

-- `bit_and` of two numbers by their low `k` bits and the rest.
pub bit_and_fields :
    (k q r p s : ℕ)
    → r < 2 ^ k
    → s < 2 ^ k
    → bit_and (q * 2 ^ k + r) (p * 2 ^ k + s) ≡ bit_and q p * 2 ^ k + bit_and r s
bit_and_fields zero q r p s h h' =
    let e : q * 2 ^ 0 + r ≡ q = omega arith in
    let f : p * 2 ^ 0 + s ≡ p = omega arith in
    let r0 : r ≡ 0 = omega arith in let s0 : s ≡ 0 = omega arith in rw (e, f, r0, s0) (omega arith)
bit_and_fields (suc k) q r p s h h' = ground (
  arith,
  bit_and_digit (q * 2 ^ suc k + r) (p * 2 ^ suc k + s),
  bit_and_digit r s,
  mul-pow-suc q k,
  mul-pow-suc p k,
  mul-pow-suc (bit_and q p) k,
  bit_and_fields k q (r / 2) p (s / 2) (omega (arith, pow-suc 2 k)) (omega (arith, pow-suc 2 k)),
)

differ_self : (x : ℕ) → differ x x ≡ 0
differ_self zero = refl
differ_self (suc x) = differ_self x

differ_below : (x y : ℕ) → x < 2 → y < 2 → differ x y < 2
differ_below zero y h k = k
differ_below (suc x) zero h k = h
differ_below (suc x) (suc y) h k = differ_below x y (omega arith) (omega arith)

xor_self_below : (n a : ℕ) → a ≤ n → bit_xor a a ≡ 0
xor_self_below n zero h = refl
xor_self_below zero (suc a) h = absurd (omega arith)
xor_self_below (suc n) (suc a) h = omega (
  arith,
  bit_xor_digit (suc a) (suc a),
  differ_self (suc a % 2),
  xor_self_below n (suc a / 2) (omega arith),
)

pub bit_xor_self : (a : ℕ) → bit_xor a a ≡ 0
bit_xor_self a = xor_self_below a a (omega arith)

pub bit_xor_below : (k a b : ℕ) → a < 2 ^ k → b < 2 ^ k → bit_xor a b < 2 ^ k
bit_xor_below zero a b h h' =
    let e : a ≡ 0 = omega arith in let f : b ≡ 0 = omega arith in rw (e, f) (omega arith)
bit_xor_below (suc k) a b h h' = omega (
  arith,
  bit_xor_digit a b,
  differ_below (a % 2) (b % 2) (omega arith) (omega arith),
  pow-suc 2 k,
  bit_xor_below k (a / 2) (b / 2) (omega (arith, pow-suc 2 k)) (omega (arith, pow-suc 2 k)),
)

pub bit_xor_fields :
    (k q r p s : ℕ)
    → r < 2 ^ k
    → s < 2 ^ k
    → bit_xor (q * 2 ^ k + r) (p * 2 ^ k + s) ≡ bit_xor q p * 2 ^ k + bit_xor r s
bit_xor_fields zero q r p s h h' =
    let e : q * 2 ^ 0 + r ≡ q = omega arith in
    let f : p * 2 ^ 0 + s ≡ p = omega arith in
    let r0 : r ≡ 0 = omega arith in let s0 : s ≡ 0 = omega arith in rw (e, f, r0, s0) (omega arith)
bit_xor_fields (suc k) q r p s h h' = ground (
  arith,
  bit_xor_digit (q * 2 ^ suc k + r) (p * 2 ^ suc k + s),
  bit_xor_digit r s,
  mul-pow-suc q k,
  mul-pow-suc p k,
  mul-pow-suc (bit_xor q p) k,
  bit_xor_fields k q (r / 2) p (s / 2) (omega (arith, pow-suc 2 k)) (omega (arith, pow-suc 2 k)),
)

-- Bytes, and lists of them.
abbrev pub IsByte : ℕ → Type 0
IsByte b = b < 256

abbrev pub zip_bytes : (ℕ → ℕ → ℕ) → List ℕ → List ℕ → List ℕ
zip_bytes f (x ∷ xs) (y ∷ ys) = f x y ∷ zip_bytes f xs ys
zip_bytes f xs ys = []

bit_and_below : (k a b : ℕ) → a < 2 ^ k → b < 2 ^ k → bit_and a b < 2 ^ k
bit_and_below zero a b h h' =
    let e : a ≡ 0 = omega arith in let f : b ≡ 0 = omega arith in rw (e, f) (omega arith)
bit_and_below (suc k) a b h h' = omega (
  arith,
  bit_and_digit a b,
  pow-suc 2 k,
  bit_and_below k (a / 2) (b / 2) (omega (arith, pow-suc 2 k)) (omega (arith, pow-suc 2 k)),
)

pub length-zip_bytes :
    (f : ℕ → ℕ → ℕ) (xs ys : List ℕ)
    → length xs ≡ length ys
    → length (zip_bytes f xs ys) ≡ length xs
length-zip_bytes f [] ys e = refl
length-zip_bytes f (x ∷ xs) [] e = absurd (omega arith)
length-zip_bytes f (x ∷ xs) (y ∷ ys) e = ap suc (length-zip_bytes f xs ys (omega arith))

pub and-IsByte :
    (xs ys : List ℕ) → All IsByte xs → All IsByte ys → All IsByte (zip_bytes bit_and xs ys)
and-IsByte [] ys h k = tt
and-IsByte (x ∷ xs) [] h k = tt
and-IsByte (x ∷ xs) (y ∷ ys) (a, h) (b, k) = (bit_and_below 8 x y a b, and-IsByte xs ys h k)

pub little_endian-and :
    (xs ys : List ℕ)
    → length xs ≡ length ys
    → All IsByte xs
    → All IsByte ys
    → bit_and (little_endian xs) (little_endian ys) ≡ little_endian (zip_bytes bit_and xs ys)
unfolding little_endian
little_endian-and [] [] e h k = refl
little_endian-and [] (y ∷ ys) e h k = absurd (omega arith)
little_endian-and (x ∷ xs) [] e h k = absurd (omega arith)
little_endian-and (x ∷ xs) (y ∷ ys) e (b, h) (c, k) =
    let first : x + 256 * little_endian xs ≡ little_endian xs * 2 ^ 8 + x = omega arith in
    let second : y + 256 * little_endian ys ≡ little_endian ys * 2 ^ 8 + y = omega arith in
    rw (first, second)
      (omega (
        arith,
        bit_and_fields 8 (little_endian xs) x (little_endian ys) y b c,
        little_endian-and xs ys (omega arith) h k,
      ))

pub little_endian-xor :
    (xs ys : List ℕ)
    → length xs ≡ length ys
    → All IsByte xs
    → All IsByte ys
    → bit_xor (little_endian xs) (little_endian ys) ≡ little_endian (zip_bytes bit_xor xs ys)
unfolding little_endian
little_endian-xor [] [] e h k = refl
little_endian-xor [] (y ∷ ys) e h k = absurd (omega arith)
little_endian-xor (x ∷ xs) [] e h k = absurd (omega arith)
little_endian-xor (x ∷ xs) (y ∷ ys) e (b, h) (c, k) =
    let first : x + 256 * little_endian xs ≡ little_endian xs * 2 ^ 8 + x = omega arith in
    let second : y + 256 * little_endian ys ≡ little_endian ys * 2 ^ 8 + y = omega arith in
    rw (first, second)
      (omega (
        arith,
        bit_xor_fields 8 (little_endian xs) x (little_endian ys) y b c,
        little_endian-xor xs ys (omega arith) h k,
      ))

pub xor-IsByte :
    (xs ys : List ℕ) → All IsByte xs → All IsByte ys → All IsByte (zip_bytes bit_xor xs ys)
xor-IsByte [] ys h k = tt
xor-IsByte (x ∷ xs) [] h k = tt
xor-IsByte (x ∷ xs) (y ∷ ys) (a, h) (b, k) = (bit_xor_below 8 x y a b, xor-IsByte xs ys h k)
