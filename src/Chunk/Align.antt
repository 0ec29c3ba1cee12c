-- ===== src/Chunk/Align.antt =====
-- `isPowerOfTwo` and the rounding `(x + mask) & ^mask`, in plain arithmetic.
use native.Mathlib.Decide.{dec_le}
use rustygo.Base.{
  ℕ, zero, suc, ◌+◌, ◌-◌, ◌*◌, ◌/◌, ◌%◌, ◌^◌, ◌≤◌, ◌<◌, ◌≡◌, sym, ap, ◌∙◌, ◌↔◌, ◌⊎◌, inl, inr, true,
  arith, ℤ, pos, negsuc, not64, bit_and,
}
use rustygo.Base.Bits.{bit_and_digit, bit_and_self, bit_and_high, bit_and_low, pow-add}
use rustygo.Chunk.{is_power_of_two, aligned_offset}
use native.Mathlib.Nat.{
  pow-suc, one-le-pow, mod_self, div-add-mod, mod-lt, mul-mod_left, div-eq_of_lt, div-lt_iff_lt-mul,
  mod-eq_of_lt,
}

parity : (v : ℕ) → (v % 2 ≡ 0) ⊎ (v % 2 ≡ 1)
parity v = omega arith

-- Clearing the lowest one bit of an even number is clearing that of its half.
clear_even : (v : ℕ) → 0 < v → v % 2 ≡ 0 → bit_and v (v - 1) ≡ bit_and (v / 2) (v / 2 - 1) * 2
clear_even v p h =
    let e : (v - 1) / 2 ≡ v / 2 - 1 = omega arith in
    omega (arith, bit_and_digit v (v - 1), ap (bit_and (v / 2)) e)

clear_odd : (v : ℕ) → v % 2 ≡ 1 → bit_and v (v - 1) ≡ v / 2 * 2
clear_odd v h =
    let e : (v - 1) / 2 ≡ v / 2 = omega arith in
    omega (arith, bit_and_digit v (v - 1), ap (bit_and (v / 2)) e, bit_and_self (v / 2))

-- It leaves nothing only of a power of two.
single_bit : (n v : ℕ) → v ≤ n → 0 < v → bit_and v (v - 1) ≡ 0 → (k : ℕ) × (v ≡ 2 ^ k)
single_bit zero v h p e = absurd (omega arith)
single_bit (suc n) v h p e = elim (parity v) [
  | inl even ↦
      doubled even
        (single_bit n (v / 2) (omega arith) (omega arith) (omega (arith, clear_even v p even)))
  | inr odd ↦ (0, omega (arith, clear_odd v odd))
]
  where
    doubled : v % 2 ≡ 0 → (k : ℕ) × (v / 2 ≡ 2 ^ k) → (k : ℕ) × (v ≡ 2 ^ k)
    doubled even (k, q) = (suc k, omega (arith, pow-suc 2 k))

pow_clears : (k : ℕ) → bit_and (2 ^ k) (2 ^ k - 1) ≡ 0
pow_clears k = rw (bit_and_low k (2 ^ k)) (mod_self (2 ^ k))

-- The code's test answers true on the powers of two, and on nothing else.
pub is_power_of_two_iff : (v : ℤ) → (is_power_of_two v ≡ true) ↔ ((k : ℕ) × (v ≡ pos (2 ^ k)))
unfolding is_power_of_two
is_power_of_two_iff (pos v) = (
  λ e. to_pos (single_bit v v (omega arith) (ground arith) (ground arith)),
  λ (k, e). from_pos k (ground arith),
)
  where
    to_pos : (k : ℕ) × (v ≡ 2 ^ k) → (k : ℕ) × (pos v ≡ pos (2 ^ k))
    to_pos (k, e) = (k, ap pos e)

    from_pos : (k : ℕ) → v ≡ 2 ^ k → is_power_of_two (pos v) ≡ true
    from_pos k e = rw e (ground (arith, pow_clears k, one-le-pow k 2))
is_power_of_two_iff (negsuc v) = (λ e. cc, λ (k, e). cc)

pub sub-one-mul : (a b : ℕ) → 0 < a → (a - 1) * b + b ≡ a * b
sub-one-mul zero b h = absurd (omega arith)
sub-one-mul (suc a) b h = let e : suc a - 1 ≡ a = omega arith in rw e (omega arith)

pub pow_split : (n k : ℕ) → k ≤ n → 2 ^ (n - k) * 2 ^ k ≡ 2 ^ n
pow_split n k h =
    let e : n - k + k ≡ n = omega arith in sym (pow-add (n - k) k) ∙ ap (λ (m : ℕ). 2 ^ m) e

pub pow_mono : (n k : ℕ) → k ≤ n → 2 ^ k ≤ 2 ^ n
pow_mono n k h =
    omega (
      arith,
      pow_split n k h,
      sub-one-mul (2 ^ (n - k)) (2 ^ k) (one-le-pow (n - k) 2 (omega arith)),
    )

-- `& ^(A - 1)` drops the remainder by `A`, a power of two up to 2 ^ 63.
pub clear_low : (k x : ℕ) → k ≤ 63 → x < 2 ^ 64 → bit_and x (not64 (2 ^ k - 1)) ≡ x / 2 ^ k * 2 ^ k
clear_low k x h fits = ground (
  arith,
  ones,
  ap (bit_and x) mask,
  one-le-pow k 2,
  bit_and_high k (x / 2 ^ k) (2 ^ (64 - k) - 1) (x % 2 ^ k),
  bit_and_low (64 - k) (x / 2 ^ k),
)
  where
    whole : 2 ^ (64 - k) * 2 ^ k ≡ 2 ^ 64
    whole = pow_split 64 k (omega arith)

    mask : not64 (2 ^ k - 1) ≡ (2 ^ (64 - k) - 1) * 2 ^ k
    mask = omega (
      arith,
      whole,
      one-le-pow k 2,
      sub-one-mul (2 ^ (64 - k)) (2 ^ k) (one-le-pow (64 - k) 2 (omega arith)),
    )

    ones : x / 2 ^ k % 2 ^ (64 - k) ≡ x / 2 ^ k
    ones =
        mod-eq_of_lt ((div-lt_iff_lt-mul (one-le-pow k 2 (omega arith))).1 (omega (arith, whole)))

-- Rounding up to a multiple of `A`: the multiple below is at most `A - 1` away.
round_up :
    (a x : ℕ)
    → 0 < a
    → (x ≤ (x + (a - 1)) / a * a)
      × ((x + (a - 1)) / a * a < x + a)
      × ((x + (a - 1)) / a * a % a ≡ 0)
round_up a x h = (
  omega (arith, div-add-mod (x + (a - 1)) a, mod-lt (x + (a - 1)) h),
  omega (arith, div-add-mod (x + (a - 1)) a, mod-lt (x + (a - 1)) h),
  mul-mod_left _ a,
)

pub aligned_offset-eq :
    (base off k : ℕ)
    → k ≤ 63
    → base + off + 2 ^ k ≤ 2 ^ 64
    → aligned_offset base off (2 ^ k - 1) ≡ (base + off + (2 ^ k - 1)) / 2 ^ k * 2 ^ k - base
unfolding aligned_offset
aligned_offset-eq base off k h fits =
    rw (address, sum, clear_low k (base + off + (2 ^ k - 1)) h (omega (arith, one-le-pow k 2)))
      (omega (arith, one-le-pow k 2, round_up (2 ^ k) (base + off) (one-le-pow k 2 (omega arith))))
  where
    address : (base + off) % 2 ^ 64 ≡ base + off
    address = omega (arith, one-le-pow k 2)

    sum : (base + off + (2 ^ k - 1)) % 2 ^ 64 ≡ base + off + (2 ^ k - 1)
    sum = omega (arith, one-le-pow k 2)

-- The least multiple of `2 ^ k` from the current address on, less the base.
pub aligned_offset_bounds :
    (base off k : ℕ)
    → k ≤ 63
    → base + off + 2 ^ k ≤ 2 ^ 64
    → (off ≤ aligned_offset base off (2 ^ k - 1))
      × (aligned_offset base off (2 ^ k - 1) < off + 2 ^ k)
      × ((base + aligned_offset base off (2 ^ k - 1)) % 2 ^ k ≡ 0)
aligned_offset_bounds base off k h fits =
    let (above, near, multiple) = round_up (2 ^ k) (base + off) (one-le-pow k 2 (omega arith)) in
    let e = aligned_offset-eq base off k h fits in
    let p : base + aligned_offset base off (2 ^ k - 1)
        ≡ (base + off + (2 ^ k - 1)) / 2 ^ k * 2 ^ k =
      omega arith in
    (omega arith, omega arith, ap (λ (x : ℕ). x % 2 ^ k) p ∙ multiple)

-- Past the end of the address space the sum wraps, and the offset is that of the address 0.
pub aligned_offset_wrapped :
    (base off k : ℕ)
    → k ≤ 63
    → base + off < 2 ^ 64
    → 2 ^ 64 < base + off + 2 ^ k
    → aligned_offset base off (2 ^ k - 1) ≡ (2 ^ 64 - base) % 2 ^ 64
unfolding aligned_offset
aligned_offset_wrapped base off k h fits past =
    rw
      (
        address,
        sum,
        clear_low k (base + off + (2 ^ k - 1) - 2 ^ 64) h (omega (arith, pow_le)),
        none_below,
      )
      (omega arith)
  where
    pow_le : 2 ^ k < 2 ^ 64
    pow_le = omega (arith, pow_mono 63 k h)

    address : (base + off) % 2 ^ 64 ≡ base + off
    address = omega arith

    sum : (base + off + (2 ^ k - 1)) % 2 ^ 64 ≡ base + off + (2 ^ k - 1) - 2 ^ 64
    sum = omega (arith, pow_le)

    none_below : (base + off + (2 ^ k - 1) - 2 ^ 64) / 2 ^ k ≡ 0
    none_below = div-eq_of_lt (omega arith)

pub small_power : (k : ℕ) → 2 ^ k < 2 ^ 63 → k ≤ 62
small_power k h = elim (dec_le k 62) [
  | yes p ↦ p
  | no p ↦ absurd (omega (arith, pow_mono k 63 (omega arith)))
]
