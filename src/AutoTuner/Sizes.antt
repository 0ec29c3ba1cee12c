-- ===== src/AutoTuner/Sizes.antt =====
-- The sizes that autotune.go recommends are whole pages.
use rustygo.Base.{
  ℕ, ◌+◌, ◌-◌, ◌*◌, ◌/◌, ◌%◌, ◌^◌, ◌≤◌, ◌<◌, ◌≡◌, refl, ap, ◌∙◌, some, ℤ, pos, negsuc, bit_and,
  to_i64, to_u64, not64, add_int, lt→ltb, arith, max, min,
}
use rustygo.Base.Bits.{bit_and_high, bit_and_low}
use rustygo.AutoTuner.{AutoTuner, SiteStats, page_up, clamp, site, recommended_size}

mask_pages : (x : ℕ) → x < 2 ^ 63 → bit_and x (not64 4095) ≡ x / 4096 * 4096
mask_pages x h =
    let fields : x / 4096 * 2 ^ 12 + x % 4096 ≡ x = omega arith in
    let high : bit_and (x / 4096 * 2 ^ 12 + x % 4096) (not64 4095)
        ≡ bit_and (x / 4096) (2 ^ 52 - 1) * 4096 =
      bit_and_high 12 (x / 4096) (2 ^ 52 - 1) (x % 4096) (omega arith) in
    let low : bit_and (x / 4096) (2 ^ 52 - 1) ≡ x / 4096 % 2 ^ 52 = bit_and_low 52 (x / 4096) in
    rw fields at high ∙ ap (λ (y : ℕ). y * 4096) (low ∙ omega arith)

add_int-pos : (a b : ℕ) → a + b < 2 ^ 63 → add_int (pos a) (pos b) ≡ pos (a + b)
add_int-pos a b h =
    let sum : (a % 2 ^ 64 + b % 2 ^ 64) % 2 ^ 64 ≡ a + b = omega arith in
    rw (sum, lt→ltb (a + b) (2 ^ 63) h) refl

-- The next multiple of 4096.
page_up-pos : (n : ℕ) → n + 4095 < 2 ^ 63 → page_up (pos n) ≡ pos ((n + 4095) / 4096 * 4096)
page_up-pos n h =
    let whole : (n + 4095) % 2 ^ 64 ≡ n + 4095 = omega arith in
    let down : (n + 4095) / 4096 * 4096 < 2 ^ 63 = omega arith in
    ap (λ (z : ℤ). to_i64 (bit_and (to_u64 z) (not64 4095))) (add_int-pos n 4095 h)
    ∙ ap (λ (x : ℕ). to_i64 (bit_and x (not64 4095))) whole
    ∙ ap to_i64 (mask_pages (n + 4095) h)
    ∙ rw (lt→ltb ((n + 4095) / 4096 * 4096) (2 ^ 63) down) refl

clamp-between :
    (lo hi : ℕ) (x : ℤ)
    → lo ≤ hi
    → (c : ℕ) × (clamp (pos lo) (pos hi) x ≡ pos c) × (lo ≤ c) × (c ≤ hi)
clamp-between lo hi (pos n) h = (min hi (max lo n), ground arith, omega arith, omega arith)
clamp-between lo hi (negsuc n) h = (lo, ground arith, omega arith, h)

-- A tuner whose least size is at most its greatest one, which leaves room for a page below the
-- greatest int, recommends for a calibrated site a whole number of pages, at least the least size, and less than
-- a page above the greatest one.
pub recommended_size_lem :
    (average : ℤ → ℤ → ℤ) (headroom : ℤ → ℤ) (t : AutoTuner) (key : ℕ) (s : SiteStats) (lo hi : ℕ)
    → t.min_slab ≡ pos lo
    → t.max_slab ≡ pos hi
    → lo ≤ hi
    → hi + 4095 < 2 ^ 63
    → site key t.sites ≡ some s
    → (r : ℕ) × (recommended_size average headroom t key ≡ pos r)
      × (r % 4096 ≡ 0)
      × (lo ≤ r)
      × (r < hi + 4096)
unfolding recommended_size
recommended_size_lem average headroom t key s lo hi e f h k q =
    let (c, same, low, high) = clamp-between lo hi (headroom s.estimated_bytes) h in
    (
      (c + 4095) / 4096 * 4096,
      rw (q, e, f) (ap page_up same ∙ page_up-pos c (omega arith)),
      omega arith,
      omega arith,
      omega arith,
    )
