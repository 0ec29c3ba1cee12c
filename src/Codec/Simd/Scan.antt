-- ===== src/Codec/Simd/Scan.antt =====
-- The scans by words find what a scan byte by byte finds.
use rustygo.Base.{
  ℕ, suc, ◌+◌, ◌*◌, Bool, true, false, ◌||◌, ◌≡◌, ◌≢◌, inl, inr, refl, ap, sym, ◌∙◌, List, [], ◌∷◌,
  ◌++◌, length, replicate, length-replicate, bit_xor, u64, ◌==◌, ==_iff, Bool-cases, arith,
}
use rustygo.Base.Every.{All}
use rustygo.Codec.Wire.{little_endian}
use rustygo.Codec.Simd.{
  has_zero_byte64, scalar_find, word_find, is_quote_or_escape, quote_or_escape_in,
  find_quote_or_escape, byte_in, find_byte,
}
use rustygo.Codec.Simd.Fields.{
  IsByte, zip_bytes, bit_xor_self, length-zip_bytes, little_endian-xor, xor-IsByte,
}
use rustygo.Codec.Simd.Zero.{no_zero_byte}

-- Where no byte passes the test, the scan goes on behind them.
scalar_find-skip :
    (test : ℕ → Bool) (i : ℕ) (xs ys : List ℕ)
    → All (λ b. test b ≡ false) xs
    → scalar_find test i (xs ++ ys) ≡ scalar_find test (i + length xs) ys
unfolding scalar_find
scalar_find-skip test i [] ys h = ap (λ (j : ℕ). scalar_find test j ys) (omega arith)
scalar_find-skip test i (x ∷ xs) ys (h, k) =
    rw h
      (scalar_find-skip test (suc i) xs ys k ∙ ap (λ (j : ℕ). scalar_find test j ys) (omega arith))

-- A test of words that misses no byte which passes the test of bytes.
abbrev pub MissesNone : (ℕ → Bool) → (ℕ → Bool) → Type 0
MissesNone hit test =
    (bs : List ℕ)
    → length bs ≡ 8
    → All IsByte bs
    → hit (little_endian bs) ≡ false
    → All (λ b. test b ≡ false) bs

word_find_lem :
    (hit test : ℕ → Bool) (i : ℕ) (bs : List ℕ)
    → MissesNone hit test
    → All IsByte bs
    → word_find hit test i bs ≡ scalar_find test i bs
unfolding word_find
word_find_lem hit test i (a ∷ b ∷ c ∷ d ∷ e ∷ f ∷ g ∷ h ∷ bs) sound
      (ka, (kb, (kc, (kd, (ke, (kf, (kg, (kh, k)))))))) =
    let word = a ∷ b ∷ c ∷ d ∷ e ∷ f ∷ g ∷ h ∷ [] in
    elim (Bool-cases (hit (little_endian word))) [
      | inl found ↦ rw found refl
      | inr clear ↦ rw clear (
          word_find_lem hit test (i + 8) bs sound k
          ∙ sym (
              scalar_find-skip test i word bs
                (sound word refl (ka, (kb, (kc, (kd, (ke, (kf, (kg, (kh, tt)))))))) clear)))
    ]
word_find_lem hit test i [] sound k = refl
word_find_lem hit test i (a ∷ []) sound k = refl
word_find_lem hit test i (a ∷ b ∷ []) sound k = refl
word_find_lem hit test i (a ∷ b ∷ c ∷ []) sound k = refl
word_find_lem hit test i (a ∷ b ∷ c ∷ d ∷ []) sound k = refl
word_find_lem hit test i (a ∷ b ∷ c ∷ d ∷ e ∷ []) sound k = refl
word_find_lem hit test i (a ∷ b ∷ c ∷ d ∷ e ∷ f ∷ []) sound k = refl
word_find_lem hit test i (a ∷ b ∷ c ∷ d ∷ e ∷ f ∷ g ∷ []) sound k = refl

-- The target, once for each byte.
abbrev copies : ℕ → List ℕ → List ℕ
copies target bs = replicate (length bs) target

copies-IsByte : (target : ℕ) (bs : List ℕ) → IsByte target → All IsByte (copies target bs)
copies-IsByte target [] h = tt
copies-IsByte target (b ∷ bs) h = (h, copies-IsByte target bs h)

no_target :
    (target : ℕ) (bs : List ℕ)
    → All (λ b. b ≢ 0) (zip_bytes bit_xor bs (copies target bs))
    → All (λ b. (b == target) ≡ false) bs
no_target target [] h = tt
no_target target (b ∷ bs) (h, k) = (differs (b == target) refl, no_target target bs k)
  where
    differs : (t : Bool) → (b == target) ≡ t → (b == target) ≡ false
    differs true e = absurd (h (rw ((==_iff b target).0 e) (bit_xor_self target)))
    differs false e = e

-- The exclusive or with a repeated byte has a zero byte where the word has the byte.
no_target_in :
    (target repeats : ℕ) (bs : List ℕ)
    → IsByte target
    → length bs ≡ 8
    → All IsByte bs
    → repeats ≡ little_endian (copies target bs)
    → has_zero_byte64 (bit_xor (little_endian bs) repeats) ≡ false
    → All (λ b. (b == target) ≡ false) bs
no_target_in target repeats bs t n k e h =
    let same : length bs ≡ length (copies target bs) =
      sym (length-replicate {A = ℕ} (length bs) target) in
    let bytes = little_endian-xor bs (copies target bs) same k (copies-IsByte target bs t) in
    no_target target bs (
      no_zero_byte (zip_bytes bit_xor bs (copies target bs))
        (length-zip_bytes bit_xor bs (copies target bs) same ∙ n)
        (xor-IsByte bs (copies target bs) k (copies-IsByte target bs t)) (rw (e, bytes) at h))

repeated :
    (target : ℕ) (bs : List ℕ)
    → IsByte target
    → length bs ≡ 8
    → u64 (target * 0x0101010101010101) ≡ little_endian (copies target bs)
unfolding little_endian
repeated target bs t n = rw n (omega arith)

-- For bytes and a target byte, FindByte finds the index that a scan byte by byte finds, or nothing where that
-- scan finds nothing.
pub find_byte-scalar_find :
    (bytes : List ℕ) (target : ℕ)
    → All IsByte bytes
    → IsByte target
    → find_byte bytes target ≡ scalar_find (λ b. b == target) 0 bytes
unfolding find_byte byte_in
find_byte-scalar_find bytes target k t =
    word_find_lem (byte_in target) (λ b. b == target) 0 bytes
      (λ bs n h clear.
        no_target_in target (u64 (target * 0x0101010101010101)) bs t n h (repeated target bs t n)
          clear)
      k

pub or_false : (a b : Bool) → (a || b) ≡ false → (a ≡ false) × (b ≡ false)
or_false true b h = (h, absurd cc)
or_false false b h = (refl, h)

All-or :
    (p q : ℕ → Bool) (bs : List ℕ)
    → All (λ b. p b ≡ false) bs
    → All (λ b. q b ≡ false) bs
    → All (λ b. (p b || q b) ≡ false) bs
All-or p q [] h k = tt
All-or p q (b ∷ bs) (h, hs) (k, ks) = (rw (h, k) refl, All-or p q bs hs ks)

pub quote_or_escape_in-MissesNone : MissesNone quote_or_escape_in is_quote_or_escape
unfolding quote_or_escape_in
quote_or_escape_in-MissesNone bs n h clear =
    let (quote, slash) = or_false _ _ clear in
    All-or (λ b. b == 0x22) (λ b. b == 0x5C) bs
      (no_target_in 0x22 0x2222222222222222 bs (omega arith) n h (repeated 0x22 bs (omega arith) n)
        quote)
      (no_target_in 0x5C 0x5C5C5C5C5C5C5C5C bs (omega arith) n h (repeated 0x5C bs (omega arith) n)
        slash)

-- For bytes, FindQuoteOrEscape finds the first quote or backslash that a scan byte by byte finds, or nothing
-- where that scan finds nothing.
pub find_quote_or_escape-scalar_find :
    (bytes : List ℕ)
    → All IsByte bytes
    → find_quote_or_escape bytes ≡ scalar_find is_quote_or_escape 0 bytes
unfolding find_quote_or_escape
find_quote_or_escape-scalar_find bytes k =
    word_find_lem quote_or_escape_in is_quote_or_escape 0 bytes quote_or_escape_in-MissesNone k
