-- ===== src/Codec/Json/Strings.antt =====
-- The fast path of `scanString` in codec/json.go changes nothing.
use rustygo.Base.{
  ℕ, suc, ◌+◌, Bool, true, false, ◌≡◌, refl, ap, sym, ◌∙◌, inl, inr, List, [], ◌∷◌, ◌++◌, ◌==◌,
  length, Bool-cases, arith,
}
use rustygo.Base.Every.{All}
use rustygo.Codec.Wire.{little_endian}
use rustygo.Codec.Simd.{quote_or_escape_in, is_quote_or_escape}
use rustygo.Codec.Simd.Fields.{IsByte}
use rustygo.Codec.Simd.Scan.{or_false, quote_or_escape_in-MissesNone}
use rustygo.Codec.Json.{closed, jump, find_close, string_end}

pub find_close-cons :
    (escaped : Bool) (i b c : ℕ) (bs : List ℕ)
    → find_close escaped i (b ∷ c ∷ bs) ≡ elim (b == 92) [
      | true ↦ find_close true (i + 2) bs
      | false ↦ elim (b == 34) [
        | true ↦ closed i escaped
        | false ↦ find_close escaped (suc i) (c ∷ bs)
      ]
    ]
unfolding find_close
find_close-cons escaped i b c bs = refl

-- A byte that is neither is passed.
find_close-pass :
    (escaped : Bool) (i b : ℕ) (bs : List ℕ)
    → is_quote_or_escape b ≡ false
    → find_close escaped i (b ∷ bs) ≡ find_close escaped (suc i) bs
unfolding find_close
find_close-pass escaped i b [] h =
    let (quote, slash) = or_false (b == 0x22) (b == 0x5C) h in rw (quote, slash) refl
find_close-pass escaped i b (c ∷ bs) h =
    let (quote, slash) = or_false (b == 0x22) (b == 0x5C) h in
    find_close-cons escaped i b c bs ∙ rw (slash, quote) refl

find_close-skip :
    (escaped : Bool) (i : ℕ) (xs ys : List ℕ)
    → All (λ b. is_quote_or_escape b ≡ false) xs
    → find_close escaped i (xs ++ ys) ≡ find_close escaped (i + length xs) ys
find_close-skip escaped i [] ys h = ap (λ (j : ℕ). find_close escaped j ys) (omega arith)
find_close-skip escaped i (x ∷ xs) ys (h, k) =
    find_close-pass escaped i x (xs ++ ys) h
    ∙ find_close-skip escaped (suc i) xs ys k
    ∙ ap (λ (j : ℕ). find_close escaped j ys) (omega arith)

-- For bytes, the scan of a string with the jumps over words finds the closing quote, and whether there was an
-- escape, that the loop over bytes alone finds.
pub string_end-find_close :
    (start : ℕ) (bs : List ℕ) → All IsByte bs → string_end start bs ≡ find_close false start bs
unfolding string_end jump
string_end-find_close start (a ∷ b ∷ c ∷ d ∷ e ∷ f ∷ g ∷ h ∷ bs)
      (ka, (kb, (kc, (kd, (ke, (kf, (kg, (kh, k)))))))) =
    let word = a ∷ b ∷ c ∷ d ∷ e ∷ f ∷ g ∷ h ∷ [] in
    elim (Bool-cases (quote_or_escape_in (little_endian word))) [
      | inl found ↦ rw found refl
      | inr clear ↦ rw clear (
          string_end-find_close (start + 8) bs k
          ∙ sym (
              find_close-skip false start word bs (
                quote_or_escape_in-MissesNone word refl
                  (ka, (kb, (kc, (kd, (ke, (kf, (kg, (kh, tt)))))))) clear)))
    ]
string_end-find_close start [] k = refl
string_end-find_close start (a ∷ []) k = refl
string_end-find_close start (a ∷ b ∷ []) k = refl
string_end-find_close start (a ∷ b ∷ c ∷ []) k = refl
string_end-find_close start (a ∷ b ∷ c ∷ d ∷ []) k = refl
string_end-find_close start (a ∷ b ∷ c ∷ d ∷ e ∷ []) k = refl
string_end-find_close start (a ∷ b ∷ c ∷ d ∷ e ∷ f ∷ []) k = refl
string_end-find_close start (a ∷ b ∷ c ∷ d ∷ e ∷ f ∷ g ∷ []) k = refl
