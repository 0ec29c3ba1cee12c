-- ===== src/Codec/Json/Progress.antt =====
-- codec/json.go: every token takes the scanner forward.
use mathlib.Core.Path.{subst}
use rustygo.Base.{
  ℕ, suc, ◌+◌, ◌≤◌, ◌<◌, Bool, true, false, ◌||◌, ◌&&◌, ◌≡◌, refl, ap, sym, ◌∙◌, inl, inr, Option,
  List, [], ◌∷◌, ◌==◌, if◌then◌else◌, leb, Result, ok, err, panic, length, drop, length-drop,
  Bool-cases, arith,
}
use rustygo.Codec.Json.Strings.{find_close-cons}
use rustygo.Codec.Wire.{CodecError, Allocator}
use rustygo.Codec.Json.{
  JsonScanner, Scan, Token, at, rest_of, is_space, is_number_byte, run_length, skip_whitespace,
  Close, closed, unclosed, jump, find_close, string_end, peek_colon, key_or_string, starts_with,
  true_text, false_text, null_text, scan_bool, scan_null, scan_number, close_string, scan_string,
  next_at, next_byte, next,
}

-- A result leaves the scanner behind where it was, and inside its input.
abbrev pub Onward : {A : Type 0} → JsonScanner → Scan A → Type 0
Onward s (ok a, s') =
    (s'.input ≡ s.input) × (s.position < s'.position) × (s'.position ≤ length s.input)
Onward s (err e, s') = Unit
Onward s (panic p, s') = Unit

run_length-le : (test : ℕ → Bool) (bs : List ℕ) → run_length test bs ≤ length bs
unfolding run_length
run_length-le test [] = omega arith
run_length-le test (b ∷ bs) = ground (arith, run_length-le test bs)

-- A run that starts inside the input ends inside it.
run-inside :
    (test : ℕ → Bool) (s : JsonScanner)
    → s.position ≤ length s.input
    → s.position + run_length test (rest_of s) ≤ length s.input
run-inside test s h =
    omega (arith, run_length-le test (rest_of s), length-drop {A = ℕ} s.position s.input)

starts_with-le : (xs bs : List ℕ) → starts_with xs bs ≡ true → length xs ≤ length bs
unfolding starts_with
starts_with-le [] bs h = omega arith
starts_with-le (x ∷ xs) [] h = absurd cc
starts_with-le (x ∷ xs) (b ∷ bs) h = ground (arith, starts_with-le xs bs)

find_close-inside :
    (escaped : Bool) (i : ℕ) (bs : List ℕ) (p : ℕ) (e : Bool)
    → find_close escaped i bs ≡ closed p e
    → (i ≤ p) × (p < i + length bs)
unfolding find_close
find_close-inside escaped i [] p e h = absurd cc
find_close-inside escaped i (b ∷ []) p e h = ground arith
find_close-inside escaped i (b ∷ c ∷ bs) p e h =
    let k = sym (find_close-cons escaped i b c bs) ∙ h in
    elim (Bool-cases (b == 92)) [
      | inl slash ↦ omega (arith, find_close-inside true (i + 2) bs p e (rw slash at k))
      | inr other ↦ elim (Bool-cases (b == 34)) [
        | inl quote ↦ ground (arith, rw (other, quote) at k)
        | inr pass ↦
            omega (arith, find_close-inside escaped (suc i) (c ∷ bs) p e (rw (other, pass) at k))
      ]
    ]

jump-inside :
    (i : ℕ) (bs : List ℕ)
    → (i ≤ (jump i bs).0) × ((jump i bs).0 + length (jump i bs).1 ≡ i + length bs)
unfolding jump
jump-inside i (a ∷ b ∷ c ∷ d ∷ e ∷ f ∷ g ∷ h ∷ bs) = ground (arith, jump-inside (i + 8) bs)
jump-inside i [] = (omega arith, refl)
jump-inside i (a ∷ []) = (omega arith, refl)
jump-inside i (a ∷ b ∷ []) = (omega arith, refl)
jump-inside i (a ∷ b ∷ c ∷ []) = (omega arith, refl)
jump-inside i (a ∷ b ∷ c ∷ d ∷ []) = (omega arith, refl)
jump-inside i (a ∷ b ∷ c ∷ d ∷ e ∷ []) = (omega arith, refl)
jump-inside i (a ∷ b ∷ c ∷ d ∷ e ∷ f ∷ []) = (omega arith, refl)
jump-inside i (a ∷ b ∷ c ∷ d ∷ e ∷ f ∷ g ∷ []) = (omega arith, refl)

string_end-inside :
    (start : ℕ) (bs : List ℕ) (p : ℕ) (e : Bool)
    → string_end start bs ≡ closed p e
    → (start ≤ p) × (p < start + length bs)
unfolding string_end
string_end-inside start bs p e h =
    omega (
      arith,
      jump-inside start bs,
      find_close-inside false (jump start bs).0 (jump start bs).1 p e h,
    )

Onward-any :
    {A : Type 0} (s : JsonScanner) (r : Result CodecError A) (p : ℕ)
    → s.position < p
    → p ≤ length s.input
    → Onward s (r, at s p)
Onward-any s (ok a) p h k = (refl, h, k)
Onward-any s (err e) p h k = tt
Onward-any s (panic q) p h k = tt

peek_colon-some : (bs : List ℕ) → peek_colon bs ≡ true → 0 < length bs
peek_colon-some [] h = absurd cc
peek_colon-some (b ∷ bs) h = omega arith

key_or_string-Onward :
    (s : JsonScanner) (r : Scan (List ℕ)) → Onward s r → Onward s (key_or_string r)
unfolding key_or_string
key_or_string-Onward s (ok str, s') (e, h, k) =
    let n = run_length is_space (rest_of s') in
    elim (Bool-cases (peek_colon (drop n (rest_of s')))) [
      | inl colon ↦ rw colon (
        e,
        omega arith,
        omega (
          arith,
          peek_colon-some (drop n (rest_of s')) colon,
          length-drop {A = ℕ} n (rest_of s'),
          length-drop {A = ℕ} s'.position s'.input,
          ap (λ (xs : List ℕ). length xs) e,
        ),
      )
      | inr other ↦ rw other (e, h, k)
    ]
key_or_string-Onward s (err e, s') h = tt
key_or_string-Onward s (panic p, s') h = tt

ends : (s : JsonScanner) (n : ℕ) → n ≤ length (rest_of s) → 0 < n → s.position + n ≤ length s.input
ends s n h k = omega (arith, length-drop {A = ℕ} s.position s.input)

scan_bool-Onward : (s : JsonScanner) → Onward s (scan_bool s)
unfolding scan_bool
scan_bool-Onward s = elim (Bool-cases (starts_with true_text (rest_of s))) [
  | inl t ↦
      rw t (refl, omega arith, ends s 4 (starts_with-le true_text (rest_of s) t) (omega arith))
  | inr n ↦ elim (Bool-cases (starts_with false_text (rest_of s))) [
    | inl f ↦
        rw (n, f)
          (refl, omega arith, ends s 5 (starts_with-le false_text (rest_of s) f) (omega arith))
    | inr m ↦ rw (n, m) tt
  ]
]

scan_null-Onward : (s : JsonScanner) → Onward s (scan_null s)
unfolding scan_null
scan_null-Onward s = elim (Bool-cases (starts_with null_text (rest_of s))) [
  | inl n ↦
      rw n (refl, omega arith, ends s 4 (starts_with-le null_text (rest_of s) n) (omega arith))
  | inr m ↦ rw m tt
]

scan_number-Onward :
    (s : JsonScanner) (b : ℕ) (bs : List ℕ)
    → rest_of s ≡ b ∷ bs
    → is_number_byte b ≡ true
    → Onward s (scan_number s)
unfolding scan_number run_length
scan_number-Onward s b bs e h =
    let n : 0 < run_length is_number_byte (rest_of s) = rw (e, h) (omega arith) in
    (
      refl,
      omega arith,
      ends s (run_length is_number_byte (rest_of s)) (run_length-le is_number_byte (rest_of s)) n,
    )

Onward-if :
    {A : Type 0} (s : JsonScanner) (t : Bool) (r q : Scan A)
    → (t ≡ true → Onward s r)
    → (t ≡ false → Onward s q)
    → Onward s (if t then r else q)
Onward-if s true r q h k = h refl
Onward-if s false r q h k = k refl

minus_or_digit : (b : ℕ) → ((b == 45) || (leb 48 b && leb b 57)) ≡ true → is_number_byte b ≡ true
minus_or_digit b h = ground arith

module _ (unquote : List ℕ → Result CodecError (List ℕ)) (scope : Option Allocator) where
  close_string-Onward :
      (s : JsonScanner) (c : Close)
      → ((p : ℕ) (e : Bool) → c ≡ closed p e → (s.position < p) × (p < length s.input))
      → Onward s (close_string unquote scope s (suc s.position) c)
  close_string-Onward s (unclosed p) h = tt
  close_string-Onward s (closed p false) h =
      Onward-any s _ (suc p) (omega (arith, h p false refl)) (omega (arith, h p false refl))
  close_string-Onward s (closed p true) h =
      Onward-any s _ (suc p) (omega (arith, h p true refl)) (omega (arith, h p true refl))

  scan_string-Onward :
      (s : JsonScanner) → s.position < length s.input → Onward s (scan_string unquote scope s)
  unfolding scan_string
  scan_string-Onward s h =
      close_string-Onward s (string_end (suc s.position) (drop (suc s.position) s.input)) (λ p e k.
        omega (
          arith,
          string_end-inside (suc s.position) (drop (suc s.position) s.input) p e k,
          length-drop {A = ℕ} (suc s.position) s.input,
        ))

  next_at-Onward :
      (s : JsonScanner) (b : ℕ) (bs : List ℕ)
      → rest_of s ≡ b ∷ bs
      → Onward s (next_at unquote scope s b)
  unfolding next_at
  next_at-Onward s b bs e =
      Onward-if s (b == 123) _ _ (λ _. passed)
        λ _.
          Onward-if s (b == 125) _ _ (λ _. passed)
            λ _.
              Onward-if s (b == 91) _ _ (λ _. passed)
                λ _.
                  Onward-if s (b == 93) _ _ (λ _. passed)
                    λ _.
                      Onward-if s (b == 34) _ _
                        (λ _.
                          key_or_string-Onward s (scan_string unquote scope s)
                            (scan_string-Onward s inside))
                        λ _.
                          Onward-if s ((b == 116) || (b == 102)) _ _ (λ _. scan_bool-Onward s)
                            λ _.
                              Onward-if s (b == 110) _ _ (λ _. scan_null-Onward s)
                                λ _.
                                  Onward-if s ((b == 45) || (leb 48 b && leb b 57)) _ _
                                    (λ h. scan_number-Onward s b bs e (minus_or_digit b h)) λ _. tt
    where
      inside : s.position < length s.input
      inside =
          omega (arith, length-drop {A = ℕ} s.position s.input, ap (λ (xs : List ℕ). length xs) e)

      passed :
          (s.input ≡ s.input) × (s.position < suc s.position) × (suc s.position ≤ length s.input)
      passed = (refl, omega arith, inside)

  next_byte-Onward :
      (s : JsonScanner) (bs : List ℕ) → rest_of s ≡ bs → Onward s (next_byte unquote scope s bs)
  unfolding next_byte
  next_byte-Onward s [] e = tt
  next_byte-Onward s (b ∷ bs) e = next_at-Onward s b bs e

  -- Where Next returns a token, the scanner has gone forward by at least one byte, stands inside its input, and
  -- the input is what it was.
  pub next-Onward :
      (s : JsonScanner) (t : Token) (s' : JsonScanner)
      → next unquote scope s ≡ (ok t, s')
      → (s'.input ≡ s.input) × (s.position < s'.position) × (s'.position ≤ length s.input)
  unfolding next skip_whitespace
  next-Onward s t s' h =
      let skipped = skip_whitespace s in
      let (e, k, l) = subst (Onward skipped) h (next_byte-Onward skipped (rest_of skipped) refl) in
      (e, omega arith, l)
