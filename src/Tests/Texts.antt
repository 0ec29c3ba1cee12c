-- ===== src/Tests/Texts.antt =====
-- The JSON scanner on a concrete text.
use rustygo.Base.{
  ℕ, ◌≡◌, ◌≤◌, ◌<◌, refl, true, false, none, List, [], ◌∷◌, arith, Result, ok, length,
}
use rustygo.Codec.Wire.{CodecError}
use rustygo.Codec.Json.{JsonScanner, string_end, find_close, closed, next, key}
use rustygo.Codec.Json.Strings.{string_end-find_close}
use rustygo.Codec.Json.Progress.{next-Onward}

-- `abcdefgh\"ij",` from behind the opening quote.
abbrev escaped_text : List ℕ
escaped_text = 97 ∷ 98 ∷ 99 ∷ 100 ∷ 101 ∷ 102 ∷ 103 ∷ 104 ∷ 92 ∷ 34 ∷ 105 ∷ 106 ∷ 34 ∷ 44 ∷ []

closes : find_close false 1 escaped_text ≡ closed 13 true
unfolding find_close
closes = refl

string_end-find_close_example : string_end 1 escaped_text ≡ find_close false 1 escaped_text
string_end-find_close_example = string_end-find_close 1 escaped_text (
  omega arith,
  (
    omega arith,
    (
      omega arith,
      (
        omega arith,
        (
          omega arith,
          (
            omega arith,
            (
              omega arith,
              (
                omega arith,
                (
                  omega arith,
                  (omega arith, (omega arith, (omega arith, (omega arith, (omega arith, tt))))),
                ),
              ),
            ),
          ),
        ),
      ),
    ),
  ),
)

-- ` "ab" :1`
abbrev key_text : List ℕ
key_text = 32 ∷ 34 ∷ 97 ∷ 98 ∷ 34 ∷ 32 ∷ 58 ∷ 49 ∷ []

abbrev no_unquote : List ℕ → Result CodecError (List ℕ)
no_unquote bs = ok bs

abbrev scanner : ℕ → JsonScanner
scanner n = record { input = key_text; position = n }

reads_key : next no_unquote none (scanner 0) ≡ (ok (key, 97 ∷ 98 ∷ []), scanner 7)
unfolding next
reads_key = refl

next-Onward_example : (key_text ≡ key_text) × (0 < 7) × (7 ≤ length key_text)
next-Onward_example =
    next-Onward no_unquote none (scanner 0) (key, 97 ∷ 98 ∷ []) (scanner 7) reads_key
