-- ===== src/Codec/Json.antt =====
-- codec/json.go: the streaming tokenizer. `strconv.Unquote` is a parameter.
pub mod Strings
pub mod Progress
use rustygo.Base.{
  ℕ, zero, suc, ◌+◌, ◌-◌, Bool, true, false, ◌&&◌, ◌||◌, Option, none, some, List, [], ◌∷◌, ◌++◌,
  ◌==◌, if◌then◌else◌, leb, ℤ, pos, Result, ok, err, panic, length, take, drop,
}
use rustygo.Codec.Wire.{CodecError, eof, malformed_json, Allocator, reserve, little_endian}
use rustygo.Codec.Simd.{quote_or_escape_in}

-- `JSONTokenNone` comes only with an error.
pub data JsonTokenType : Type 0 where
  object_start object_end array_start array_end key string number bool null : JsonTokenType

pub record JsonScanner : Type 0 where
  pub input : List ℕ
  pub position : ℕ

-- A method's result, and the scanner with the position where it stopped.
abbrev pub Scan : Type 0 → Type 0
Scan A = Result CodecError A × JsonScanner

abbrev pub Token : Type 0
Token = JsonTokenType × List ℕ

abbrev pub at : JsonScanner → ℕ → JsonScanner
at s p = record s { position = p }

-- What is left from the position on.
abbrev pub rest_of : JsonScanner → List ℕ
rest_of s = drop s.position s.input

abbrev pub is_space : ℕ → Bool
is_space b = (b == 32) || (b == 9) || (b == 13) || (b == 10)

-- Commas and colons count as white space.
abbrev pub is_skipped : ℕ → Bool
is_skipped b = is_space b || (b == 44) || (b == 58)

abbrev pub is_number_byte : ℕ → Bool
is_number_byte b =
    (leb 48 b && leb b 57) || (b == 45) || (b == 43) || (b == 46) || (b == 101) || (b == 69)

-- How many bytes at the front pass the test.
unfoldable pub run_length : (ℕ → Bool) → List ℕ → ℕ
run_length test [] = 0
run_length test (b ∷ bs) = let n = run_length test bs in if test b then suc n else 0

unfoldable pub skip_whitespace : JsonScanner → JsonScanner
unfolding run_length
skip_whitespace s = at s (s.position + run_length is_skipped (rest_of s))

-- The loop over words, from position `i`: where it stops, and the bytes from there on.
unfoldable pub jump : ℕ → List ℕ → ℕ × List ℕ
unfolding quote_or_escape_in little_endian
jump i (a ∷ b ∷ c ∷ d ∷ e ∷ f ∷ g ∷ h ∷ bs) =
    let onward = jump (i + 8) bs in
    if quote_or_escape_in (little_endian (a ∷ b ∷ c ∷ d ∷ e ∷ f ∷ g ∷ h ∷ []))
    then (i, a ∷ b ∷ c ∷ d ∷ e ∷ f ∷ g ∷ h ∷ bs)
    else onward
jump i bs = (i, bs)

-- The position of the closing quote, with whether there was an escape; or the position where the input ended.
pub data Close : Type 0 where
  closed : ℕ → Bool → Close
  unclosed : ℕ → Close

-- The loop over bytes, from position `i`. A backslash passes the byte behind it.
unfoldable pub find_close : Bool → ℕ → List ℕ → Close
find_close escaped i [] = unclosed i
find_close escaped i (b ∷ []) =
    if b == 92 then unclosed (i + 2) else if b == 34 then closed i escaped else unclosed (suc i)
find_close escaped i (b ∷ c ∷ bs) = elim (b == 92) [
  | true ↦ find_close true (i + 2) bs
  | false ↦ elim (b == 34) [ true ↦ closed i escaped | false ↦ find_close escaped (suc i) (c ∷ bs) ]
]

-- The scan of a string from behind its opening quote.
unfoldable pub string_end : ℕ → List ℕ → Close
unfolding jump find_close
string_end start bs = let (i, left) = jump start bs in find_close false i left

-- A non-nil scope allocates the bytes.
abbrev pub copied : Option Allocator → List ℕ → Result CodecError (List ℕ)
copied scope bs = elim (reserve scope (pos (length bs))) [
  | ok u ↦ ok bs
  | err e ↦ err e
  | panic p ↦ panic p
]

abbrev pub copy_unquoted :
    Option Allocator → Result CodecError (List ℕ) → Result CodecError (List ℕ)
copy_unquoted scope (ok bs) = copied scope bs
copy_unquoted scope (err e) = err e
copy_unquoted scope (panic p) = panic p

abbrev pub finish_token : JsonTokenType → Result CodecError (List ℕ) → Result CodecError Token
finish_token t (ok bs) = ok (t, bs)
finish_token t (err e) = err e
finish_token t (panic p) = panic p

abbrev pub peek_colon : List ℕ → Bool
peek_colon [] = false
peek_colon (b ∷ bs) = b == 58

-- A string that a colon follows is a key, and the colon is passed.
unfoldable pub key_or_string : Result CodecError (List ℕ) × JsonScanner → Scan Token
unfolding run_length
key_or_string (ok str, s) =
    let n = run_length is_space (rest_of s) in
    if peek_colon (drop n (rest_of s))
    then (ok (key, str), at s (suc (s.position + n)))
    else (ok (string, str), s)
key_or_string (err e, s) = (err e, s)
key_or_string (panic p, s) = (panic p, s)

abbrev pub true_text : List ℕ
true_text = 116 ∷ 114 ∷ 117 ∷ 101 ∷ []

abbrev pub false_text : List ℕ
false_text = 102 ∷ 97 ∷ 108 ∷ 115 ∷ 101 ∷ []

abbrev pub null_text : List ℕ
null_text = 110 ∷ 117 ∷ 108 ∷ 108 ∷ []

unfoldable pub starts_with : List ℕ → List ℕ → Bool
starts_with [] bs = true
starts_with (x ∷ xs) [] = false
starts_with (x ∷ xs) (b ∷ bs) = (b == x) && starts_with xs bs

unfoldable pub scan_bool : JsonScanner → Scan Token
unfolding starts_with
scan_bool s =
    if starts_with true_text (rest_of s)
    then (ok (bool, true_text), at s (s.position + 4))
    else if starts_with false_text (rest_of s)
    then (ok (bool, false_text), at s (s.position + 5))
    else (err malformed_json, s)

unfoldable pub scan_null : JsonScanner → Scan Token
unfolding starts_with
scan_null s =
    if starts_with null_text (rest_of s)
    then (ok (null, null_text), at s (s.position + 4))
    else (err malformed_json, s)

unfoldable pub scan_number : JsonScanner → Scan Token
unfolding run_length
scan_number s =
    let n = run_length is_number_byte (rest_of s) in
    (ok (number, take n (rest_of s)), at s (s.position + n))

module _ (unquote : List ℕ → Result CodecError (List ℕ)) where
  abbrev pub close_string : Option Allocator → JsonScanner → ℕ → Close → Scan (List ℕ)
  close_string scope s start (unclosed p) = (err malformed_json, at s p)
  close_string scope s start (closed p false) =
      (copied scope (take (p - start) (drop start s.input)), at s (suc p))
  close_string scope s start (closed p true) = (
    copy_unquoted scope (unquote (34 ∷ (take (p - start) (drop start s.input) ++ (34 ∷ [])))),
    at s (suc p),
  )

  unfoldable pub scan_string : Option Allocator → JsonScanner → Scan (List ℕ)
  unfolding string_end
  scan_string scope s =
      let start = suc s.position in
      close_string scope s start (string_end start (drop start s.input))

  -- The cases on the byte at the position.
  unfoldable pub next_at : Option Allocator → JsonScanner → ℕ → Scan Token
  unfolding scan_string key_or_string scan_bool scan_null scan_number
  next_at scope s b =
      if b == 123
      then (ok (object_start, b ∷ []), at s (suc s.position))
      else if b == 125
      then (ok (object_end, b ∷ []), at s (suc s.position))
      else if b == 91
      then (ok (array_start, b ∷ []), at s (suc s.position))
      else if b == 93
      then (ok (array_end, b ∷ []), at s (suc s.position))
      else if b == 34
      then key_or_string (scan_string scope s)
      else if (b == 116) || (b == 102)
      then scan_bool s
      else if b == 110
      then scan_null s
      else if (b == 45) || (leb 48 b && leb b 57)
      then scan_number s
      else (err malformed_json, s)

  unfoldable pub next_byte : Option Allocator → JsonScanner → List ℕ → Scan Token
  unfolding next_at
  next_byte scope s [] = (err eof, s)
  next_byte scope s (b ∷ bs) = next_at scope s b

  unfoldable pub next : Option Allocator → JsonScanner → Scan Token
  unfolding next_byte skip_whitespace
  next scope s = let s' = skip_whitespace s in next_byte scope s' (rest_of s')
