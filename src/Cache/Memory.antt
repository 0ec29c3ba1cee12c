-- ===== src/Cache/Memory.antt =====
-- The bytes of an arena behind the slices of the cache: `copy` and reading, and the comparison of keys.
use rustygo.Base.{
  ℕ, zero, suc, ◌+◌, ◌-◌, Bool, true, false, ◌&&◌, List, [], ◌∷◌, ◌==◌, leb, ltb, lt→ltb, ==_iff,
  if◌then◌else◌, length, get_or, ◌≡◌, refl, ap, ◌∙◌, ◌<◌, arith,
}
use rustygo.Arena.State.{Slice}
use rustygo.Scope.{Bytes}

-- `copy(s, src)`
unfoldable pub write : Bytes → Slice → List ℕ → Bytes
write bytes s src i x =
    if (i == s.chunk) && leb s.lo x && ltb x s.hi
    then get_or src (x - s.lo) (bytes i x)
    else bytes i x

unfoldable pub read_from : (ℕ → ℕ) → ℕ → ℕ → List ℕ
read_from bytes x zero = []
read_from bytes x (suc n) = bytes x ∷ read_from bytes (suc x) n

unfoldable pub read : Bytes → Slice → List ℕ
read bytes s = read_from (bytes s.chunk) s.lo (s.hi - s.lo)

unfoldable pub same_bytes : List ℕ → List ℕ → Bool
same_bytes [] [] = true
same_bytes [] (y ∷ ys) = false
same_bytes (x ∷ xs) [] = false
same_bytes (x ∷ xs) (y ∷ ys) = (x == y) && same_bytes xs ys

pub same_bytes_self : (xs : List ℕ) → same_bytes xs xs ≡ true
unfolding same_bytes
same_bytes_self [] = refl
same_bytes_self (x ∷ xs) = ground (arith, same_bytes_self xs)

get_or-default : (xs : List ℕ) (j d e : ℕ) → j < length xs → get_or xs j d ≡ get_or xs j e
get_or-default [] j d e h = absurd (omega arith)
get_or-default (x ∷ xs) zero d e h = refl
get_or-default (x ∷ xs) (suc j) d e h = get_or-default xs j d e (omega arith)

reads :
    (f : ℕ → ℕ) (x : ℕ) (xs : List ℕ)
    → ((j d : ℕ) → j < length xs → f (x + j) ≡ get_or xs j d)
    → read_from f x (length xs) ≡ xs
unfolding read_from
reads f x [] h = refl
reads f x (y ∷ ys) h =
    let head : f x ≡ y = ap f (omega arith) ∙ h 0 0 (omega arith) in
    rw head (
      ap (λ (zs : List ℕ). y ∷ zs)
        (reads f (suc x) ys (λ j d k. ap f (omega arith) ∙ h (suc j) d (omega arith))))

write-inside :
    (bytes : Bytes) (s : Slice) (src : List ℕ) (j d : ℕ)
    → s.lo + j < s.hi
    → j < length src
    → write bytes s src s.chunk (s.lo + j) ≡ get_or src j d
unfolding write
write-inside bytes s src j d h k =
    let past : s.lo + j - s.lo ≡ j = omega arith in
    let here : (s.chunk == s.chunk) ≡ true = (==_iff s.chunk s.chunk).1 refl in
    let low : leb s.lo (s.lo + j) ≡ true = ground arith in
    rw (here, low, lt→ltb (s.lo + j) s.hi h, past) (get_or-default src j _ d k)

-- What was copied into a slice of its length is read back from it.
pub read-write :
    (bytes : Bytes) (s : Slice) (src : List ℕ)
    → s.hi ≡ s.lo + length src
    → read (write bytes s src) s ≡ src
unfolding read
read-write bytes s src h =
    let count : s.hi - s.lo ≡ length src = omega arith in
    rw count (
      reads (write bytes s src s.chunk) s.lo src
        (λ j d k. write-inside bytes s src j d (omega arith) k))
