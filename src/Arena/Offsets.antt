-- ===== src/Arena/Offsets.antt =====
-- The chunk list of an arena as functions of the index: offsets, sizes and base addresses.
pub use rustygo.Base.Every.{All}
use rustygo.Base.{
  ℕ, zero, suc, ◌+◌, ◌≤◌, ◌<◌, ◌≡◌, ◌≢◌, refl, ap, some, List, [], ◌∷◌, ◌++◌, arith, length,
  get_elem?, set, drop,
}
use mathlib.Core.Path.{subst}
use native.Mathlib.Nat.{suc-add}
use rustygo.Memory.{Chunk}

abbrev pub field_at : (Chunk → ℕ) → List Chunk → ℕ → ℕ
field_at g [] i = 0
field_at g (c ∷ cs) zero = g c
field_at g (c ∷ cs) (suc i) = field_at g cs i

-- 0 for an index with no chunk.
abbrev pub offset_at : List Chunk → ℕ → ℕ
offset_at = field_at λ c. c.off

abbrev pub size_at : List Chunk → ℕ → ℕ
size_at = field_at λ c. c.size

abbrev pub base_at : List Chunk → ℕ → ℕ
base_at = field_at λ c. c.base

module _ (g : Chunk → ℕ) where
  pub field_at-get :
      (cs : List Chunk) (i : ℕ) (c : Chunk) → get_elem? cs i ≡ some c → field_at g cs i ≡ g c
  field_at-get [] i c e = cc
  field_at-get (x ∷ cs) zero c e = ground arith
  field_at-get (x ∷ cs) (suc i) c e = field_at-get cs i c e

  pub field_at-set_self :
      (cs : List Chunk) (i : ℕ) (c : Chunk) → i < length cs → field_at g (set cs i c) i ≡ g c
  field_at-set_self [] i c h = absurd (omega arith)
  field_at-set_self (x ∷ cs) zero c h = refl
  field_at-set_self (x ∷ cs) (suc i) c h = field_at-set_self cs i c (omega arith)

  pub field_at-set_ne :
      (cs : List Chunk) (i j : ℕ) (c : Chunk) → i ≢ j → field_at g (set cs i c) j ≡ field_at g cs j
  field_at-set_ne [] i j c h = refl
  field_at-set_ne (x ∷ cs) zero zero c h = absurd (h refl)
  field_at-set_ne (x ∷ cs) zero (suc j) c h = refl
  field_at-set_ne (x ∷ cs) (suc i) zero c h = refl
  field_at-set_ne (x ∷ cs) (suc i) (suc j) c h = field_at-set_ne cs i j c (λ e. h (ap suc e))

  -- A field that the new chunk shares with the old one is unchanged everywhere.
  pub field_at-set_same :
      (cs : List Chunk) (i j : ℕ) (c d : Chunk)
      → get_elem? cs i ≡ some c
      → g d ≡ g c
      → field_at g (set cs i d) j ≡ field_at g cs j
  field_at-set_same [] i j c d e h = refl
  field_at-set_same (x ∷ cs) zero zero c d e h = ground arith
  field_at-set_same (x ∷ cs) zero (suc j) c d e h = refl
  field_at-set_same (x ∷ cs) (suc i) zero c d e h = refl
  field_at-set_same (x ∷ cs) (suc i) (suc j) c d e h = field_at-set_same cs i j c d e h

  pub field_at-append_lt :
      (cs ds : List Chunk) (j : ℕ) → j < length cs → field_at g (cs ++ ds) j ≡ field_at g cs j
  field_at-append_lt [] ds j h = absurd (omega arith)
  field_at-append_lt (x ∷ cs) ds zero h = refl
  field_at-append_lt (x ∷ cs) ds (suc j) h = field_at-append_lt cs ds j (omega arith)

  -- Where the added chunk has the field 0, the field is as before at every index.
  pub field_at-append_zero :
      (cs : List Chunk) (c : Chunk) (j : ℕ)
      → g c ≡ 0
      → field_at g (cs ++ (c ∷ [])) j ≡ field_at g cs j
  field_at-append_zero [] c zero h = h
  field_at-append_zero [] c (suc j) h = refl
  field_at-append_zero (x ∷ cs) c zero h = refl
  field_at-append_zero (x ∷ cs) c (suc j) h = field_at-append_zero cs c j h

  pub field_at-past : (cs : List Chunk) (j : ℕ) → length cs ≤ j → field_at g cs j ≡ 0
  field_at-past [] j h = refl
  field_at-past (x ∷ cs) zero h = absurd (omega arith)
  field_at-past (x ∷ cs) (suc j) h = field_at-past cs j (omega arith)

pub get_elem?-lt :
    {A : Type 0} (xs : List A) (i : ℕ) (x : A) → get_elem? xs i ≡ some x → i < length xs
get_elem?-lt [] i x e = cc
get_elem?-lt (y ∷ xs) zero x e = omega arith
get_elem?-lt (y ∷ xs) (suc i) x e = omega (arith, get_elem?-lt xs i x e)

pub get_elem?-last :
    {A : Type 0} (xs : List A) (x : A) → get_elem? (xs ++ (x ∷ [])) (length xs) ≡ some x
get_elem?-last [] x = refl
get_elem?-last (y ∷ xs) x = get_elem?-last xs x

pub get_elem?-some :
    {A : Type 0} (xs : List A) (i : ℕ) → i < length xs → (x : A) × (get_elem? xs i ≡ some x)
get_elem?-some [] i h = absurd (omega arith)
get_elem?-some (y ∷ xs) zero h = (y, refl)
get_elem?-some (y ∷ xs) (suc i) h = get_elem?-some xs i (omega arith)

pub get_elem?-drop :
    {A : Type 0} (n : ℕ) (xs : List A) (k : ℕ) → get_elem? (drop n xs) k ≡ get_elem? xs (n + k)
get_elem?-drop zero xs k = ap (get_elem? xs) (omega arith)
get_elem?-drop (suc n) [] k = refl
get_elem?-drop (suc n) (x ∷ xs) k = rw suc-add (get_elem?-drop n xs k)

module _ (P : Chunk → Type 0) where
  pub All-get : (cs : List Chunk) (i : ℕ) (c : Chunk) → All P cs → get_elem? cs i ≡ some c → P c
  All-get [] i c h e = cc
  All-get (x ∷ cs) zero c h e = subst P (ground arith) h.0
  All-get (x ∷ cs) (suc i) c h e = All-get cs i c h.1 e

  pub All-set : (cs : List Chunk) (i : ℕ) (c : Chunk) → All P cs → P c → All P (set cs i c)
  All-set [] i c h p = tt
  All-set (x ∷ cs) zero c h p = (p, h.1)
  All-set (x ∷ cs) (suc i) c h p = (h.0, All-set cs i c h.1 p)

  pub All-append : (cs : List Chunk) (c : Chunk) → All P cs → P c → All P (cs ++ (c ∷ []))
  All-append [] c h p = (p, tt)
  All-append (x ∷ cs) c h p = (h.0, All-append cs c h.1 p)
