-- ===== src/Arena/Fresh.antt =====
-- What `NewArena` of arena.go makes without options.
use rustygo.Base.{
  ℕ, zero, suc, ◌^◌, ◌<◌, ◌≡◌, refl, false, [], ◌∷◌, ltb, pos, Result, ok, err, panic, Bool-cases,
  inl, inr, arith,
}
use mathlib.Core.Path.{subst}
use rustygo.Memory.{Os, IsOs, Error, Chunk, new_chunk}
use rustygo.Memory.Mapping.{IsFresh, new_chunk-IsFresh}
use rustygo.Metrics.{Metrics}
use rustygo.Arena.State.{Arena, new_arena, first_chunk, blank_arena}
use rustygo.Arena.Marks.{used_bytes}
use rustygo.Arena.Offsets.{offset_at}
use rustygo.Arena.Invariant.{IsValid}

-- A valid arena with nothing in use.
abbrev pub IsUnused : Arena → Type 0
IsUnused a = IsValid a × (used_bytes a ≡ 0)

abbrev Opens : Result Error Arena → Type 0
Opens (ok a) = IsUnused a
Opens (err e) = Unit
Opens (panic p) = Unit

first_chunk-Opens :
    (n : ℕ) (m : Metrics) (r : Result Error Chunk)
    → n < 2 ^ 63
    → ((c : Chunk) → r ≡ ok c → IsFresh n c)
    → Opens (first_chunk (blank_arena n) m r).0
unfolding used_bytes
first_chunk-Opens n m (ok c) h f =
    let new = f c refl in
    (
      record { mapped = (new.mapped, tt); active_ok = (omega arith, none_behind); int_size = h },
      omega (arith, new.unused),
    )
  where
    none_behind : (j : ℕ) → 0 < j → offset_at (c ∷ []) j ≡ 0
    none_behind zero k = absurd (omega arith)
    none_behind (suc j) k = refl
first_chunk-Opens n m (err e) h f = tt
first_chunk-Opens n m (panic p) h f = tt

new_arena-Opens :
    (os : Os) (n : ℕ) (m : Metrics) → IsOs os → n < 2 ^ 63 → Opens (new_arena os (pos n) [] m).0
unfolding new_arena
new_arena-Opens os n m w h = elim (Bool-cases (ltb 0 n)) [
  | inl some_size ↦
      rw some_size
        (first_chunk-Opens n m (new_chunk os n false) h (new_chunk-IsFresh os w n h false))
  | inr none_size ↦ rw none_size tt
]

-- Over a system that keeps its promises, an arena that NewArena returns for an int size, without options, is valid
-- and has nothing in use.
pub new_arena-IsUnused :
    (os : Os) (n : ℕ) (m : Metrics) (a : Arena)
    → IsOs os
    → n < 2 ^ 63
    → (new_arena os (pos n) [] m).0 ≡ ok a
    → IsUnused a
new_arena-IsUnused os n m a w h e = subst Opens e (new_arena-Opens os n m w h)
