-- ===== src/Arena/Rollback.antt =====
-- `Savepoint`, `Rollback` and `Transaction`.
use rustygo.Base.{
  ℕ, zero, suc, ◌≤◌, ◌≡◌, ◌≢◌, refl, sym, ◌⊎◌, inl, inr, some, List, [], ◌∷◌, arith, Result, ok,
  err, panic, length, map, length-map,
}
use rustygo.Memory.{Chunk, Error}
use rustygo.Arena.State.{Arena}
use rustygo.Arena.Marks.{used_bytes}
use rustygo.Arena.Savepoints.{savepoint, restore, rollback, conclude, transaction}
use rustygo.Arena.Offsets.{offset_at}
use rustygo.Arena.Invariant.{IsValid}
use rustygo.Arena.Calls.{active-lt}
use rustygo.Arena.Rewind.{used_of_ext, found_index-eq}

restore_offsets :
    (xs bs : List Chunk)
    → length xs ≤ length bs
    → (j : ℕ) → offset_at (restore (map (λ c. c.off) xs) bs) j ≡ offset_at xs j
unfolding restore
restore_offsets [] [] h j = refl
restore_offsets (a ∷ xs) [] h j = absurd (omega arith)
restore_offsets [] (b ∷ bs) h zero = refl
restore_offsets [] (b ∷ bs) h (suc j) = restore_offsets [] bs (omega arith) j
restore_offsets (a ∷ xs) (b ∷ bs) h zero = refl
restore_offsets (a ∷ xs) (b ∷ bs) h (suc j) = restore_offsets xs bs (omega arith) j

-- The arena is as it was at `a`: the active chunk, every offset, and so the number of bytes in use.
abbrev pub IsBack : Arena → Arena → Type 0
IsBack a d =
    (d.active ≡ a.active)
    × ((j : ℕ) → offset_at d.chunks j ≡ offset_at a.chunks j)
    × (used_bytes d ≡ used_bytes a)

module _ (self : ℕ) (a b : Arena) (i : ℕ) (v : IsValid a) (e : a.active ≡ some i)
    (h : length a.chunks ≤ length b.chunks) where
  rolled : Arena
  rolled = record b { chunks = restore (map (λ c. c.off) a.chunks) b.chunks; active = some i }

  rollback-eq : rollback self b (some (savepoint self a)) ≡ (ok tt, rolled)
  unfolding rollback savepoint rolled
  rollback-eq =
      rw
        (
          found_index-eq a.active i (length a.chunks) e (active-lt a i v e),
          length-map a.chunks (λ c. c.off),
        )
        (ground (arith, active-lt a i v e))

  rolled-IsBack : IsBack a rolled
  unfolding rolled used_bytes
  rolled-IsBack =
      let same = restore_offsets a.chunks b.chunks h in (sym e, same, used_of_ext _ a.chunks same)

-- A savepoint of a valid arena with an active chunk restores the active chunk, every offset and the number of
-- bytes in use, from any later state of the same arena that has at least as many chunks.
pub rollback-savepoint :
    (self : ℕ) (a b : Arena) (i : ℕ)
    → IsValid a
    → a.active ≡ some i
    → length a.chunks ≤ length b.chunks
    → let (r, d) = rollback self b (some (savepoint self a)) in (r ≡ ok tt) × IsBack a d
rollback-savepoint self a b i v e h =
    rw (rollback-eq self a b i v e h) (refl, rolled-IsBack self a b i v e h)

-- How a transaction ends, given how its function ended.
abbrev pub Concludes :
    Arena → Result Error (Unit {0}) × Arena → Result Error (Unit {0}) × Arena → Type 0
Concludes a q t = (q.0 ≡ ok tt) × (t ≡ q) ⊎ (q.0 ≢ ok tt) × (t.0 ≡ q.0) × IsBack a t.1

conclude-Concludes :
    (self : ℕ) (a : Arena) (i : ℕ) (q : Result Error (Unit {0}) × Arena)
    → IsValid a
    → a.active ≡ some i
    → length a.chunks ≤ length q.1.chunks
    → Concludes a q (conclude self (savepoint self a) q)
conclude-Concludes self a i (ok _, b) v e h = inl (refl, refl)
conclude-Concludes self a i (err x, b) v e h =
    inr ((λ p. cc), refl, (rollback-savepoint self a b i v e h).1)
conclude-Concludes self a i (panic p, b) v e h =
    inr ((λ q. cc), refl, (rollback-savepoint self a b i v e h).1)

-- A transaction whose function returns no error ends as the function did, and keeps what it left.
-- After an error or a panic it ends with the same error or panic, and the arena is back as it was,
-- if the function has removed no chunk.
pub transaction-Concludes :
    (self : ℕ) (a : Arena) (i : ℕ) (fn : Arena → Result Error (Unit {0}) × Arena)
    → IsValid a
    → a.active ≡ some i
    → length a.chunks ≤ length (fn a).1.chunks
    → Concludes a (fn a) (transaction self a fn)
unfolding transaction
transaction-Concludes self a i fn v e h = conclude-Concludes self a i (fn a) v e h
