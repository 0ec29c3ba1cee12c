-- ===== src/Arena/Savepoints.antt =====
-- checkpoint.go: a snapshot of every chunk's offset, rolling back to it, and transactions.
-- `self` is the address of the arena, by which a savepoint knows its owner.
use rustygo.Base.{
  ℕ, not, Option, none, some, List, [], ◌∷◌, ltb, ◌==◌, if◌then◌else◌, Result, ok, err, panic,
  length, map,
}
use rustygo.Memory.{Chunk, Error, invalid_savepoint}
use rustygo.Arena.State.{Arena}
use rustygo.Arena.Marks.{at_zero, found_index}

pub record Savepoint : Type 0 where
  pub arena : ℕ
  pub offsets : List ℕ
  pub active_chunk_idx : ℕ

unfoldable pub savepoint : ℕ → Arena → Savepoint
savepoint self a = record {
  arena = self;
  offsets = map (λ c. c.off) a.chunks;
  active_chunk_idx = found_index a.active (length a.chunks);
}

-- The saved offsets, and 0 for the chunks that came later.
unfoldable pub restore : List ℕ → List Chunk → List Chunk
restore offs [] = []
restore [] (c ∷ cs) = at_zero c ∷ restore [] cs
restore (off ∷ offs) (c ∷ cs) = record c { off = off } ∷ restore offs cs

abbrev rollback_to : ℕ → Arena → Savepoint → Result Error (Unit {0}) × Arena
rollback_to self a sp =
    if not (sp.arena == self)
    then (err invalid_savepoint, a)
    else if ltb (length a.chunks) (length sp.offsets)
    then (err invalid_savepoint, a)
    else (
      ok tt,
      record a {
        chunks = restore sp.offsets a.chunks;
        active =
            if ltb sp.active_chunk_idx (length a.chunks)
            then some sp.active_chunk_idx
            else a.active;
      },
    )

unfoldable pub rollback : ℕ → Arena → Option Savepoint → Result Error (Unit {0}) × Arena
rollback self a none = (err invalid_savepoint, a)
rollback self a (some sp) = rollback_to self a sp

-- How `fn` ended, and the arena that it left. The error of the rollback itself is dropped.
abbrev pub conclude :
    ℕ → Savepoint → Result Error (Unit {0}) × Arena → Result Error (Unit {0}) × Arena
conclude self sp (ok _, b) = (ok tt, b)
conclude self sp (err e, b) = (err e, (rollback self b (some sp)).1)
conclude self sp (panic p, b) = (panic p, (rollback self b (some sp)).1)

unfoldable pub transaction :
    ℕ → Arena → (Arena → Result Error (Unit {0}) × Arena) → Result Error (Unit {0}) × Arena
transaction self a fn = conclude self (savepoint self a) (fn a)
