-- ===== src/Cache/Lookups.antt =====
-- What `Get` finds after `Set` and after `Delete`, of cache.go.
use rustygo.Base.{
  ℕ, ◌+◌, ◌^◌, ◌≤◌, ◌<◌, false, ◌≡◌, refl, ap, inl, inr, ◌⊎◌, none, List, [], ◌∷◌, length, ok,
  Bool-cases, arith,
}
use rustygo.Memory.{Os, IsOs}
use rustygo.Metrics.{Metrics}
use rustygo.Arena.Invariant.{IsValid}
use rustygo.Cache.{ArenaCache, Entries, Val, lookup, remove, val_length, set, get, delete}
use rustygo.Cache.Memory.{same_bytes}
use rustygo.Cache.Stored.{Stored, set-Stored}

lookup-remove : (key : List ℕ) (es : Entries) → lookup key (remove key es) ≡ none
unfolding lookup remove
lookup-remove key [] = refl
lookup-remove key ((k, e) ∷ es) = elim (Bool-cases (same_bytes key k)) [
  | inl same ↦ rw same (lookup-remove key es)
  | inr other ↦ rw other (rw other (lookup-remove key es))
]

-- After Delete, Get answers that the key is missing, whatever was cached, and changes nothing.
pub get-delete :
    (os : Os) (c : ArenaCache) (key : List ℕ) (m : Metrics)
    → get os (delete c key) key m ≡ (ok none, delete c key, m)
unfolding get delete
get-delete os c key m = elim (Bool-cases c.closed) [
  | inl e ↦ rw e refl
  | inr e ↦ rw (e, lookup-remove key c.active.entries, lookup-remove key c.old.entries) refl
]

-- On an open cache over valid arenas and a system that keeps its promises, for a key and a value of int
-- lengths, where Set returns: if the new entry fits the limit beside the bytes that the active generation counts,
-- the count goes up by exactly the lengths of the key and the value; if it does not fit, the count is exactly
-- those lengths, also where they are above the limit.
pub set-used :
    (os : Os) (c : ArenaCache) (key : List ℕ) (v : Val) (m : Metrics) (c' : ArenaCache)
    (m' : Metrics)
    → IsOs os
    → IsValid c.active.arena
    → IsValid c.old.arena
    → c.closed ≡ false
    → length key < 2 ^ 63
    → val_length v < 2 ^ 63
    → set os c key v m ≡ (ok tt, c', m')
    → let n = length key + val_length v in
      ((c.active.used + n ≤ c.max_gen_bytes) × (c'.active.used ≡ c.active.used + n))
      ⊎ ((c.max_gen_bytes < c.active.used + n) × (c'.active.used ≡ n))
set-used os c key v m c' m' w a o is_open k h e =
    let x = set-Stored os w c key v c' h m m' a o is_open k e in
    let counted : c'.active.used ≡ x.before.active.used + (length key + val_length v) =
      ap (λ (z : ArenaCache). z.active.used) x.after in
    elim x.room [
      | inl (fits, same) ↦ inl (fits, omega arith)
      | inr (full, empty) ↦ inr (full, omega arith)
    ]
