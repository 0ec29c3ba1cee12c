-- ===== src/Cache/Stored.antt =====
-- What a successful `Set` of cache.go leaves.
use rustygo.Base.{
  ℕ, ◌+◌, ◌^◌, ◌<◌, Bool, false, ◌≡◌, refl, ap, sym, ◌∙◌, List, if◌then◌else◌, length, Result, ok,
  err, panic, Panic,
}
use rustygo.Memory.{Os, IsOs, Error}
use rustygo.Metrics.{Metrics}
use rustygo.Arena.State.{Slice}
use rustygo.Arena.Invariant.{IsValid}
use rustygo.Cache.{
  ArenaCache, Entry, Val, copy_to, enter, val_length, contents, rotate, carve, store, store_key,
  store_val, set, Called,
}
use mathlib.Core.Path.{subst}
use rustygo.Cache.Rotation.{Rotated, Turned, Counted, rotate-Rotated}
use rustygo.Cache.Carve.{Carved, carve-Carved}

-- An allocation in the active generation changes none of this.
Turned-Carved :
    (c : ArenaCache) (n : ℕ) {d d' : ArenaCache} {l : ℕ} {s : Slice}
    → Carved l d s d'
    → Turned c n d
    → Turned c n d'
Turned-Carved c n t turned k =
    let (p, q, r) = turned k in
    (
      ap (λ (y : ArenaCache). y.active.entries) t.same ∙ p,
      ap (λ (y : ArenaCache). y.active.first) t.same ∙ q,
      ap (λ (y : ArenaCache). y.old) t.same ∙ r,
    )

not_ok_err : (x : Error) → ◌≡◌ {A = Result Error (Unit {0})} (err x) (ok tt) → ⊥
not_ok_err x e = cc

not_ok_panic : (x : Panic Error) → ◌≡◌ {A = Result Error (Unit {0})} (panic x) (ok tt) → ⊥
not_ok_panic x e = cc

-- What a successful Set leaves: the cache `d` before the value is copied, and the entry.
pub record Stored (c : ArenaCache) (key : List ℕ) (v : Val) (c' : ArenaCache) : Type 0 where
  pub before : ArenaCache
  pub entry : Entry
  pub sized : entry.val.hi ≡ entry.val.lo + val_length v
  pub same_closed : before.closed ≡ c.closed
  pub room : Counted c (length key + val_length v) before
  pub turned : Turned c (length key + val_length v) before
  pub after :
      c'
      ≡ enter (copy_to before entry.val (contents before v)) key entry (length key + val_length v)

module _ (os : Os) (w : IsOs os) (c : ArenaCache) (key : List ℕ) (v : Val) (c' : ArenaCache)
    (h : val_length v < 2 ^ 63) where
  from_val :
      (d : ArenaCache) (k_buf : Slice) (r : Result Error Slice × ArenaCache)
      → Rotated c (length key + val_length v) d
      → ((s : Slice) (d' : ArenaCache) → r ≡ (ok s, d') → Carved (val_length v) d s d')
      → store_val key v k_buf r ≡ (ok tt, c')
      → Stored c key v c'
  from_val d k_buf (ok s, d') x f e =
      let t = f s d' refl in
      record {
        before = d';
        entry = record { key = k_buf; val = s };
        sized = t.sized;
        same_closed = ap (λ (y : ArenaCache). y.closed) t.same ∙ x.same_closed;
        room = rw (ap (λ (y : ArenaCache). y.active.used) t.same) x.room;
        turned = Turned-Carved c (length key + val_length v) t x.turned;
        after = ap (λ (p : Result Error (Unit {0}) × ArenaCache). p.1) (sym e);
      }
  from_val d k_buf (err x, d') y f e =
      absurd (not_ok_err x (ap (λ (p : Result Error (Unit {0}) × ArenaCache). p.0) e))
  from_val d k_buf (panic x, d') y f e =
      absurd (not_ok_panic x (ap (λ (p : Result Error (Unit {0}) × ArenaCache). p.0) e))

  from_key :
      (d : ArenaCache) (r : Result Error Slice × ArenaCache)
      → Rotated c (length key + val_length v) d
      → ((s : Slice) (d' : ArenaCache) → r ≡ (ok s, d') → Carved (length key) d s d')
      → store_key os key v r ≡ (ok tt, c')
      → Stored c key v c'
  from_key d (ok s, d') x f e =
      let t = f s d' refl in
      let y : Rotated c (length key + val_length v) (copy_to d' s key) = record {
        valid = t.valid;
        same_closed = ap (λ (z : ArenaCache). z.closed) t.same ∙ x.same_closed;
        room = rw (ap (λ (z : ArenaCache). z.active.used) t.same) x.room;
        turned = Turned-Carved c (length key + val_length v) t x.turned;
      } in
      from_val (copy_to d' s key) s (carve os (copy_to d' s key) (val_length v)) y
        (λ u d'' q. carve-Carved os (copy_to d' s key) (val_length v) u d'' w t.valid h q) e
  from_key d (err x, d') y f e =
      absurd (not_ok_err x (ap (λ (p : Result Error (Unit {0}) × ArenaCache). p.0) e))
  from_key d (panic x, d') y f e =
      absurd (not_ok_panic x (ap (λ (p : Result Error (Unit {0}) × ArenaCache). p.0) e))

  from_rotation :
      (m m' : Metrics) (r : Result Error (ArenaCache × Metrics))
      → length key < 2 ^ 63
      → ((d : ArenaCache) (l : Metrics) → r ≡ ok (d, l) → Rotated c (length key + val_length v) d)
      → store os key v c m r ≡ (ok tt, c', m')
      → Stored c key v c'
  from_rotation m m' (ok (d, l)) k f e =
      let x = f d l refl in
      from_key d (carve os d (length key)) x
        (λ s d' q. carve-Carved os d (length key) s d' w x.valid k q)
        (ap (λ (p : Called (Unit {0})). (p.0, p.1)) e)
  from_rotation m m' (err x) k f e = absurd (not_ok_err x (ap (λ (p : Called (Unit {0})). p.0) e))
  from_rotation m m' (panic x) k f e =
      absurd (not_ok_panic x (ap (λ (p : Called (Unit {0})). p.0) e))

  pub set-Stored :
      (m m' : Metrics)
      → IsValid c.active.arena
      → IsValid c.old.arena
      → c.closed ≡ false
      → length key < 2 ^ 63
      → set os c key v m ≡ (ok tt, c', m')
      → Stored c key v c'
  unfolding set
  set-Stored m m' a o is_open k e =
      from_rotation m m' (rotate c (length key + val_length v) m) k
        (λ d l q. rotate-Rotated c d (length key + val_length v) m l a o q)
        (subst
          (λ (b : Bool).
            (if b
              then (ok tt, c, m)
              else store os key v c m (rotate c (length key + val_length v) m))
            ≡ (ok tt, c', m'))
          is_open e)
