-- ===== src/Cache/Rotation.antt =====
-- The exchange of the generations, of cache.go.
use rustygo.Base.{
  ℕ, ◌+◌, ◌≤◌, ◌<◌, ◌≡◌, refl, ◌⊎◌, inl, inr, [], ltb, ltb→lt, Result, ok, bind-eq-ok, Bool-cases,
  arith,
}
use rustygo.Memory.{Error}
use rustygo.Metrics.{Metrics}
use rustygo.Arena.Invariant.{IsValid}
use rustygo.Arena.Lifecycle.{reset_lem}
use mathlib.Core.Path.{subst}
use rustygo.Arena.Marks.{reset as arena_reset}
use rustygo.Cache.{ArenaCache, Generation, leave, reset, reopened, rotate}

pub ok-injective : {A : Type 0} (a b : A) → ◌≡◌ {A = Result Error A} (ok a) (ok b) → a ≡ b
ok-injective a b e = cc

-- What `reset` leaves of a generation.
pub reset_arena :
    (g g' : Generation) (m m' : Metrics)
    → reset g m ≡ ok (g', m')
    → (g'.arena ≡ arena_reset g.arena) × (g'.used ≡ 0) × (g'.entries ≡ []) × (g'.first ≡ g.first)
unfolding reset
reset_arena g g' m m' e =
    let (x, left, e') = bind-eq-ok (leave g m) (λ x. ok (reopened g x)) (g', m') e in
    let at : reopened g x ≡ (g', m') = ok-injective _ _ e' in
    subst
      (λ (p : Generation × Metrics).
        (p.0.arena ≡ arena_reset g.arena)
        × (p.0.used ≡ 0)
        × (p.0.entries ≡ [])
        × (p.0.first ≡ g.first))
      at (refl, refl, refl, refl)

-- Where the entry does not fit: the old generation is empty and active, and the active one is the old one.
abbrev pub Turned : ArenaCache → ℕ → ArenaCache → Type 0
Turned c n c' =
    c.max_gen_bytes < c.active.used + n
    → (c'.active.entries ≡ []) × (c'.active.first ≡ c.old.first) × (c'.old ≡ c.active)

-- The count of the bytes before the new entry: as it was where the entry fits, and none else.
abbrev pub Counted : ArenaCache → ℕ → ArenaCache → Type 0
Counted c n c' =
    ((c.active.used + n ≤ c.max_gen_bytes) × (c'.active.used ≡ c.active.used))
    ⊎ ((c.max_gen_bytes < c.active.used + n) × (c'.active.used ≡ 0))

-- The cache that a write goes to.
pub record Rotated (c : ArenaCache) (n : ℕ) (c' : ArenaCache) : Type 0 where
  pub valid : IsValid c'.active.arena
  pub same_closed : c'.closed ≡ c.closed
  pub room : Counted c n c'
  pub turned : Turned c n c'

pub rotate-Rotated :
    (c c' : ArenaCache) (n : ℕ) (m m' : Metrics)
    → IsValid c.active.arena
    → IsValid c.old.arena
    → rotate c n m ≡ ok (c', m')
    → Rotated c n c'
unfolding rotate
rotate-Rotated c c' n m m' v w e = elim (Bool-cases (ltb c.max_gen_bytes (c.active.used + n))) [
  | inl full ↦
      let (x, cleared, e') = bind-eq-ok (reset c.old m) _ (c', m') (rw full at e) in
      let (same, empty, none_left, flag) = reset_arena c.old x.0 m x.1 cleared in
      let at : (record c { active = x.0; old = c.active }, x.1) ≡ (c', m') = ok-injective _ _ e' in
      subst (λ (p : ArenaCache × Metrics). Rotated c n p.0) at
        (record {
          valid = rw same ((reset_lem c.old.arena w).0);
          same_closed = refl;
          room = inr (ltb→lt c.max_gen_bytes (c.active.used + n) full, empty);
          turned = λ _. (none_left, flag, refl);
        })
  | inr fits ↦
      let at : (c, m) ≡ (c', m') = ok-injective _ _ (rw fits at e) in
      subst (λ (p : ArenaCache × Metrics). Rotated c n p.0) at
        (record {
          valid = v;
          same_closed = refl;
          room = inl (ground arith, refl);
          turned = λ k. absurd (ground arith);
        })
]
