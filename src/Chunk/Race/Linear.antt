-- ===== src/Chunk/Race/Linear.antt =====
-- Every interleaving is explained by the calls one after the other.
use rustygo.Base.{
  ℕ, zero, suc, ◌^◌, ◌≤◌, ◌<◌, ◌≡◌, refl, sym, ap, ◌⊎◌, inl, inr, Bool-cases, false, is_positive,
  Option, none, some, List, [], ◌∷◌, ℤ, pos, negsuc, IsInt, arith,
}
use mathlib.Core.Path.{subst}
use native.Mathlib.Decide.{ℕ_discrete}
use rustygo.Memory.{Chunk}
use rustygo.Chunk.{Span, is_power_of_two, try_alloc, try_alloc_aligned}
use rustygo.Chunk.Align.{is_power_of_two_iff, small_power}
use rustygo.Chunk.Fits.{IsMapped, Fits, full, granted, try_alloc-Fits, try_alloc_aligned-Fits}
use rustygo.Chunk.Race.{
  Call, plain, aligned, IsIntCall, attempt, Pc, idle, entered, loaded, Race, update, Step, enter,
  load, fail, win, lose, Reach, start, next,
}

-- A call that is refused at every offset, or one for `n` bytes at a multiple of `a`.
abbrev Behaves : Call → Type 0
Behaves r =
    ((c : Chunk) → attempt c r ≡ none)
    ⊎ ((n : ℕ) × (a : ℕ) × (0 < n) × ((c : Chunk) → IsMapped c → Fits c n a (attempt c r)))

no_power :
    (n align : ℤ) → is_power_of_two align ≡ false → (c : Chunk) → attempt c (aligned n align) ≡ none
unfolding attempt try_alloc_aligned
no_power n align e c = elim (Bool-cases (is_positive n)) [
  | inl p ↦ rw (p, e) refl
  | inr p ↦ rw p refl
]

IsIntCall-Behaves : (r : Call) → IsIntCall r → Behaves r
unfolding attempt try_alloc try_alloc_aligned
IsIntCall-Behaves (plain (negsuc n)) h = inl (λ c. refl)
IsIntCall-Behaves (plain (pos zero)) h = inl (λ c. refl)
IsIntCall-Behaves (plain (pos (suc n))) h =
    inr (suc n, 1, omega arith, λ c v. try_alloc-Fits c (suc n) v (omega arith) h)
IsIntCall-Behaves (aligned (negsuc n) align) h = inl (λ c. refl)
IsIntCall-Behaves (aligned (pos zero) align) h = inl (λ c. refl)
IsIntCall-Behaves (aligned (pos (suc n)) align) (h, k) = elim (Bool-cases (is_power_of_two align)) [
  | inl e ↦
      let (j, q) = (is_power_of_two_iff align).0 e in
      inr (
        suc n,
        2 ^ j,
        omega arith,
        λ c v. rw q (
            try_alloc_aligned-Fits c (suc n) j v (omega arith) h (small_power j (subst IsInt q k))),
      )
  | inr e ↦ inl (no_power (pos (suc n)) align e)
]

module _ (r : Call) (k : IsIntCall r) (c : Chunk) where
  -- What a round that succeeds takes.
  pub attempt-some :
      (b : Span) (d : Chunk)
      → IsMapped c
      → attempt c r ≡ some (b, d)
      → (c.off ≤ b.lo) × (b.lo < b.hi) × (b.hi ≤ c.size) × (d ≡ record c { off = b.hi })
  attempt-some b d v e = go (IsIntCall-Behaves r k)
    where
      go :
          Behaves r
          → (c.off ≤ b.lo) × (b.lo < b.hi) × (b.hi ≤ c.size) × (d ≡ record c { off = b.hi })
      go (inl no_way) = ground (arith, no_way c)
      go (inr (n, a, p, fits)) = taken (fits c v)
        where
          taken :
              Fits c n a (attempt c r)
              → (c.off ≤ b.lo) × (b.lo < b.hi) × (b.hi ≤ c.size) × (d ≡ record c { off = b.hi })
          taken (full q above) = ground arith
          taken (granted lo q le near within multiple) = ground arith

  -- A round that fails at an offset fails at every later one.
  attempt-none :
      (off : ℕ)
      → IsMapped c
      → off ≤ c.off
      → attempt (record c { off = off }) r ≡ none
      → attempt c r ≡ none
  attempt-none off v h e = go (IsIntCall-Behaves r k)
    where
      before : Chunk
      before = record c { off = off }

      go : Behaves r → attempt c r ≡ none
      go (inl no_way) = no_way c
      go (inr (n, a, p, fits)) =
          later (fits c v)
            (fits before (record { within = omega (arith, v.within); in_space = v.in_space }))
        where
          later : Fits c n a (attempt c r) → Fits before n a (attempt before r) → attempt c r ≡ none
          later (full q above) g = q
          later (granted lo q le near within multiple) (full q' above) =
              absurd (omega (arith, above lo (omega arith) multiple))
          later (granted lo q le near within multiple)
                (granted lo' q' le' near' within' multiple') =
              ground arith

-- The outcome of a call made alone.
abbrev pub outcome : Chunk → Option (Span × Chunk) → Option Span × Chunk
outcome c none = (none, c)
outcome c (some (b, d)) = (some b, d)

-- The calls of the list made one after the other on `c`, the last of the list first, have these results and
-- leave the chunk `d`.
abbrev pub Linear : Chunk → List (Call × Option Span) → Chunk → Type 0
Linear c [] d = d ≡ c
Linear c ((r, o) ∷ h) d =
    (b : Chunk) × Linear c h b × IsIntCall r × (outcome b (attempt b r) ≡ (o, d))

-- What a goroutine has read was not above the offset.
abbrev Behind : ℕ → Pc → Type 0
Behind n idle = Unit
Behind n (entered r) = IsIntCall r
Behind n (loaded r off) = IsIntCall r × (off ≤ n)

Behind-mono : (n m : ℕ) (p : Pc) → n ≤ m → Behind n p → Behind m p
Behind-mono n m idle h k = tt
Behind-mono n m (entered r) h k = k
Behind-mono n m (loaded r off) h (k, le) = (k, omega arith)

Behind-update :
    (n : ℕ) (pc : ℕ → Pc) (i j : ℕ) (p : Pc)
    → Behind n p
    → ((j : ℕ) → Behind n (pc j))
    → Behind n (update pc i p j)
Behind-update n pc i j p h k =
    elim (ℕ_discrete i j) as (λ d. Behind n (elim d [ yes _ ↦ p | no _ ↦ pc j ])) [
      | yes _ ↦ h
      | no _ ↦ k j
    ]

record Inv (c : Chunk) (s : Race) : Type 0 where
  mapped : IsMapped s.chunk
  behind : (j : ℕ) → Behind s.chunk.off (s.pc j)
  linear : Linear c s.results s.chunk

Inv-start : (c : Chunk) → IsMapped c → Inv c (record { chunk = c; pc = λ _. idle; results = [] })
Inv-start c v = record { mapped = v; behind = λ j. tt; linear = refl }

module _ (c : Chunk) (s : Race) (inv : Inv c s) where
  at_entered : (i : ℕ) (r : Call) → s.pc i ≡ entered r → IsIntCall r
  at_entered i r e = subst (Behind s.chunk.off) e (inv.behind i)

  at_loaded :
      (i : ℕ) (r : Call) (off : ℕ) → s.pc i ≡ loaded r off → IsIntCall r × (off ≤ s.chunk.off)
  at_loaded i r off e = subst (Behind s.chunk.off) e (inv.behind i)

  keeps_pc : (i : ℕ) (p : Pc) → Behind s.chunk.off p → Inv c (record s { pc = update s.pc i p })
  keeps_pc i p h = record {
    mapped = inv.mapped;
    behind = λ j. Behind-update s.chunk.off s.pc i j p h inv.behind;
    linear = inv.linear;
  }

Step-Inv : (c : Chunk) (s t : Race) → Inv c s → Step s t → Inv c t
Step-Inv c s t inv (enter i r e k) = keeps_pc c s inv i (entered r) k
Step-Inv c s t inv (load i r e) =
    keeps_pc c s inv i (loaded r s.chunk.off) (at_entered c s inv i r e, omega arith)
Step-Inv c s t inv (lose i r off e ne) =
    keeps_pc c s inv i (entered r) (at_loaded c s inv i r off e).0
Step-Inv c s t inv (fail i r off e q) =
    let (k, le) = at_loaded c s inv i r off e in
    let kept = keeps_pc c s inv i idle tt in
    record {
      mapped = inv.mapped;
      behind = kept.behind;
      linear = (s.chunk, inv.linear, k, rw (attempt-none r k s.chunk off inv.mapped le q) refl);
    }
Step-Inv c s t inv (win i r off b d e q same) =
    let (k, le) = at_loaded c s inv i r off e in
    let alone : attempt s.chunk r ≡ some (b, d) =
      subst (λ n. attempt (record s.chunk { off = n }) r ≡ some (b, d)) (sym same) q in
    let (above, full_span, within, moved) = attempt-some r k s.chunk b d inv.mapped alone in
    let off' : d.off ≡ b.hi = ap (λ (x : Chunk). x.off) moved in
    record {
      mapped = rw moved (record { within = within; in_space = inv.mapped.in_space });
      behind = λ j.
          Behind-mono s.chunk.off d.off (update s.pc i idle j) (omega arith)
            (Behind-update s.chunk.off s.pc i j idle tt inv.behind);
      linear = (s.chunk, inv.linear, k, rw alone refl);
    }

Reach-Inv : {c : Chunk} {s : Race} → IsMapped c → Reach c s → Inv c s
Reach-Inv {c} v start = Inv-start c v
Reach-Inv {c} v (next r st) = Step-Inv c _ _ (Reach-Inv v r) st

-- Whatever the goroutines do, on a chunk within the address space and with int arguments: the results of the
-- calls that have returned, and the chunk, are those of the same calls made one after the other.
pub Reach-Linear : (c : Chunk) (s : Race) → IsMapped c → Reach c s → Linear c s.results s.chunk
Reach-Linear c s v r = (Reach-Inv v r).linear
