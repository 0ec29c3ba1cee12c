-- ===== src/Analysis/Lifetime/Ownership/Chains.antt =====
-- Chains of aliases: how a write to the map changes them.
use rustygo.Base.{
  ℕ, zero, suc, ◌+◌, ◌≤◌, ◌≡◌, refl, sym, ◌∙◌, ◌≢◌, ◌⊎◌, inl, inr, Option, none, some, arith,
}
use rustygo.Analysis.Ssa.{Ref}
use rustygo.Analysis.Lifetime.Ownership.{Aliases, put}

-- From `v`, `n` links lead to the root `r`, which is its own alias.
abbrev pub Chain : Aliases → ℕ → Ref → Ref → Type 0
Chain m zero v r = (v ≡ r) × (m v ≡ some v)
Chain m (suc n) v r = (u : Ref) × (m v ≡ some u) × (u ≢ v) × Chain m n u r

zero_ne_suc : {i : ℕ} → zero ≢ suc i
zero_ne_suc h = omega arith

pub some_inj : {u v : Ref} → some u ≡ some v → u ≡ v
some_inj h = cc

pub none_ne_some : {u : Ref} → none ≢ some u
none_ne_some h = cc

pub unlinked : (m : Aliases) (n : ℕ) (v r : Ref) → Chain m n v r → m v ≢ none
unlinked m zero v r (e, f) g = none_ne_some (sym g ∙ f)
unlinked m (suc n) v r (u, f, d, c) g = none_ne_some (sym g ∙ f)

pub put_at : (m : Aliases) (k : Ref) (o : Option Ref) → put m k o k ≡ o
put_at m k o = ground arith

pub put_off : (m : Aliases) (k : Ref) (o : Option Ref) (x : Ref) → x ≢ k → put m k o x ≡ m x
put_off m k o x h = ground arith

pub Ref-cases : (x k : Ref) → (x ≡ k) ⊎ (x ≢ k)
Ref-cases x k = ground arith

-- Two chains from one value have the same length and the same root.
pub Chain-unique :
    (m : Aliases) (n j : ℕ) (v r s : Ref) → Chain m n v r → Chain m j v s → (n ≡ j) × (r ≡ s)
Chain-unique m zero zero v r s (e, f) (e', f') = (refl, sym e ∙ e')
Chain-unique m zero (suc j) v r s (e, f) (u, f', d, c) = absurd (d (some_inj (sym f' ∙ f)))
Chain-unique m (suc n) zero v r s (u, f, d, c) (e, f') = absurd (d (some_inj (sym f ∙ f')))
Chain-unique m (suc n) (suc j) v r s (u, f, d, c) (u', f', d', c') =
    let same : u' ≡ u = some_inj (sym f' ∙ f) in
    let (e, e') = Chain-unique m n j u r s c (rw same at c') in (omega arith, e')

-- The root at the end of a chain.
pub Chain-root : (m : Aliases) (n : ℕ) (v r : Ref) → Chain m n v r → m r ≡ some r
Chain-root m zero v r (e, f) = rw e at f
Chain-root m (suc n) v r (u, f, d, c) = Chain-root m n u r c

-- A chain after a write at `k`, from where `c` links now lead to `r`.
pub Chain-put :
    (m : Aliases) (k r : Ref) (c : ℕ) (n : ℕ) (x s : Ref)
    → Chain (put m k (some r)) c k r
    → Chain m n x s
    → (j : ℕ) × (q : Ref) × (j ≤ n + c) × Chain (put m k (some r)) j x q
Chain-put m k r c zero x s new (e, f) = elim (Ref-cases x k) [
  | inl at ↦ (c, r, omega arith, rw at new)
  | inr off ↦ (zero, x, omega arith, (refl, put_off m k (some r) x off ∙ f))
]
Chain-put m k r c (suc n) x s new (u, f, d, l) = elim (Ref-cases x k) [
  | inl at ↦ (c, r, omega arith, rw at new)
  | inr off ↦
      let (j, q, b, l') = Chain-put m k r c n u s new l in
      (suc j, q, omega arith, (u, put_off m k (some r) x off ∙ f, d, l'))
]

-- What path compression keeps: roots, with chains that are no longer, and what has no alias.
pub record Shortens (m m' : Aliases) : Type 0 where
  pub roots : (n : ℕ) (x s : Ref) → Chain m n x s → (j : ℕ) × (j ≤ n) × Chain m' j x s
  pub outside : (x : Ref) → m x ≡ none → m' x ≡ none

pub Shortens-self : (m : Aliases) → Shortens m m
Shortens-self m = record { roots = λ n x s h. (n, omega arith, h); outside = λ x h. h }

-- A link from `k` straight to the root of its chain.
module _ (m : Aliases) (k r : Ref) (i : ℕ) (whole : Chain m (suc i) k r) where
  apart : k ≢ r
  apart e = whole.2 (some_inj (sym whole.1 ∙ rw e (Chain-root m (suc i) k r whole)))

  linked-Chain : Chain (put m k (some r)) 1 k r
  linked-Chain = (
    r,
    put_at m k (some r),
    λ e. apart (sym e),
    (refl, put_off m k (some r) r (λ e. apart (sym e)) ∙ Chain-root m (suc i) k r whole),
  )

  shorter : (n : ℕ) (x s : Ref) → Chain m n x s → (j : ℕ) × (j ≤ n) × Chain (put m k (some r)) j x s
  shorter zero x s (e, f) = elim (Ref-cases x k) [
    | inl at ↦ absurd (zero_ne_suc (Chain-unique m zero (suc i) x s r (e, f) (rw at whole)).0)
    | inr off ↦ (zero, omega arith, (e, put_off m k (some r) x off ∙ f))
  ]
  shorter (suc n) x s (u, f, d, l) = elim (Ref-cases x k) [
    | inl at ↦
        let (same, end) = Chain-unique m (suc n) (suc i) x s r (u, f, d, l) (rw at whole) in
        (1, omega arith, rw (at, end) linked-Chain)
    | inr off ↦
        let (j, b, l') = shorter n u s l in
        (suc j, omega arith, (u, put_off m k (some r) x off ∙ f, d, l'))
  ]

  pub Shortens-put : Shortens m (put m k (some r))
  Shortens-put = record {
    roots = shorter;
    outside = λ x h. elim (Ref-cases x k) [
      | inl at ↦ absurd cc
      | inr off ↦ put_off m k (some r) x off ∙ h
    ];
  }

pub Shortens-trans : (a b c : Aliases) → Shortens a b → Shortens b c → Shortens a c
Shortens-trans a b c s t = record {
  roots = λ n x r h.
      let (j, le, l) = s.roots n x r h in
      let (i, le', l') = t.roots j x r l in (i, omega arith, l');
  outside = λ x h. t.outside x (s.outside x h);
}

-- A shortened map, with a link from `v` straight to the root of its chain.
pub Shortens-linked :
    (m m' : Aliases) (n : ℕ) (v r : Ref)
    → Chain m (suc n) v r
    → Shortens m m'
    → Shortens m (put m' v (some r))
Shortens-linked m m' n v r whole kept =
    let (j, b, l) = kept.roots (suc n) v r whole in by_length j l
  where
    by_length : (j : ℕ) → Chain m' j v r → Shortens m (put m' v (some r))
    by_length zero (e, f) = absurd (
        zero_ne_suc
          (Chain-unique m zero (suc n) v v r (refl, rw (sym e) at (Chain-root m (suc n) v r whole))
            whole).0)
    by_length (suc i) l = Shortens-trans m m' (put m' v (some r)) kept (Shortens-put m' v r i l)
