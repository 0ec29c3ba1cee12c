-- ===== src/Analysis/Lifetime/Ownership/Compression.antt =====
-- `GetRoot` of lifetime/ownership.go: its recursion ends, and path compression changes no answer.
use rustygo.Base.{
  ℕ, zero, suc, ◌+◌, ◌≤◌, ◌<◌, ◌≡◌, refl, sym, ap, ◌∙◌, ◌≢◌, ◌⊎◌, inl, inr, true, false, Option,
  none, some, ◌==◌, Option-cases, arith,
}
use rustygo.Analysis.Ssa.{Ref}
use rustygo.Analysis.Lifetime.Ownership.{
  Aliases, put, OwnershipTracker, register_alloc, root_loop, get_root, linked, add_alias,
}
use rustygo.Analysis.Lifetime.Ownership.Chains.{
  Chain, some_inj, none_ne_some, unlinked, put_at, put_off, Ref-cases, Chain-unique, Chain-root,
  Chain-put, Shortens, Shortens-self, Shortens-linked,
}

==_self : (v : ℕ) → (v == v) ≡ true
==_self v = ground arith

==_ne : (u v : ℕ) → u ≢ v → (u == v) ≡ false
==_ne u v h = ground arith

-- With more fuel than the chain has links, the recursion finds the root.
root_loop_lem :
    (n fuel : ℕ) (m : Aliases) (v r : Ref)
    → Chain m n v r
    → n < fuel
    → ((root_loop fuel m v).0 ≡ some r) × Shortens m (root_loop fuel m v).1
unfolding root_loop
root_loop_lem n zero m v r c h = absurd (omega arith)
root_loop_lem zero (suc fuel) m v r (e, f) h =
    rw (root_loop, f, ==_self v) (rw e refl, Shortens-self m)
root_loop_lem (suc n) (suc fuel) m v r (u, f, d, c) h =
    let (found, kept) = root_loop_lem n fuel m u r c (omega arith) in
    rw (root_loop, f, ==_ne u v d, found)
      (refl, Shortens-linked m (root_loop fuel m u).1 n v r (u, f, d, c) kept)

-- Every alias leads to a root, over at most `b` links.
abbrev Bounded : Aliases → ℕ → Type 0
Bounded m b = (v u : Ref) → m v ≡ some u → (n : ℕ) × (r : Ref) × (n ≤ b) × Chain m n v r

Bounded-Shortens : (m m' : Aliases) (b : ℕ) → Bounded m b → Shortens m m' → Bounded m' b
Bounded-Shortens m m' b h kept v u e = elim (Option-cases (m v)) [
  | inl f ↦ absurd (none_ne_some (sym (kept.outside v f) ∙ e))
  | inr (w, f) ↦
      let (n, r, le, c) = h v w f in
      let (j, le', c') = kept.roots n v r c in (j, r, omega arith, c')
]

Bounded-put :
    (m : Aliases) (k r : Ref) (c b : ℕ)
    → Bounded m b
    → Chain (put m k (some r)) c k r
    → Bounded (put m k (some r)) (b + c)
Bounded-put m k r c b h new v u e = elim (Ref-cases v k) [
  | inl at ↦ (c, r, omega arith, rw at new)
  | inr off ↦
      let (n, s, le, l) = h v u (sym (put_off m k (some r) v off) ∙ e) in
      let (j, q, le', l') = Chain-put m k r c n v s new l in (j, q, omega arith, l')
]

-- Every alias leads to a root, over no more links than were added.
pub record IsTracked (t : OwnershipTracker) : Type 0 where
  pub chains : Bounded t.aliases t.links

module _ (t : OwnershipTracker) (k : IsTracked t) where
  -- What `GetRoot` answers for a value, and what it leaves.
  pub get_root_lem :
      (v : Ref)
      → ((t.aliases v ≡ none) × ((get_root t v).0 ≡ none))
        ⊎ ((r : Ref) × (n : ℕ) × (n ≤ t.links)
            × Chain t.aliases n v r
            × ((get_root t v).0 ≡ some r))
  unfolding get_root root_loop
  get_root_lem v = elim (Option-cases (t.aliases v)) [
    | inl e ↦ inl (e, rw (root_loop, e) refl)
    | inr (u, e) ↦
        let (n, r, b, c) = k.chains v u e in
        inr (r, n, b, c, (root_loop_lem n (suc t.links) t.aliases v r c (omega arith)).0)
  ]

  pub get_root-Shortens : (v : Ref) → Shortens t.aliases (get_root t v).1.aliases
  unfolding get_root root_loop
  get_root-Shortens v = elim (Option-cases (t.aliases v)) [
    | inl e ↦ rw (root_loop, e) (Shortens-self t.aliases)
    | inr (u, e) ↦
        let (n, r, b, c) = k.chains v u e in
        (root_loop_lem n (suc t.links) t.aliases v r c (omega arith)).1
  ]

  pub get_root-links : (v : Ref) → (get_root t v).1.links ≡ t.links
  unfolding get_root
  get_root-links v = refl

  -- A chain decides the answer.
  pub get_root_of : (n : ℕ) (v r : Ref) → Chain t.aliases n v r → (get_root t v).0 ≡ some r
  get_root_of n v r c = elim (get_root_lem v) [
    | inl (e, f) ↦ absurd (unlinked t.aliases n v r c e)
    | inr (s, j, b, d, f) ↦ f ∙ ap some (Chain-unique t.aliases j n v s r d c).1
  ]

  pub get_root-IsTracked : (v : Ref) → IsTracked (get_root t v).1
  unfolding get_root
  get_root-IsTracked v = record {
    chains = λ x u e.
        Bounded-Shortens t.aliases (get_root t v).1.aliases t.links k.chains (get_root-Shortens v) x
          u e;
  }

  pub register_alloc-IsTracked : (v : Ref) (scope : ℕ) → IsTracked (register_alloc t v scope)
  unfolding register_alloc
  register_alloc-IsTracked v scope = record {
    chains = λ x u e.
        let (n, r, le, c) =
          Bounded-put t.aliases v v 0 t.links k.chains (refl, put_at t.aliases v (some v)) x u e in
        (n, r, omega arith, c);
  }

-- A link to a root.
pub root-Chain :
    (m : Aliases) (v r : Ref) → m r ≡ some r → (c : ℕ) × (c ≤ 1) × Chain (put m v (some r)) c v r
root-Chain m v r e = elim (Ref-cases v r) [
  | inl same ↦ (0, omega arith, (same, put_at m v (some r) ∙ ap some (sym same)))
  | inr apart ↦ (
    1,
    omega arith,
    (
      r,
      put_at m v (some r),
      λ q. apart (sym q),
      (refl, put_off m v (some r) r (λ q. apart (sym q)) ∙ e),
    ),
  )
]

linked-IsTracked :
    (v : Ref) (o : Option Ref) (t : OwnershipTracker)
    → IsTracked t
    → ((r : Ref) → o ≡ some r → t.aliases r ≡ some r)
    → IsTracked (linked v (o, t))
linked-IsTracked v none t k h = k
linked-IsTracked v (some r) t k h = record {
  chains = λ x u e.
      let (c, le, new) = root-Chain t.aliases v r (h r refl) in
      let (n, s, b, l) = Bounded-put t.aliases v r c t.links k.chains new x u e in
      (n, s, omega arith, l);
}

module _ (t : OwnershipTracker) (k : IsTracked t) where
  -- What `GetRoot` answers is an alias of itself, before and after.
  pub root-aliases : (v r : Ref) → (get_root t v).0 ≡ some r → t.aliases r ≡ some r
  root-aliases v r e = elim (get_root_lem t k v) [
    | inl (none', f) ↦ absurd (none_ne_some (sym f ∙ e))
    | inr (s, n, b, c, f) ↦ rw (some_inj (sym e ∙ f)) (Chain-root t.aliases n v s c)
  ]

  pub root_kept : (v r : Ref) → (get_root t v).0 ≡ some r → (get_root t v).1.aliases r ≡ some r
  root_kept v r e =
      let (j, le, c) = (get_root-Shortens t k v).roots 0 r r (refl, root-aliases v r e) in
      Chain-root (get_root t v).1.aliases j r r c

  pub add_alias-IsTracked : (v src : Ref) → IsTracked (add_alias t v src)
  unfolding add_alias
  add_alias-IsTracked v src =
      linked-IsTracked v (get_root t src).0 (get_root t src).1 (get_root-IsTracked t k src)
        (root_kept src)
