-- ===== src/Arena/Since.antt =====
-- What a run of allocation calls leaves alone: the chunks before the one that was active.
use rustygo.Base.{
  ℕ, ◌≤◌, ◌<◌, ◌≡◌, refl, ap, ◌∙◌, inl, inr, Option, none, some, List, [], ◌∷◌, arith, length,
}
use native.Mathlib.Decide.{ℕ_discrete}
use mathlib.Core.Path.{subst}
use rustygo.Memory.{Os, IsOs}
use rustygo.Arena.State.{Arena, Slice}
use rustygo.Arena.Offsets.{All, offset_at, size_at}
use rustygo.Arena.Invariant.{ActiveOk, IsValid, Grants}
use rustygo.Arena.Live.{Request, IsIntRequest, IsCall, Serves, call, call-Serves, serve}

-- What the calls since a mark in chunk `i` have changed: nothing below it.
pub record Since (i : ℕ) (a b : Arena) : Type 0 where
  pub valid : IsValid b
  pub longer : length a.chunks ≤ length b.chunks
  pub sizes : (j : ℕ) → j < length a.chunks → size_at b.chunks j ≡ size_at a.chunks j
  pub below : (j : ℕ) → j < i → offset_at b.chunks j ≡ offset_at a.chunks j
  pub grown : offset_at a.chunks i ≤ offset_at b.chunks i
  pub onward : (k : ℕ) → b.active ≡ some k → i ≤ k

pub Since-refl : (i : ℕ) (a : Arena) → IsValid a → a.active ≡ some i → Since i a a
Since-refl i a v e = record {
  valid = v;
  longer = omega arith;
  sizes = λ j h. refl;
  below = λ j h. refl;
  grown = omega arith;
  onward = λ k p. ground arith;
}

pub active-some : (b : Arena) → IsValid b → 0 < length b.chunks → (k : ℕ) × (b.active ≡ some k)
active-some b v h = go b.active refl
  where
    go : (o : Option ℕ) → b.active ≡ o → (k : ℕ) × (b.active ≡ some k)
    go none e = absurd (omega (arith, ap length (subst (λ o. ActiveOk o b.chunks) e v.active_ok)))
    go (some k) e = (k, e)

Since-Grants :
    (i n align : ℕ) (a b : Arena) (s : Slice) (d : Arena)
    → i < length a.chunks
    → Since i a b
    → Grants n align b s d
    → Since i a d
Since-Grants i n align a b s d h x g =
    let (k, e) = active-some b x.valid (omega (arith, x.longer)) in
    let first : i ≤ s.chunk = omega (arith, x.onward k e, g.not_before k e) in
    record {
      valid = g.extends.valid;
      longer = omega (arith, x.longer, g.extends.longer);
      sizes = λ j p. g.extends.sizes j (omega (arith, x.longer)) ∙ x.sizes j p;
      below = λ j p. g.others j (λ q. omega arith) ∙ x.below j p;
      grown = elim (ℕ_discrete i s.chunk) [
        | yes p ↦ rw p (
            omega (
              arith,
              ap (offset_at a.chunks) p,
              ap (offset_at b.chunks) p,
              x.grown,
              g.above,
              g.sized,
              g.taken,
            ))
        | no ne ↦ omega (arith, g.others i ne, x.grown)
      ];
      onward = λ m p. ground (arith, g.now_active);
    }

Since-call :
    (i : ℕ) (a b : Arena) (os : Os) (r : Request)
    → i < length a.chunks
    → Since i a b
    → IsOs os
    → IsIntRequest r
    → Since i a (call os b r).1
Since-call i a b os r h x w k = go (call-Serves os b w x.valid r k)
  where
    go : Serves b (call os b r) → Since i a (call os b r).1
    go (n, align, p, inl (s, e, g)) = Since-Grants i n align a b s (call os b r).1 h x g
    go (n, align, p, inr (e, y, same)) = record {
      valid = y.valid;
      longer = omega (arith, x.longer, y.longer);
      sizes = λ j q. y.sizes j (omega (arith, x.longer)) ∙ x.sizes j q;
      below = λ j q. same j ∙ x.below j q;
      grown = omega (arith, same i, x.grown);
      onward = λ m q.
          let (k, e) = active-some b x.valid (omega (arith, x.longer)) in
          omega (arith, x.onward k e, y.onward k m e q);
    }

pub Since-serve :
    (rs : List (Os × Request)) (i : ℕ) (a b : Arena)
    → i < length a.chunks
    → All IsCall rs
    → Since i a b
    → Since i a (serve b rs).1
unfolding serve
Since-serve [] i a b h k x = x
Since-serve ((os, r) ∷ rs) i a b h ((w, k), ks) x =
    Since-serve rs i a (call os b r).1 h ks (Since-call i a b os r h x w k)
