-- ===== src/Scope/Exits.antt =====
-- The end of a scope, and the count of its bytes.
use rustygo.Base.{
  ℕ, ◌+◌, ◌%◌, ◌^◌, ◌≤◌, ◌<◌, ◌≡◌, refl, ap, ◌∙◌, ◌⊎◌, inl, inr, Option, none, some, List, [], ◌∷◌,
  ◌++◌, arith, Bool-cases, ok, err, panic, true, false, lt→ltb, ℤ, pos, if◌then◌else◌, scope_exited,
}
use native.Mathlib.Decide.{ℕ_discrete, dec_le, dec_lt}
use rustygo.Memory.{Os, IsOs, scope_is_inactive}
use rustygo.Metrics.{Metrics}
use rustygo.Arena.State.{Arena, Slice}
use rustygo.Arena.Alloc.{Answer, try_alloc as arena_try_alloc}
use rustygo.Arena.Invariant.{IsValid, Grants, Extends}
use rustygo.Arena.Calls.{Allocates, try_alloc-Allocates}
use rustygo.Scope.{
  Scope, Bytes, Exited, on_exit, track_alloc, tracked, try_alloc, alloc_or_err, run_cleanups,
  poison_slice, poison_all, exit,
}

-- The byte lies in one of the slices.
abbrev pub Covers : List Slice → ℕ → ℕ → Type 0
Covers [] i x = ⊥
Covers (b ∷ bs) i x = ((i ≡ b.chunk) × (b.lo ≤ x) × (x < b.hi)) ⊎ Covers bs i x

module _ (p : ℕ) where
  poison_keeps :
      (bs : List Slice) (bytes : Bytes) (i x : ℕ) → bytes i x ≡ p → poison_all p bs bytes i x ≡ p
  unfolding poison_all poison_slice
  poison_keeps [] bytes i x h = h
  poison_keeps (b ∷ bs) bytes i x h =
      poison_keeps bs (poison_slice p b bytes) i x (ground (arith, h))

  poison_inside :
      (bs : List Slice) (bytes : Bytes) (i x : ℕ) → Covers bs i x → poison_all p bs bytes i x ≡ p
  unfolding poison_all poison_slice
  poison_inside [] bytes i x h = absurd h
  poison_inside (b ∷ bs) bytes i x (inl h) =
      poison_keeps bs (poison_slice p b bytes) i x (ground (arith, h))
  poison_inside (b ∷ bs) bytes i x (inr h) = poison_inside bs (poison_slice p b bytes) i x h

  poison_outside :
      (bs : List Slice) (bytes : Bytes) (i x : ℕ)
      → ¬ Covers bs i x
      → poison_all p bs bytes i x ≡ bytes i x
  unfolding poison_all poison_slice
  poison_outside [] bytes i x h = refl
  poison_outside (b ∷ bs) bytes i x h =
      poison_outside bs (poison_slice p b bytes) i x (λ k. h (inr k)) ∙ untouched
    where
      apart : i ≡ b.chunk → b.lo ≤ x → x < b.hi → ⊥
      apart e l u = h (inl (e, l, u))

      untouched : poison_slice p b bytes i x ≡ bytes i x
      untouched = ground (arith, apart)

exit-bytes-eq :
    {W : Type 0} (s : Scope W) (w : W) (bytes : Bytes) (m : Metrics) (e : Exited W)
    → exit s w bytes m ≡ ok e
    → e.bytes ≡ (if s.poison_on_exit then poison_all s.poison_pattern s.allocs bytes else bytes)
unfolding exit
exit-bytes-eq s w bytes m e h = ground arith

inside_or_not :
    (b : Slice) (i x : ℕ)
    → (i ≡ b.chunk) × (b.lo ≤ x) × (x < b.hi) ⊎ ¬ ((i ≡ b.chunk) × (b.lo ≤ x) × (x < b.hi))
inside_or_not b i x = elim (ℕ_discrete i b.chunk) [
  | no n ↦ inr (λ (e, l, u). n e)
  | yes e ↦ elim (dec_le b.lo x) [
    | no n ↦ inr (λ (_, l, u). n l)
    | yes l ↦ elim (dec_lt x b.hi) [ no n ↦ inr (λ (_, _, u). n u) | yes u ↦ inl (e, l, u) ]
  ]
]

Covers-or_not : (bs : List Slice) (i x : ℕ) → Covers bs i x ⊎ ¬ Covers bs i x
Covers-or_not [] i x = inr λ h. h
Covers-or_not (b ∷ bs) i x = elim (inside_or_not b i x) [
  | inl h ↦ inl (inl h)
  | inr n ↦ elim (Covers-or_not bs i x) [
    | inl h ↦ inl (inr h)
    | inr m ↦ inr (λ h. elim h [ inl y ↦ n y | inr y ↦ m y ])
  ]
]

-- A byte after `Exit`: the poison pattern if the scope poisons and has tracked a slice with that byte, and
-- what it was before if the scope has tracked no such slice, or does not poison.
abbrev pub Left : {W : Type 0} → Scope W → Bytes → Bytes → ℕ → ℕ → Type 0
Left s old new i x =
    (s.poison_on_exit ≡ true) × Covers s.allocs i x × (new i x ≡ s.poison_pattern)
    ⊎ (s.poison_on_exit ≡ true) × ¬ Covers s.allocs i x × (new i x ≡ old i x)
    ⊎ (s.poison_on_exit ≡ false) × (new i x ≡ old i x)

-- When `Exit` returns: a poisoning scope has overwritten every byte of the slices it tracked with the pattern,
-- and no other byte; any other scope has left all bytes.
pub exit_bytes :
    {W : Type 0} (s : Scope W) (w : W) (bytes : Bytes) (m : Metrics) (e : Exited W) (i x : ℕ)
    → exit s w bytes m ≡ ok e
    → Left s bytes e.bytes i x
exit_bytes s w bytes m e i x h =
    let q = ap (λ (f : Bytes). f i x) (exit-bytes-eq s w bytes m e h) in
    elim (Bool-cases s.poison_on_exit) [
      | inr p ↦ inr (inr (p, q ∙ rw p))
      | inl p ↦ elim (Covers-or_not s.allocs i x) [
        | inl c ↦ inl (p, c, q ∙ rw p (poison_inside s.poison_pattern s.allocs bytes i x c))
        | inr c ↦ inr (inl (p, c, q ∙ rw p (poison_outside s.poison_pattern s.allocs bytes i x c)))
      ]
    ]

run_cleanups-append :
    {W : Type 0} (fs : List (W → W)) (f : W → W) (w : W)
    → run_cleanups (fs ++ (f ∷ [])) w ≡ run_cleanups fs (f w)
unfolding run_cleanups
run_cleanups-append [] f w = refl
run_cleanups-append (g ∷ fs) f w = ap g (run_cleanups-append fs f w)

-- Clean-up functions run last in, first out: exiting right after `OnExit(f)` is running `f`, and then
-- exiting as without it. The rest of the outcome is the same.
pub exit-on_exit :
    {W : Type 0} (s : Scope W) (f : W → W) (w : W) (bytes : Bytes) (m : Metrics)
    → exit (on_exit s f) w bytes m ≡ exit s (f w) bytes m
unfolding exit on_exit
exit-on_exit s f w bytes m = rw (run_cleanups-append s.cleanups f w)

exit-inactive :
    {W : Type 0} (s : Scope W) (w : W) (bytes : Bytes) (m : Metrics) (e : Exited W)
    → exit s w bytes m ≡ ok e
    → e.scope.active ≡ false
unfolding exit
exit-inactive s w bytes m e h = ground arith

-- After `Exit` the scope refuses: another `Exit` panics, and an allocation fails and leaves the arena
-- and the scope as they are.
pub after_exit :
    {W : Type 0} (s : Scope W) (w w' : W) (bytes bytes' : Bytes) (m m' : Metrics) (e : Exited W)
    → exit s w bytes m ≡ ok e
    → (os : Os) (a : Arena) (n : ℤ)
    → (exit e.scope w' bytes' m' ≡ panic scope_exited)
      × (try_alloc os a e.scope n ≡ (none, a, e.scope))
      × (alloc_or_err os a e.scope n ≡ (err scope_is_inactive, a, e.scope))
unfolding exit try_alloc alloc_or_err
after_exit s w w' bytes bytes' m m' e h os a n =
    let off = exit-inactive s w bytes m e h in (rw off, rw off, rw off)

-- A grant of `n` bytes that the scope counts; or a failure, and then the scope is as it was.
abbrev pub Counts : {W : Type 0} → ℕ → Arena → Scope W → Option Slice × Arena × Scope W → Type 0
Counts n a s (r, b, t) =
    ((buf : Slice) × (r ≡ some buf)
      × Grants n 1 a buf b
      × (t.used ≡ (s.used + n) % 2 ^ 64)
      × (t.active ≡ true))
    ⊎ ((r ≡ none) × Extends a b × (t ≡ s))

module _ {W : Type 0} (s : Scope W) where
  try_alloc-active :
      (os : Os) (a : Arena) (n : ℕ)
      → s.active ≡ true
      → 0 < n
      → try_alloc os a s (pos n) ≡ tracked s (arena_try_alloc os a (pos n))
  unfolding try_alloc
  try_alloc-active os a n e p = simp (e, lt→ltb 0 n p)

  track_alloc-used :
      (buf : Slice) (n : ℕ) → buf.hi ≡ buf.lo + n → (track_alloc s buf).used ≡ (s.used + n) % 2 ^ 64
  unfolding track_alloc
  track_alloc-used buf n h = ground arith

  track_alloc-active : (buf : Slice) → s.active ≡ true → (track_alloc s buf).active ≡ true
  unfolding track_alloc
  track_alloc-active buf e = ground arith

-- `Scope.TryAlloc` on an active scope over a valid arena and a system that keeps its promises, for a positive
-- int: it grants as the arena does and adds exactly the bytes of the slice to the 64-bit count, or it fails and
-- leaves the scope as it was.
pub try_alloc-Counts :
    {W : Type 0} (os : Os) (a : Arena) (s : Scope W) (n : ℕ)
    → IsOs os
    → IsValid a
    → s.active ≡ true
    → 0 < n
    → n < 2 ^ 63
    → Counts n a s (try_alloc os a s (pos n))
try_alloc-Counts os a s n w v e p h =
    rw (try_alloc-active s os a n e p)
      (go (arena_try_alloc os a (pos n)) (try_alloc-Allocates os a n w v p h))
  where
    go : (r : Answer) → Allocates n 1 a r → Counts n a s (tracked s r)
    go (r, b) (inl (buf, q, g)) =
        rw q (inl (buf, refl, g, track_alloc-used s buf n g.sized, track_alloc-active s buf e))
    go (r, b) (inr (q, x, same)) = rw q (inr (refl, x, refl))
