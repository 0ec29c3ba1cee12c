-- ===== src/Pool/Reuse.antt =====
-- What a pool with the lock-free stack hands out again after `Free`.
use rustygo.Base.{
  ℕ, zero, suc, ◌≡◌, refl, ap, sym, ◌∙◌, Bool, true, false, none, some, List, ℤ, pos, negsuc, IsInt,
  add_int, Result, ok, panic, double_free, if◌then◌else◌, ◌⊎◌, Option, length, replicate,
  length-replicate, Bool-cases, inl, inr, arith,
}
use mathlib.Core.Path.{subst}
use rustygo.Memory.{Error}
use rustygo.Pool.{
  Pool, SyncPool, PoolBackend, treiber, sync, put_at, is_tracked, wiped, reset_bytes, poison_object,
  alloc, free, accepted, overwritten,
}

-- A sum that wraps is undone by the opposite one.
add_int-undo : (x : ℤ) → IsInt x → add_int (add_int x (negsuc 0)) (pos 1) ≡ x
add_int-undo (pos zero) h = refl
add_int-undo (pos (suc n)) h = ground arith
add_int-undo (negsuc n) h = ground arith

put_at_self : {A : Type 0} (f : ℕ → A) (o : ℕ) (a : A) → put_at f o a o ≡ a
put_at_self f o a = ground arith

module _ {S : Type 0} (sp : SyncPool S) (new_fn : ℕ → List ℕ) (o : ℕ) where
  abbrev after_free : Pool S → Pool S
  after_free p = (free sp new_fn p (some o)).1

  free-accepted :
      (p : Pool S)
      → is_tracked p.tracker o ≡ true
      → free sp new_fn p (some o) ≡ (ok tt, accepted sp new_fn p o)
  unfolding free
  free-accepted p t = rw t refl

  free-refused :
      (p : Pool S)
      → is_tracked p.tracker o ≡ false
      → free sp new_fn p (some o) ≡ (panic double_free, overwritten sp new_fn p o)
  unfolding free
  free-refused p t = rw t refl

  -- The next `Alloc` undoes what the call left, but for the bytes.
  abbrev Reused : Pool S → Result Error (Unit {0}) × Pool S → Type 0
  Reused p (r, q) =
      (r ≡ ok tt)
      × ((alloc sp new_fn q).0 ≡ o)
      × ((alloc sp new_fn q).1.stack ≡ p.stack)
      × ((alloc sp new_fn q).1.memory o ≡ wiped sp new_fn p (p.memory o))
      × ((alloc sp new_fn q).1.in_use ≡ p.in_use)

  accepted-Reused :
      (p : Pool S)
      → IsInt p.in_use
      → Reused
          (record p { backend = treiber })
          (ok tt, accepted sp new_fn (record p { backend = treiber }) o)
  unfolding alloc accepted
  accepted-Reused p k = (
    refl,
    refl,
    refl,
    put_at_self p.memory o (wiped sp new_fn (record p { backend = treiber }) (p.memory o)),
    add_int-undo p.in_use k,
  )

  free-Reused :
      (p : Pool S)
      → p.backend ≡ treiber
      → is_tracked p.tracker o ≡ true
      → IsInt p.in_use
      → Reused p (free sp new_fn p (some o))
  free-Reused p b t k =
      subst (λ r. Reused p r) (sym (free-accepted p t))
        (subst
          (λ x.
            Reused (record p { backend = x })
              (ok tt, accepted sp new_fn (record p { backend = x }) o))
          (sym b) (accepted-Reused p k))

  -- `f` is the reset function, or changes nothing where there is none; it keeps the size of the object.
  abbrev pub Resets : Pool S → (List ℕ → List ℕ) → Type 0
  Resets p f =
      ((p.reset_fn ≡ some f) ⊎ ((p.reset_fn ≡ none) × ((bs : List ℕ) → f bs ≡ bs)))
      × ((bs : List ℕ) → length (f bs) ≡ length bs)

  reset_bytes_lem :
      (r : Option (List ℕ → List ℕ)) (f : List ℕ → List ℕ) (bs : List ℕ)
      → (r ≡ some f) ⊎ ((r ≡ none) × ((cs : List ℕ) → f cs ≡ cs))
      → reset_bytes sp new_fn r bs ≡ f bs
  reset_bytes_lem r f bs (inl e) = rw e refl
  reset_bytes_lem r f bs (inr (e, same)) = rw e (sym (same bs))

  wiped_lem :
      (p : Pool S) (f : List ℕ → List ℕ) (bs : List ℕ)
      → Resets p f
      → wiped sp new_fn p bs ≡ (
          if p.poison_on_free
          then replicate (length bs) p.poison_pattern
          else if p.zero_on_free
          then replicate (length bs) 0
          else f bs)
  unfolding wiped poison_object
  wiped_lem p f bs (which, size) =
      let same = reset_bytes_lem p.reset_fn f bs which in
      elim (Bool-cases p.poison_on_free) [
        | inl e ↦ elim (Bool-cases p.zero_on_free) [
          | inl z ↦ rw (e, z, same, length-replicate {A = ℕ} (length (f bs)) 0, size bs) refl
          | inr z ↦ rw (e, z, same, size bs) refl
        ]
        | inr e ↦ elim (Bool-cases p.zero_on_free) [
          | inl z ↦ rw (e, z, same, size bs) refl
          | inr z ↦ rw (e, z, same) refl
        ]
      ]

  -- `Free` of an object to a pool with the lock-free stack, where the debug build's set, if there is one, has the
  -- object, the count of objects in use is an int64, and the reset function keeps the object's size: it returns,
  -- and the next `Alloc` hands out the same object and leaves the stack and the count as they were. Every byte of
  -- the object is the pattern if the pool poisons, else zero if it zeroes, else what the reset function left.
  pub alloc-free :
      (p : Pool S) (f : List ℕ → List ℕ)
      → Resets p f
      → p.backend ≡ treiber
      → is_tracked p.tracker o ≡ true
      → IsInt p.in_use
      → ((free sp new_fn p (some o)).0 ≡ ok tt)
        × ((alloc sp new_fn (free sp new_fn p (some o)).1).0 ≡ o)
        × ((alloc sp new_fn (free sp new_fn p (some o)).1).1.stack ≡ p.stack)
        × ((alloc sp new_fn (free sp new_fn p (some o)).1).1.memory o ≡ (
            if p.poison_on_free
            then replicate (length (p.memory o)) p.poison_pattern
            else if p.zero_on_free
            then replicate (length (p.memory o)) 0
            else f (p.memory o)))
        × ((alloc sp new_fn (free sp new_fn p (some o)).1).1.in_use ≡ p.in_use)
  alloc-free p f h b t k =
      let (r, same, stack, bytes, count) = free-Reused p b t k in
      (r, same, stack, bytes ∙ wiped_lem p f (p.memory o) h, count)

  accepted_at :
      (p : Pool S) (t : ℕ → Bool) (b : PoolBackend)
      → (accepted sp new_fn (record p { backend = b; tracker = some t }) o).tracker
        ≡ some (put_at t o false)
  unfolding accepted
  accepted_at p t treiber = refl
  accepted_at p t sync = refl

  accepted_tracker :
      (p : Pool S) (t : ℕ → Bool)
      → p.tracker ≡ some t
      → (accepted sp new_fn p o).tracker ≡ some (put_at t o false)
  accepted_tracker p t e =
      subst
        (λ x. (accepted sp new_fn (record p { tracker = x }) o).tracker ≡ some (put_at t o false))
        (sym e) (accepted_at p t p.backend)

  overwritten_untracked :
      (p : Pool S)
      → is_tracked p.tracker o ≡ false
      → is_tracked (overwritten sp new_fn p o).tracker o ≡ false
  unfolding overwritten
  overwritten_untracked p e = e

  -- After `Free`, accepted or refused, the debug build's set does not have the object.
  untracked :
      (p : Pool S) (t : ℕ → Bool) → p.tracker ≡ some t → is_tracked (after_free p).tracker o ≡ false
  untracked p t e = elim (Bool-cases (t o)) [
    | inl h ↦
        subst (λ r. is_tracked r.1.tracker o ≡ false)
          (sym (free-accepted p (ap (λ x. is_tracked x o) e ∙ h)))
          (subst (λ x. is_tracked x o ≡ false) (sym (accepted_tracker p t e))
            (put_at_self t o false))
    | inr h ↦
        subst (λ r. is_tracked r.1.tracker o ≡ false)
          (sym (free-refused p (ap (λ x. is_tracked x o) e ∙ h)))
          (overwritten_untracked p (ap (λ x. is_tracked x o) e ∙ h))
  ]

  -- In the debug build, whatever the pool: `Free` of an object that was just freed, or refused, panics.
  pub free_twice :
      (p : Pool S) (t : ℕ → Bool)
      → p.tracker ≡ some t
      → (free sp new_fn (free sp new_fn p (some o)).1 (some o)).0 ≡ panic double_free
  free_twice p t e = ap (λ r. r.0) (free-refused (after_free p) (untracked p t e))

  abbrev Shared : Pool S → Type 0
  Shared q = ((alloc sp new_fn q).0 ≡ o) × ((alloc sp new_fn (alloc sp new_fn q).1).0 ≡ o)
