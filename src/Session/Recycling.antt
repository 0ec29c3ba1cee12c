-- ===== src/Session/Recycling.antt =====
-- What session.go keeps and hands out again.
use rustygo.Base.{
  ℕ, zero, suc, ◌≤◌, ◌<◌, ◌≡◌, refl, ap, ◌∙◌, ◌⊎◌, Bool, true, false, Option, none, some, List, [],
  ◌∷◌, ltb, lt→ltb, ltb→lt, ltb_ℤ, ℤ, negsuc, if◌then◌else◌, pos, Result, ok, err, panic,
  make_slice, length, length-drop, length-append, drop, replicate, length-replicate, Bool-cases,
  inl, inr, arith,
}
use mathlib.Core.Path.{subst}
use rustygo.Memory.{Error}
use rustygo.Base.Every.{All}
use rustygo.Session.{
  Buf, BufPool, Session, borrow, release, with_borrow, run_borrowed, reset, reused, zeroed, made,
}

-- What `sync.Pool` documents: `Get` hands out a buffer that the pool has, and no call adds another one than `Put`
-- its own.
pub record IsBufPool {S : Type 0} (sp : BufPool S) (Has : S → Buf → Type 0) : Type 0 where
  pub from_put : (q : S) (b c : Buf) → Has (sp.put q b) c → Has q c ⊎ (c ≡ b)
  pub from_get : (q : S) (b : Buf) → (sp.get q).0 ≡ some b → Has q b
  pub less : (q : S) (c : Buf) → Has (sp.get q).1 c → Has q c
  pub from_new : (b : Buf) → ¬ Has sp.new b

length-zeroed : (b : Buf) → b.len ≤ length b.mem → length (zeroed b).mem ≡ length b.mem
length-zeroed b h =
    length-append {A = ℕ} (replicate b.len 0) (drop b.len b.mem)
    ∙ omega (arith, length-replicate {A = ℕ} b.len 0, length-drop {A = ℕ} b.len b.mem)

-- A call on the session: `fn` of `WithBorrow` answers with an error code and the buffer's memory after it.
pub data Call : Type 0 where
  borrowing : ℤ → Call
  releasing : Option Buf → Call
  using : ℤ → (Buf → ℕ × List ℕ) → Call
  resetting : Call

-- A buffer has its length within its capacity, and the function keeps the capacity of its own.
abbrev pub IsCall : Call → Type 0
IsCall (borrowing size) = Unit
IsCall (releasing none) = Unit
IsCall (releasing (some b)) = b.len ≤ length b.mem
IsCall (using size fn) = (b : Buf) → length (fn b).1 ≡ length b.mem
IsCall resetting = Unit

module _ {S : Type 0} (sp : BufPool S) (max_alloc : ℕ) where
  abbrev pub step : Session S → Call → Session S
  unfolding borrow release with_borrow reset
  step s (borrowing size) = (borrow sp max_alloc s size).1
  step s (releasing b) = release sp s b
  step s (using size fn) = (with_borrow sp max_alloc s size fn).1
  step s resetting = reset sp s

  unfoldable pub run : Session S → List Call → Session S
  run s [] = s
  run s (c ∷ cs) = run (step s c) cs

-- No buffer that the pool has is larger than `maxRetain`.
abbrev pub Within : {S : Type 0} → (S → Buf → Type 0) → Session S → Type 0
Within Has s = (b : Buf) → Has s.pool b → ltb_ℤ s.max_retain (pos (length b.mem)) ≡ false

-- A buffer of the size that was asked for, within its capacity; or the panic of `make`, above its largest size.
abbrev pub Sized : ℕ → ℕ → Result Error Buf → Type 0
Sized max_alloc size r =
    ((b : Buf) × (r ≡ ok b) × (b.len ≡ size) × (size ≤ length b.mem))
    ⊎ ((max_alloc < size) × (r ≡ panic make_slice))

made-Sized : (max_alloc size : ℕ) → Sized max_alloc size (made max_alloc size)
made-Sized max_alloc size = elim (Bool-cases (ltb max_alloc size)) [
  | inl large ↦ inr (ltb→lt _ _ large, rw large refl)
  | inr fits ↦ inl (
    record { mem = replicate size 0; len = size },
    rw fits refl,
    refl,
    omega (arith, length-replicate {A = ℕ} size 0),
  )
]

module _ {S : Type 0} (sp : BufPool S) (max_alloc : ℕ) (Has : S → Buf → Type 0)
    (law : IsBufPool sp Has) where
  -- The answer to a borrow, and a session that keeps the bound and the limit.
  abbrev Lends : ℤ → ℕ → Result Error Buf × Session S → Type 0
  Lends limit size (r, s) = Sized max_alloc size r × Within Has s × (s.max_retain ≡ limit)

  reused-Lends :
      (s : Session S) (size : ℕ)
      → Within Has s
      → Lends s.max_retain size (reused sp max_alloc size s (sp.get s.pool))
  reused-Lends s size w = go (sp.get s.pool) (λ c h. w c (law.less s.pool c h))
    where
      go :
          (r : Option Buf × S)
          → ((c : Buf) → Has r.1 c → ltb_ℤ s.max_retain (pos (length c.mem)) ≡ false)
          → Lends s.max_retain size (reused sp max_alloc size s r)
      go (none, q) h = (made-Sized max_alloc size, h, refl)
      go (some b, q) h = elim (Bool-cases (ltb (length b.mem) size)) [
        | inl small ↦ rw small (made-Sized max_alloc size, h, refl)
        | inr enough ↦ rw enough (inl (record b { len = size }, refl, refl, ground arith), h, refl)
      ]

  borrow-Lends :
      (s : Session S) (size : ℕ)
      → Within Has s
      → 0 < size
      → Lends s.max_retain size (borrow sp max_alloc s (pos size))
  unfolding borrow
  borrow-Lends s size w h = rw (lt→ltb 0 size h) (reused-Lends s size w)

  -- Release of a buffer whose length is within its capacity keeps the bound.
  release-Within :
      (s : Session S) (b : Buf)
      → Within Has s
      → b.len ≤ length b.mem
      → Within Has (release sp s (some b))
  unfolding release
  release-Within s b w h = elim (Bool-cases (ltb_ℤ s.max_retain (pos (length b.mem)))) [
    | inl large ↦ rw large w
    | inr small ↦ rw small (λ c k. kept (law.from_put s.pool _ c k) small)
  ]
    where
      same : (z : Bool) → length (if z then zeroed b else b).mem ≡ length b.mem
      same true = length-zeroed b h
      same false = refl

      kept :
          {c : Buf}
          → Has s.pool c ⊎ (c ≡ record (if s.zero_on_release then zeroed b else b) { len = 0 })
          → ltb_ℤ s.max_retain (pos (length b.mem)) ≡ false
          → ltb_ℤ s.max_retain (pos (length c.mem)) ≡ false
      kept {c} (inl k) small = w c k
      kept {c} (inr e) small = rw (ap (λ (d : Buf). length d.mem) e ∙ same s.zero_on_release) small

  release-limit : (s : Session S) (o : Option Buf) → (release sp s o).max_retain ≡ s.max_retain
  unfolding release
  release-limit s none = refl
  release-limit s (some b) = elim (Bool-cases (ltb_ℤ s.max_retain (pos (length b.mem)))) [
    | inl large ↦ rw large refl
    | inr small ↦ rw small refl
  ]

  abbrev Keeps : ℤ → Session S → Type 0
  Keeps limit s = Within Has s × (s.max_retain ≡ limit)

  run_borrowed-Keeps :
      (limit : ℤ) (size : ℕ) (fn : Buf → ℕ × List ℕ) (r : Result Error Buf × Session S)
      → ((b : Buf) → length (fn b).1 ≡ length b.mem)
      → Lends limit size r
      → Keeps limit (run_borrowed sp max_alloc fn r).1
  unfolding run_borrowed release
  run_borrowed-Keeps limit size fn (ok b, s) f (inl (b', e, sized, room), w, same) =
      let equal : b ≡ b' = cc in
      let within : b.len ≤ length (fn b).1 = rw (f b, equal, sized) room in
      (
        release-Within s (record b { mem = (fn b).1 }) w within,
        release-limit s (some (record b { mem = (fn b).1 })) ∙ same,
      )
  run_borrowed-Keeps limit size fn (ok b, s) f (inr (large, e), w, same) = absurd cc
  run_borrowed-Keeps limit size fn (err x, s) f (_, w, same) = (w, same)
  run_borrowed-Keeps limit size fn (panic x, s) f (_, w, same) = (w, same)

  step-Keeps :
      (s : Session S) (c : Call)
      → Within Has s
      → IsCall c
      → Keeps s.max_retain (step sp max_alloc s c)
  unfolding step borrow with_borrow reset
  step-Keeps s (borrowing (pos zero)) w h = (w, refl)
  step-Keeps s (borrowing (pos (suc n))) w h =
      let (sized, w', same) = borrow-Lends s (suc n) w (omega arith) in (w', same)
  step-Keeps s (borrowing (negsuc n)) w h = (w, refl)
  step-Keeps s (releasing none) w h = unfold release in (w, refl)
  step-Keeps s (releasing (some b)) w h = (release-Within s b w h, release-limit s (some b))
  step-Keeps s (using (pos zero) fn) w h = (w, refl)
  step-Keeps s (using (pos (suc n)) fn) w h =
      run_borrowed-Keeps s.max_retain (suc n) fn (borrow sp max_alloc s (pos (suc n))) h
        (borrow-Lends s (suc n) w (omega arith))
  step-Keeps s (using (negsuc n) fn) w h = (w, refl)
  step-Keeps s resetting w h = (λ b k. absurd (law.from_new b k), refl)

  run-Keeps :
      (s : Session S) (cs : List Call)
      → Within Has s
      → All IsCall cs
      → Keeps s.max_retain (run sp max_alloc s cs)
  unfolding run
  run-Keeps s [] w h = (w, refl)
  run-Keeps s (c ∷ cs) w (h, hs) =
      let (w', same) = step-Keeps s c w h in
      let (w'', again) = run-Keeps (step sp max_alloc s c) cs w' hs in (w'', again ∙ same)

  -- From a session with a new pool, over a pool that keeps its promises: after any calls of Borrow, Release, WithBorrow
  -- and Reset, whose buffers have their length within their capacity and whose functions keep it, no buffer that the
  -- pool has is larger than the limit, which is the one of the start; and Borrow of a positive size returns a buffer of
  -- that length within its capacity, or panics as `make` does above its largest size.
  pub run-Within :
      (s : Session S) (cs : List Call) (size : ℕ)
      → s.pool ≡ sp.new
      → All IsCall cs
      → 0 < size
      → ((b : Buf)
          → Has (run sp max_alloc s cs).pool b
          → ltb_ℤ s.max_retain (pos (length b.mem)) ≡ false)
        × Sized max_alloc size (borrow sp max_alloc (run sp max_alloc s cs) (pos size)).0
  run-Within s cs size fresh h p =
      let q = run sp max_alloc s cs in
      let start : Within Has s = rw fresh (λ b k. absurd (law.from_new b k)) in
      let (w, same) = run-Keeps s cs start h in
      (
        subst (λ (l : ℤ). (b : Buf) → Has q.pool b → ltb_ℤ l (pos (length b.mem)) ≡ false) same w,
        (borrow-Lends q size w p).0,
      )
