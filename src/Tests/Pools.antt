-- ===== src/Tests/Pools.antt =====
-- Object pools, and two goroutines on the lock-free stack.
use rustygo.Base.{
  ℕ, ◌≡◌, refl, true, false, none, some, Option, Bool, ◌==◌, List, [], ◌∷◌, arith, pos, ok, inr,
}
use rustygo.Pool.{Pool, SyncPool, treiber, free, alloc}
use rustygo.Pool.Reuse.{alloc-free}
use rustygo.Pool.Race.{
  Treiber, Reach, start, next_step, pushed, popped, free as free_step, load_head, write_next, push,
  alloc as alloc_step, load, read_next, pop, pop_lost,
}
use rustygo.Pool.Race.Places.{StackRun}
use rustygo.Pool.Race.Linear.{Reach-StackRun}

-- Goroutine 0 puts the object 7; both ask for an object and read the same head; goroutine 1 wins.
contended : (s : Treiber) × Reach s × (s.log ≡ popped 7 ∷ pushed 7 ∷ [])
unfolding native.Mathlib.Decide.ℕ_discrete
contended =
    let r0 = next_step start (free_step 0 7 refl) in
    let r1 = next_step r0 (load_head 0 0 refl) in
    let r2 = next_step r1 (write_next 0 0 none refl) in
    let r3 = next_step r2 (push 0 0 none refl refl) in
    let r4 = next_step r3 (alloc_step 0 refl) in
    let r5 = next_step r4 (alloc_step 1 refl) in
    let r6 = next_step r5 (load 0 0 refl refl) in
    let r7 = next_step r6 (load 1 0 refl refl) in
    let r8 = next_step r7 (read_next 0 0 refl) in
    let r9 = next_step r8 (read_next 1 0 refl) in
    let r10 = next_step r9 (pop 1 0 none refl refl) in
    (_, next_step r10 (pop_lost 0 0 none refl (λ e. absurd cc)), refl)

Reach-StackRun_example : StackRun contended.0
Reach-StackRun_example = Reach-StackRun contended.0 contended.1

-- A `sync.Pool` that keeps one object at most.
abbrev one_place : SyncPool (Option ℕ)
one_place = record { get = λ s. (s, none); put = λ s o. some o }

abbrev new_fn : ℕ → List ℕ
new_fn o = 0 ∷ 0 ∷ []

-- Object 3 is in use.
abbrev pool : Option (ℕ → Bool) → Pool (Option ℕ)
pool t = record {
  stack = 1 ∷ [];
  sync_pool = none;
  backend = treiber;
  reset_fn = none;
  zero_on_free = true;
  poison_on_free = false;
  poison_pattern = 0;
  tracker = t;
  in_use = pos 1;
  total = pos 2;
  peak = pos 2;
  made = 2;
  memory = λ o. 8 ∷ 9 ∷ [];
}

abbrev in_debug : ℕ → Bool
in_debug o = o == 3

alloc-free_example :
    ((free one_place new_fn (pool none) (some 3)).0 ≡ ok tt)
    × ((alloc one_place new_fn (free one_place new_fn (pool none) (some 3)).1).0 ≡ 3)
    × ((alloc one_place new_fn (free one_place new_fn (pool none) (some 3)).1).1.stack ≡ 1 ∷ [])
    × ((alloc one_place new_fn (free one_place new_fn (pool none) (some 3)).1).1.memory 3
        ≡ 0 ∷ 0 ∷ [])
    × ((alloc one_place new_fn (free one_place new_fn (pool none) (some 3)).1).1.in_use ≡ pos 1)
alloc-free_example =
    alloc-free one_place new_fn 3 (pool none) (λ bs. bs) (inr (refl, λ bs. refl), λ bs. refl) refl
      refl (omega arith)
