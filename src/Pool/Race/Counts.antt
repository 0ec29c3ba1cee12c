-- ===== src/Pool/Race/Counts.antt =====
-- The lock-free stack hands out an object at most as often as it was put in.
use rustygo.Base.{ℕ, ◌+◌, ◌≤◌, ◌≡◌, refl, List, [], ◌∷◌, ◌==◌, if◌then◌else◌, arith}
use rustygo.Pool.Race.{Event, pushed, popped, missed, Treiber, Reach}
use rustygo.Pool.Race.Places.{Replay, vals}
use rustygo.Pool.Race.Linear.{Reach-StackRun}

abbrev pub pushes : ℕ → List Event → ℕ
pushes o [] = 0
pushes o (pushed x ∷ log) = (if x == o then 1 else 0) + pushes o log
pushes o (e ∷ log) = pushes o log

abbrev pub pops : ℕ → List Event → ℕ
pops o [] = 0
pops o (popped x ∷ log) = (if x == o then 1 else 0) + pops o log
pops o (e ∷ log) = pops o log

abbrev count : ℕ → List ℕ → ℕ
count o [] = 0
count o (x ∷ xs) = (if x == o then 1 else 0) + count o xs

Replay-counts :
    (o : ℕ) (log : List Event) (xs : List ℕ)
    → Replay log xs
    → pops o log + count o xs ≡ pushes o log
Replay-counts o [] xs e = rw e refl
Replay-counts o (pushed x ∷ log) xs (ys, e, r) = rw e (omega (arith, Replay-counts o log ys r))
Replay-counts o (popped x ∷ log) xs r = omega (arith, Replay-counts o log (x ∷ xs) r)
Replay-counts o (missed ∷ log) xs (e, r) = rw e (Replay-counts o log [] r)

-- However the loops of any number of goroutines interleave, no object was popped more often than it was pushed.
pub pops-le-pushes : (s : Treiber) (o : ℕ) → Reach s → pops o s.log ≤ pushes o s.log
pops-le-pushes s o r =
    let (ns, c, run) = Reach-StackRun s r in
    omega (arith, Replay-counts o s.log (vals s.nodes ns) run)
