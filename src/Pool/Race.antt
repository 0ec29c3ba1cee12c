-- ===== src/Pool/Race.antt =====
-- The lock-free stack of pool.go under concurrent use: the compare-and-swap loops of `allocTreiber` and `Free`,
-- interleaved in any order. A node is an address; no address is used again, since the collector keeps a node
-- while a goroutine holds it. An object is a number.
pub mod Places
pub mod Linear
pub mod Counts
use rustygo.Base.{ℕ, suc, ◌≡◌, ◌≢◌, Option, none, some, List, [], ◌∷◌}
use native.Mathlib.Decide.{ℕ_discrete}

pub record Node : Type 0 where
  pub val : ℕ
  pub next : Option ℕ

-- Where a goroutine is: outside; in `allocTreiber` before the load of the head, behind it with the node that it
-- read, behind the read of `h.next`, or on the way to `newFn`; in `Free` with its new node, with the head that
-- it read, and behind the write of `n.next`.
pub data Pc : Type 0 where
  idle allocating making : Pc
  loaded : ℕ → Pc
  ready : ℕ → Option ℕ → Pc
  freeing : ℕ → Pc
  saw linked : ℕ → Option ℕ → Pc

-- What took effect: an object was pushed or popped, or the stack was found empty.
pub data Event : Type 0 where
  pushed popped : ℕ → Event
  missed : Event

-- `fresh` is the next address. `log` has the events, the newest first.
pub record Treiber : Type 0 where
  pub head : Option ℕ
  pub nodes : ℕ → Node
  pub fresh : ℕ
  pub pc : ℕ → Pc
  pub log : List Event

abbrev pub update {ℓ} : {A : Type ℓ} → (ℕ → A) → ℕ → A → ℕ → A
update f i a j = elim (ℕ_discrete i j) [ yes _ ↦ a | no _ ↦ f j ]

abbrev pub goes : Treiber → ℕ → Pc → Treiber
goes s i p = record s { pc = update s.pc i p }

-- One atomic action of the goroutine `i`.
pub data Step (s : Treiber) : Treiber → Type 0 where
  alloc : (i : ℕ) → s.pc i ≡ idle → Step s (goes s i allocating)
  load_nil :
      (i : ℕ)
      → s.pc i ≡ allocating
      → s.head ≡ none
      → Step s (record s { pc = update s.pc i making; log = missed ∷ s.log })
  new_fn : (i : ℕ) → s.pc i ≡ making → Step s (goes s i idle)
  load : (i h : ℕ) → s.pc i ≡ allocating → s.head ≡ some h → Step s (goes s i (loaded h))
  read_next : (i h : ℕ) → s.pc i ≡ loaded h → Step s (goes s i (ready h (s.nodes h).next))
  pop :
      (i h : ℕ) (n : Option ℕ)
      → s.pc i ≡ ready h n
      → s.head ≡ some h
      → Step s
          (record s { head = n; pc = update s.pc i idle; log = popped (s.nodes h).val ∷ s.log })
  pop_lost :
      (i h : ℕ) (n : Option ℕ) → s.pc i ≡ ready h n → s.head ≢ some h → Step s (goes s i allocating)
  free :
      (i obj : ℕ)
      → s.pc i ≡ idle
      → Step s (record s {
        nodes = update s.nodes s.fresh (record { val = obj; next = none });
        fresh = suc s.fresh;
        pc = update s.pc i (freeing s.fresh);
      })
  load_head : (i n : ℕ) → s.pc i ≡ freeing n → Step s (goes s i (saw n s.head))
  write_next :
      (i n : ℕ) (h : Option ℕ)
      → s.pc i ≡ saw n h
      → Step s (record s {
        nodes = update s.nodes n (record { val = (s.nodes n).val; next = h });
        pc = update s.pc i (linked n h);
      })
  push :
      (i n : ℕ) (h : Option ℕ)
      → s.pc i ≡ linked n h
      → s.head ≡ h
      → Step s (record s {
        head = some n;
        pc = update s.pc i idle;
        log = pushed (s.nodes n).val ∷ s.log;
      })
  push_lost :
      (i n : ℕ) (h : Option ℕ) → s.pc i ≡ linked n h → s.head ≢ h → Step s (goes s i (freeing n))

abbrev blank : ℕ → Node
blank n = record { val = 0; next = none }

abbrev pub new_treiber : Treiber
new_treiber = record { head = none; nodes = blank; fresh = 0; pc = λ _. idle; log = [] }

pub data Reach : Treiber → Type 0 where
  start : Reach new_treiber
  next_step : {s t : Treiber} → Reach s → Step s t → Reach t
