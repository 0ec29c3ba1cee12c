-- ===== src/Chunk/Race.antt =====
-- Goroutines that allocate from one chunk at once: the rounds of the compare-and-swap loops of `tryAlloc` and
-- `tryAllocAligned`, interleaved in any order.
pub mod Linear
pub mod Apart
use rustygo.Base.{ℕ, ◌≡◌, ◌≢◌, Option, none, some, List, [], ◌∷◌, ℤ, IsInt}
use native.Mathlib.Decide.{ℕ_discrete}
use rustygo.Memory.{Chunk}
use rustygo.Chunk.{Span, try_alloc, try_alloc_aligned}

pub data Call : Type 0 where
  plain : ℤ → Call
  aligned : ℤ → ℤ → Call

abbrev pub IsIntCall : Call → Type 0
IsIntCall (plain n) = IsInt n
IsIntCall (aligned n align) = IsInt n × IsInt align

-- One round that is not disturbed.
unfoldable pub attempt : Chunk → Call → Option (Span × Chunk)
attempt c (plain n) = try_alloc c n
attempt c (aligned n align) = try_alloc_aligned c n align

-- Where a goroutine is: outside, before the load of the offset, or behind it with the offset that it read.
pub data Pc : Type 0 where
  idle : Pc
  entered : Call → Pc
  loaded : Call → ℕ → Pc

-- The chunk, the goroutines, and the results of the calls that have returned, the newest first.
pub record Race : Type 0 where
  pub chunk : Chunk
  pub pc : ℕ → Pc
  pub results : List (Call × Option Span)

abbrev pub update : (ℕ → Pc) → ℕ → Pc → ℕ → Pc
update pc i p j = elim (ℕ_discrete i j) [ yes _ ↦ p | no _ ↦ pc j ]

-- One atomic action of the goroutine `i`. `fail` and `win` end a round as the tests on the offset that was
-- read say; the compare-and-swap wins where the offset is still the one read, and a loss starts over.
pub data Step (s : Race) : Race → Type 0 where
  enter :
      (i : ℕ) (r : Call)
      → s.pc i ≡ idle
      → IsIntCall r
      → Step s (record s { pc = update s.pc i (entered r) })
  load :
      (i : ℕ) (r : Call)
      → s.pc i ≡ entered r
      → Step s (record s { pc = update s.pc i (loaded r s.chunk.off) })
  fail :
      (i : ℕ) (r : Call) (off : ℕ)
      → s.pc i ≡ loaded r off
      → attempt (record s.chunk { off = off }) r ≡ none
      → Step s (record s { pc = update s.pc i idle; results = (r, none) ∷ s.results })
  win :
      (i : ℕ) (r : Call) (off : ℕ) (b : Span) (c : Chunk)
      → s.pc i ≡ loaded r off
      → attempt (record s.chunk { off = off }) r ≡ some (b, c)
      → s.chunk.off ≡ off
      → Step s (record { chunk = c; pc = update s.pc i idle; results = (r, some b) ∷ s.results })
  lose :
      (i : ℕ) (r : Call) (off : ℕ)
      → s.pc i ≡ loaded r off
      → s.chunk.off ≢ off
      → Step s (record s { pc = update s.pc i (entered r) })

-- The runs from a chunk that no goroutine uses yet.
pub data Reach (c : Chunk) : Race → Type 0 where
  start : Reach c (record { chunk = c; pc = λ _. idle; results = [] })
  next : {s t : Race} → Reach c s → Step s t → Reach c t
