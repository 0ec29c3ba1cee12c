-- ===== src/Arena/Invariant.antt =====
-- The invariant of an arena, and what an allocation does to it.
use rustygo.Base.{ℕ, ◌+◌, ◌%◌, ◌^◌, ◌≤◌, ◌<◌, ◌≡◌, Option, none, some, List, [], length, ◌≢◌}
use rustygo.Memory.{Chunk}
use rustygo.Chunk.Fits.{IsMapped}
use rustygo.Arena.State.{Arena, Slice}
use rustygo.Arena.Offsets.{All, offset_at, size_at, base_at}

-- Some chunk is active unless there is none, and no byte is in use behind the active one.
abbrev pub ActiveOk : Option ℕ → List Chunk → Type 0
ActiveOk none cs = cs ≡ []
ActiveOk (some i) cs = (i < length cs) × ((j : ℕ) → i < j → offset_at cs j ≡ 0)

pub record IsValid (a : Arena) : Type 0 where
  pub mapped : All IsMapped a.chunks
  pub active_ok : ActiveOk a.active a.chunks
  pub int_size : a.chunk_size < 2 ^ 63

-- The chunks that were there are the same memory, and the index of the active one does not fall; the
-- arena is closed or not as before, and has the same limit.
pub record Extends (a b : Arena) : Type 0 where
  pub valid : IsValid b
  pub longer : length a.chunks ≤ length b.chunks
  pub sizes : (j : ℕ) → j < length a.chunks → size_at b.chunks j ≡ size_at a.chunks j
  pub bases : (j : ℕ) → j < length a.chunks → base_at b.chunks j ≡ base_at a.chunks j
  pub onward : (i k : ℕ) → a.active ≡ some i → b.active ≡ some k → i ≤ k
  pub same_closed : b.closed ≡ a.closed
  pub same_limit : b.max_cap ≡ a.max_cap

-- `n` bytes at a multiple of `align`, above all that was in use of the chunk; other offsets stay.
pub record Grants (n align : ℕ) (a : Arena) (s : Slice) (b : Arena) : Type 0 where
  pub extends : Extends a b
  pub sized : s.hi ≡ s.lo + n
  pub above : offset_at a.chunks s.chunk ≤ s.lo
  pub within : s.hi ≤ size_at b.chunks s.chunk
  pub aligned : (base_at b.chunks s.chunk + s.lo) % align ≡ 0
  pub taken : offset_at b.chunks s.chunk ≡ s.hi
  pub others : (j : ℕ) → j ≢ s.chunk → offset_at b.chunks j ≡ offset_at a.chunks j
  pub now_active : b.active ≡ some s.chunk
  pub not_before : (i : ℕ) → a.active ≡ some i → i ≤ s.chunk
