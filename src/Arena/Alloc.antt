-- ===== src/Arena/Alloc.antt =====
-- The allocation calls of `Arena`, in arena.go: the active chunk, the chunks behind it, a new chunk.
-- Each is one critical section; the system calls are a parameter.
use rustygo.Base.{
  ℕ, suc, ◌+◌, ◌-◌, ◌*◌, not, ◌&&◌, ◌||◌, Option, none, some, List, [], ◌∷◌, ◌++◌, ℤ, pos, pos_part,
  is_positive, ltb_ℤ, ltb, leb, if◌then◌else◌, Result, ok, err, panic, or_panic, or_err, length,
  get_elem?, set, drop,
}
use rustygo.Memory.{
  Os, Chunk, Error, new_chunk, invalid_alloc_size, arena_out_of_memory, invalid_alignment,
}
use rustygo.Chunk.{
  Span, is_power_of_two, try_alloc as chunk_alloc, try_alloc_aligned as chunk_alloc_aligned,
}
use rustygo.Arena.State.{Arena, Slice}
use rustygo.Arena.State.{slice_of}

-- An attempt to allocate from one chunk.
abbrev pub Attempt : Type 0
Attempt = Chunk → Option (Span × Chunk)

-- `if align > 1 { tryAllocAligned } else { tryAlloc }`
unfoldable pub try_chunk : ℤ → ℤ → Attempt
try_chunk n align c = if ltb_ℤ (pos 1) align then chunk_alloc_aligned c n align else chunk_alloc c n

-- The slice, and the arena with the chunk's new offset and that chunk active.
abbrev pub take_from : Arena → ℕ → Option (Span × Chunk) → Option (Slice × Arena)
take_from a i none = none
take_from a i (some (s, c)) =
    some (slice_of i s, record a { chunks = set a.chunks i c; active = some i })

abbrev pub try_at : Attempt → Arena → ℕ → Option Chunk → Option (Slice × Arena)
try_at f a i none = none
try_at f a i (some c) = take_from a i (f c)

abbrev pub try_index : Attempt → Arena → Option ℕ → Option (Slice × Arena)
try_index f a none = none
try_index f a (some i) = try_at f a i (get_elem? a.chunks i)

-- An attempt on the active chunk; a nil pointer makes none.
unfoldable pub try_active : Attempt → Arena → Option (Slice × Arena)
try_active f a = try_index f a a.active

abbrev pub or_next : Option (Slice × Arena) → Option (Slice × Arena) → Option (Slice × Arena)
or_next none next = next
or_next (some r) next = some r

-- The chunks from index `j` on, in order, until an attempt succeeds.
unfoldable pub try_chunks : Attempt → Arena → ℕ → List Chunk → Option (Slice × Arena)
try_chunks f a j [] = none
try_chunks f a j (c ∷ cs) = or_next (take_from a j (f c)) (try_chunks f a (suc j) cs)

abbrev pub try_behind : Attempt → Arena → Option ℕ → Option (Slice × Arena)
try_behind f a none = none
try_behind f a (some i) = try_chunks f a (suc i) (drop (suc i) a.chunks)

-- The chunks behind the active one.
unfoldable pub try_later : Attempt → Arena → Option (Slice × Arena)
try_later f a = try_behind f a a.active

unfoldable pub capacity_of : List Chunk → ℕ
capacity_of [] = 0
capacity_of (c ∷ cs) = c.size + capacity_of cs

abbrev max_chunk_size : ℕ
max_chunk_size = 16 * 1024 * 1024

-- The size before the limit of `maxCap`: doubling up to 16 MiB at a time, and room for the request.
unfoldable pub wanted_size : Arena → ℕ → ℕ → ℕ
wanted_size a cur_cap n =
    let next_cap = if ltb max_chunk_size cur_cap then max_chunk_size else cur_cap in
    let grown =
      if a.geometric_growth && ltb 0 cur_cap
      then if ltb a.chunk_size next_cap then next_cap else a.chunk_size
      else a.chunk_size in
    if ltb grown n then n else grown

-- The size of the next chunk; `none` where the limit leaves no room.
unfoldable pub next_size : Arena → ℕ → Option ℕ
unfolding wanted_size capacity_of
next_size a n =
    let cur_cap = capacity_of a.chunks in
    let new_size = wanted_size a cur_cap n in
    if ltb 0 a.max_cap
    then if leb a.max_cap cur_cap
      then none
      else if ltb a.max_cap (cur_cap + new_size)
      then if ltb (a.max_cap - cur_cap) n then none else some (a.max_cap - cur_cap)
      else some new_size
    else some new_size

abbrev pub Answer : Type 0
Answer = Option Slice × Arena

-- An attempt that failed leaves the arena given.
abbrev pub answer : Arena → Option (Slice × Arena) → Answer
answer a none = (none, a)
answer a (some (s, a')) = (some s, a')

abbrev pub with_chunk : Arena → Chunk → Arena
with_chunk a c = record a { chunks = a.chunks ++ (c ∷ []); active = some (length a.chunks) }

abbrev pub use_chunk : Attempt → Arena → Result Error Chunk → Answer
use_chunk f a (ok c) = answer (with_chunk a c) (take_from (with_chunk a c) (length a.chunks) (f c))
use_chunk f a (err e) = (none, a)
use_chunk f a (panic p) = (none, a)

abbrev pub grow_by : Attempt → Os → Arena → Option ℕ → Answer
grow_by f os a none = (none, a)
grow_by f os a (some size) = use_chunk f a (new_chunk os size a.guard_pages)

-- The end of `allocSlow`: a new chunk, kept also where the attempt on it fails.
unfoldable pub grow : Attempt → Os → Arena → ℤ → Answer
grow f os a n = grow_by f os a (next_size a (pos_part n))

abbrev pub or_else : Option (Slice × Arena) → Answer → Answer
or_else none rest = rest
or_else (some (s, a')) rest = (some s, a')

unfoldable pub alloc_slow : Os → Arena → ℤ → ℤ → Answer
alloc_slow os a n align =
    or_else (try_active (try_chunk n align) a)
      (or_else (try_later (try_chunk n align) a) (grow (try_chunk n align) os a n))

-- `TryAlloc`: an attempt without the lock first.
unfoldable pub try_alloc : Os → Arena → ℤ → Answer
try_alloc os a n =
    if not (is_positive n)
    then (none, a)
    else or_else (try_active (λ c. chunk_alloc c n) a) (alloc_slow os a n (pos 1))

unfoldable pub try_alloc_aligned : Os → Arena → ℤ → ℤ → Answer
try_alloc_aligned os a n align =
    if not (is_positive n) || not (is_power_of_two align)
    then (none, a)
    else or_else (try_active (λ c. chunk_alloc_aligned c n align) a) (alloc_slow os a n align)

abbrev pub Checked : Type 0
Checked = Result Error Slice × Arena

abbrev pub or_memory_error : Answer → Checked
or_memory_error (r, a) = (or_err r arena_out_of_memory, a)

unfoldable pub alloc_or_err : Os → Arena → ℤ → Checked
alloc_or_err os a n =
    if not (is_positive n) then (err invalid_alloc_size, a) else or_memory_error (try_alloc os a n)

unfoldable pub alloc_aligned_or_err : Os → Arena → ℤ → ℤ → Checked
alloc_aligned_or_err os a n align =
    if not (is_positive n)
    then (err invalid_alloc_size, a)
    else if not (is_power_of_two align)
    then (err invalid_alignment, a)
    else or_memory_error (try_alloc_aligned os a n align)

abbrev pub raise : Checked → Checked
raise (r, a) = (or_panic r, a)

unfoldable pub alloc : Os → Arena → ℤ → Checked
alloc os a n = raise (alloc_or_err os a n)

unfoldable pub alloc_aligned : Os → Arena → ℤ → ℤ → Checked
alloc_aligned os a n align = raise (alloc_aligned_or_err os a n align)
