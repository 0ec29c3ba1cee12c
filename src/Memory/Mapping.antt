-- ===== src/Memory/Mapping.antt =====
-- What `newChunk` hands out, with and without a guard page.
use rustygo.Base.{
  ℕ, ◌+◌, ◌-◌, ◌*◌, ◌/◌, ◌%◌, ◌^◌, ◌≤◌, ◌<◌, ◌≡◌, Bool, true, false, arith, Result, ok, err, panic,
  not64, bit_and, bind-eq-ok,
}
use rustygo.Memory.{
  Os, IsOs, Chunk, Error, alloc_arena_buffer, alloc_arena_buffer_with_guard, new_chunk,
  round_to_page, protect_tail,
}
use rustygo.Chunk.Fits.{IsMapped}
use rustygo.Chunk.Align.{clear_low}

-- `(size + 4095) & ^4095` is the least number of whole pages.
pub round_to_page_lem :
    (n : ℕ) → n < 2 ^ 63 → (n ≤ round_to_page 4096 n) × (round_to_page 4096 n < n + 4096)
round_to_page_lem n h =
    let e : bit_and (n + 4096 - 1) (not64 (2 ^ 12 - 1)) ≡ (n + 4096 - 1) / 2 ^ 12 * 2 ^ 12 =
      clear_low 12 (n + 4096 - 1) (omega arith) (omega arith) in
    rw e (omega arith)

-- A fresh chunk of the requested size, on a page boundary.
pub record IsFresh (size : ℕ) (c : Chunk) : Type 0 where
  pub mapped : IsMapped c
  pub sized : c.size ≡ size
  pub unused : c.off ≡ 0
  pub page_start : c.base % 4096 ≡ 0

-- A buffer of the requested length, on a page boundary and within the address space.
abbrev Placed : ℕ → ℕ × ℕ × ℕ → Type 0
Placed n (size, base, release) = (size ≡ n) × (base % 4096 ≡ 0) × (base + size < 2 ^ 64)

module _ (os : Os) (v : IsOs os) (n : ℕ) (h : n < 2 ^ 63) where
  plain-Placed : (b : ℕ × ℕ × ℕ) → alloc_arena_buffer os n ≡ ok b → Placed n b
  unfolding alloc_arena_buffer
  plain-Placed b e =
      let (base, mapped, q) = bind-eq-ok (os.mmap n) _ b e in
      ground (arith, v.page_start n base mapped, v.in_space n base mapped)

  protect_tail-ok :
      (base aligned total : ℕ) (r : Result Error (Unit {0})) (b : ℕ × ℕ × ℕ)
      → protect_tail os n base aligned total r ≡ ok b
      → (b.0 ≡ n) × (b.1 ≡ base)
  protect_tail-ok base aligned total (ok _) b e = ground arith
  protect_tail-ok base aligned total (err _) b e = cc
  protect_tail-ok base aligned total (panic _) b e = cc

  guarded-Placed : (b : ℕ × ℕ × ℕ) → alloc_arena_buffer_with_guard os n ≡ ok b → Placed n b
  unfolding alloc_arena_buffer_with_guard
  guarded-Placed b e =
      let total = round_to_page os.page_size n + os.page_size in
      let (base, mapped, q) = bind-eq-ok (os.mmap total) _ b e in
      let (sized, based) = protect_tail-ok base (round_to_page os.page_size n) total _ b q in
      let room : n ≤ total = rw v.pages (omega (arith, round_to_page_lem n h)) in
      (
        sized,
        rw based (v.page_start total base mapped),
        omega (arith, v.in_space total base mapped),
      )

  -- A chunk that `newChunk` returns, for a size that is an int and with or without a guard page, over a system that
  -- keeps its promises: it has the requested size, nothing of it is in use, and it starts on a page and ends
  -- within the address space.
  pub new_chunk-IsFresh : (guard : Bool) (c : Chunk) → new_chunk os n guard ≡ ok c → IsFresh n c
  unfolding new_chunk
  new_chunk-IsFresh false c e =
      let (b, made, q) = bind-eq-ok (alloc_arena_buffer os n) _ c e in
      ground (arith, plain-Placed b made)
  new_chunk-IsFresh true c e =
      let (b, made, q) = bind-eq-ok (alloc_arena_buffer_with_guard os n) _ c e in
      ground (arith, guarded-Placed b made)
