-- ===== src/Memory.antt =====
-- arena_unix.go: pages from the operating system, and `newChunk` of arena.go, which wraps them.
-- The system calls are a parameter.
pub mod Mapping
use rustygo.Base.{
  ℕ, ◌+◌, ◌-◌, ◌%◌, ◌^◌, ◌<◌, ◌≡◌, Bool, Option, some, Result, ok, err, panic, ◌>>=◌, if◌then◌else◌,
  bit_and, not64,
}

-- The sentinel errors of arena.go and checkpoint.go, and the numbers of failed system calls.
pub data Error : Type 0 where
  invalid_alloc_size arena_out_of_memory invalid_alignment invalid_arena_mark : Error
  rewind_forward scope_is_inactive invalid_savepoint : Error
  errno : ℕ → Error

-- The calls of package syscall: `mmap` of an anonymous private region answers with its address.
pub record Os : Type 0 where
  pub page_size : ℕ
  pub mmap : ℕ → Result Error ℕ
  pub mprotect : ℕ → ℕ → Result Error (Unit {0})
  pub munmap : ℕ → ℕ → Result Error (Unit {0})

-- What mmap documents: a region that it returns starts on a page, and ends within the address space.
pub record IsOs (os : Os) : Type 0 where
  pub pages : os.page_size ≡ 4096
  pub page_start : (n base : ℕ) → os.mmap n ≡ ok base → base % 4096 ≡ 0
  pub in_space : (n base : ℕ) → os.mmap n ≡ ok base → base + n < 2 ^ 64

-- A contiguous buffer: `size` is `len(buf)`, and `release` the bytes that its release function unmaps.
pub record Chunk : Type 0 where
  pub size : ℕ
  pub base : ℕ
  pub off : ℕ
  pub release : Option ℕ

-- `buf`, its base address and the length that its release function passes to munmap.
pub alloc_arena_buffer : Os → ℕ → Result Error (ℕ × ℕ × ℕ)
alloc_arena_buffer os size = do base ← os.mmap size; ok (size, base, size)

-- `(size + pageSize - 1) & ^(pageSize - 1)`
abbrev pub round_to_page : ℕ → ℕ → ℕ
round_to_page page size = bit_and (size + page - 1) (not64 (page - 1))

abbrev protect_tail : Os → ℕ → ℕ → ℕ → ℕ → Result Error (Unit {0}) → Result Error (ℕ × ℕ × ℕ)
protect_tail os size base aligned total (ok _) = ok (size, base, total)
protect_tail os size base aligned total (err e) = err e
protect_tail os size base aligned total (panic p) = panic p

-- One more page than the data needs; it is protected. If that fails the code unmaps the region and drops the result,
-- which shows nowhere: the system keeps no state here.
pub alloc_arena_buffer_with_guard : Os → ℕ → Result Error (ℕ × ℕ × ℕ)
alloc_arena_buffer_with_guard os size =
    let aligned = round_to_page os.page_size size in
    let total = aligned + os.page_size in
    os.mmap total >>= λ base.
    protect_tail os size base aligned total (os.mprotect (base + aligned) os.page_size)

abbrev to_chunk : ℕ × ℕ × ℕ → Chunk
to_chunk (size, base, release) = record {
  size = size;
  base = base;
  off = 0;
  release = some release;
}

-- `newChunk`; mmap refuses the length 0, so `&buf[0]` is in range.
unfoldable pub new_chunk : Os → ℕ → Bool → Result Error Chunk
unfolding alloc_arena_buffer alloc_arena_buffer_with_guard
new_chunk os size guard_pages = do
  b ← if guard_pages then alloc_arena_buffer_with_guard os size else alloc_arena_buffer os size
  ok (to_chunk b)
