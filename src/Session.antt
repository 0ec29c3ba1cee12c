-- ===== src/Session.antt =====
-- session.go: buffers of the Go heap that are kept for reuse. `sync.Pool` and the largest size of `make` are parameters.
pub mod Recycling
use rustygo.Base.{
  ℕ, ◌+◌, ◌-◌, Bool, true, false, not, Option, none, some, List, [], ◌∷◌, ◌++◌, if◌then◌else◌, ltb,
  leb, ℤ, pos, pos_part, is_positive, ltb_ℤ, u64, Result, ok, err, panic, borrow_size, make_slice,
  length, replicate, drop,
}
use rustygo.Memory.{Error}

-- A slice from the start of its memory: `len(mem)` is its capacity.
pub record Buf : Type 0 where
  pub mem : List ℕ
  pub len : ℕ

-- `sync.Pool` without `New`: `Get` hands out something that was put in, or nil.
pub record BufPool (S : Type 0) : Type 0 where
  pub get : S → Option Buf × S
  pub put : S → Buf → S
  pub new : S

pub record Session (S : Type 0) : Type 0 where
  pub pool : S
  pub max_retain : ℤ
  pub zero_on_release : Bool
  pub hits : ℕ
  pub misses : ℕ

pub record SessionStats : Type 0 where
  pub hits : ℕ
  pub misses : ℕ

abbrev pub SessionOption : Type 0 → Type 0
SessionOption S = Session S → Session S

module _ {S : Type 0} where
  unfoldable pub with_session_max_retain : ℤ → SessionOption S
  with_session_max_retain max s = if is_positive max then record s { max_retain = max } else s

  unfoldable pub with_session_zero_on_release : Bool → SessionOption S
  with_session_zero_on_release enabled s = record s { zero_on_release = enabled }

  unfoldable pub apply_options : List (Option (SessionOption S)) → Session S → Session S
  apply_options [] s = s
  apply_options (none ∷ opts) s = apply_options opts s
  apply_options (some opt ∷ opts) s = apply_options opts (opt s)

  unfoldable pub stats : Session S → SessionStats
  stats s = record { hits = s.hits; misses = s.misses }

-- `make([]byte, size)`, which panics above the largest size of a slice, `max_alloc`. Memory that runs out ends the
-- program, and is no outcome here.
abbrev pub made : ℕ → ℕ → Result Error Buf
made max_alloc size =
    if ltb max_alloc size
    then panic make_slice
    else ok (record { mem = replicate size 0; len = size })

-- The loop over `buf` stops at its length.
abbrev pub zeroed : Buf → Buf
zeroed b = record b { mem = replicate b.len 0 ++ drop b.len b.mem }

module _ {S : Type 0} (sp : BufPool S) where
  unfoldable pub new_session : List (Option (SessionOption S)) → Session S
  unfolding apply_options
  new_session opts = apply_options opts (record {
    pool = sp.new;
    max_retain = pos 65536;
    zero_on_release = true;
    hits = 0;
    misses = 0;
  })

  -- `none` is the nil buffer.
  unfoldable pub release : Session S → Option Buf → Session S
  release s none = s
  release s (some b) = if ltb_ℤ s.max_retain (pos (length b.mem)) then s else record s {
    pool = sp.put s.pool (record (if s.zero_on_release then zeroed b else b) { len = 0 });
  }

  unfoldable pub reset : Session S → Session S
  reset s = record s { pool = sp.new }

module _ {S : Type 0} (sp : BufPool S) (max_alloc : ℕ) where
  -- A buffer that is too small counts as a hit and as a miss.
  abbrev pub reused : ℕ → Session S → Option Buf × S → Result Error Buf × Session S
  reused size s (none, q) =
      (made max_alloc size, record s { pool = q; misses = u64 (s.misses + 1) })
  reused size s (some b, q) =
      if ltb (length b.mem) size
      then (
        made max_alloc size,
        record s { pool = q; hits = u64 (s.hits + 1); misses = u64 (s.misses + 1) },
      )
      else (ok (record b { len = size }), record s { pool = q; hits = u64 (s.hits + 1) })

  unfoldable pub borrow : Session S → ℤ → Result Error Buf × Session S
  borrow s size =
      if not (is_positive size)
      then (panic borrow_size, s)
      else reused (pos_part size) s (sp.get s.pool)

  -- `fn` answers with what it returns, and the buffer's memory after it.
  abbrev pub run_borrowed :
      {E : Type 0} → (Buf → E × List ℕ) → Result Error Buf × Session S → Result Error E × Session S
  unfolding release
  run_borrowed fn (ok b, s) =
      let (e, mem) = fn b in (ok e, release sp s (some (record b { mem = mem })))
  run_borrowed fn (err e, s) = (err e, s)
  run_borrowed fn (panic p, s) = (panic p, s)

  -- For a function that is not nil, does not panic and does not use the session.
  unfoldable pub with_borrow :
      {E : Type 0} → Session S → ℤ → (Buf → E × List ℕ) → Result Error E × Session S
  unfolding borrow
  with_borrow s size fn = run_borrowed fn (borrow s size)
