-- ===== src/Buffer.antt =====
-- buffer.go: `ArenaBuffer`, a growable byte buffer in a scope.
-- Memory comes from `AllocSlice[byte]` or from `make`: each operation takes the outcome of that call, by
-- the requested size, as an argument. What fresh memory holds is left open.
pub mod Appends
use rustygo.Base.{
  ℕ, zero, suc, ◌+◌, ◌-◌, ◌*◌, ◌%◌, ◌≤◌, ◌≡◌, Bool, true, false, not, ◌||◌, List, [], ◌∷◌, ℤ, pos,
  negsuc, pos_part, to_u64, is_positive, ltb, leb, ltb_ℤ, if◌then◌else◌, Result, ok, err, panic,
  ◌>>=◌, index_range, length, take, set,
}
use rustygo.Memory.{Error}

pub record ArenaBuffer : Type 0 where
  pub buf : List ℕ
  pub len : ℕ

-- The outcome of allocating that many bytes.
abbrev pub Source : Type 0
Source = ℕ → Result Error (List ℕ)

-- Go's documented `make`, and what `AllocSlice` promises: the length is the one asked for.
pub record IsSource (alloc : Source) : Type 0 where
  pub sized : (n : ℕ) (bs : List ℕ) → alloc n ≡ ok bs → length bs ≡ n

unfoldable pub new_arena_buffer : Source → ℤ → Result Error ArenaBuffer
new_arena_buffer alloc initial_cap = do
  b ← alloc (if is_positive initial_cap then pos_part initial_cap else 64)
  ok (record { buf = b; len = 0 })

-- `copy(buf[i:], src)`
unfoldable pub overwrite : ℕ → List ℕ → List ℕ → List ℕ
overwrite i [] src = []
overwrite zero (b ∷ bs) [] = b ∷ bs
overwrite zero (b ∷ bs) (x ∷ xs) = x ∷ overwrite zero bs xs
overwrite (suc i) (b ∷ bs) src = b ∷ overwrite i bs src

-- The capacity that `grow` asks for.
unfoldable pub new_cap : ArenaBuffer → ℕ → ℕ
new_cap b required = if ltb (length b.buf * 2) required then required + 64 else length b.buf * 2

unfoldable pub grow : Source → ArenaBuffer → ℕ → Result Error ArenaBuffer
unfolding overwrite
grow alloc b extra =
    let required = b.len + extra in
    if leb required (length b.buf)
    then ok b
    else alloc (new_cap b required) >>= λ fresh.
        ok (record b { buf = overwrite 0 fresh (take b.len b.buf) })

abbrev pub put : ArenaBuffer → List ℕ → ArenaBuffer
put b p = record { buf = overwrite b.len b.buf p; len = b.len + length p }

unfoldable pub write : Source → ArenaBuffer → List ℕ → Result Error ArenaBuffer
write alloc b p = grow alloc b (length p) >>= λ b'. ok (put b' p)

-- A string is its bytes.
unfoldable pub write_string : Source → ArenaBuffer → List ℕ → Result Error ArenaBuffer
write_string alloc b s = grow alloc b (length s) >>= λ b'. ok (put b' s)

abbrev pub put_byte : ℕ → ArenaBuffer → Result Error ArenaBuffer
put_byte c b =
    if ltb b.len (length b.buf)
    then ok (record { buf = set b.buf b.len c; len = b.len + 1 })
    else panic index_range

unfoldable pub write_byte : Source → ArenaBuffer → ℕ → Result Error ArenaBuffer
write_byte alloc b c = grow alloc b 1 >>= put_byte c

-- `encode_rune` is `utf8.EncodeRune`, as the bytes that it writes. Every negative rune is below `RuneSelf`.
unfoldable pub write_rune : (ℤ → List ℕ) → Source → ArenaBuffer → ℤ → Result Error ArenaBuffer
write_rune encode_rune alloc b r =
    if ltb_ℤ r (pos 0x80)
    then write_byte alloc b (to_u64 r % 256)
    else grow alloc b 4 >>= λ b'. ok (put b' (encode_rune r))

-- `format` is `strconv.AppendInt` or `strconv.AppendUint` in base 10.
unfoldable pub write_number :
    {N : Type 0} → (N → List ℕ) → Source → ArenaBuffer → N → Result Error ArenaBuffer
write_number format alloc b v = write alloc b (format v)

unfoldable pub bytes : ArenaBuffer → List ℕ
bytes b = take b.len b.buf

unfoldable pub cap : ArenaBuffer → ℕ
cap b = length b.buf

unfoldable pub reset : ArenaBuffer → ArenaBuffer
reset b = record b { len = 0 }

unfoldable pub truncate : ArenaBuffer → ℤ → ArenaBuffer
truncate b n = if ltb_ℤ n (pos 0) || ltb_ℤ (pos b.len) n then b else record b { len = pos_part n }
