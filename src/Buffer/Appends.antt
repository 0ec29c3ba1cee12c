-- ===== src/Buffer/Appends.antt =====
-- `ArenaBuffer` as a list of bytes that the writing methods append to.
use rustygo.Base.{
  ℕ, zero, pos, length-take, suc, ◌+◌, ◌≤◌, ◌<◌, ◌≡◌, ◌≢◌, refl, ap, ◌∙◌, ◌⊎◌, inl, inr, List, [],
  ◌∷◌, ◌++◌, arith, length, take, set, Result, ok, err, panic, ◌>>=◌,
}
use native.Mathlib.Decide.{dec_le}
use rustygo.Memory.{Error}
use rustygo.Buffer.{
  ArenaBuffer, Source, IsSource, overwrite, new_cap, grow, put, write, write_byte, put_byte,
  truncate, bytes,
}

length-overwrite : (i : ℕ) (bs src : List ℕ) → length (overwrite i bs src) ≡ length bs
unfolding overwrite
length-overwrite zero [] src = refl
length-overwrite (suc i) [] src = refl
length-overwrite zero (b ∷ bs) [] = refl
length-overwrite zero (b ∷ bs) (x ∷ xs) = ap suc (length-overwrite zero bs xs)
length-overwrite (suc i) (b ∷ bs) src = ap suc (length-overwrite i bs src)

take-overwrite :
    (m i : ℕ) (bs src : List ℕ)
    → m ≡ i + length src
    → m ≤ length bs
    → take m (overwrite i bs src) ≡ take i bs ++ src
unfolding overwrite
take-overwrite zero zero bs [] e h = refl
take-overwrite zero zero bs (x ∷ xs) e h = absurd (omega arith)
take-overwrite zero (suc i) bs src e h = absurd (omega arith)
take-overwrite (suc m) i [] src e h = absurd (omega arith)
take-overwrite (suc m) zero (b ∷ bs) [] e h = absurd (omega arith)
take-overwrite (suc m) zero (b ∷ bs) (x ∷ xs) e h =
    ap (λ (ys : List ℕ). x ∷ ys) (take-overwrite m zero bs xs (omega arith) (omega arith))
take-overwrite (suc m) (suc i) (b ∷ bs) src e h =
    ap (λ (ys : List ℕ). b ∷ ys) (take-overwrite m i bs src (omega arith) (omega arith))

set-overwrite : (i : ℕ) (bs : List ℕ) (c : ℕ) → set bs i c ≡ overwrite i bs (c ∷ [])
unfolding overwrite
set-overwrite zero [] c = refl
set-overwrite (suc i) [] c = refl
set-overwrite zero (b ∷ []) c = refl
set-overwrite zero (b ∷ d ∷ bs) c = refl
set-overwrite (suc i) (b ∷ bs) c = ap (λ (ys : List ℕ). b ∷ ys) (set-overwrite i bs c)

-- The written bytes lie in the backing slice.
abbrev pub IsBuffer : ArenaBuffer → Type 0
IsBuffer b = b.len ≤ length b.buf

-- Room for `n` more bytes; or a failure, and then the backing slice was too short and no memory was given.
abbrev Grows : Source → ArenaBuffer → ℕ → Result Error ArenaBuffer → Type 0
Grows alloc b n r =
    ((b' : ArenaBuffer) × (r ≡ ok b')
      × (b'.len ≡ b.len)
      × (b.len + n ≤ length b'.buf)
      × (take b.len b'.buf ≡ take b.len b.buf))
    ⊎ ((length b.buf < b.len + n)
        × ((b' : ArenaBuffer) → r ≢ ok b')
        × ((bs : List ℕ) → alloc (new_cap b (b.len + n)) ≢ ok bs))

new_cap_room : (b : ArenaBuffer) (n : ℕ) → n ≤ new_cap b n
unfolding new_cap
new_cap_room b n = ground arith

module _ (alloc : Source) (b : ArenaBuffer) (n : ℕ) (w : IsSource alloc) (v : IsBuffer b) where
  grow_short :
      length b.buf < b.len + n
      → grow alloc b n ≡ (
          alloc (new_cap b (b.len + n)) >>= λ fresh.
          ok (record b { buf = overwrite 0 fresh (take b.len b.buf) }))
  unfolding grow
  grow_short h = ground arith

  grown :
      length b.buf < b.len + n
      → (r : Result Error (List ℕ)) → alloc (new_cap b (b.len + n)) ≡ r
      → Grows alloc b n
          (r >>= λ fresh. ok (record b { buf = overwrite 0 fresh (take b.len b.buf) }))
  grown h (ok fresh) e =
      let room : b.len + n ≤ length fresh =
        omega (arith, w.sized _ fresh e, new_cap_room b (b.len + n)) in
      let kept : length (take b.len b.buf) ≡ b.len = omega (arith, length-take b.len b.buf) in
      inl (
        record b { buf = overwrite 0 fresh (take b.len b.buf) },
        refl,
        refl,
        omega (arith, length-overwrite 0 fresh (take b.len b.buf)),
        take-overwrite b.len 0 fresh (take b.len b.buf) (omega arith) (omega arith),
      )
  grown h (err x) e = inr (h, (λ b' q. cc), λ bs q. cc)
  grown h (panic x) e = inr (h, (λ b' q. cc), λ bs q. cc)

  grow-Grows : Grows alloc b n (grow alloc b n)
  unfolding grow
  grow-Grows = elim (dec_le (b.len + n) (length b.buf)) [
    | yes h ↦ inl (b, ground arith, refl, h, refl)
    | no h ↦ rw (grow_short (omega arith)) (grown (omega arith) _ refl)
  ]

-- The buffer with `p` appended; or a failure, and then the backing slice was too short and no memory was given.
abbrev pub Appends : Source → ArenaBuffer → List ℕ → Result Error ArenaBuffer → Type 0
Appends alloc b p r =
    ((b' : ArenaBuffer) × (r ≡ ok b') × IsBuffer b' × (bytes b' ≡ bytes b ++ p))
    ⊎ ((length b.buf < b.len + length p)
        × ((b' : ArenaBuffer) → r ≢ ok b')
        × ((bs : List ℕ) → alloc (new_cap b (b.len + length p)) ≢ ok bs))

put-bytes :
    (b b' : ArenaBuffer) (p : List ℕ)
    → b'.len ≡ b.len
    → b.len + length p ≤ length b'.buf
    → take b.len b'.buf ≡ take b.len b.buf
    → IsBuffer (put b' p) × (bytes (put b' p) ≡ bytes b ++ p)
unfolding bytes
put-bytes b b' p e room same = (
  omega (arith, length-overwrite b'.len b'.buf p),
  take-overwrite (b'.len + length p) b'.len b'.buf p refl (omega arith)
      ∙ ap (λ n. take n b'.buf ++ p) e
      ∙ ap (λ bs. bs ++ p) same,
)

-- `Write` on a well-formed buffer, over a source of memory that keeps its promise: the accumulated bytes
-- are the old ones followed by `p`, all of them; or it fails, and then the backing slice was too short and the
-- source gave no memory.
pub write-Appends :
    (alloc : Source) (b : ArenaBuffer) (p : List ℕ)
    → IsSource alloc
    → IsBuffer b
    → Appends alloc b p (write alloc b p)
unfolding write
write-Appends alloc b p w v = go (grow alloc b (length p)) (grow-Grows alloc b (length p) w v)
  where
    go :
        (r : Result Error ArenaBuffer)
        → Grows alloc b (length p) r
        → Appends alloc b p (r >>= λ b'. ok (put b' p))
    go r (inl (b', e, l, room, same)) =
        let (fits, written) = put-bytes b b' p l room same in
        rw e (inl (put b' p, refl, fits, written))
    go (ok b') (inr (short, fails, starved)) = absurd (fails b' refl)
    go (err x) (inr (short, fails, starved)) = inr (short, (λ b' q. cc), starved)
    go (panic x) (inr (short, fails, starved)) = inr (short, (λ b' q. cc), starved)

set-put : (b : ArenaBuffer) (c : ℕ) → b.len < length b.buf → put_byte c b ≡ ok (put b (c ∷ []))
set-put b c h = rw (set-overwrite b.len b.buf c) (ground arith)

-- `WriteByte` on a well-formed buffer, over a source of memory that keeps its promise, is `Write` of the one
-- byte: its indexing does not go out of range.
pub write_byte-write :
    (alloc : Source) (b : ArenaBuffer) (c : ℕ)
    → IsSource alloc
    → IsBuffer b
    → write_byte alloc b c ≡ write alloc b (c ∷ [])
unfolding write_byte write
write_byte-write alloc b c w v = go (grow alloc b 1) (grow-Grows alloc b 1 w v)
  where
    go :
        (r : Result Error ArenaBuffer)
        → Grows alloc b 1 r
        → (r >>= put_byte c) ≡ (r >>= λ b'. ok (put b' (c ∷ [])))
    go r (inl (b', e, l, room, same)) = rw e (set-put b' c (omega arith))
    go (ok b') (inr (short, fails, starved)) = absurd (fails b' refl)
    go (err x) g = refl
    go (panic x) g = refl

take-take : (n m : ℕ) (xs : List ℕ) → n ≤ m → take n (take m xs) ≡ take n xs
take-take zero m xs h = refl
take-take (suc n) zero xs h = absurd (omega arith)
take-take (suc n) (suc m) [] h = refl
take-take (suc n) (suc m) (x ∷ xs) h = ap (λ (ys : List ℕ). x ∷ ys) (take-take n m xs (omega arith))

take-all : (n : ℕ) (xs : List ℕ) → length xs ≤ n → take n xs ≡ xs
take-all zero [] h = refl
take-all zero (x ∷ xs) h = absurd (omega arith)
take-all (suc n) [] h = refl
take-all (suc n) (x ∷ xs) h = ap (λ (ys : List ℕ). x ∷ ys) (take-all n xs (omega arith))

-- `Truncate` with any number that is not negative keeps that many of the accumulated bytes, or all where
-- there are fewer, and the buffer stays well-formed.
pub truncate_lem :
    (b : ArenaBuffer) (n : ℕ)
    → IsBuffer b
    → IsBuffer (truncate b (pos n)) × (bytes (truncate b (pos n)) ≡ take n (bytes b))
unfolding truncate bytes
truncate_lem b n v = elim (dec_le n b.len) [
  | yes h ↦ ground (arith, take-take n b.len b.buf h)
  | no h ↦ ground (arith, take-all n (take b.len b.buf) (omega (arith, length-take b.len b.buf)))
]
