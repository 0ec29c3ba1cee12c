-- ===== src/Arena/Rewind.antt =====
-- `Mark` and `Rewind`: the arena as it was, also after a run of allocation calls.
use rustygo.Base.{
  ℕ, zero, suc, ◌+◌, ◌*◌, ◌%◌, ◌^◌, ◌≤◌, ◌<◌, ◌≡◌, refl, sym, ap, ◌∙◌, Option, some, List, [], ◌∷◌,
  arith, ok, length, get_elem?, map, bit_and,
}
use native.Mathlib.Decide.{dec_lt}
use mathlib.Core.Path.{subst, ap₂}
use native.Mathlib.Nat.{mod-eq_of_lt}
use rustygo.Chunk.Fits.{IsMapped}
use rustygo.Base.Bits.{bit_and_low, bit_or_fields}
use rustygo.Memory.{Os, Chunk}
use rustygo.Arena.State.{Arena}
use rustygo.Arena.Marks.{
  at_zero, used_of, used_bytes, make_mark, parse_mark, mark, cut_back, rewind, rewind_to, off_of,
  found_index, mark_at, mark_active,
}
use rustygo.Arena.Offsets.{All, offset_at, size_at, get_elem?-some, field_at-get}
use rustygo.Arena.Invariant.{ActiveOk, IsValid}
use rustygo.Arena.Calls.{active-lt}
use rustygo.Arena.Live.{Request, IsCall, serve}
use rustygo.Arena.Since.{Since, Since-refl, Since-serve, active-some}

-- A mark keeps the low 32 bits of the index and of the offset, and nothing else.
make_mark_sum : (i off : ℕ) → make_mark i off ≡ i % 2 ^ 32 * 2 ^ 32 + off % 2 ^ 32
unfolding make_mark
make_mark_sum i off =
    let high : i * 2 ^ 32 % 2 ^ 64 ≡ i % 2 ^ 32 * 2 ^ 32 = omega arith in
    let low : bit_and off 0xFFFFFFFF ≡ off % 2 ^ 32 = bit_and_low 32 off in
    rw (high, low) (bit_or_fields 32 (i % 2 ^ 32) (off % 2 ^ 32) (omega arith))

-- Parsing a mark gives the low 32 bits of the index and of the offset that it was made of, and so both of them
-- only where they are below 2 ^ 32.
pub parse_mark-make_mark : (i off : ℕ) → parse_mark (make_mark i off) ≡ (i % 2 ^ 32, off % 2 ^ 32)
unfolding parse_mark
parse_mark-make_mark i off = rw (make_mark_sum i off) (
    ap₂ (λ (x y : ℕ). (x, y)) (omega arith)
      (bit_and_low 32 (i % 2 ^ 32 * 2 ^ 32 + off % 2 ^ 32) ∙ omega arith))

-- The offsets after `cut_back`.
cut_back_below :
    (cs : List Chunk) (i off j : ℕ) → j < i → offset_at (cut_back cs i off) j ≡ offset_at cs j
unfolding cut_back
cut_back_below [] i off j h = refl
cut_back_below (c ∷ cs) zero off j h = absurd (omega arith)
cut_back_below (c ∷ cs) (suc i) off zero h = refl
cut_back_below (c ∷ cs) (suc i) off (suc j) h = cut_back_below cs i off j (omega arith)

zeroed : (cs : List Chunk) (j : ℕ) → offset_at (map at_zero cs) j ≡ 0
zeroed [] j = refl
zeroed (c ∷ cs) zero = refl
zeroed (c ∷ cs) (suc j) = zeroed cs j

cut_back_at : (cs : List Chunk) (i off : ℕ) → i < length cs → offset_at (cut_back cs i off) i ≡ off
unfolding cut_back
cut_back_at [] i off h = absurd (omega arith)
cut_back_at (c ∷ cs) zero off h = refl
cut_back_at (c ∷ cs) (suc i) off h = cut_back_at cs i off (omega arith)

cut_back_above : (cs : List Chunk) (i off j : ℕ) → i < j → offset_at (cut_back cs i off) j ≡ 0
unfolding cut_back
cut_back_above [] i off j h = refl
cut_back_above (c ∷ cs) zero off zero h = absurd (omega arith)
cut_back_above (c ∷ cs) zero off (suc j) h = zeroed cs j
cut_back_above (c ∷ cs) (suc i) off zero h = absurd (omega arith)
cut_back_above (c ∷ cs) (suc i) off (suc j) h = cut_back_above cs i off j (omega arith)

-- Equal offsets at every index are equally many bytes in use.
pub used_of_ext :
    (cs ds : List Chunk) → ((j : ℕ) → offset_at cs j ≡ offset_at ds j) → used_of cs ≡ used_of ds
unfolding used_of
used_of_ext [] [] h = refl
used_of_ext [] (d ∷ ds) h = omega (arith, h 0, used_of_ext [] ds (λ j. h (suc j)))
used_of_ext (c ∷ cs) [] h = omega (arith, h 0, used_of_ext cs [] (λ j. h (suc j)))
used_of_ext (c ∷ cs) (d ∷ ds) h = omega (arith, h 0, used_of_ext cs ds (λ j. h (suc j)))

off_of-get : (cs : List Chunk) (i : ℕ) → off_of (get_elem? cs i) ≡ offset_at cs i
off_of-get [] i = refl
off_of-get (c ∷ cs) zero = refl
off_of-get (c ∷ cs) (suc i) = off_of-get cs i

pub found_index-eq : (o : Option ℕ) (k n : ℕ) → o ≡ some k → k < n → found_index o n ≡ k
found_index-eq o k n e h = rw e (ground arith)

rewind_to_ok :
    (b : Arena) (i off k : ℕ) (target : Chunk)
    → found_index b.active (length b.chunks) ≡ k
    → off ≤ target.size
    → i ≤ k
    → (i ≡ k → off ≤ offset_at b.chunks k)
    → rewind_to b i off (some target)
      ≡ (ok tt, record b { chunks = cut_back b.chunks i off; active = some i })
rewind_to_ok b i off k target e fits back same = rw (e, off_of-get b.chunks k) (ground arith)

mark_at-get :
    (cs : List Chunk) (i : ℕ)
    → i < length cs
    → mark_at cs i (get_elem? cs i) ≡ make_mark i (offset_at cs i)
mark_at-get cs i h =
    let (c, e) = get_elem?-some cs i h in rw (e, field_at-get (λ c. c.off) cs i c e)

mark-eq :
    (a : Arena) (i : ℕ)
    → a.active ≡ some i
    → i < length a.chunks
    → mark a ≡ make_mark i (offset_at a.chunks i)
unfolding mark
mark-eq a i e h = ap (mark_active a.chunks) e ∙ mark_at-get a.chunks i h

offset_at-le-size_at : (cs : List Chunk) (i : ℕ) → All IsMapped cs → offset_at cs i ≤ size_at cs i
offset_at-le-size_at [] i h = omega arith
offset_at-le-size_at (c ∷ cs) zero h = h.0.within
offset_at-le-size_at (c ∷ cs) (suc i) h = offset_at-le-size_at cs i h.1

-- The chunk list after rewinding `b` to where `a` was.
module _ (i : ℕ) (a b : Arena) (v : IsValid a) (e : a.active ≡ some i) (x : Since i a b) where
  cut_back_offsets :
      (j : ℕ) → offset_at (cut_back b.chunks i (offset_at a.chunks i)) j ≡ offset_at a.chunks j
  cut_back_offsets j = elim (dec_lt j i) [
    | yes h ↦ cut_back_below b.chunks i _ j h ∙ x.below j h
    | no h ↦ elim (dec_lt i j) [
      | yes k ↦ cut_back_above b.chunks i _ j k ∙ sym (free j k)
      | no k ↦
          let same : j ≡ i = omega arith in
          rw same (
            cut_back_at b.chunks i (offset_at a.chunks i)
              (omega (arith, active-lt a i v e, x.longer)))
    ]
  ]
    where
      free : (j : ℕ) → i < j → offset_at a.chunks j ≡ 0
      free = (subst (λ o. ActiveOk o a.chunks) e v.active_ok).1

  rewind_since :
      i < 2 ^ 32
      → offset_at a.chunks i < 2 ^ 32
      → rewind b (mark a)
        ≡ (ok tt, record b { chunks = cut_back b.chunks i (offset_at a.chunks i); active = some i })
  unfolding rewind
  rewind_since hi ho =
      let inside : i < length b.chunks = omega (arith, active-lt a i v e, x.longer) in
      let (target, t) = get_elem?-some b.chunks i inside in
      let (k, at) = active-some b x.valid (omega arith) in
      let fits : offset_at a.chunks i ≤ target.size = omega (
        arith,
        field_at-get (λ c. c.size) b.chunks i target t,
        x.sizes i (active-lt a i v e),
        offset_at-le-size_at a.chunks i v.mapped,
      ) in
      rw
        (
          mark-eq a i e (active-lt a i v e),
          parse_mark-make_mark i (offset_at a.chunks i),
          mod-eq_of_lt hi,
          mod-eq_of_lt ho,
          t,
        )
        (rewind_to_ok b i (offset_at a.chunks i) k target
          (found_index-eq b.active k (length b.chunks) at (active-lt b k x.valid at)) fits
          (x.onward k at) (λ q. rw (← q) x.grown))

-- A mark of a valid arena, with an index and an offset below 2 ^ 32, and then any run of allocation
-- calls: `Rewind` succeeds, and the active chunk, the offset of every chunk and the number of bytes
-- in use are those at the mark.
pub rewind-mark :
    (a : Arena) (i : ℕ) (rs : List (Os × Request))
    → IsValid a
    → a.active ≡ some i
    → i < 2 ^ 32
    → offset_at a.chunks i < 2 ^ 32
    → All IsCall rs
    → let (r, d) = rewind (serve a rs).1 (mark a) in
      (r ≡ ok tt)
      × (d.active ≡ a.active)
      × ((j : ℕ) → offset_at d.chunks j ≡ offset_at a.chunks j)
      × (used_bytes d ≡ used_bytes a)
unfolding used_bytes
rewind-mark a i rs v e hi ho calls =
    let b = (serve a rs).1 in
    let x = Since-serve rs i a a (active-lt a i v e) calls (Since-refl i a v e) in
    let same = cut_back_offsets i a b v e x in
    rw (rewind_since i a b v e x hi ho) (refl, sym e, same, used_of_ext _ a.chunks same)
