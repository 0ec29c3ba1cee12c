-- ===== src/Scope/Interfaces.antt =====
-- Which typed allocations go to the arena, and what they then hold.
use rustygo.Base.{
  ℕ, ◌*◌, ◌^◌, ◌<◌, ◌≤◌, ◌≡◌, ◌≢◌, ◌⊎◌, inl, inr, sym, refl, arith, ok, panic, with_error, true,
  false, pos, ◌==◌, lt→ltb,
}
use mathlib.Core.Path.{subst}
use rustygo.Memory.{Os, IsOs, invalid_alloc_size, arena_out_of_memory}
use rustygo.Chunk.Align.{is_power_of_two_iff}
use rustygo.Arena.State.{Arena, Slice}
use rustygo.Arena.Offsets.{offset_at}
use rustygo.Arena.Alloc.{
  Answer, raise, or_memory_error, alloc_aligned, alloc_aligned_or_err, try_alloc_aligned,
}
use rustygo.Arena.Invariant.{IsValid, Extends, Grants}
use rustygo.Arena.Calls.{Allocates, try_alloc_aligned-Allocates}
use rustygo.Scope.{Scope, track_alloc}
use rustygo.Scope.Typed.{
  GoType, pointer, interface, struct, field, no_fields, has_pointers, has_pointers_reflect,
  some_field, type_of_zero, TypeParam, Typed, on_heap, in_arena, goes_to_heap, stored, alloc_value,
  alloc_slice_cap, alloc_slice,
}

shown :
    (g : GoType)
    → g ≢ interface
    → has_pointers g ≡ true
    → has_pointers_reflect (type_of_zero g) ≡ true
unfolding has_pointers_reflect type_of_zero
shown interface ne h = absurd (ne refl)
shown pointer ne h = h
shown _ ne h = h

hidden : (g : GoType) → g ≡ interface → has_pointers_reflect (type_of_zero g) ≡ false
unfolding has_pointers_reflect type_of_zero
hidden g e = rw e

-- On an active scope a type that holds pointers, other than an interface type, is always allocated on the heap:
-- the arena and the scope are untouched.
pub pointers_on_heap :
    {W : Type 0} (os : Os) (a : Arena) (s : Scope W) (t : TypeParam)
    → s.active ≡ true
    → t.shape ≢ interface
    → has_pointers t.shape ≡ true
    → alloc_value os a s t ≡ (ok on_heap, a, s)
unfolding alloc_value goes_to_heap
pointers_on_heap os a s t e ne h = rw (e, shown t.shape ne h)

-- The value lies in bytes of the arena that were not in use, which the scope counts; or the call panics out of
-- memory, no byte is taken and the scope stays.
abbrev pub InArena : {W : Type 0} → ℕ → ℕ → Arena → Scope W → Typed W → Type 0
InArena n align a s (r, b, s') =
    ((buf : Slice) × (r ≡ ok (in_arena buf)) × Grants n align a buf b × (s' ≡ track_alloc s buf))
    ⊎ ((r ≡ panic (with_error arena_out_of_memory))
        × Extends a b
        × ((j : ℕ) → offset_at b.chunks j ≡ offset_at a.chunks j)
        × (s' ≡ s))

stored-InArena :
    {W : Type 0} (n align : ℕ) (a : Arena) (s : Scope W) (r : Answer)
    → Allocates n align a r
    → InArena n align a s (stored s (raise (or_memory_error r)))
stored-InArena n align a s (r, b) (inl (buf, q, g)) = rw q (inl (buf, refl, g, refl))
stored-InArena n align a s (r, b) (inr (q, x, same)) = rw q (inr (refl, x, same, refl))

alloc_value-stored :
    {W : Type 0} (os : Os) (a : Arena) (s : Scope W) (t : TypeParam) (k : ℕ)
    → s.active ≡ true
    → goes_to_heap t ≡ false
    → 0 < t.size
    → t.align ≡ 2 ^ k
    → alloc_value os a s t
      ≡ stored s (raise (or_memory_error (try_alloc_aligned os a (pos t.size) (pos t.align))))
unfolding alloc_value alloc_aligned alloc_aligned_or_err
alloc_value-stored os a s t k e h p al =
    rw (e, h, lt→ltb 0 t.size p, al, (is_power_of_two_iff (pos (2 ^ k))).1 (k, refl)) refl

interface-goes_to_heap : (t : TypeParam) → t.shape ≡ interface → 0 < t.size → goes_to_heap t ≡ false
unfolding goes_to_heap
interface-goes_to_heap t i p =
    let sized : (t.size == 0) ≡ false = ground arith in simp (hidden t.shape i, sized)

-- The struct type with one field of the type, and the same size.
abbrev pub boxed : TypeParam → TypeParam
boxed t = record t { shape = struct (field t.shape no_fields) }

boxed_on_heap : (t : TypeParam) → t.shape ≡ interface → goes_to_heap (boxed t) ≡ true
unfolding goes_to_heap has_pointers_reflect type_of_zero has_pointers some_field
boxed_on_heap t i = rw i refl

-- `AllocValue` of an interface type, of a positive size within an int and with an alignment 2 ^ k up to 2 ^ 62, on
-- an active scope and a valid arena, over a system that keeps its promises: the value is put in bytes of the arena
-- that were not in use, where the collector does not see its pointers, or the call panics out of memory and takes
-- no byte. The struct with one field of that type goes to the heap, and arena and scope stay as they were.
pub interface_off_heap :
    {W : Type 0} (os : Os) (a : Arena) (s : Scope W) (t : TypeParam) (k : ℕ)
    → IsOs os
    → IsValid a
    → s.active ≡ true
    → t.shape ≡ interface
    → 0 < t.size
    → t.size < 2 ^ 63
    → t.align ≡ 2 ^ k
    → k ≤ 62
    → InArena t.size t.align a s (alloc_value os a s t)
      × (alloc_value os a s (boxed t) ≡ (ok on_heap, a, s))
unfolding alloc_value
interface_off_heap os a s t k w v e i p small al hk = (
  subst (InArena t.size t.align a s)
      (sym (alloc_value-stored os a s t k e (interface-goes_to_heap t i p) p al))
      (stored-InArena t.size t.align a s (try_alloc_aligned os a (pos t.size) (pos t.align))
        (rw al (try_alloc_aligned-Allocates os a t.size k w v p small hk))),
  rw (e, boxed_on_heap t i) refl,
)

-- On an active scope `AllocSlice` with length 0 panics with the arena's error about the size, for every type
-- that goes to the arena; the arena and the scope are untouched.
pub alloc_slice-zero :
    {W : Type 0} (os : Os) (a : Arena) (s : Scope W) (t : TypeParam)
    → s.active ≡ true
    → goes_to_heap t ≡ false
    → alloc_slice os a s t (pos 0) ≡ (panic (with_error invalid_alloc_size), a, s)
unfolding alloc_slice alloc_slice_cap alloc_aligned alloc_aligned_or_err
alloc_slice-zero os a s t e h =
    let none_asked : t.size * 0 ≡ 0 = omega arith in rw (e, h, none_asked)
