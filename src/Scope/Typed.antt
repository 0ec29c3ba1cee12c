-- ===== src/Scope/Typed.antt =====
-- Typed allocation through a scope: `AllocValue`, `AllocSliceCap` and their aligned forms, of arena.go.
use rustygo.Base.{
  ℕ, ◌*◌, ◌^◌, Bool, true, false, not, ◌||◌, Option, none, some, ℤ, pos, pos_part, ltb_ℤ, to_i64,
  u64, leb, ◌==◌, if◌then◌else◌, Result, ok, err, panic, scope_inactive, slice_bounds, alignment,
}
use rustygo.Memory.{Os, Error}
use rustygo.Chunk.{is_power_of_two}
use rustygo.Arena.State.{Arena, Slice}
use rustygo.Arena.Alloc.{Checked, alloc_aligned}
use rustygo.Scope.{Scope, track_alloc}

-- A Go type as package reflect shows it: its kind, and the types inside a struct or an array.
mutual
  pub data GoType : Type 0 where
    pointer slice map chan interface func string unsafe_pointer scalar : GoType
    struct : Fields → GoType
    array : GoType → GoType

  pub data Fields : Type 0 where
    no_fields : Fields
    field : GoType → Fields → Fields

unfoldable mutual
  pub has_pointers : GoType → Bool
  has_pointers pointer = true
  has_pointers slice = true
  has_pointers map = true
  has_pointers chan = true
  has_pointers interface = true
  has_pointers func = true
  has_pointers string = true
  has_pointers unsafe_pointer = true
  has_pointers scalar = false
  has_pointers (struct fs) = some_field fs
  has_pointers (array t) = has_pointers t

  pub some_field : Fields → Bool
  some_field no_fields = false
  some_field (field t fs) = has_pointers t || some_field fs

-- `HasPointersReflect`; `none` is the nil type.
unfoldable pub has_pointers_reflect : Option GoType → Bool
unfolding has_pointers
has_pointers_reflect none = false
has_pointers_reflect (some t) = has_pointers t

-- `reflect.TypeOf(zero)` for the zero value of a type: a nil interface value has no type.
unfoldable pub type_of_zero : GoType → Option GoType
type_of_zero interface = none
type_of_zero t = some t

-- A type parameter `T`, with the compiler's `unsafe.Sizeof` and `unsafe.Alignof`.
pub record TypeParam : Type 0 where
  pub shape : GoType
  pub size : ℕ
  pub align : ℕ

-- Where the new value lies.
pub data Storage : Type 0 where
  on_heap : Storage
  in_arena : Slice → Storage

-- `t != nil && HasPointersReflect(t)`, or a type of size 0.
unfoldable pub goes_to_heap : TypeParam → Bool
unfolding has_pointers_reflect type_of_zero
goes_to_heap t = has_pointers_reflect (type_of_zero t.shape) || t.size == 0

abbrev pub Typed : Type 0 → Type 0
Typed W = Result Error Storage × Arena × Scope W

-- `size*capacity` in 64-bit arithmetic, for a capacity that is not negative.
abbrev pub int_product : ℕ → ℕ → ℤ
int_product size capacity = to_i64 (u64 (size * capacity))

-- The greater of the requested and the natural alignment.
abbrev pub widest : ℤ → ℕ → ℤ
widest align natural = if ltb_ℤ align (pos natural) then pos natural else align

abbrev pub cache_line_size : ℤ
cache_line_size = pos 64

module _ {W : Type 0} where
  abbrev pub stored : Scope W → Checked → Typed W
  stored s (ok buf, a) = (ok (in_arena buf), a, track_alloc s buf)
  stored s (err e, a) = (err e, a, s)
  stored s (panic p, a) = (panic p, a, s)

  -- `unsafe.Slice` panics where the length in bytes does not fit the address space.
  abbrev pub sliced : ℕ → Typed W → Typed W
  sliced total (ok (in_arena buf), a, s) =
      if leb (2 ^ 64) total then (panic slice_bounds, a, s) else (ok (in_arena buf), a, s)
  sliced total (ok on_heap, a, s) = (ok on_heap, a, s)
  sliced total (err e, a, s) = (err e, a, s)
  sliced total (panic p, a, s) = (panic p, a, s)

  unfoldable pub alloc_value : Os → Arena → Scope W → TypeParam → Typed W
  alloc_value os a s t =
      if not s.active
      then (panic scope_inactive, a, s)
      else if goes_to_heap t
      then (ok on_heap, a, s)
      else stored s (alloc_aligned os a (pos t.size) (pos t.align))

  unfoldable pub alloc_slice_cap : Os → Arena → Scope W → TypeParam → ℤ → ℤ → Typed W
  alloc_slice_cap os a s t len capacity =
      if not s.active
      then (panic scope_inactive, a, s)
      else if ltb_ℤ len (pos 0) || ltb_ℤ capacity len
      then (panic slice_bounds, a, s)
      else if goes_to_heap t
      then (ok on_heap, a, s)
      else sliced (t.size * pos_part capacity)
          (stored s (alloc_aligned os a (int_product t.size (pos_part capacity)) (pos t.align)))

  unfoldable pub alloc_slice : Os → Arena → Scope W → TypeParam → ℤ → Typed W
  alloc_slice os a s t n = alloc_slice_cap os a s t n n

  unfoldable pub alloc_aligned_value : Os → Arena → Scope W → TypeParam → ℤ → Typed W
  alloc_aligned_value os a s t align =
      if not s.active
      then (panic scope_inactive, a, s)
      else if goes_to_heap t
      then (ok on_heap, a, s)
      else if not (is_power_of_two align)
      then (panic alignment, a, s)
      else stored s (alloc_aligned os a (pos t.size) (widest align t.align))

  unfoldable pub alloc_slice_aligned : Os → Arena → Scope W → TypeParam → ℤ → ℤ → ℤ → Typed W
  alloc_slice_aligned os a s t len capacity align =
      if not s.active
      then (panic scope_inactive, a, s)
      else if ltb_ℤ len (pos 0) || ltb_ℤ capacity len
      then (panic slice_bounds, a, s)
      else if goes_to_heap t
      then (ok on_heap, a, s)
      else if not (is_power_of_two align)
      then (panic alignment, a, s)
      else sliced (t.size * pos_part capacity) (
          stored s
            (alloc_aligned os a (int_product t.size (pos_part capacity)) (widest align t.align)))

  unfoldable pub alloc_cache_aligned : Os → Arena → Scope W → TypeParam → Typed W
  alloc_cache_aligned os a s t = alloc_aligned_value os a s t cache_line_size

  unfoldable pub alloc_slice_cache_aligned : Os → Arena → Scope W → TypeParam → ℤ → ℤ → Typed W
  alloc_slice_cache_aligned os a s t len capacity =
      alloc_slice_aligned os a s t len capacity cache_line_size
