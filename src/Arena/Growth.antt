-- ===== src/Arena/Growth.antt =====
-- The new chunk of a call, and how steps of one call compose.
use rustygo.Base.{
  ℕ, ◌^◌, ◌≤◌, ◌<◌, ◌≡◌, refl, ◌∙◌, ◌⊎◌, none, some, [], ◌∷◌, arith, length, length-append,
}
use mathlib.Core.Path.{subst}
use rustygo.Memory.{Chunk}
use rustygo.Memory.Mapping.{IsFresh}
use rustygo.Chunk.Fits.{IsMapped}
use rustygo.Arena.State.{Arena, Slice}
use rustygo.Arena.Alloc.{Answer, with_chunk, next_size}
use rustygo.Arena.Offsets.{
  offset_at, All-append, field_at-append_lt, field_at-append_zero, field_at-past,
}
use rustygo.Arena.Invariant.{ActiveOk, IsValid, Extends, Grants}

-- A call that grants, or that fails and takes nothing; it may have added an empty chunk.
abbrev pub Allocates : ℕ → ℕ → Arena → Answer → Type 0
Allocates n align a r =
    ((s : Slice) × (r.0 ≡ some s) × Grants n align a s r.1)
    ⊎ ((r.0 ≡ none) × Extends a r.1 × ((j : ℕ) → offset_at r.1.chunks j ≡ offset_at a.chunks j))

pub Extends-refl : (a : Arena) → IsValid a → Extends a a
Extends-refl a v = record {
  valid = v;
  longer = omega arith;
  sizes = λ j h. refl;
  bases = λ j h. refl;
  onward = λ i k p q. ground arith;
  same_closed = refl;
  same_limit = refl;
}

pub active-lt : (a : Arena) (i : ℕ) → IsValid a → a.active ≡ some i → i < length a.chunks
active-lt a i v e = (subst (λ o. ActiveOk o a.chunks) e v.active_ok).0

-- With the new chunk the arena is valid, and nothing more is in use.
module _ (a : Arena) (v : IsValid a) (n : ℕ) (c : Chunk) (new : IsFresh n c) where
  pub with_chunk-Extends : Extends a (with_chunk a c)
  with_chunk-Extends = record {
    valid = record {
      mapped = All-append IsMapped a.chunks c v.mapped new.mapped;
      active_ok = (
        rw (length-append a.chunks (c ∷ [])) (omega arith),
        λ j h.
            field_at-append_zero _ a.chunks c j new.unused
            ∙ field_at-past _ a.chunks j (omega arith),
      );
      int_size = v.int_size;
    };
    longer = rw (length-append a.chunks (c ∷ [])) (omega arith);
    sizes = λ j h. field_at-append_lt _ a.chunks (c ∷ []) j h;
    bases = λ j h. field_at-append_lt _ a.chunks (c ∷ []) j h;
    onward = λ i k p q. ground (arith, active-lt a i v p);
    same_closed = refl;
    same_limit = refl;
  }

  pub same_offsets : (j : ℕ) → offset_at (with_chunk a c).chunks j ≡ offset_at a.chunks j
  same_offsets j = field_at-append_zero _ a.chunks c j new.unused

-- Two steps one after the other.
pub Grants-after :
    {n align : ℕ} (a b : Arena) (s : Slice) (d : Arena)
    → Extends a b
    → ((j : ℕ) → offset_at b.chunks j ≡ offset_at a.chunks j)
    → Grants n align b s d
    → ((i : ℕ) → a.active ≡ some i → i ≤ s.chunk)
    → Grants n align a s d
Grants-after a b s d x same g at = record {
  extends = record {
    valid = g.extends.valid;
    longer = omega (arith, x.longer, g.extends.longer);
    sizes = λ j h. g.extends.sizes j (omega (arith, x.longer)) ∙ x.sizes j h;
    bases = λ j h. g.extends.bases j (omega (arith, x.longer)) ∙ x.bases j h;
    onward = λ i k p q. ground (arith, at i p, g.now_active);
    same_closed = g.extends.same_closed ∙ x.same_closed;
    same_limit = g.extends.same_limit ∙ x.same_limit;
  };
  sized = g.sized;
  above = omega (arith, g.above, same s.chunk);
  within = g.within;
  aligned = g.aligned;
  taken = g.taken;
  others = λ j h. g.others j h ∙ same j;
  now_active = g.now_active;
  not_before = at;
}

-- The size of a new chunk is at least that of the request, and an int.
pub next_size_bounds :
    (a : Arena) (n size : ℕ)
    → a.chunk_size < 2 ^ 63
    → n < 2 ^ 63
    → next_size a n ≡ some size
    → (n ≤ size) × (size < 2 ^ 63)
unfolding next_size
next_size_bounds a n size h k e = ground arith
