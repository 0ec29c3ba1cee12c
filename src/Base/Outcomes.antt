-- ===== src/Base/Outcomes.antt =====
-- What a Go call ends with: a value, an error value, or a panic.
use mathlib.Core.Path.{◌≡◌, refl}
use mathlib.Core.Option.{Option, none, some}

-- The panics of the modelled code, by their messages; `with_error` re-raises an error's text.
pub data Panic (E : Type 0) : Type 0 where
  arena_size scope_inactive scope_exited alloc_size alignment slice_bounds : Panic E
  index_range region_inactive closed_arena free_nil double_free no_constructor borrow_size
        negative_buffer make_slice :
      Panic E
  with_error : E → Panic E

pub data Result (E A : Type 0) : Type 0 where
  ok : A → Result E A
  err : E → Result E A
  panic : Panic E → Result E A

infixl 5 ◌>>=◌
abbrev pub ◌>>=◌ : {E A B : Type 0} → Result E A → (A → Result E B) → Result E B
ok a >>= f = f a
err e >>= f = err e
panic p >>= f = panic p

-- `if err != nil { panic(err.Error()) }`
abbrev pub or_panic : {E A : Type 0} → Result E A → Result E A
or_panic (ok a) = ok a
or_panic (err e) = panic (with_error e)
or_panic (panic p) = panic p

-- `if !ok { return nil, e }`
abbrev pub or_err : {E A : Type 0} → Option A → E → Result E A
or_err none e = err e
or_err (some a) e = ok a

-- Inversion of a bind that succeeds.
pub bind-eq-ok :
    {E A B : Type 0} (m : Result E A) (f : A → Result E B) (b : B)
    → (m >>= f) ≡ ok b
    → (a : A) × (m ≡ ok a) × (f a ≡ ok b)
bind-eq-ok (ok a) f b h = (a, refl, h)
bind-eq-ok (err e) f b h = cc
bind-eq-ok (panic p) f b h = cc
