-- ===== src/Arena/Grants.antt =====
-- What every allocation call does to an arena: it grants bytes that nobody holds, or it fails.
use rustygo.Base.{
  ℕ, suc, ◌+◌, ◌≤◌, ◌<◌, ◌≡◌, refl, sym, ap, ◌∙◌, ◌⊎◌, inl, inr, Option, none, some, List, [], ◌∷◌,
  arith, length-set, get_elem?, set, drop, some,
}
use mathlib.Core.Path.{subst}
use rustygo.Memory.{Chunk}
use rustygo.Chunk.Fits.{IsMapped, Fits, full, granted}
use rustygo.Arena.State.{Arena, Slice}
use rustygo.Arena.Alloc.{
  Attempt, take_from, try_at, try_index, or_next, try_behind, try_active, try_chunks, try_later,
}
use rustygo.Arena.Offsets.{
  offset_at, All-get, All-set, field_at-get, field_at-set_self, field_at-set_ne, field_at-set_same,
  get_elem?-lt, get_elem?-drop,
}
use rustygo.Arena.Invariant.{ActiveOk, IsValid, Extends, Grants}

-- An attempt that leaves the arena alone, or grants.
abbrev pub Tries : ℕ → ℕ → Arena → Option (Slice × Arena) → Type 0
Tries n align a r =
    (r ≡ none) ⊎ ((s : Slice) × (b : Arena) × (r ≡ some (s, b)) × Grants n align a s b)

-- No chunk from the index on is in use, where the active one stands before it.
free_behind :
    (a : Arena) (i j : ℕ)
    → IsValid a
    → ((k : ℕ) → a.active ≡ some k → k ≤ i)
    → i < j
    → offset_at a.chunks j ≡ 0
free_behind a i j v at h = go a.active refl
  where
    go : (o : Option ℕ) → a.active ≡ o → offset_at a.chunks j ≡ 0
    go none e = rw (subst (λ o. ActiveOk o a.chunks) e v.active_ok)
    go (some k) e = (subst (λ o. ActiveOk o a.chunks) e v.active_ok).1 j (omega (arith, at k e))

module _ (f : Attempt) (n align : ℕ) (fits : (c : Chunk) → IsMapped c → Fits c n align (f c)) where
  module _ (a : Arena) (v : IsValid a) (i : ℕ) (c : Chunk) (e : get_elem? a.chunks i ≡ some c)
      (at : (k : ℕ) → a.active ≡ some k → k ≤ i) where
    placed : ℕ → Arena
    placed lo = record a { chunks = set a.chunks i (record c { off = lo + n }); active = some i }

    placed-IsValid : (lo : ℕ) → lo + n ≤ c.size → IsValid (placed lo)
    unfolding placed
    placed-IsValid lo room = record {
      mapped = All-set IsMapped a.chunks i _ v.mapped (record {
        within = room;
        in_space = (All-get IsMapped a.chunks i c v.mapped e).in_space;
      });
      active_ok = (
        rw (length-set a.chunks i (record c { off = lo + n })) (get_elem?-lt a.chunks i c e),
        λ j h. field_at-set_ne _ a.chunks i j _ (λ q. omega arith) ∙ free_behind a i j v at h,
      );
      int_size = v.int_size;
    }

    placed-Extends : (lo : ℕ) → lo + n ≤ c.size → Extends a (placed lo)
    unfolding placed
    placed-Extends lo room = record {
      valid = placed-IsValid lo room;
      longer = omega (arith, length-set a.chunks i (record c { off = lo + n }));
      sizes = λ j _. field_at-set_same _ a.chunks i j c _ e refl;
      bases = λ j _. field_at-set_same _ a.chunks i j c _ e refl;
      onward = λ k l p q. ground (arith, at k p);
      same_closed = refl;
      same_limit = refl;
    }

    pub attempt-Tries : Tries n align a (take_from a i (f c))
    unfolding placed
    attempt-Tries = elim (fits c (All-get IsMapped a.chunks i c v.mapped e)) [
      | full none_left _ ↦ inl (rw none_left)
      | granted lo given above near room multiple ↦ inr (
        record { chunk = i; lo = lo; hi = lo + n },
        placed lo,
        rw given,
        record {
          extends = placed-Extends lo room;
          sized = refl;
          above = rw (field_at-get (λ c. c.off) a.chunks i c e) above;
          within =
              rw
                (
                  field_at-set_same (λ c. c.size) a.chunks i i c (record c { off = lo + n }) e refl,
                  field_at-get (λ c. c.size) a.chunks i c e,
                )
                room;
          aligned =
              rw
                (
                  field_at-set_same (λ c. c.base) a.chunks i i c (record c { off = lo + n }) e refl,
                  field_at-get (λ c. c.base) a.chunks i c e,
                )
                multiple;
          taken = field_at-set_self _ a.chunks i _ (get_elem?-lt a.chunks i c e);
          others = λ j h. field_at-set_ne _ a.chunks i j _ (λ q. h (sym q));
          now_active = refl;
          not_before = at;
        },
      )
    ]

  module _ (a : Arena) (v : IsValid a) where
    try_at-Tries :
        (i : ℕ) (o : Option Chunk)
        → get_elem? a.chunks i ≡ o
        → ((k : ℕ) → a.active ≡ some k → k ≤ i)
        → Tries n align a (try_at f a i o)
    try_at-Tries i none e at = inl refl
    try_at-Tries i (some c) e at = attempt-Tries a v i c e at

    pub try_active-Tries : Tries n align a (try_active f a)
    unfolding try_active
    try_active-Tries = go a.active refl
      where
        go : (o : Option ℕ) → a.active ≡ o → Tries n align a (try_index f a o)
        go none e = inl refl
        go (some i) e = try_at-Tries i (get_elem? a.chunks i) refl (λ k p. ground arith)

    or_next-Tries :
        (r q : Option (Slice × Arena))
        → Tries n align a r
        → Tries n align a q
        → Tries n align a (or_next r q)
    or_next-Tries none q h k = k
    or_next-Tries (some r) q h k = h

    try_chunks-Tries :
        (j : ℕ) (cs : List Chunk)
        → ((k : ℕ) → get_elem? cs k ≡ get_elem? a.chunks (j + k))
        → ((k : ℕ) → a.active ≡ some k → k ≤ j)
        → Tries n align a (try_chunks f a j cs)
    unfolding try_chunks
    try_chunks-Tries j [] e at = inl refl
    try_chunks-Tries j (c ∷ cs) e at =
        let here : j + 0 ≡ j = omega arith in
        or_next-Tries (take_from a j (f c)) (try_chunks f a (suc j) cs)
          (attempt-Tries a v j c (sym (e 0 ∙ ap (get_elem? a.chunks) here)) at)
          (try_chunks-Tries (suc j) cs (λ k. e (suc k) ∙ ap (get_elem? a.chunks) (omega arith))
            (λ k p. omega (arith, at k p)))

    pub try_later-Tries : Tries n align a (try_later f a)
    unfolding try_later
    try_later-Tries = go a.active refl
      where
        go : (o : Option ℕ) → a.active ≡ o → Tries n align a (try_behind f a o)
        go none e = inl refl
        go (some i) e =
            try_chunks-Tries (suc i) (drop (suc i) a.chunks) (get_elem?-drop (suc i) a.chunks)
              (λ k p. ground arith)
