-- ===== src/Arena/Live.antt =====
-- The bytes that callers hold: no two grants of an arena overlap, whatever the sequence of requests.
use rustygo.Base.{
  ℕ, zero, suc, ◌^◌, ◌≤◌, ◌<◌, ◌≡◌, ◌≢◌, refl, ◌⊎◌, inl, inr, Option, none, some, List, [], ◌∷◌,
  arith, ℤ, pos, negsuc, IsInt, is_positive, Bool-cases, false,
}
use mathlib.Core.Path.{subst}
use native.Mathlib.Decide.{ℕ_discrete}
use rustygo.Memory.{Os, IsOs}
use rustygo.Chunk.{is_power_of_two}
use rustygo.Chunk.Align.{is_power_of_two_iff, small_power}
use rustygo.Arena.State.{Arena, Slice}
use rustygo.Arena.Alloc.{Answer, try_alloc, try_alloc_aligned}
use rustygo.Arena.Offsets.{All, offset_at}
use rustygo.Arena.Invariant.{IsValid, Grants}
use rustygo.Arena.Calls.{Allocates, Extends-refl, try_alloc-Allocates, try_alloc_aligned-Allocates}

pub data Request : Type 0 where
  bytes : ℤ → Request
  aligned_bytes : ℤ → ℤ → Request

abbrev pub IsIntRequest : Request → Type 0
IsIntRequest (bytes n) = IsInt n
IsIntRequest (aligned_bytes n align) = IsInt n × IsInt align

unfoldable pub call : Os → Arena → Request → Answer
call os a (bytes n) = try_alloc os a n
call os a (aligned_bytes n align) = try_alloc_aligned os a n align

-- A grant of some positive size, or a failure that takes nothing.
abbrev pub Serves : Arena → Answer → Type 0
Serves a r = (n : ℕ) × (align : ℕ) × (0 < n) × Allocates n align a r

refused : (a : Arena) → IsValid a → Serves a (none, a)
refused a v = (1, 1, omega arith, inr (refl, Extends-refl a v, λ j. refl))

zero_refused : (os : Os) (a : Arena) → try_alloc os a (pos 0) ≡ (none, a)
unfolding try_alloc
zero_refused os a = refl

bytes-Serves :
    (os : Os) (a : Arena) (n : ℤ) → IsOs os → IsValid a → IsInt n → Serves a (try_alloc os a n)
bytes-Serves os a (negsuc n) w v h = unfold try_alloc in refused a v
bytes-Serves os a (pos zero) w v h = unfold try_alloc in refused a v
bytes-Serves os a (pos (suc n)) w v h =
    (suc n, 1, omega arith, try_alloc-Allocates os a (suc n) w v (omega arith) h)

module _ (os : Os) (a : Arena) (w : IsOs os) (v : IsValid a) where
  no_power :
      (n align : ℤ) → is_power_of_two align ≡ false → try_alloc_aligned os a n align ≡ (none, a)
  unfolding try_alloc_aligned
  no_power n align e = elim (Bool-cases (is_positive n)) [ inl p ↦ rw (p, e) | inr p ↦ rw p ]

  aligned-Serves : (n align : ℤ) → IsInt n → IsInt align → Serves a (try_alloc_aligned os a n align)
  aligned-Serves (negsuc n) align h k = unfold try_alloc_aligned in refused a v
  aligned-Serves (pos zero) align h k = unfold try_alloc_aligned in refused a v
  aligned-Serves (pos (suc n)) align h k = elim (Bool-cases (is_power_of_two align)) [
    | inl e ↦ power ((is_power_of_two_iff align).0 e)
    | inr e ↦ rw (no_power (pos (suc n)) align e) (refused a v)
  ]
    where
      power :
          (j : ℕ) × (align ≡ pos (2 ^ j)) → Serves a (try_alloc_aligned os a (pos (suc n)) align)
      power (j, e) = rw e (
        suc n,
        2 ^ j,
        omega arith,
        try_alloc_aligned-Allocates os a (suc n) j w v (omega arith) h
            (small_power j (subst IsInt e k)),
      )

  pub call-Serves : (r : Request) → IsIntRequest r → Serves a (call os a r)
  unfolding call
  call-Serves (bytes n) h = bytes-Serves os a n w v h
  call-Serves (aligned_bytes n align) (h, k) = aligned-Serves n align h k

-- Held bytes: not empty, and below the offset of their chunk.
abbrev pub Live : Arena → Slice → Type 0
Live a s = (s.lo < s.hi) × (s.hi ≤ offset_at a.chunks s.chunk)

-- No byte belongs to both.
abbrev pub Disjoint : Slice → Slice → Type 0
Disjoint s t = (s.chunk ≢ t.chunk) ⊎ (s.hi ≤ t.lo) ⊎ (t.hi ≤ s.lo)

pub Grants-Live :
    (n align : ℕ) (a : Arena) (s : Slice) (b : Arena) → 0 < n → Grants n align a s b → Live b s
Grants-Live n align a s b p g = omega (arith, g.sized, g.taken)

-- A grant lies apart from all held bytes, and they stay held.
pub Grants-Disjoint :
    (n align : ℕ) (a : Arena) (s t : Slice) (b : Arena)
    → Grants n align a s b
    → Live a t
    → Disjoint t s × Live b t
Grants-Disjoint n align a s t b g h = elim (ℕ_discrete t.chunk s.chunk) [
  | yes e ↦ (
    inr (inl (omega (arith, below e, g.above))),
    (h.0, rw e (omega (arith, below e, g.above, g.taken, g.sized))),
  )
  | no ne ↦ (inl ne, (h.0, rw (g.others t.chunk ne) h.1))
]
  where
    below : t.chunk ≡ s.chunk → t.hi ≤ offset_at a.chunks s.chunk
    below e = subst (λ (i : ℕ). t.hi ≤ offset_at a.chunks i) e h.1

abbrev keep : Option Slice → List Slice → List Slice
keep none ss = ss
keep (some s) ss = s ∷ ss

-- A run of calls, each with the operating system as it then is: the slices in order, and the arena.
unfoldable pub serve : Arena → List (Os × Request) → List Slice × Arena
serve a [] = ([], a)
serve a ((os, r) ∷ rs) = let q = call os a r in let rest = serve q.1 rs in (keep q.0 rest.0, rest.1)

abbrev pub IsCall : Os × Request → Type 0
IsCall (os, r) = IsOs os × IsIntRequest r

abbrev pub Pairwise {ℓ κ} : {A : Type ℓ} → (A → A → Type κ) → List A → Type κ
Pairwise R [] = Unit
Pairwise R (x ∷ xs) = All (R x) xs × Pairwise R xs

module _ (os : Os) (r : Request) (a : Arena) (w : IsOs os) (v : IsValid a)
    (h : IsIntRequest r) where
  call-IsValid : IsValid (call os a r).1
  call-IsValid = go (call-Serves os a w v r h)
    where
      go : Serves a (call os a r) → IsValid (call os a r).1
      go (n, align, p, inl (s, e, g)) = g.extends.valid
      go (n, align, p, inr (e, x, same)) = x.valid

  -- Held bytes stay held, and a new slice lies apart from them.
  call_keeps :
      (t : Slice) → Live a t → Live (call os a r).1 t × All (Disjoint t) (keep (call os a r).0 [])
  call_keeps t live = go (call-Serves os a w v r h)
    where
      go :
          Serves a (call os a r)
          → Live (call os a r).1 t × All (Disjoint t) (keep (call os a r).0 [])
      go (n, align, p, inl (s, e, g)) =
          let (apart, held) = Grants-Disjoint n align a s t _ g live in (held, rw e (apart, tt))
      go (n, align, p, inr (e, x, same)) = ((live.0, rw (same t.chunk) live.1), rw e tt)

  call-Live : All (Live (call os a r).1) (keep (call os a r).0 [])
  call-Live = go (call-Serves os a w v r h)
    where
      go : Serves a (call os a r) → All (Live (call os a r).1) (keep (call os a r).0 [])
      go (n, align, p, inl (s, e, g)) = rw e (Grants-Live n align a s _ p g, tt)
      go (n, align, p, inr (e, x, same)) = rw e tt

module _ {κ} (P : Slice → Type κ) where
  All-keep : (o : Option Slice) (ss : List Slice) → All P (keep o []) → All P ss → All P (keep o ss)
  All-keep none ss h k = k
  All-keep (some s) ss h k = (h.0, k)

serve_keeps :
    (rs : List (Os × Request)) (a : Arena) (t : Slice)
    → IsValid a
    → All IsCall rs
    → Live a t
    → Live (serve a rs).1 t × All (Disjoint t) (serve a rs).0
unfolding serve
serve_keeps [] a t v h live = (live, tt)
serve_keeps ((os, r) ∷ rs) a t v ((w, i), h) live =
    let (held, apart) = call_keeps os r a w v i t live in
    let (held', apart') = serve_keeps rs (call os a r).1 t (call-IsValid os r a w v i) h held in
    (held', All-keep (Disjoint t) (call os a r).0 _ apart apart')

-- What a run of calls leaves: a valid arena, and slices that are held and pairwise disjoint.
abbrev pub Served : List Slice × Arena → Type 0
Served (ss, b) = IsValid b × All (Live b) ss × Pairwise Disjoint ss

serve_more :
    (rs : List (Os × Request)) (b : Arena) (o : Option Slice)
    → IsValid b
    → All IsCall rs
    → All (Live b) (keep o [])
    → Served (serve b rs)
    → Served (keep o (serve b rs).0, (serve b rs).1)
serve_more rs b none v h live served = served
serve_more rs b (some s) v h live (v', lives, apart) =
    let (held, apart') = serve_keeps rs b s v h live.0 in (v', (held, lives), (apart', apart))

-- After any run of calls on a valid arena, each with int arguments and an operating system that
-- keeps its promises, the arena is valid, and the slices that the calls returned are all held
-- and pairwise disjoint.
pub serve_disjoint :
    (rs : List (Os × Request)) (a : Arena) → IsValid a → All IsCall rs → Served (serve a rs)
unfolding serve
serve_disjoint [] a v h = (v, tt, tt)
serve_disjoint ((os, r) ∷ rs) a v ((w, i), h) =
    let b = (call os a r).1 in
    let v' = call-IsValid os r a w v i in
    serve_more rs b (call os a r).0 v' h (call-Live os r a w v i) (serve_disjoint rs b v' h)
