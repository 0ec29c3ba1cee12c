-- ===== src/Chunk/Race/Apart.antt =====
-- The bytes that concurrent calls hand out.
use rustygo.Base.{ℕ, ◌≤◌, ◌<◌, ◌≡◌, refl, ap, ◌∙◌, Option, none, some, List, [], ◌∷◌, arith}
use mathlib.Core.Path.{subst}
use rustygo.Base.Every.{All}
use rustygo.Memory.{Chunk}
use rustygo.Chunk.{Span}
use rustygo.Chunk.Fits.{IsMapped}
use rustygo.Chunk.Race.{Call, IsIntCall, attempt, Race, Reach}
use rustygo.Chunk.Race.Linear.{outcome, Linear, attempt-some, Reach-Linear}

abbrev pub add_span : Option Span → List Span → List Span
add_span none bs = bs
add_span (some b) bs = b ∷ bs

-- What has been handed out, the newest first.
abbrev pub spans : List (Call × Option Span) → List Span
spans [] = []
spans ((r, o) ∷ h) = add_span o (spans h)

-- Bytes of the chunk behind `from`, at least one, and up to `to`.
abbrev pub Between : ℕ → ℕ → Span → Type 0
Between from to b = (from ≤ b.lo) × (b.lo < b.hi) × (b.hi ≤ to)

abbrev pub Separate : List Span → Type 0
Separate [] = Unit
Separate (b ∷ bs) = All (λ d. d.hi ≤ b.lo) bs × Separate bs

Between-mono :
    (from n m : ℕ) (bs : List Span) → n ≤ m → All (Between from n) bs → All (Between from m) bs
Between-mono from n m [] h k = tt
Between-mono from n m (b ∷ bs) h ((l, lt, u), k) =
    ((l, lt, omega arith), Between-mono from n m bs h k)

below_next :
    (from n lo : ℕ) (bs : List Span) → n ≤ lo → All (Between from n) bs → All (λ d. d.hi ≤ lo) bs
below_next from n lo [] h k = tt
below_next from n lo (b ∷ bs) h ((l, lt, u), k) = (omega arith, below_next from n lo bs h k)

-- What the calls made one after the other leave.
abbrev Leaves : Chunk → List Span → Chunk → Type 0
Leaves c bs d =
    IsMapped d × (d.size ≡ c.size) × (c.off ≤ d.off) × All (Between c.off d.off) bs × Separate bs

module _ (c b : Chunk) (r : Call) (bs : List Span) (k : IsIntCall r) (before : Leaves c bs b) where
  outcome-Leaves :
      (x : Option (Span × Chunk))
      → attempt b r ≡ x
      → Leaves c (add_span (outcome b x).0 bs) (outcome b x).1
  outcome-Leaves none e = before
  outcome-Leaves (some (span, d)) e =
      let (v, sized, onward, between, separate) = before in
      let (above, full_span, within, moved) = attempt-some r k b span d v e in
      let off' : d.off ≡ span.hi = ap (λ (x : Chunk). x.off) moved in
      let size' : d.size ≡ b.size = ap (λ (x : Chunk). x.size) moved in
      (
        rw moved (record { within = within; in_space = v.in_space }),
        size' ∙ sized,
        omega arith,
        (
          (omega arith, full_span, omega arith),
          Between-mono c.off b.off d.off bs (omega arith) between,
        ),
        (below_next c.off b.off span.lo bs above between, separate),
      )

Linear-Leaves :
    (c : Chunk) (h : List (Call × Option Span)) (d : Chunk)
    → IsMapped c
    → Linear c h d
    → Leaves c (spans h) d
Linear-Leaves c [] d v e = rw e (v, refl, omega arith, tt, tt)
Linear-Leaves c ((r, o) ∷ h) d v (b, l, k, e) =
    subst (λ p. Leaves c (add_span p.0 (spans h)) p.1) e
      (outcome-Leaves c b r (spans h) k (Linear-Leaves c h b v l) (attempt b r) refl)

-- Whatever the goroutines do, on a chunk within the address space and with int arguments: what the calls have
-- handed out are at least one byte each, behind the offset at the start and within the buffer, and no byte
-- was handed out twice.
pub race_disjoint :
    (c : Chunk) (s : Race)
    → IsMapped c
    → Reach c s
    → All (Between c.off c.size) (spans s.results) × Separate (spans s.results)
race_disjoint c s v r =
    let (valid, sized, onward, between, separate) =
      Linear-Leaves c s.results s.chunk v (Reach-Linear c s v r) in
    (
      Between-mono c.off s.chunk.off c.size (spans s.results) (omega (arith, valid.within)) between,
      separate,
    )
