-- ===== src/Pool/Race/Places.antt =====
-- The nodes of the lock-free stack: chains, who knows a node, and what a write to one leaves.
use rustygo.Base.{ℕ, ◌≡◌, ◌≢◌, refl, ap, ◌∙◌, Option, none, some, List, [], ◌∷◌, map}
use native.Mathlib.Decide.{ℕ_discrete}
use rustygo.Base.Every.{All}
use rustygo.Pool.Race.{
  Node, Pc, idle, allocating, making, loaded, ready, freeing, saw, linked, Event, pushed, popped,
  missed, Treiber, update,
}

-- The events, the newest first, are a run of a stack of objects from the empty stack to `xs`.
abbrev pub Replay : List Event → List ℕ → Type 0
Replay [] xs = xs ≡ []
Replay (pushed o ∷ log) xs = (ys : List ℕ) × (xs ≡ o ∷ ys) × Replay log ys
Replay (popped o ∷ log) xs = Replay log (o ∷ xs)
Replay (missed ∷ log) xs = (xs ≡ []) × Replay log []

-- The nodes from a head on.
abbrev pub Chain : (ℕ → Node) → Option ℕ → List ℕ → Type 0
Chain nodes head [] = head ≡ none
Chain nodes head (n ∷ ns) = (head ≡ some n) × Chain nodes (nodes n).next ns

abbrev pub vals : (ℕ → Node) → List ℕ → List ℕ
vals nodes ns = map (λ (n : ℕ). (nodes n).val) ns

abbrev pub StackRun : Treiber → Type 0
StackRun s = (ns : List ℕ) × Chain s.nodes s.head ns × Replay s.log (vals s.nodes ns)

-- A node is not allocated yet, known to one goroutine only, or was once on the stack.
pub data Place : Type 0 where
  unused shared : Place
  private_to : ℕ → Place

pub private_inj : {i j : ℕ} → private_to i ≡ private_to j → i ≡ j
private_inj h = cc

pub unused_ne_shared : unused ≢ shared
unused_ne_shared h = cc

pub unused_ne_private : {i : ℕ} → unused ≢ private_to i
unused_ne_private h = cc

pub none_ne_some : {n : ℕ} → none ≢ some n
none_ne_some h = cc

pub some_inj : {n m : ℕ} → some n ≡ some m → n ≡ m
some_inj h = cc

pub shared_ne_private : {i : ℕ} → shared ≢ private_to i
shared_ne_private h = cc

-- What holds of a goroutine's node.
abbrev pub Fine : (ℕ → Place) → (ℕ → Node) → ℕ → Pc → Type 0
Fine place nodes j idle = Unit
Fine place nodes j allocating = Unit
Fine place nodes j making = Unit
Fine place nodes j (loaded h) = place h ≡ shared
Fine place nodes j (ready h n) = (place h ≡ shared) × ((nodes h).next ≡ n)
Fine place nodes j (freeing n) = place n ≡ private_to j
Fine place nodes j (saw n h) = place n ≡ private_to j
Fine place nodes j (linked n h) = (place n ≡ private_to j) × ((nodes n).next ≡ h)

-- Nodes of one place keep it, and what they link to.
abbrev pub Stays : (ℕ → Place) → (ℕ → Node) → (ℕ → Place) → (ℕ → Node) → Place → Type 0
Stays place nodes place' nodes' p = (x : ℕ) → place x ≡ p → (place' x ≡ p) × (nodes' x ≡ nodes x)

module _ (place : ℕ → Place) (nodes : ℕ → Node) (place' : ℕ → Place) (nodes' : ℕ → Node)
    (still : Stays place nodes place' nodes' shared) where
  pub Fine-Stays :
      (j : ℕ)
      → Stays place nodes place' nodes' (private_to j)
      → (p : Pc) → Fine place nodes j p
      → Fine place' nodes' j p
  Fine-Stays j own idle h = tt
  Fine-Stays j own allocating h = tt
  Fine-Stays j own making h = tt
  Fine-Stays j own (loaded x) h = (still x h).0
  Fine-Stays j own (ready x n) (h, e) = ((still x h).0, ap (λ (a : Node). a.next) (still x h).1 ∙ e)
  Fine-Stays j own (freeing x) h = (own x h).0
  Fine-Stays j own (saw x n) h = (own x h).0
  Fine-Stays j own (linked x n) (h, e) = ((own x h).0, ap (λ (a : Node). a.next) (own x h).1 ∙ e)

  pub Chain-Stays :
      (head : Option ℕ) (ns : List ℕ)
      → All (λ x. place x ≡ shared) ns
      → Chain nodes head ns
      → All (λ x. place' x ≡ shared) ns × Chain nodes' head ns × (vals nodes' ns ≡ vals nodes ns)
  Chain-Stays head [] a c = (tt, c, refl)
  Chain-Stays head (n ∷ ns) (e, a) (h, c) =
      let (e', same) = still n e in
      let (a', c', v) = Chain-Stays (nodes n).next ns a c in
      ((e', a'), (h, rw same c'), rw (same, v) refl)

pub update_at {ℓ} : {A : Type ℓ} (f : ℕ → A) (i : ℕ) (a : A) → update f i a i ≡ a
update_at f i a = elim (ℕ_discrete i i) as (λ d. (elim d [ yes _ ↦ a | no _ ↦ f i ]) ≡ a) [
  | yes _ ↦ refl
  | no ne ↦ absurd (ne refl)
]

pub update_off {ℓ} : {A : Type ℓ} (f : ℕ → A) (i j : ℕ) (a : A) → i ≢ j → update f i a j ≡ f j
update_off f i j a ne = elim (ℕ_discrete i j) as (λ d. (elim d [ yes _ ↦ a | no _ ↦ f j ]) ≡ f j) [
  | yes e ↦ absurd (ne e)
  | no _ ↦ refl
]
