-- ===== src/Analysis/Lifetime/Graph/Nodes.antt =====
-- Lists of nodes of the flow graph: membership, and how many nodes of a list are not yet visited.
use rustygo.Base.{
  ℕ, suc, ◌≤◌, ◌<◌, true, false, ◌≡◌, refl, ap, ◌⊎◌, inl, inr, List, [], ◌∷◌, ==_iff, if◌then◌else◌,
  length, map, Bool-cases, arith,
}
use mathlib.Core.List.{Memᴰ}
use mathlib.Core.List.Memᴰ
use rustygo.Analysis.Lifetime.Graph.{
  NodeId, of_value, of_instr, same_node, has_node, GraphEdge, adjacency,
}

pub eq_of-same_node : (a b : NodeId) → same_node a b ≡ true → a ≡ b
unfolding same_node
eq_of-same_node (of_value a) (of_value b) h = ap of_value ((==_iff a b).0 h)
eq_of-same_node (of_value a) (of_instr b) h = cc
eq_of-same_node (of_instr a) (of_value b) h = cc
eq_of-same_node (of_instr a) (of_instr b) h = ap of_instr ((==_iff a b).0 h)

pub same_node_self : (a : NodeId) → same_node a a ≡ true
unfolding same_node
same_node_self (of_value a) = (==_iff a a).1 refl
same_node_self (of_instr a) = (==_iff a a).1 refl

pub has_node-cons_self : (n : NodeId) (ms : List NodeId) → has_node n (n ∷ ms) ≡ true
unfolding has_node
has_node-cons_self n ms = rw (same_node_self n)

pub has_node-cons_of :
    (n m : NodeId) (ms : List NodeId) → has_node n ms ≡ true → has_node n (m ∷ ms) ≡ true
unfolding has_node
has_node-cons_of n m ms h = ground arith

pub has_node-cons :
    (n m : NodeId) (ms : List NodeId)
    → has_node n (m ∷ ms) ≡ true
    → (n ≡ m) ⊎ (has_node n ms ≡ true)
unfolding has_node
has_node-cons n m ms h = elim (Bool-cases (same_node n m)) [
  | inl e ↦ inl (eq_of-same_node n m e)
  | inr e ↦ inr (rw e at h)
]

-- How many nodes of the first list are not in the second.
abbrev pub unvisited : List NodeId → List NodeId → ℕ
unvisited [] vs = 0
unvisited (u ∷ us) vs = if has_node u vs then unvisited us vs else suc (unvisited us vs)

pub unvisited-nil : (us : List NodeId) → unvisited us [] ≡ length us
unfolding has_node
unvisited-nil [] = refl
unvisited-nil (u ∷ us) = ap suc (unvisited-nil us)

pub unvisited_mono :
    (us vs ws : List NodeId)
    → ((x : NodeId) → has_node x vs ≡ true → has_node x ws ≡ true)
    → unvisited us ws ≤ unvisited us vs
unvisited_mono [] vs ws h = omega arith
unvisited_mono (u ∷ us) vs ws h = ground (arith, unvisited_mono us vs ws h, h u)

-- A visit of a node of the list makes the count smaller.
pub unvisited_less :
    (us vs : List NodeId) (n : NodeId)
    → Memᴰ n us
    → has_node n vs ≡ false
    → unvisited us (n ∷ vs) < unvisited us vs
unvisited_less [] vs n m h = absurd (Memᴰ.not-nil m)
unvisited_less (u ∷ us) vs n m h =
    let rest = unvisited_mono us vs (n ∷ vs) (λ x. has_node-cons_of x n vs) in
    let seen = has_node-cons_of u n vs in
    elim (Memᴰ.cases_cons m) [
      | inl e ↦ ground (arith, rest, e, h, has_node-cons_self n vs)
      | inr k ↦ ground (arith, unvisited_less us vs n k h, seen)
    ]

-- The nodes that the edges of a node lead to.
abbrev pub targets : List GraphEdge → NodeId → List NodeId
targets edges n = map (λ (e : GraphEdge). e.to) (adjacency edges n)

pub targets_in :
    (edges : List GraphEdge) (n m : NodeId)
    → Memᴰ m (targets edges n)
    → Memᴰ m (map (λ (e : GraphEdge). e.to) edges)
unfolding adjacency
targets_in [] n m k = k
targets_in (e ∷ edges) n m k = elim (Bool-cases (same_node e.from n)) [
  | inl t ↦ elim (Memᴰ.cases_cons (rw t at k)) [
    | inl now ↦ Memᴰ.head now
    | inr later ↦ Memᴰ.tail (targets_in edges n m later)
  ]
  | inr t ↦ Memᴰ.tail (targets_in edges n m (rw t at k))
]
