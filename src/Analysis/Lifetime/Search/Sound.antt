-- ===== src/Analysis/Lifetime/Search/Sound.antt =====
-- The search of lifetime/escapes.go finds an escape exactly when one can be reached.
use rustygo.Base.{
  suc, true, Option, none, some, ◌≡◌, refl, sym, ◌⊎◌, inl, inr, List, [], ◌∷◌, length, length-map,
  arith,
}
use mathlib.Core.List.{Memᴰ}
use mathlib.Core.List.Memᴰ
use rustygo.Analysis.Lifetime.Graph.{NodeId, has_node, GraphEdge}
use rustygo.Analysis.Lifetime.Graph.Nodes.{unvisited-nil, targets}
use rustygo.Analysis.Lifetime.Search.{
  Verdict, Walk, Dfs, hit, missed, out_of_fuel, dfs, check_escape,
}
use rustygo.Analysis.Lifetime.Search.Visits.{Trail, here, along, After, all_nodes, dfs-After}

module _ (verdict_of : NodeId → Option Verdict) (edges : List GraphEdge) where
  abbrev Answers : NodeId → Dfs → Type 0
  Answers root (hit v w) = (x : NodeId) × Trail edges root w.path x × (verdict_of x ≡ some v)
  Answers root (missed w) =
      (x : NodeId)
      → has_node x w.visited ≡ true
      → (verdict_of x ≡ none)
        × ((y : NodeId) → Memᴰ y (targets edges x) → has_node y w.visited ≡ true)
  Answers root out_of_fuel = ⊥

  -- What `check_escape` ends with: the answer, and on a miss the root among the nodes visited.
  abbrev Visited : NodeId → Dfs → Type 0
  Visited root (missed w) = has_node root w.visited ≡ true
  Visited root r = Unit

  After-Answers :
      (root : NodeId) (r : Dfs)
      → After verdict_of edges (root ∷ []) (record { visited = []; path = [] }) r
      → Answers root r × Visited root r
  unfolding has_node
  After-Answers root (hit v w) (n, p, x, k, t, e, q) =
      ((x, rw (q, sym (Memᴰ.eq_of_singleton k)) t, e), tt)
  After-Answers root (missed w) ((grows, clean, q), seen) =
      (λ x k. elim (clean x k) [ inl old ↦ cc | inr fresh ↦ fresh ], seen root (Memᴰ.head refl))
  After-Answers root out_of_fuel h = absurd h

  check_escape-Answers :
      (root : NodeId)
      → Answers root (check_escape verdict_of edges root)
        × Visited root (check_escape verdict_of edges root)
  unfolding check_escape has_node
  check_escape-Answers root =
      After-Answers root
        (dfs verdict_of edges (suc (suc (length edges))) root (record { visited = []; path = [] }))
        (dfs-After verdict_of edges root (suc (suc (length edges))) root
          (record { visited = []; path = [] }) (Memᴰ.head refl)
          (omega (
            arith,
            unvisited-nil (all_nodes verdict_of edges root),
            length-map edges (λ (e : GraphEdge). e.to),
          )))

  -- On a miss, every node that the root reaches was visited.
  Trail-end :
      (vs : List NodeId)
      → ((x : NodeId)
          → has_node x vs ≡ true
          → (verdict_of x ≡ none)
            × ((y : NodeId) → Memᴰ y (targets edges x) → has_node y vs ≡ true))
      → {n x : NodeId} {p : List NodeId} → Trail edges n p x
      → has_node n vs ≡ true
      → verdict_of x ≡ none
  Trail-end vs h here k = (h _ k).0
  Trail-end vs h (along m t) k = Trail-end vs h t ((h _ k).1 _ m)

  -- For every graph and every check of the nodes, the search from an allocation ends: with no escape, or with
  -- the verdict of a node to which the reported path leads from the allocation along the edges.
  pub check_escape_sound :
      (root : NodeId)
      → ((w : Walk) × (check_escape verdict_of edges root ≡ missed w))
        ⊎ ((v : Verdict) × (w : Walk) × (x : NodeId) × (check_escape verdict_of edges root
              ≡ hit v w)
            × Trail edges root w.path x
            × (verdict_of x ≡ some v))
  check_escape_sound root =
      by_answer (check_escape verdict_of edges root) (check_escape-Answers root).0
    where
      by_answer :
          (r : Dfs)
          → Answers root r
          → ((w : Walk) × (r ≡ missed w))
            ⊎ ((v : Verdict) × (w : Walk) × (x : NodeId) × (r ≡ hit v w)
                × Trail edges root w.path x
                × (verdict_of x ≡ some v))
      by_answer (hit v w) (x, t, e) = inr (v, w, x, refl, t, e)
      by_answer (missed w) h = inl (w, refl)
      by_answer out_of_fuel h = absurd h

  -- Where the edges lead from the allocation to a node whose check gives a verdict, the search reports an escape.
  pub check_escape_complete :
      (root x : NodeId) (p : List NodeId) (v : Verdict)
      → Trail edges root p x
      → verdict_of x ≡ some v
      → (d : Verdict) × (w : Walk) × (check_escape verdict_of edges root ≡ hit d w)
  check_escape_complete root x p v t e =
      let (answers, visited) = check_escape-Answers root in
      by_answer (check_escape verdict_of edges root) answers visited
    where
      by_answer :
          (r : Dfs) → Answers root r → Visited root r → (d : Verdict) × (w : Walk) × (r ≡ hit d w)
      by_answer (hit d w) h k = (d, w, refl)
      by_answer (missed w) h k = let nothing = Trail-end w.visited h t k in absurd cc
      by_answer out_of_fuel h k = absurd h
