-- ===== src/Analysis/Lifetime/Search/Visits.antt =====
-- What one call of the search of lifetime/escapes.go leaves, and why its fuel is enough.
use rustygo.Base.{
  ℕ, zero, suc, ◌<◌, true, Option, none, some, ◌≡◌, refl, ap, ◌∙◌, ◌⊎◌, inl, inr, List, [], ◌∷◌,
  ◌++◌, map, Bool-cases, Option-cases, arith,
}
use mathlib.Core.List.{append_assoc}
use mathlib.Core.List.{Memᴰ}
use mathlib.Core.List.Memᴰ
use rustygo.Analysis.Lifetime.Graph.{NodeId, has_node, GraphEdge, adjacency}
use rustygo.Analysis.Lifetime.Graph.Nodes.{
  has_node-cons, has_node-cons_self, has_node-cons_of, unvisited, unvisited_mono, unvisited_less,
  targets, targets_in,
}
use rustygo.Analysis.Lifetime.Search.{
  Verdict, Walk, Dfs, hit, missed, out_of_fuel, or_next, each, pop_path, enter, dfs,
}

-- The nodes of a path along the edges, from the first node to the last.
pub data Trail (edges : List GraphEdge) : NodeId → List NodeId → NodeId → Type 0 where
  here : {n : NodeId} → Trail edges n (n ∷ []) n
  along :
      {n m x : NodeId} {p : List NodeId}
      → Memᴰ m (targets edges n)
      → Trail edges m p x
      → Trail edges n (n ∷ p) x

module _ (verdict_of : NodeId → Option Verdict) (edges : List GraphEdge) where
  abbrev pub Grows : List NodeId → List NodeId → Type 0
  Grows vs ws = (x : NodeId) → has_node x vs ≡ true → has_node x ws ≡ true

  -- Every node that is new in `ws` is checked, and all its edges lead into `ws`.
  abbrev pub Clean : List NodeId → List NodeId → Type 0
  Clean vs ws =
      (x : NodeId)
      → has_node x ws ≡ true
      → (has_node x vs ≡ true)
        ⊎ ((verdict_of x ≡ none) × ((y : NodeId) → Memᴰ y (targets edges x) → has_node y ws ≡ true))

  abbrev pub Keeps : Walk → Walk → Type 0
  Keeps w v = Grows w.visited v.visited × Clean w.visited v.visited × (v.path ≡ w.path)

  Keeps-trans : (u v w : Walk) → Keeps u v → Keeps v w → Keeps u w
  Keeps-trans u v w (g, c, p) (g', c', p') = (
    λ x k. g' x (g x k),
    λ x k. elim (c' x k) [
      | inl old ↦ elim (c x old) [
        | inl older ↦ inl older
        | inr (e, out) ↦ inr (e, λ y m. g' y (out y m))
      ]
      | inr fresh ↦ inr fresh
    ],
    p' ∙ p,
  )

  -- What a visit of one of the nodes `ts` ends with.
  abbrev pub After : List NodeId → Walk → Dfs → Type 0
  After ts w (hit v w') =
      (n : NodeId) × (p : List NodeId) × (x : NodeId) × Memᴰ n ts
      × Trail edges n p x
      × (verdict_of x ≡ some v)
      × (w'.path ≡ w.path ++ p)
  After ts w (missed w') = Keeps w w' × ((n : NodeId) → Memᴰ n ts → has_node n w'.visited ≡ true)
  After ts w out_of_fuel = ⊥

  abbrev Visits : (NodeId → Walk → Dfs) → List NodeId → List NodeId → Type 0
  Visits visit ts vs =
      (n : NodeId) (w : Walk) → Memᴰ n ts → Grows vs w.visited → After (n ∷ []) w (visit n w)

  abbrev destinations : List GraphEdge → List NodeId
  destinations es = map (λ (e : GraphEdge). e.to) es

  -- The node `n` was visited on the way from `w` to `v`.
  After-skip :
      (n : NodeId) (ts : List NodeId) (w v : Walk) (r : Dfs)
      → Keeps w v
      → has_node n v.visited ≡ true
      → After ts v r
      → After (n ∷ ts) w r
  After-skip n ts w v (hit d w') kept seen (m, p, x, k, t, e, q) =
      (m, p, x, Memᴰ.tail k, t, e, q ∙ ap (λ l. l ++ p) kept.2)
  After-skip n ts w v (missed w') kept seen (kept', seen') = (
    Keeps-trans w v w' kept kept',
    λ m k. elim (Memᴰ.cases_cons k) [ inl e ↦ kept'.0 m (rw e seen) | inr later ↦ seen' m later ],
  )
  After-skip n ts w v out_of_fuel kept seen h = h

  or_next-After :
      (n : NodeId) (ts : List NodeId) (w : Walk) (r : Dfs) (f : Walk → Dfs)
      → After (n ∷ []) w r
      → ((v : Walk) → Keeps w v → After ts v (f v))
      → After (n ∷ ts) w (or_next r f)
  or_next-After n ts w (hit v w') f (m, p, x, k, t, e, q) g =
      (m, p, x, Memᴰ.head (Memᴰ.eq_of_singleton k), t, e, q)
  or_next-After n ts w (missed v) f (kept, seen) g =
      After-skip n ts w v (f v) kept (seen n (Memᴰ.head refl)) (g v kept)
  or_next-After n ts w out_of_fuel f h g = absurd h

  each-After :
      (visit : NodeId → Walk → Dfs) (es : List GraphEdge) (w : Walk)
      → Visits visit (destinations es) w.visited
      → After (destinations es) w (each visit es w)
  unfolding each
  each-After visit [] w h = ((λ x k. k, λ x k. inl k, refl), λ n m. absurd (Memᴰ.not-nil m))
  each-After visit (e ∷ es) w h =
      or_next-After e.to (destinations es) w (visit e.to w) (each visit es)
        (h e.to w (Memᴰ.head refl) (λ x k. k))
        (λ v kept. each-After visit es v (λ n u m g. h n u (Memᴰ.tail m) (λ x k. g x (kept.0 x k))))

  leave-After :
      (n : NodeId) (w : Walk) (r : Dfs)
      → verdict_of n ≡ none
      → After (targets edges n) (enter n w) r
      → After (n ∷ []) w (pop_path w.path r)
  leave-After n w (hit v w') e (m, p, x, k, t, e', q) =
      (n, n ∷ p, x, Memᴰ.head refl, along k t, e', q ∙ append_assoc w.path (n ∷ []) p)
  leave-After n w (missed w') e ((grows, clean, q), seen) = (
    (
      λ x k. grows x (has_node-cons_of x n w.visited k),
      λ x k. elim (clean x k) [
        | inl old ↦ elim (has_node-cons x n w.visited old) [
          | inl now ↦ inr (rw now e, rw now seen)
          | inr older ↦ inl older
        ]
        | inr fresh ↦ inr fresh
      ],
      refl,
    ),
    λ m k. rw (Memᴰ.eq_of_singleton k) (grows n (has_node-cons_self n w.visited)),
  )
  leave-After n w out_of_fuel e h = h

  -- The nodes that a search from `root` can visit.
  abbrev pub all_nodes : NodeId → List NodeId
  all_nodes root = root ∷ destinations edges

  pub dfs-After :
      (root : NodeId) (fuel : ℕ) (n : NodeId) (w : Walk)
      → Memᴰ n (all_nodes root)
      → unvisited (all_nodes root) w.visited < fuel
      → After (n ∷ []) w (dfs verdict_of edges fuel n w)
  unfolding dfs
  dfs-After root zero n w m h = absurd (omega arith)
  dfs-After root (suc fuel) n w m h = elim (Bool-cases (has_node n w.visited)) [
    | inl seen ↦ rw seen ((λ x k. k, λ x k. inl k, refl), λ x k. rw (Memᴰ.eq_of_singleton k) seen)
    | inr new ↦ elim (Option-cases (verdict_of n)) [
      | inr (v, e) ↦ rw (new, e) (n, n ∷ [], n, Memᴰ.head refl, here, e, refl)
      | inl e ↦
          rw (new, e)
            (leave-After n w (each (dfs verdict_of edges fuel) (adjacency edges n) (enter n w)) e (
              each-After (dfs verdict_of edges fuel) (adjacency edges n) (enter n w) (λ x u k g.
                dfs-After root fuel x u (Memᴰ.tail (targets_in edges n x k)) (
                  omega (
                    arith,
                    unvisited_less (all_nodes root) w.visited n m new,
                    unvisited_mono (all_nodes root) (n ∷ w.visited) u.visited g,
                    h,
                  )))))
    ]
  ]
