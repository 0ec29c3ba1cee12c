-- ===== src/Analysis/Lifetime/Ownership/History.antt =====
-- The trackers that the operations of lifetime/ownership.go make, and what they answer.
use rustygo.Base.{ℕ, ◌≡◌, refl, sym, ◌∙◌, inl, inr, Option, none, some, List, [], ◌∷◌}
use rustygo.Analysis.Ssa.{Ref}
use rustygo.Analysis.Lifetime.Ownership.{
  OwnershipTracker, new_ownership_tracker, register_alloc, get_root, linked, add_alias, put,
}
use rustygo.Analysis.Lifetime.Ownership.Chains.{Chain, some_inj, none_ne_some, unlinked, Chain-root}
use rustygo.Analysis.Lifetime.Ownership.Compression.{
  IsTracked, get_root_lem, get_root-Shortens, get_root_of, get_root-IsTracked,
  register_alloc-IsTracked, root_kept, add_alias-IsTracked, root-Chain,
}

pub data Action : Type 0 where
  registered : (alloc : Ref) → ℕ → Action
  aliased : (v src : Ref) → Action
  looked_up : Ref → Action

unfoldable pub act : OwnershipTracker → Action → OwnershipTracker
act t (registered v scope) = register_alloc t v scope
act t (aliased v src) = add_alias t v src
act t (looked_up v) = (get_root t v).1

-- The tracker after the actions, of which the last is at the head of the list.
unfoldable pub tracker_after : List Action → OwnershipTracker
unfolding act
tracker_after [] = new_ownership_tracker
tracker_after (a ∷ past) = act (tracker_after past) a

act-IsTracked : (t : OwnershipTracker) (a : Action) → IsTracked t → IsTracked (act t a)
unfolding act
act-IsTracked t (registered v scope) k = register_alloc-IsTracked t k v scope
act-IsTracked t (aliased v src) k = add_alias-IsTracked t k v src
act-IsTracked t (looked_up v) k = get_root-IsTracked t k v

tracker_after-IsTracked : (past : List Action) → IsTracked (tracker_after past)
unfolding tracker_after new_ownership_tracker
tracker_after-IsTracked [] = record { chains = λ v u e. absurd cc }
tracker_after-IsTracked (a ∷ past) =
    act-IsTracked (tracker_after past) a (tracker_after-IsTracked past)

-- On every tracker that the operations make, `GetRoot` of a value that has an alias ends, within the fuel, with
-- an allocation or value that is its own root.
pub get_root_total :
    (past : List Action) (v u : Ref)
    → (tracker_after past).aliases v ≡ some u
    → (r : Ref) × ((get_root (tracker_after past) v).0 ≡ some r)
      × ((get_root (tracker_after past) r).0 ≡ some r)
get_root_total past v u e =
    let t = tracker_after past in
    let k = tracker_after-IsTracked past in
    elim (get_root_lem t k v) [
      | inl (f, g) ↦ absurd (none_ne_some (sym f ∙ e))
      | inr (r, n, b, c, f) ↦ (r, f, get_root_of t k 0 r r (refl, Chain-root t.aliases n v r c))
    ]

-- The path compression of one lookup changes the answer of no other: on every tracker that the operations make,
-- `GetRoot` of a value answers the same before and after `GetRoot` of any value.
pub get_root_stable :
    (past : List Action) (w v : Ref)
    → (get_root (get_root (tracker_after past) w).1 v).0 ≡ (get_root (tracker_after past) v).0
get_root_stable past w v =
    let t = tracker_after past in
    let k = tracker_after-IsTracked past in
    let t' = (get_root t w).1 in
    let k' = get_root-IsTracked t k w in
    elim (get_root_lem t k v) [
      | inl (f, g) ↦ elim (get_root_lem t' k' v) [
        | inl (f', g') ↦ g' ∙ sym g
        | inr (r, n, b, c, g') ↦
            absurd (unlinked t'.aliases n v r c ((get_root-Shortens t k w).outside v f))
      ]
      | inr (r, n, b, c, g) ↦
          let (j, le, c') = (get_root-Shortens t k w).roots n v r c in
          get_root_of t' k' j v r c' ∙ sym g
    ]

linked-Chain :
    (v r : Ref) (c : ℕ) (o : Option Ref) (t : OwnershipTracker)
    → o ≡ some r
    → Chain (put t.aliases v (some r)) c v r
    → Chain (linked v (o, t)).aliases c v r
linked-Chain v r c none t e l = absurd (none_ne_some e)
linked-Chain v r c (some s) t e l = rw (some_inj e) l

-- On every tracker that the operations make: after `AddAlias(v, src)`, where `src` has a root, the root of `v` is
-- the one that `src` had.
pub add_alias-root :
    (past : List Action) (v src r : Ref)
    → (get_root (tracker_after past) src).0 ≡ some r
    → (get_root (add_alias (tracker_after past) v src) v).0 ≡ some r
unfolding add_alias
add_alias-root past v src r e =
    let t = tracker_after past in
    let k = tracker_after-IsTracked past in
    let (c, le, l) = root-Chain (get_root t src).1.aliases v r (root_kept t k src r e) in
    get_root_of (add_alias t v src) (add_alias-IsTracked t k v src) c v r
      (linked-Chain v r c (get_root t src).0 (get_root t src).1 e l)
