-- ===== src/Scope/Pooled.antt =====
-- `AllocMap` and `AllocChan` of arena.go: maps and channels of the Go heap that a scope takes from a `sync.Pool`
-- for their type and gives back when it exits. The type of a map or of a channel is never nil.
use rustygo.Base.{
  ℕ, suc, ◌≡◌, refl, Bool, true, false, not, Option, none, some, List, [], ◌==◌, ◌&&◌, leb_ℤ, ◌>>=◌,
  if◌then◌else◌, ℤ, pos, ltb_ℤ, Result, ok, panic, scope_inactive, negative_buffer, ◌⊎◌, inl, inr,
  Bool-cases, arith,
}
use rustygo.Memory.{Error}
use rustygo.Scope.{Scope, on_exit}
use rustygo.Pool.{SyncPool, put_at}

pub record Chan : Type 0 where
  pub buffer : List ℕ
  pub closed : Bool

-- Types, maps and channels are numbers; `made` counts what the pools' `New` functions made. A pool of channels
-- is for a type and a capacity.
pub record Shared (S : Type 0) : Type 0 where
  pub map_pools : ℕ → S
  pub chan_pools : ℕ → ℤ → S
  pub maps : ℕ → List (ℕ × ℕ)
  pub chans : ℕ → Chan
  pub made : ℕ

abbrev pub empty_chan : Chan
empty_chan = record { buffer = []; closed = false }

abbrev pub put_chan_pool : {S : Type 0} → Shared S → ℕ → ℤ → S → Shared S
put_chan_pool w t capacity q = record w {
  chan_pools =
      λ u c. if (u == t) && leb_ℤ c capacity && leb_ℤ capacity c then q else w.chan_pools u c;
}

module _ {S : Type 0} (sp : SyncPool S) where
  -- The clean-up function of a map.
  unfoldable pub return_map : ℕ → ℕ → Shared S → Shared S
  return_map t m w = record w {
    maps = put_at w.maps m [];
    map_pools = put_at w.map_pools t (sp.put (w.map_pools t) m);
  }

  abbrev pub take_map : ℕ → Shared S → Option ℕ × S → ℕ × Shared S
  take_map t w (some m, q) = (m, record w { map_pools = put_at w.map_pools t q })
  take_map t w (none, q) = (
    w.made,
    record w {
      map_pools = put_at w.map_pools t q;
      maps = put_at w.maps w.made [];
      made = suc w.made;
    },
  )

  unfoldable pub alloc_map :
      Scope (Shared S) → ℕ → Shared S → Result Error (ℕ × Scope (Shared S) × Shared S)
  unfolding return_map
  alloc_map s t w =
      let (m, w') = take_map t w (sp.get (w.map_pools t)) in
      if not s.active then panic scope_inactive else ok (m, on_exit s (return_map t m), w')

  -- The clean-up function of a channel receives until nothing is left. A closed channel is not kept.
  unfoldable pub return_chan : ℕ → ℤ → ℕ → Shared S → Shared S
  return_chan t capacity ch w =
      let drained = record w {
        chans = put_at w.chans ch (record { buffer = []; closed = (w.chans ch).closed });
      } in
      if (w.chans ch).closed
      then drained
      else put_chan_pool drained t capacity (sp.put (w.chan_pools t capacity) ch)

  abbrev pub take_chan : ℕ → ℤ → Shared S → Option ℕ × S → Result Error (ℕ × Shared S)
  take_chan t capacity w (some ch, q) = ok (ch, put_chan_pool w t capacity q)
  take_chan t capacity w (none, q) =
      if ltb_ℤ capacity (pos 0)
      then panic negative_buffer
      else ok (
        w.made,
        record (put_chan_pool w t capacity q) {
          chans = put_at w.chans w.made empty_chan;
          made = suc w.made;
        },
      )

  unfoldable pub alloc_chan :
      Scope (Shared S) → ℕ → ℤ → Shared S → Result Error (ℕ × Scope (Shared S) × Shared S)
  unfolding return_chan
  alloc_chan s t capacity w =
      if not s.active
      then panic scope_inactive
      else take_chan t capacity w (sp.get (w.chan_pools t capacity)) >>= λ r.
          ok (r.0, on_exit s (return_chan t capacity r.0), r.1)

-- What `sync.Pool` documents: `Get` hands out something that the pool has, and no call adds another thing than
-- `Put` its own.
pub record IsSyncPool {S : Type 0} (sp : SyncPool S) (Has : S → ℕ → Type 0) : Type 0 where
  pub from_put : (q : S) (m n : ℕ) → Has (sp.put q m) n → Has q n ⊎ (n ≡ m)
  pub from_get : (q : S) (m : ℕ) → (sp.get q).0 ≡ some m → Has q m
  pub less : (q : S) (n : ℕ) → Has (sp.get q).1 n → Has q n

module _ {S : Type 0} (sp : SyncPool S) (Has : S → ℕ → Type 0) (law : IsSyncPool sp Has) where
  -- Every map that a pool keeps is empty.
  abbrev pub Cleared : Shared S → Type 0
  Cleared w = (t m : ℕ) → Has (w.map_pools t) m → w.maps m ≡ []

  put_at_self : {A : Type 0} (f : ℕ → A) (o : ℕ) (a : A) → put_at f o a o ≡ a
  put_at_self f o a = ground arith

  -- The clean-up function of a map keeps the pools so, whatever the program has put into the map.
  pub return_map-Cleared : (t m : ℕ) (w : Shared S) → Cleared w → Cleared (return_map sp t m w)
  unfolding return_map
  return_map-Cleared t m w h u n k = elim (Bool-cases (n == m)) [
    | inl same ↦ rw same refl
    | inr other ↦ rw other (elim (Bool-cases (u == t)) [
      | inl here ↦ elim (law.from_put (w.map_pools t) m n (rw here at k)) [
        | inl kept ↦ h t n kept
        | inr new ↦ absurd (not_new other new)
      ]
      | inr there ↦ h u n (rw there at k)
    ])
  ]
    where
      not_new : (n == m) ≡ false → n ≡ m → ⊥
      not_new other new = ground arith

  take_map-Cleared :
      (t : ℕ) (w : Shared S)
      → Cleared w
      → let (m, w') = take_map sp t w (sp.get (w.map_pools t)) in (w'.maps m ≡ []) × Cleared w'
  take_map-Cleared t w h =
      go (sp.get (w.map_pools t)) (law.from_get (w.map_pools t)) (law.less (w.map_pools t))
    where
      after_get :
          (q : S)
          → ((n : ℕ) → Has q n → Has (w.map_pools t) n)
          → (u n : ℕ) → Has (put_at w.map_pools t q u) n
          → w.maps n ≡ []
      after_get q l u n k = elim (Bool-cases (u == t)) [
        | inl here ↦ h t n (l n (rw here at k))
        | inr there ↦ h u n (rw there at k)
      ]

      go :
          (r : Option ℕ × S)
          → ((m : ℕ) → r.0 ≡ some m → Has (w.map_pools t) m)
          → ((n : ℕ) → Has r.1 n → Has (w.map_pools t) n)
          → let (m, w') = take_map sp t w r in (w'.maps m ≡ []) × Cleared w'
      go (some m, q) f l = (h t m (f m refl), after_get q l)
      go (none, q) f l = (
        put_at_self w.maps w.made [],
        λ u n k. elim (Bool-cases (n == w.made)) [
          | inl same ↦ rw same refl
          | inr other ↦ rw other (after_get q l u n k)
        ],
      )

  -- Where the maps in the pools are empty, AllocMap on an active scope hands out an empty map, and the maps in the
  -- pools stay empty.
  pub alloc_map-Cleared :
      (s : Scope (Shared S)) (t : ℕ) (w : Shared S)
      → Cleared w
      → s.active ≡ true
      → (r : ℕ × Scope (Shared S) × Shared S) × (alloc_map sp s t w ≡ ok r)
        × (r.2.maps r.0 ≡ [])
        × Cleared r.2
  unfolding alloc_map
  alloc_map-Cleared s t w h e =
      let taken = take_map sp t w (sp.get (w.map_pools t)) in
      let (empty, cleared) = take_map-Cleared t w h in
      ((taken.0, on_exit s (return_map sp t taken.0), taken.1), rw e refl, empty, cleared)
