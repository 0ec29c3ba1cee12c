-- ===== src/Analysis/Lifetime/Ownership.antt =====
-- lifetime/ownership.go: aliases of allocations as a forest of links, with path compression.
pub mod Chains
pub mod Compression
pub mod History
use rustygo.Base.{ℕ, zero, suc, Bool, true, false, Option, none, some, ◌==◌, if◌then◌else◌}
use rustygo.Analysis.Ssa.{Ref}

abbrev pub Aliases : Type 0
Aliases = Ref → Option Ref

-- `m[k] = v`. A nil value is kept as no entry: `GetRoot` answers nil for both.
abbrev pub put : Aliases → Ref → Option Ref → Aliases
put m k v j = if j == k then v else m j

-- `links` counts the calls of `AddAlias`: no chain of aliases is longer.
pub record OwnershipTracker : Type 0 where
  pub aliases : Aliases
  pub owners : Ref → Option ℕ
  pub links : ℕ

unfoldable pub new_ownership_tracker : OwnershipTracker
new_ownership_tracker = record { aliases = λ _. none; owners = λ _. none; links = 0 }

unfoldable pub register_alloc : OwnershipTracker → Ref → ℕ → OwnershipTracker
register_alloc t alloc owner_scope = record t {
  aliases = put t.aliases alloc (some alloc);
  owners = put t.owners alloc (some owner_scope);
}

abbrev pub compressed : Ref → Option Ref × Aliases → Option Ref × Aliases
compressed v (resolved, m) = (resolved, put m v resolved)

-- `GetRoot` for a non-nil value, with fuel for the recursion, and the map that path compression leaves.
unfoldable pub root_loop : ℕ → Aliases → Ref → Option Ref × Aliases
root_loop zero m v = (none, m)
root_loop (suc fuel) m v = elim (m v) [
  | none ↦ (none, m)
  | some root ↦ elim (root == v) [
    | true ↦ (some root, m)
    | false ↦ compressed v (root_loop fuel m root)
  ]
]

unfoldable pub get_root : OwnershipTracker → Ref → Option Ref × OwnershipTracker
get_root t v = let (r, m) = root_loop (suc t.links) t.aliases v in (r, record t { aliases = m })

abbrev pub linked : Ref → Option Ref × OwnershipTracker → OwnershipTracker
linked v (none, t) = t
linked v (some root, t) = record t { aliases = put t.aliases v (some root); links = suc t.links }

unfoldable pub add_alias : OwnershipTracker → Ref → Ref → OwnershipTracker
add_alias t v src = linked v (get_root t src)

abbrev pub owner_at : Option Ref × OwnershipTracker → Option ℕ
owner_at (none, t) = none
owner_at (some root, t) = t.owners root

-- The empty string stands for no owner.
unfoldable pub get_owner : OwnershipTracker → Ref → Option ℕ
get_owner t v = owner_at (get_root t v)
