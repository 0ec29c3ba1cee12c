-- ===== src/Analysis/Escape.antt =====
-- escape/classifier.go: where an allocation goes, by what the lifetime analysis reports of it.
use rustygo.Base.{Bool, true, false, ◌||◌, Option, none, some, List, [], ◌∷◌, map, if◌then◌else◌}
use rustygo.Analysis.Lifetime.Types.{LifetimeState, safe, unsafe, unknown, ViolationType}
use rustygo.Analysis.Lifetime.Types
use rustygo.Analysis.Lifetime.Graph.{NodeId}
use rustygo.Analysis.Lifetime.Report.{ObjectId, LifetimeReport, LifetimeResult, report_of}

-- The underlying types of go/types, as far as the analyses tell them apart.
mutual
  pub data GoType : Type 0 where
    pointer slice chan : GoType → GoType
    map_of signature interface basic : GoType
    array : GoType → GoType
    struct : Fields → GoType

  pub data Fields : Type 0 where
    no_fields : Fields
    with_field : GoType → Fields → Fields

unfoldable mutual
  -- `HasPointers` of lifetime/types.go
  pub has_pointers : GoType → Bool
  has_pointers (pointer t) = true
  has_pointers (slice t) = true
  has_pointers (chan t) = true
  has_pointers map_of = true
  has_pointers signature = true
  has_pointers interface = true
  has_pointers basic = false
  has_pointers (array t) = has_pointers t
  has_pointers (struct fs) = field_has_pointers fs

  pub field_has_pointers : Fields → Bool
  field_has_pointers no_fields = false
  field_has_pointers (with_field t fs) = has_pointers t || field_has_pointers fs

-- nil is `none`
unfoldable pub allocated_elem_type : GoType → Option GoType
allocated_elem_type (pointer t) = some t
allocated_elem_type (slice t) = some t
allocated_elem_type map_of = none
allocated_elem_type (chan t) = none
allocated_elem_type t = some t

pub data Decision : Type 0 where
  arena heap undecided : Decision

pub data EscapeReason : Type 0 where
  no_escape escapes_return escapes_closure escapes_goroutine escapes_global escapes_interface
        escapes_channel escapes_map :
      EscapeReason
  escapes_slice escapes_unsafe escapes_external_call unknown_lifetime : EscapeReason

abbrev pub violation_reason : ViolationType → EscapeReason
violation_reason Types.escaped_return = escapes_return
violation_reason Types.escaped_closure = escapes_closure
violation_reason Types.escaped_global = escapes_global
violation_reason Types.escaped_interface = escapes_interface
violation_reason Types.escaped_channel = escapes_channel
violation_reason Types.escaped_map = escapes_map
violation_reason Types.escaped_slice = escapes_slice
violation_reason Types.escaped_reflection = escapes_unsafe
violation_reason Types.escaped_unsafe = escapes_unsafe
violation_reason Types.unknown_call = escapes_external_call
violation_reason v = unknown_lifetime

unfoldable pub map_violation : List ViolationType → EscapeReason
map_violation [] = unknown_lifetime
map_violation (v ∷ vs) = violation_reason v

-- An allocation of the allocation analysis: its ID and its type.
pub record Allocation : Type 0 where
  pub id : ObjectId
  pub type : GoType

pub record AllocationDecision : Type 0 where
  pub allocation : Allocation
  pub decision : Decision
  pub reason : EscapeReason
  pub path : List NodeId

abbrev pub has_pointers_if : Option GoType → Bool
unfolding has_pointers
has_pointers_if none = false
has_pointers_if (some t) = has_pointers t

unfoldable pub decide_state : GoType → LifetimeState → List ViolationType → Decision × EscapeReason
unfolding has_pointers allocated_elem_type map_violation
decide_state t safe vs =
    if has_pointers_if (allocated_elem_type t) then (heap, escapes_unsafe) else (arena, no_escape)
decide_state t unsafe vs = (heap, map_violation vs)
decide_state t unknown vs = (undecided, map_violation vs)

abbrev pub decide : Allocation → Option LifetimeReport → AllocationDecision
unfolding decide_state
decide a none = record {
  allocation = a;
  decision = undecided;
  reason = unknown_lifetime;
  path = [];
}
decide a (some r) =
    let (decision, reason) = decide_state a.type r.lifetime_state r.lifetime_violations in
    record { allocation = a; decision = decision; reason = reason; path = r.references }

unfoldable pub classify : List Allocation → LifetimeResult → List AllocationDecision
unfolding decide_state report_of
classify allocs lifetimes =
    map (λ (a : Allocation). decide a (report_of lifetimes.reports a.id)) allocs
