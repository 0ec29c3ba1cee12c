-- ===== src/Analysis/Summary/Values.antt =====
-- `analyzeValueFlow` of summary/analyzer.go: whether a value escapes, is returned or is stored.
pub mod Fuel
use rustygo.Base.{
  ℕ, zero, suc, Bool, true, false, ◌||◌, Option, none, some, List, [], ◌∷◌, ◌==◌, if◌then◌else◌,
  length, get_elem?, map,
}
use rustygo.Analysis.Ssa.{
  Ref, Op, Instruction, Function, instructions, ret, store, send, go_call, call, field_addr,
  index_addr, CallCommon,
}
use rustygo.Analysis.Summary.{ParamSummary, FunctionSummary, SummaryMap, summary_of}
use rustygo.Analysis.Lifetime.Graph.{NodeId, of_value, has_node}

pub record Flags : Type 0 where
  pub escapes : Bool
  pub returned : Bool
  pub stored : Bool

abbrev pub flags : Bool → Bool → Bool → Flags
flags e r s = record { escapes = e; returned = r; stored = s }

abbrev pub both : Flags → Flags → Flags
both a b = flags (a.escapes || b.escapes) (a.returned || b.returned) (a.stored || b.stored)

unfoldable pub is_operand : Ref → List Ref → Bool
is_operand v [] = false
is_operand v (o ∷ os) = if o == v then true else is_operand v os

-- The instructions that have the value as an operand.
unfoldable pub uses : Ref → List Instruction → List Instruction
unfolding is_operand
uses v [] = []
uses v (i ∷ is) = let rest = uses v is in if is_operand v i.operands then i ∷ rest else rest

abbrev pub param_flags : Option ParamSummary → Flags
param_flags none = flags false false false
param_flags (some p) = flags p.escapes false p.stored

-- The arguments of a call that are the value, from argument `i`, by the callee's parameters.
unfoldable pub argument_flags : Ref → List ParamSummary → ℕ → List Ref → Flags
argument_flags v ps i [] = flags false false false
argument_flags v ps i (arg ∷ args) =
    let rest = argument_flags v ps (suc i) args in
    if arg == v then both (param_flags (get_elem? ps i)) rest else rest

abbrev pub known_flags : Ref → List Ref → Option FunctionSummary → Flags
unfolding argument_flags
known_flags v args none = flags true false false
known_flags v args (some s) = argument_flags v s.params 0 args

abbrev pub callee_flags : SummaryMap → Ref → List Ref → Option (ℕ × Bool) → Flags
unfolding argument_flags summary_of
callee_flags ss v args none = flags true false false
callee_flags ss v args (some (name, has_pkg)) = known_flags v args (summary_of ss name)

-- What a use of the value says at once.
unfoldable pub use_flags : SummaryMap → Ref → Op → Flags
unfolding argument_flags summary_of
use_flags ss v (ret rs) = flags true true false
use_flags ss v (store addr x) = let b = x == v in flags b false b
use_flags ss v (send c x) = flags (x == v) false false
use_flags ss v (go_call c) = flags true false false
use_flags ss v (call c) = callee_flags ss v c.args c.static_callee
use_flags ss v o = flags false false false

-- A use whose own value is followed.
abbrev pub is_address : Op → Bool
is_address (field_addr x) = true
is_address (index_addr x) = true
is_address o = false

-- The values visited, as nodes, and what was found. `none` is out of fuel.
abbrev pub Found : Type 0
Found = Option (Flags × List NodeId)

abbrev pub and_flags : Flags → Found → Found
and_flags fl none = none
and_flags fl (some (more, vs)) = some (both fl more, vs)

abbrev pub and_then : Found → (List NodeId → Found) → Found
and_then none f = none
and_then (some (fl, vs)) f = and_flags fl (f vs)

unfoldable pub follow :
    (Ref → List NodeId → Found) → SummaryMap → Ref → List Instruction → List NodeId → Found
unfolding use_flags
follow visit ss v [] vs = some (flags false false false, vs)
follow visit ss v (i ∷ is) vs =
    let rest = follow visit ss v is in
    if is_address i.op
    then and_then (visit i.self vs) rest
    else and_flags (use_flags ss v i.op) (rest vs)

-- `instrs` are those of `val.Parent()`: the values are a parameter of the function and its own instructions, so
-- `Parent()` is never nil and always the same function.
unfoldable pub analyze_value_flow : SummaryMap → List Instruction → ℕ → Ref → List NodeId → Found
unfolding follow uses has_node
analyze_value_flow ss instrs zero v vs = none
analyze_value_flow ss instrs (suc fuel) v vs =
    if has_node (of_value v) vs
    then some (flags false false false, vs)
    else follow (analyze_value_flow ss instrs fuel) ss v (uses v instrs) (of_value v ∷ vs)

-- From a parameter; every further value is an instruction of the function.
unfoldable pub value_flow : SummaryMap → Function → Ref → Found
unfolding analyze_value_flow instructions
value_flow ss fn v =
    let is = instructions fn.blocks in analyze_value_flow ss is (suc (suc (length is))) v []
