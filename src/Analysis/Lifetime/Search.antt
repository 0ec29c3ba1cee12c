-- ===== src/Analysis/Lifetime/Search.antt =====
-- lifetime/escapes.go: the depth-first search from an allocation for a node that lets it escape.
pub mod Visits
pub mod Sound
use rustygo.Base.{
  ℕ, zero, suc, Bool, true, false, ◌&&◌, ◌||◌, not, Option, none, some, List, [], ◌∷◌, ◌++◌, ◌==◌,
  if◌then◌else◌, length, get_elem?, map,
}
use rustygo.Analysis.Ssa.{Ref, Op, ret, go_call, send, call, make_interface, CallCommon}
use rustygo.Analysis.Summary.{ParamSummary, FunctionSummary, SummaryMap, summary_of}
use rustygo.Analysis.Lifetime.Types.{LifetimeState, unsafe, unknown, safe, ViolationType}
use rustygo.Analysis.Lifetime.Types
use rustygo.Analysis.Lifetime.Graph.{NodeId, of_value, of_instr, has_node, GraphEdge, adjacency}

-- The reasons that the code writes out, with the names they mention.
pub data Reason : Type 0 where
  stored_in_global : Ref → Reason
  returned_from_scope captured_by_goroutine sent_through_channel external_call interface_value :
      Reason
  no_summary param_escapes : ℕ → Reason
  remains_valid : Reason

pub record Verdict : Type 0 where
  pub state : LifetimeState
  pub violation : ViolationType
  pub reason : Reason

abbrev verdict : LifetimeState → ViolationType → Reason → Option Verdict
verdict s v r = some (record { state = s; violation = v; reason = r })

abbrev pub same_root : Option Ref → Option Ref → Bool
same_root (some a) (some b) = a == b
same_root none b = false
same_root a none = false

-- `GetRoot` is the argument `root`: path compression changes no answer of it.
unfoldable pub is_argument_matched : (Ref → Option Ref) → Ref → Ref → Bool
is_argument_matched root arg alloc =
    if arg == alloc then true else same_root (root arg) (root alloc)

abbrev pub escapes_at : Option ParamSummary → Bool
escapes_at none = false
escapes_at (some p) = p.escapes

-- `for idx, arg := range x.Call.Args`, from argument `i`
unfoldable pub argument_escapes : (Ref → Option Ref) → Ref → List ParamSummary → ℕ → List Ref → Bool
unfolding is_argument_matched
argument_escapes root alloc ps i [] = false
argument_escapes root alloc ps i (arg ∷ args) =
    if is_argument_matched root arg alloc && escapes_at (get_elem? ps i)
    then true
    else argument_escapes root alloc ps (suc i) args

abbrev pub summary_verdict :
    (Ref → Option Ref) → Ref → ℕ → List Ref → Option FunctionSummary → Option Verdict
summary_verdict root alloc name args none = verdict unknown Types.unknown_call (no_summary name)
summary_verdict root alloc name args (some s) =
    if not s.has_body || s.is_external
    then verdict unknown Types.unknown_call (no_summary name)
    else if argument_escapes root alloc s.params 0 args
    then verdict unsafe Types.unknown_call (param_escapes name)
    else none

abbrev pub call_verdict :
    (Ref → Option Ref) → SummaryMap → Ref → CallCommon → Option (ℕ × Bool) → Option Verdict
call_verdict root ss alloc c none = verdict unknown Types.unknown_call external_call
call_verdict root ss alloc c (some (name, false)) = verdict unknown Types.unknown_call external_call
call_verdict root ss alloc c (some (name, true)) =
    summary_verdict root alloc name c.args (summary_of ss name)

abbrev pub op_verdict : (Ref → Option Ref) → SummaryMap → Ref → Option Op → Option Verdict
op_verdict root ss alloc (some (ret rs)) = verdict unsafe Types.escaped_return returned_from_scope
op_verdict root ss alloc (some (go_call c)) =
    verdict unsafe Types.escaped_closure captured_by_goroutine
op_verdict root ss alloc (some (send c x)) =
    verdict unsafe Types.escaped_channel sent_through_channel
op_verdict root ss alloc (some (call c)) =
    if c.len_or_cap then none else call_verdict root ss alloc c c.static_callee
op_verdict root ss alloc (some (make_interface x)) =
    verdict unknown Types.escaped_interface interface_value
op_verdict root ss alloc o = none

-- The checks of one node; `is_global` is the type test on its value, `op_at` the instruction by address.
unfoldable pub check_node :
    (Ref → Option Ref)
    → SummaryMap
    → (Ref → Bool)
    → (Ref → Option Op)
    → Ref
    → NodeId
    → Option Verdict
unfolding argument_escapes
check_node root ss is_global op_at alloc (of_value r) =
    if is_global r then verdict unsafe Types.escaped_global (stored_in_global r) else none
check_node root ss is_global op_at alloc (of_instr r) = op_verdict root ss alloc (op_at r)

pub record Walk : Type 0 where
  pub visited : List NodeId
  pub path : List NodeId

-- What `dfs` returns, with the variables that it leaves.
pub data Dfs : Type 0 where
  hit : Verdict → Walk → Dfs
  missed : Walk → Dfs
  out_of_fuel : Dfs

-- `if dfs(edge.To) { return true }`
abbrev pub or_next : Dfs → (Walk → Dfs) → Dfs
or_next (hit v w) f = hit v w
or_next (missed w) f = f w
or_next out_of_fuel f = out_of_fuel

-- `for _, edge := range g.Adjacency[curr.ID]`
unfoldable pub each : (NodeId → Walk → Dfs) → List GraphEdge → Walk → Dfs
each visit [] w = missed w
each visit (e ∷ es) w = or_next (visit e.to w) (each visit es)

-- `path = path[:len(path)-1]`: back to the path before the node.
abbrev pub pop_path : List NodeId → Dfs → Dfs
pop_path path (missed w) = missed (record w { path = path })
pop_path path (hit v w) = hit v w
pop_path path out_of_fuel = out_of_fuel

abbrev pub enter : NodeId → Walk → Walk
enter n w = record { visited = n ∷ w.visited; path = w.path ++ (n ∷ []) }

module _ (verdict_of : NodeId → Option Verdict) (edges : List GraphEdge) where
  unfoldable pub dfs : ℕ → NodeId → Walk → Dfs
  unfolding has_node each
  dfs zero n w = out_of_fuel
  dfs (suc fuel) n w = if has_node n w.visited then missed w else elim (verdict_of n) [
    | some v ↦ hit v (enter n w)
    | none ↦ pop_path w.path (each (dfs fuel) (adjacency edges n) (enter n w))
  ]

  -- `CheckEscape`: every call but the last enters a node that has an edge to it, or the allocation.
  unfoldable pub check_escape : NodeId → Dfs
  unfolding dfs
  check_escape n = dfs (suc (suc (length edges))) n (record { visited = []; path = [] })
