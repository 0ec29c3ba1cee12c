-- ===== src/Analysis/Lifetime/Flows.antt =====
-- The first two passes of `analyzeFuncInternal` in lifetime/analyzer.go: the flow graph and the aliases of a function.
pub mod Edges
pub mod Sinks
use rustygo.Base.{ℕ, Bool, true, false, List, [], ◌∷◌, if◌then◌else◌}
use rustygo.Analysis.Ssa.{
  Ref, Op, Instruction, alloc, make_slice, make_map, make_chan, store, field, field_addr,
  index_addr, slice, change_interface, convert, type_assert, phi, select, make_closure,
  make_interface, send, ret, go_call, defer_call, call, load, receive, unop, other,
}
use rustygo.Analysis.Lifetime.Ownership.{OwnershipTracker, register_alloc, add_alias}
use rustygo.Analysis.Lifetime.Graph.{
  LifetimeGraph, NodeId, of_value, of_instr, EdgeType, get_or_create_node, add_edge,
}
use rustygo.Analysis.Lifetime.Graph

pub record Flow : Type 0 where
  pub graph : LifetimeGraph
  pub tracker : OwnershipTracker

abbrev pub is_allocation : Op → Bool
is_allocation alloc = true
is_allocation make_slice = true
is_allocation make_map = true
is_allocation make_chan = true
is_allocation o = false

unfoldable pub allocations : List Instruction → List Instruction
allocations [] = []
allocations (i ∷ is) = let rest = allocations is in if is_allocation i.op then i ∷ rest else rest

abbrev pub node : NodeId → Flow → Flow
unfolding get_or_create_node
node n s = record s { graph = get_or_create_node s.graph n }

-- The first pass; `fn_name` is the owner.
unfoldable pub register_all : ℕ → List Instruction → Flow → Flow
unfolding register_alloc get_or_create_node
register_all fn_name [] s = s
register_all fn_name (i ∷ is) s = register_all fn_name is (
    if is_allocation i.op
    then node (of_value i.self) (record s { tracker = register_alloc s.tracker i.self fn_name })
    else s)

-- The nodes of an edge and the edge.
abbrev pub connect : NodeId → NodeId → EdgeType → Flow → Flow
unfolding get_or_create_node add_edge
connect from to type s =
    let s' = node to (node from s) in
    record s' { graph = add_edge s'.graph (record { from = from; to = to; type = type }) }

abbrev pub alias : Ref → Ref → Flow → Flow
unfolding add_alias
alias v src s = record s { tracker = add_alias s.tracker v src }

-- `AddEdge(xNode, valNode, ...)` and `AddAlias(val, x.X)`.
abbrev pub derive : EdgeType → Ref → Ref → Flow → Flow
unfolding get_or_create_node add_edge add_alias
derive type x val s = alias val x (connect (of_value x) (of_value val) type s)

-- An edge and an alias from each value of the list.
abbrev pub derive_each : EdgeType → List Ref → Ref → Flow → Flow
unfolding get_or_create_node add_edge add_alias
derive_each type [] val s = s
derive_each type (x ∷ xs) val s = derive_each type xs val (derive type x val s)

-- An edge from each value of the list to the node of an instruction.
abbrev pub reach_instr : EdgeType → List Ref → Ref → Flow → Flow
unfolding get_or_create_node add_edge
reach_instr type [] instr s = s
reach_instr type (x ∷ xs) instr s =
    reach_instr type xs instr (connect (of_value x) (of_instr instr) type s)

-- The cases of the second pass for the instruction `val`.
unfoldable pub flow_op : Ref → Op → Flow → Flow
unfolding get_or_create_node add_edge add_alias
flow_op val (store addr v) s = alias addr v (connect (of_value v) (of_value addr) Graph.stored s)
flow_op val (field x) s = alias val x (
    connect (of_value val) (of_value x) Graph.field_of
      (connect (of_value x) (of_value val) Graph.field_flow s))
flow_op val (field_addr x) s = alias val x (
    connect (of_value val) (of_value x) Graph.field_addr_of
      (connect (of_value x) (of_value val) Graph.field_addr_flow s))
flow_op val (index_addr x) s = alias val x (
    connect (of_value val) (of_value x) Graph.index_addr_of
      (connect (of_value x) (of_value val) Graph.index_addr_flow s))
flow_op val (slice pointers x) s =
    let s' = connect (of_value x) (of_value val) Graph.sliced s in
    if pointers then alias val x s' else s'
flow_op val (change_interface x) s = derive Graph.change_interface_flow x val s
flow_op val (convert x) s = derive Graph.converted x val s
flow_op val (type_assert x) s = derive Graph.type_asserted x val s
flow_op val (phi xs) s = derive_each Graph.phi_flow xs val s
flow_op val (select xs) s = derive_each Graph.selected xs val s
flow_op val (make_closure xs) s = derive_each Graph.closure_bind xs val s
flow_op val (make_interface x) s = alias val x (
    connect (of_value x) (of_instr val) Graph.make_interface_action
      (connect (of_value x) (of_value val) Graph.make_interface_flow s))
flow_op val (send c x) s =
    connect (of_value x) (of_instr val) Graph.send_action
      (connect (of_value x) (of_value c) Graph.sent s)
flow_op val (ret rs) s = reach_instr Graph.returned rs val s
flow_op val (go_call c) s =
    reach_instr Graph.go_arg c.args val (connect (of_value c.value) (of_instr val) Graph.go_func s)
flow_op val (defer_call c) s =
    reach_instr Graph.defer_arg c.args val
      (connect (of_value c.value) (of_instr val) Graph.defer_func s)
flow_op val (call c) s =
    reach_instr Graph.call_arg c.args val
      (connect (of_value c.value) (of_instr val) Graph.call_func s)
flow_op val (load pointers x) s = if pointers then derive Graph.unop_flow x val s else s
flow_op val (unop x) s = derive Graph.unop_flow x val s
flow_op val o s = s

unfoldable pub flow_all : List Instruction → Flow → Flow
unfolding flow_op get_or_create_node
flow_all [] s = s
flow_all (i ∷ is) s =
    flow_all is (flow_op i.self i.op (if i.is_value then node (of_value i.self) s else s))
