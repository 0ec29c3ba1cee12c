-- ===== src/Analysis/Lifetime/Flows/Edges.antt =====
-- The edges that the second pass has added stay.
use rustygo.Base.{true, false, ◌≡◌, refl, ap, ◌∙◌, inl, inr, List, [], ◌∷◌, ◌++◌, Bool-cases}
use mathlib.Core.List.{Memᴰ}
use mathlib.Core.List.Memᴰ
use rustygo.Analysis.Ssa.{
  Ref, Op, store, field, field_addr, index_addr, slice, change_interface, convert, type_assert, phi,
  select, make_closure, make_interface, send, ret, go_call, defer_call, call, load, unop,
}
use rustygo.Analysis.Lifetime.Graph.{
  LifetimeGraph, GraphEdge, NodeId, of_value, of_instr, EdgeType, get_or_create_node, add_edge,
  adjacency, has_node, same_node,
}
use rustygo.Analysis.Lifetime.Graph
use rustygo.Analysis.Lifetime.Flows.{Flow, node, connect, derive, derive_each, reach_instr, flow_op}

abbrev pub HasEdge : Flow → NodeId → NodeId → Type 0
HasEdge s from to =
    (type : EdgeType) × Memᴰ (record { from = from; to = to; type = type }) s.graph.edges

abbrev pub Keeps : Flow → Flow → Type 0
Keeps s s' = (from to : NodeId) → HasEdge s from to → HasEdge s' from to

node-edges : (n : NodeId) (s : Flow) → (node n s).graph.edges ≡ s.graph.edges
unfolding get_or_create_node
node-edges n s = elim (Bool-cases (has_node n s.graph.nodes)) [
  | inl e ↦ rw e refl
  | inr e ↦ rw e refl
]

connect-edges :
    (from to : NodeId) (type : EdgeType) (s : Flow)
    → (connect from to type s).graph.edges
      ≡ s.graph.edges ++ (record { from = from; to = to; type = type } ∷ [])
unfolding get_or_create_node add_edge
connect-edges from to type s =
    ap (λ es. es ++ (record { from = from; to = to; type = type } ∷ []))
      (node-edges to (node from s) ∙ node-edges from s)

pub node-Keeps : (n : NodeId) (s : Flow) → Keeps s (node n s)
node-Keeps n s a b (t, m) = (t, rw (node-edges n s) m)

pub connect-Keeps :
    (from to : NodeId) (type : EdgeType) (s : Flow) → Keeps s (connect from to type s)
connect-Keeps from to type s a b (t, m) =
    (t, rw (connect-edges from to type s) (Memᴰ.append_left _ m))

pub connect-HasEdge :
    (from to : NodeId) (type : EdgeType) (s : Flow) → HasEdge (connect from to type s) from to
connect-HasEdge from to type s =
    (type, rw (connect-edges from to type s) (Memᴰ.append_right s.graph.edges (Memᴰ.head refl)))

derive_each-Keeps :
    (type : EdgeType) (xs : List Ref) (val : Ref) (s : Flow) → Keeps s (derive_each type xs val s)
unfolding derive_each
derive_each-Keeps type [] val s a b h = h
derive_each-Keeps type (x ∷ xs) val s a b h =
    derive_each-Keeps type xs val (derive type x val s) a b
      (connect-Keeps (of_value x) (of_value val) type s a b h)

pub reach_instr-Keeps :
    (type : EdgeType) (xs : List Ref) (i : Ref) (s : Flow) → Keeps s (reach_instr type xs i s)
unfolding reach_instr
reach_instr-Keeps type [] i s a b h = h
reach_instr-Keeps type (x ∷ xs) i s a b h =
    reach_instr-Keeps type xs i (connect (of_value x) (of_instr i) type s) a b
      (connect-Keeps (of_value x) (of_instr i) type s a b h)

pub reach_instr-HasEdge :
    (type : EdgeType) (xs : List Ref) (i : Ref) (s : Flow) (v : Ref)
    → Memᴰ v xs
    → HasEdge (reach_instr type xs i s) (of_value v) (of_instr i)
unfolding reach_instr connect
reach_instr-HasEdge type [] i s v m = absurd (Memᴰ.not-nil m)
reach_instr-HasEdge type (x ∷ xs) i s v m =
    let s' = connect (of_value x) (of_instr i) type s in
    elim (Memᴰ.cases_cons m) [
      | inl e ↦
          reach_instr-Keeps type xs i s' (of_value v) (of_instr i)
            (rw e (connect-HasEdge (of_value x) (of_instr i) type s))
      | inr later ↦ reach_instr-HasEdge type xs i s' v later
    ]

pub flow_op-Keeps : (val : Ref) (o : Op) (s : Flow) → Keeps s (flow_op val o s)
unfolding flow_op
flow_op-Keeps val (store addr v) s a b h =
    connect-Keeps (of_value v) (of_value addr) Graph.stored s a b h
flow_op-Keeps val (field x) s a b h =
    connect-Keeps (of_value val) (of_value x) Graph.field_of
      (connect (of_value x) (of_value val) Graph.field_flow s) a b
      (connect-Keeps (of_value x) (of_value val) Graph.field_flow s a b h)
flow_op-Keeps val (field_addr x) s a b h =
    connect-Keeps (of_value val) (of_value x) Graph.field_addr_of
      (connect (of_value x) (of_value val) Graph.field_addr_flow s) a b
      (connect-Keeps (of_value x) (of_value val) Graph.field_addr_flow s a b h)
flow_op-Keeps val (index_addr x) s a b h =
    connect-Keeps (of_value val) (of_value x) Graph.index_addr_of
      (connect (of_value x) (of_value val) Graph.index_addr_flow s) a b
      (connect-Keeps (of_value x) (of_value val) Graph.index_addr_flow s a b h)
flow_op-Keeps val (slice true x) s a b h =
    connect-Keeps (of_value x) (of_value val) Graph.sliced s a b h
flow_op-Keeps val (slice false x) s a b h =
    connect-Keeps (of_value x) (of_value val) Graph.sliced s a b h
flow_op-Keeps val (change_interface x) s a b h =
    connect-Keeps (of_value x) (of_value val) Graph.change_interface_flow s a b h
flow_op-Keeps val (convert x) s a b h =
    connect-Keeps (of_value x) (of_value val) Graph.converted s a b h
flow_op-Keeps val (type_assert x) s a b h =
    connect-Keeps (of_value x) (of_value val) Graph.type_asserted s a b h
flow_op-Keeps val (phi xs) s a b h = derive_each-Keeps Graph.phi_flow xs val s a b h
flow_op-Keeps val (select xs) s a b h = derive_each-Keeps Graph.selected xs val s a b h
flow_op-Keeps val (make_closure xs) s a b h = derive_each-Keeps Graph.closure_bind xs val s a b h
flow_op-Keeps val (make_interface x) s a b h =
    connect-Keeps (of_value x) (of_instr val) Graph.make_interface_action
      (connect (of_value x) (of_value val) Graph.make_interface_flow s) a b
      (connect-Keeps (of_value x) (of_value val) Graph.make_interface_flow s a b h)
flow_op-Keeps val (send c x) s a b h =
    connect-Keeps (of_value x) (of_instr val) Graph.send_action
      (connect (of_value x) (of_value c) Graph.sent s) a b
      (connect-Keeps (of_value x) (of_value c) Graph.sent s a b h)
flow_op-Keeps val (ret rs) s a b h = reach_instr-Keeps Graph.returned rs val s a b h
flow_op-Keeps val (go_call c) s a b h =
    reach_instr-Keeps Graph.go_arg c.args val
      (connect (of_value c.value) (of_instr val) Graph.go_func s) a b
      (connect-Keeps (of_value c.value) (of_instr val) Graph.go_func s a b h)
flow_op-Keeps val (defer_call c) s a b h =
    reach_instr-Keeps Graph.defer_arg c.args val
      (connect (of_value c.value) (of_instr val) Graph.defer_func s) a b
      (connect-Keeps (of_value c.value) (of_instr val) Graph.defer_func s a b h)
flow_op-Keeps val (call c) s a b h =
    reach_instr-Keeps Graph.call_arg c.args val
      (connect (of_value c.value) (of_instr val) Graph.call_func s) a b
      (connect-Keeps (of_value c.value) (of_instr val) Graph.call_func s a b h)
flow_op-Keeps val (load true x) s a b h =
    connect-Keeps (of_value x) (of_value val) Graph.unop_flow s a b h
flow_op-Keeps val (unop x) s a b h =
    connect-Keeps (of_value x) (of_value val) Graph.unop_flow s a b h
flow_op-Keeps val o s a b h = h
