-- ===== src/Analysis/Lifetime/Flows/Sinks.antt =====
-- Every use that lets a value escape whatever a callee does gets an edge.
use rustygo.Base.{
  true, false, ◌≢◌, sym, ap, ◌∙◌, inl, inr, List, [], ◌∷◌, Bool-cases, if◌then◌else◌,
}
use mathlib.Core.List.{Memᴰ}
use mathlib.Core.List.Memᴰ
use rustygo.Analysis.Ssa.{Ref, Op, Instruction, make_interface, send, ret, go_call}
use rustygo.Analysis.Lifetime.Graph.{
  LifetimeGraph, GraphEdge, NodeId, of_value, of_instr, EdgeType, get_or_create_node, add_edge,
  adjacency, has_node, same_node,
}
use rustygo.Analysis.Lifetime.Graph
use rustygo.Analysis.Lifetime.Graph.Nodes.{targets, same_node_self}
use rustygo.Analysis.Lifetime.Flows.{Flow, node, connect, flow_op, flow_all}
use rustygo.Analysis.Lifetime.Flows.Edges.{
  HasEdge, Keeps, node-Keeps, connect-HasEdge, reach_instr-Keeps, reach_instr-HasEdge,
  flow_op-Keeps,
}

-- The values that an instruction lets escape whatever its callee does.
abbrev pub sinks : Op → List Ref
sinks (ret rs) = rs
sinks (send c x) = x ∷ []
sinks (go_call c) = c.value ∷ c.args
sinks (make_interface x) = x ∷ []
sinks o = []

flow_op-HasEdge :
    (val : Ref) (o : Op) (s : Flow) (v : Ref)
    → Memᴰ v (sinks o)
    → HasEdge (flow_op val o s) (of_value v) (of_instr val)
unfolding flow_op
flow_op-HasEdge val (ret rs) s v m = reach_instr-HasEdge Graph.returned rs val s v m
flow_op-HasEdge val (send c x) s v m = rw (Memᴰ.eq_of_singleton m) (
    connect-HasEdge (of_value x) (of_instr val) Graph.send_action
      (connect (of_value x) (of_value c) Graph.sent s))
flow_op-HasEdge val (go_call c) s v m =
    let s' = connect (of_value c.value) (of_instr val) Graph.go_func s in
    elim (Memᴰ.cases_cons m) [
      | inl e ↦
          reach_instr-Keeps Graph.go_arg c.args val s' (of_value v) (of_instr val)
            (rw e (connect-HasEdge (of_value c.value) (of_instr val) Graph.go_func s))
      | inr later ↦ reach_instr-HasEdge Graph.go_arg c.args val s' v later
    ]
flow_op-HasEdge val (make_interface x) s v m = rw (Memᴰ.eq_of_singleton m) (
    connect-HasEdge (of_value x) (of_instr val) Graph.make_interface_action
      (connect (of_value x) (of_value val) Graph.make_interface_flow s))
flow_op-HasEdge val o s v m = absurd (Memᴰ.not-nil m)

abbrev registered : Instruction → Flow → Flow
registered i s = if i.is_value then node (of_value i.self) s else s

registered-Keeps : (i : Instruction) (s : Flow) → Keeps s (registered i s)
registered-Keeps i s = elim (Bool-cases i.is_value) [
  | inl e ↦ rw e (node-Keeps (of_value i.self) s)
  | inr e ↦ rw e (λ a b h. h)
]

flow_all-Keeps : (is : List Instruction) (s : Flow) → Keeps s (flow_all is s)
unfolding flow_all
flow_all-Keeps [] s a b h = h
flow_all-Keeps (i ∷ is) s a b h =
    flow_all-Keeps is (flow_op i.self i.op (registered i s)) a b
      (flow_op-Keeps i.self i.op (registered i s) a b (registered-Keeps i s a b h))

-- In the graph of a list of instructions, an edge leads from every value that one of them lets escape to it.
pub flow_all-HasEdge :
    (is : List Instruction) (s : Flow) (i : Instruction) (v : Ref)
    → Memᴰ i is
    → Memᴰ v (sinks i.op)
    → HasEdge (flow_all is s) (of_value v) (of_instr i.self)
unfolding flow_all
flow_all-HasEdge [] s i v m k = absurd (Memᴰ.not-nil m)
flow_all-HasEdge (j ∷ is) s i v m k = elim (Memᴰ.cases_cons m) [
  | inl e ↦
      flow_all-Keeps is (flow_op j.self j.op (registered j s)) (of_value v) (of_instr i.self)
        (rw e (flow_op-HasEdge j.self j.op (registered j s) v (rw e at k)))
  | inr later ↦ flow_all-HasEdge is (flow_op j.self j.op (registered j s)) i v later k
]

true_ne_false : true ≢ false
true_ne_false h = cc

pub targets_of :
    (edges : List GraphEdge) (e : GraphEdge) → Memᴰ e edges → Memᴰ e.to (targets edges e.from)
unfolding adjacency
targets_of [] e m = absurd (Memᴰ.not-nil m)
targets_of (f ∷ edges) e m = elim (Bool-cases (same_node f.from e.from)) [
  | inl t ↦ rw t (elim (Memᴰ.cases_cons m) [
    | inl now ↦ Memᴰ.head (ap (λ (x : GraphEdge). x.to) now)
    | inr later ↦ Memᴰ.tail (targets_of edges e later)
  ])
  | inr t ↦ rw t (elim (Memᴰ.cases_cons m) [
    | inl now ↦ absurd (true_ne_false (sym (same_node_self e.from) ∙ rw (sym now) at t))
    | inr later ↦ targets_of edges e later
  ])
]
