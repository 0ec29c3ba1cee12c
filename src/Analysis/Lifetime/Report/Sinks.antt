-- ===== src/Analysis/Lifetime/Report/Sinks.antt =====
-- Allocations that flow to a return, a send, a goroutine or an interface value.
use rustygo.Base.{
  Bool, false, Option, some, ◌≡◌, ◌≢◌, refl, sym, ◌∙◌, inl, inr, List, [], ◌∷◌, ◌++◌,
}
use mathlib.Core.Path.{subst}
use mathlib.Core.List.{Memᴰ}
use mathlib.Core.List.Memᴰ
use rustygo.Analysis.Ssa.{
  Ref, Op, Instruction, Function, instructions, op_of, ret, send, go_call, make_interface,
}
use rustygo.Analysis.Summary.{SummaryMap}
use rustygo.Analysis.Lifetime.Ownership.{get_root}
use rustygo.Analysis.Lifetime.Graph.{GraphEdge, NodeId, of_value, of_instr}
use rustygo.Analysis.Lifetime.Graph.Nodes.{targets}
use rustygo.Analysis.Lifetime.Flows.Sinks.{sinks, flow_all-HasEdge, targets_of}
use rustygo.Analysis.Lifetime.Search.{Verdict, Walk, Dfs, hit, missed, check_node, op_verdict}
use rustygo.Analysis.Lifetime.Search.Visits.{Trail, here, along}
use rustygo.Analysis.Lifetime.Search.Sound.{check_escape_complete, check_escape_sound}
use rustygo.Analysis.Lifetime.Report.{
  check_alloc, first_pass, flows_of, is_safe, analyze_func_internal, empty_result,
}
use rustygo.Analysis.Lifetime.Report.Alarms.{Alarms, check_node-Alarms, report_all-alarm}
use rustygo.Analysis.Lifetime.Flows.{allocations}

-- One more edge at the end.
Trail-append :
    (edges : List GraphEdge) {n m x : NodeId} {p : List NodeId}
    → Trail edges n p m
    → Memᴰ x (targets edges m)
    → Trail edges n (p ++ (x ∷ [])) x
Trail-append edges here k = along k here
Trail-append edges (along l t) k = along l (Trail-append edges t k)

op_verdict-sinks :
    (root : Ref → Option Ref) (ss : SummaryMap) (a : Ref) (o : Op) (v : Ref)
    → Memᴰ v (sinks o)
    → (d : Verdict) × (op_verdict root ss a (some o) ≡ some d)
op_verdict-sinks root ss a (ret rs) v m = (_, refl)
op_verdict-sinks root ss a (send c x) v m = (_, refl)
op_verdict-sinks root ss a (go_call c) v m = (_, refl)
op_verdict-sinks root ss a (make_interface x) v m = (_, refl)
op_verdict-sinks root ss a o v m = absurd (Memᴰ.not-nil m)

module _ (ss : SummaryMap) (is_global : Ref → Bool) (fn : Function) (a : Ref) where
  abbrev check_of : NodeId → Option Verdict
  check_of =
      check_node (λ r. (get_root (flows_of fn).tracker r).0) ss is_global
        (op_of (instructions fn.blocks)) a

  check_alloc-hit :
      (x : NodeId) (p : List NodeId) (v : Verdict)
      → Trail (flows_of fn).graph.edges (of_value a) p x
      → check_of x ≡ some v
      → (d : Verdict) × (w : Walk) × (check_alloc ss is_global fn (flows_of fn) a ≡ hit d w)
        × (is_safe d.state ≡ false)
  unfolding check_alloc
  check_alloc-hit x p v t e =
      let edges = (flows_of fn).graph.edges in
      let (d, w, found) = check_escape_complete check_of edges (of_value a) x p v t e in
      elim (check_escape_sound check_of edges (of_value a)) [
        | inl (w', none_found) ↦ absurd (hit_not_missed (sym found ∙ none_found))
        | inr (v', w', y, again, u, q) ↦ (
          v',
          w',
          again,
          subst Alarms q (
              check_node-Alarms (λ r. (get_root (flows_of fn).tracker r).0) ss a is_global
                (op_of (instructions fn.blocks)) y),
        )
      ]
    where
      hit_not_missed : {d : Verdict} {w u : Walk} → ◌≢◌ {A = Dfs} (hit d w) (missed u)
      hit_not_missed q = cc

-- Let a function hold the instruction `i`, found by its address, that returns, sends, hands to a goroutine or
-- converts to an interface the value `v`, and the allocation `j`. If the edges of the function's flow graph lead
-- from the allocation to `v`, the search from the allocation ends with a verdict that is not safe, and the
-- violations of the function's analysis have one with the ID of the allocation and the verdict's reason.
pub check_alloc-sinks :
    (ss : SummaryMap) (is_global : Ref → Bool) (fn : Function) (i j : Instruction) (v : Ref)
    (p : List NodeId)
    → Memᴰ i (instructions fn.blocks)
    → op_of (instructions fn.blocks) i.self ≡ some i.op
    → Memᴰ v (sinks i.op)
    → Memᴰ j (allocations (instructions fn.blocks))
    → Trail (flows_of fn).graph.edges (of_value j.self) p (of_value v)
    → (d : Verdict) × (w : Walk) × (check_alloc ss is_global fn (flows_of fn) j.self ≡ hit d w)
      × (is_safe d.state ≡ false)
      × Memᴰ
          (record { function = fn.name; position = j.position }, d.reason)
          (analyze_func_internal ss is_global fn).violations
unfolding flows_of check_node analyze_func_internal
check_alloc-sinks ss is_global fn i j v p m found k alloc t =
    let s = flows_of fn in
    let root = λ (r : Ref). (get_root s.tracker r).0 in
    let (type, e) = flow_all-HasEdge (instructions fn.blocks) (first_pass fn) i v m k in
    let (x, q) = op_verdict-sinks root ss j.self i.op v k in
    let (d, w, h, alarms) =
      check_alloc-hit ss is_global fn j.self (of_instr i.self) (p ++ (of_instr i.self ∷ [])) x
        (Trail-append s.graph.edges t (targets_of s.graph.edges _ e)) (rw found q) in
    (
      d,
      w,
      h,
      alarms,
      report_all-alarm ss is_global fn s (allocations (instructions fn.blocks)) empty_result j d w
          alloc h alarms,
    )
