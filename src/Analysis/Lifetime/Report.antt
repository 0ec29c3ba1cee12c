-- ===== src/Analysis/Lifetime/Report.antt =====
-- The third pass of `analyzeFuncInternal` in lifetime/analyzer.go, and the results of packages and programs.
pub mod Alarms
pub mod Sinks
use rustygo.Base.{
  ℕ, Bool, true, false, ◌&&◌, Option, none, some, List, [], ◌∷◌, ◌++◌, ◌==◌, if◌then◌else◌,
}
use rustygo.Analysis.Ssa.{Ref, Op, Instruction, Function, instructions, op_of}
use rustygo.Analysis.Summary.{SummaryMap}
use rustygo.Analysis.Lifetime.Types.{LifetimeState, safe, unsafe, unknown, ViolationType}
use rustygo.Analysis.Lifetime.Regions.{BlockRegion, build_regions, alloc_region}
use rustygo.Analysis.Lifetime.Ownership.{OwnershipTracker, new_ownership_tracker, get_root}
use rustygo.Analysis.Lifetime.Graph.{GraphEdge, NodeId, of_value, new_lifetime_graph}
use rustygo.Analysis.Lifetime.Flows.{Flow, allocations, register_all, flow_all}
use rustygo.Analysis.Lifetime.Search.{
  Reason, remains_valid, Verdict, Walk, Dfs, hit, missed, out_of_fuel, check_node, check_escape,
}

-- `alloc_<function>_<position>`
pub record ObjectId : Type 0 where
  pub function : ℕ
  pub position : ℕ

pub record LifetimeReport : Type 0 where
  pub object_id : ObjectId
  pub region : Option BlockRegion
  pub owner_scope : ℕ
  pub lifetime_state : LifetimeState
  pub escape_reason : Reason
  pub lifetime_violations : List ViolationType
  pub references : List NodeId

-- `reports` is a map by ID. A violation's message is the ID and the reason.
pub record LifetimeResult : Type 0 where
  pub reports : List LifetimeReport
  pub violations : List (ObjectId × Reason)
  pub result_state : LifetimeState

unfoldable pub same_id : ObjectId → ObjectId → Bool
same_id a b = (a.function == b.function) && (a.position == b.position)

-- `res.Reports[id] = report`
unfoldable pub put_report : List LifetimeReport → LifetimeReport → List LifetimeReport
unfolding same_id
put_report [] r = r ∷ []
put_report (q ∷ qs) r =
    let rest = put_report qs r in if same_id q.object_id r.object_id then r ∷ qs else q ∷ rest

unfoldable pub report_of : List LifetimeReport → ObjectId → Option LifetimeReport
unfolding same_id
report_of [] id = none
report_of (q ∷ qs) id = if same_id q.object_id id then some q else report_of qs id

abbrev pub is_safe : LifetimeState → Bool
is_safe safe = true
is_safe s = false

-- What `CheckEscape` returns: the state, the reason, the violations and the path.
abbrev pub Answer : Type 0
Answer = LifetimeState × Reason × List ViolationType × List NodeId

-- Out of fuel, which does not happen, the answer is `unknown`.
abbrev pub answer_of : Dfs → Answer
answer_of (hit v w) = (v.state, v.reason, v.violation ∷ [], w.path)
answer_of (missed w) = (safe, remains_valid, [], w.path)
answer_of out_of_fuel = (unknown, remains_valid, [], [])

unfoldable pub add_report : Function → Instruction → Answer → LifetimeResult → LifetimeResult
unfolding build_regions alloc_region put_report
add_report fn a (state, reason, violations, refs) res =
    let id : ObjectId = record { function = fn.name; position = a.position } in
    record res {
      reports = put_report res.reports (record {
        object_id = id;
        region = alloc_region (build_regions fn).children a.position;
        owner_scope = fn.name;
        lifetime_state = state;
        escape_reason = reason;
        lifetime_violations = violations;
        references = refs;
      });
      violations = if is_safe state then res.violations else res.violations ++ ((id, reason) ∷ []);
    }

abbrev pub empty_result : LifetimeResult
empty_result = record { reports = []; violations = []; result_state = safe }

unfoldable pub first_pass : Function → Flow
unfolding instructions register_all new_ownership_tracker new_lifetime_graph
first_pass fn =
    register_all fn.name (instructions fn.blocks)
      (record { graph = new_lifetime_graph; tracker = new_ownership_tracker })

unfoldable pub flows_of : Function → Flow
unfolding instructions flow_all first_pass
flows_of fn = flow_all (instructions fn.blocks) (first_pass fn)

module _ (summaries : SummaryMap) (is_global : Ref → Bool) where
  -- The search from one allocation in the flow graph of its function.
  unfoldable pub check_alloc : Function → Flow → Ref → Dfs
  unfolding instructions get_root check_node check_escape op_of
  check_alloc fn s a =
      check_escape
        (check_node (λ r. (get_root s.tracker r).0) summaries is_global
          (op_of (instructions fn.blocks)) a)
        s.graph.edges (of_value a)

  unfoldable pub report_all : Function → Flow → List Instruction → LifetimeResult → LifetimeResult
  unfolding check_alloc add_report
  report_all fn s [] res = res
  report_all fn s (a ∷ rest) res =
      report_all fn s rest (add_report fn a (answer_of (check_alloc fn s a.self)) res)

  -- A function without blocks has no instructions, and so an empty result.
  unfoldable pub analyze_func_internal : Function → LifetimeResult
  unfolding report_all flows_of allocations instructions
  analyze_func_internal fn =
      report_all fn (flows_of fn) (allocations (instructions fn.blocks)) empty_result

  unfoldable pub put_all : List LifetimeReport → List LifetimeReport → List LifetimeReport
  unfolding put_report
  put_all qs [] = qs
  put_all qs (r ∷ rs) = put_all (put_report qs r) rs

  unfoldable pub merge : LifetimeResult → LifetimeResult → LifetimeResult
  unfolding put_all
  merge res part = record res {
    reports = put_all res.reports part.reports;
    violations = res.violations ++ part.violations;
  }

  -- The functions among `pkg.Members`.
  unfoldable pub analyze_pkg_from : LifetimeResult → List Function → LifetimeResult
  unfolding analyze_func_internal merge
  analyze_pkg_from res [] = res
  analyze_pkg_from res (fn ∷ fns) = analyze_pkg_from (merge res (analyze_func_internal fn)) fns

  unfoldable pub analyze_pkg_internal : List Function → LifetimeResult
  unfolding analyze_pkg_from
  analyze_pkg_internal fns = analyze_pkg_from empty_result fns

  unfoldable pub merge_packages : LifetimeResult → List (List Function) → LifetimeResult
  unfolding merge analyze_pkg_internal
  merge_packages res [] = res
  merge_packages res (p ∷ ps) = merge_packages (merge res (analyze_pkg_internal p)) ps

  abbrev pub graded : LifetimeResult → List (ObjectId × Reason) → LifetimeResult
  graded res [] = res
  graded res (v ∷ vs) = record res { result_state = unsafe }

  -- `Analyze`
  unfoldable pub analyze : List (List Function) → LifetimeResult
  unfolding merge_packages
  analyze ps = let res = merge_packages empty_result ps in graded res res.violations
