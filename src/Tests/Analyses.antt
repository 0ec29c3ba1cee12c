-- ===== src/Tests/Analyses.antt =====
-- The analyses on a function that allocates twice, and returns one of the two.
use rustygo.Base.{ℕ, ◌≡◌, refl, ◌⊎◌, Bool, true, false, Option, some, List, [], ◌∷◌}
use mathlib.Core.List.{Memᴰ}
use rustygo.Analysis.Ssa.{
  Ref, Op, Instruction, Function, instructions, op_of, alloc, field_addr, ret,
}
use rustygo.Analysis.Summary.{SummaryMap}
use rustygo.Analysis.Summary.Rounds.{round, analyze_summaries}
use rustygo.Analysis.Summary.Rounds.Ends.{analyze_summaries_ends}
use rustygo.Analysis.Lifetime.Types.{LifetimeState, safe, unsafe}
use rustygo.Analysis.Lifetime.Ownership.{get_root, add_alias, root_loop, register_alloc}
use rustygo.Analysis.Lifetime.Ownership.History.{
  Action, registered, aliased, tracker_after, get_root_total,
}
use rustygo.Analysis.Lifetime.Graph.{GraphEdge, NodeId, of_value, of_instr}
use rustygo.Analysis.Lifetime.Graph
use rustygo.Analysis.Lifetime.Search.{Verdict, Walk, hit, missed, check_escape, check_node}
use rustygo.Analysis.Lifetime.Search.Visits.{Trail, here, along}
use rustygo.Analysis.Lifetime.Search.Sound.{check_escape_sound, check_escape_complete}
use rustygo.Analysis.Lifetime.Report.{
  LifetimeReport, analyze_func_internal, check_alloc, flows_of, is_safe,
}
use rustygo.Analysis.Lifetime.Flows.{allocations}
use rustygo.Analysis.Lifetime.Report.Sinks.{check_alloc-sinks}

abbrev instr : Ref → ℕ → Op → Bool → List Ref → Instruction
instr self position op is_value operands = record {
  self = self;
  position = position;
  op = op;
  is_value = is_value;
  operands = operands;
}

abbrev returning : Instruction
returning = instr 14 40 (ret (13 ∷ [])) false (13 ∷ [])

abbrev second_alloc : Instruction
second_alloc = instr 12 20 alloc true []

-- `a := new(T); b := new(T); return &b.f`
abbrev test_fn : Function
test_fn = record {
  name = 1;
  position = 5;
  has_pkg = true;
  params = [];
  blocks =
      record {
        index = 0;
        instrs =
            instr 11 10 alloc true []
            ∷ second_alloc
            ∷ instr 13 30 (field_addr 12) true (12 ∷ [])
            ∷ returning
            ∷ [];
      }
      ∷ [];
}

-- `func f(p *T) *U { return &p.f }`
abbrev param_fn : Function
param_fn = record {
  name = 2;
  position = 5;
  has_pkg = true;
  params = 21 ∷ [];
  blocks =
      record {
        index = 0;
        instrs =
            instr 22 30 (field_addr 21) true (21 ∷ [])
            ∷ instr 23 40 (ret (22 ∷ [])) false (22 ∷ [])
            ∷ [];
      }
      ∷ [];
}

no_global : Ref → Bool
no_global r = false

abbrev test_edges : List GraphEdge
test_edges = (flows_of test_fn).graph.edges

abbrev test_check : NodeId → Option Verdict
test_check =
    check_node (λ r. (get_root (flows_of test_fn).tracker r).0) [] no_global
      (op_of (instructions test_fn.blocks)) 12

field-Trail : Trail test_edges (of_value 12) (of_value 12 ∷ of_value 13 ∷ []) (of_value 13)
unfolding flows_of Graph.adjacency
field-Trail = along (Memᴰ.head refl) here

check_alloc-sinks_example :
    (d : Verdict) × (w : Walk) × (check_alloc [] no_global test_fn (flows_of test_fn) 12 ≡ hit d w)
    × (is_safe d.state ≡ false)
    × Memᴰ
        (record { function = 1; position = 20 }, d.reason)
        (analyze_func_internal [] no_global test_fn).violations
unfolding instructions op_of allocations
check_alloc-sinks_example =
    check_alloc-sinks [] no_global test_fn returning second_alloc 13
      (of_value 12 ∷ of_value 13 ∷ []) (Memᴰ.tail (Memᴰ.tail (Memᴰ.tail (Memᴰ.head refl)))) refl
      (Memᴰ.head refl) (Memᴰ.tail (Memᴰ.head refl)) field-Trail

check_escape_sound_example :
    ((w : Walk) × (check_escape test_check test_edges (of_value 12) ≡ missed w))
    ⊎ ((v : Verdict) × (w : Walk) × (x : NodeId) × (check_escape test_check test_edges (of_value 12)
          ≡ hit v w)
        × Trail test_edges (of_value 12) w.path x
        × (test_check x ≡ some v))
check_escape_sound_example = check_escape_sound test_check test_edges (of_value 12)

return_verdict : (v : Verdict) × (test_check (of_instr 14) ≡ some v)
unfolding check_node op_of instructions
return_verdict = (_, refl)

return-Trail :
    Trail test_edges (of_value 12) (of_value 12 ∷ of_value 13 ∷ of_instr 14 ∷ []) (of_instr 14)
unfolding flows_of Graph.adjacency
return-Trail = along (Memᴰ.head refl) (along (Memᴰ.tail (Memᴰ.head refl)) here)

check_escape_complete_example :
    (d : Verdict) × (w : Walk) × (check_escape test_check test_edges (of_value 12) ≡ hit d w)
check_escape_complete_example =
    check_escape_complete test_check test_edges (of_value 12) (of_instr 14)
      (of_value 12 ∷ of_value 13 ∷ of_instr 14 ∷ []) return_verdict.0 return-Trail return_verdict.1

-- The first allocation stays, the second is returned through its field.
states : List LifetimeReport → List LifetimeState
states [] = []
states (r ∷ rs) = r.lifetime_state ∷ states rs

reported : states (analyze_func_internal [] no_global test_fn).reports ≡ safe ∷ unsafe ∷ []
unfolding states analyze_func_internal no_global Graph.adjacency
reported = refl

abbrev past : List Action
past = aliased 13 12 ∷ aliased 12 11 ∷ registered 11 1 ∷ []

get_root_total_example :
    (r : Ref) × ((get_root (tracker_after past) 13).0 ≡ some r)
    × ((get_root (tracker_after past) r).0 ≡ some r)
unfolding tracker_after add_alias get_root root_loop register_alloc
get_root_total_example = get_root_total past 13 11 refl

analyze_summaries_ends_example :
    (ss : SummaryMap) × (analyze_summaries (param_fn ∷ test_fn ∷ []) ≡ some ss)
    × (round (param_fn ∷ test_fn ∷ []) ss ≡ some (ss, false))
analyze_summaries_ends_example = analyze_summaries_ends (param_fn ∷ test_fn ∷ [])
