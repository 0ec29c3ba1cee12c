-- ===== src/Analysis/Summary/Rounds.antt =====
-- `AnalyzeSummaries` of summary/analyzer.go: rounds over all functions until no flag changes.
pub mod Ends
use rustygo.Base.{
  ℕ, zero, suc, ◌+◌, Bool, true, false, not, ◌&&◌, ◌||◌, Option, none, some, List, [], ◌∷◌, ◌==◌,
  if◌then◌else◌,
}
use rustygo.Analysis.Ssa.{Ref, Function}
use rustygo.Analysis.Summary.{ParamSummary, FunctionSummary, SummaryMap, summary_of}
use rustygo.Analysis.Summary.Values.{Flags, Found, value_flow}

unfoldable pub initial_params : ℕ → List Ref → List ParamSummary
initial_params i [] = []
initial_params i (p ∷ ps) =
    record { index = i; escapes = false; returned = false; stored = false }
    ∷ initial_params (suc i) ps

abbrev has_blocks : Function → Bool
has_blocks fn = elim fn.blocks [ [] ↦ false | b ∷ bs ↦ true ]

unfoldable pub initial_summary : Function → FunctionSummary
unfolding initial_params
initial_summary fn = record {
  full_name = fn.name;
  params = initial_params 0 fn.params;
  has_body = has_blocks fn;
  is_external = not (has_blocks fn) || not fn.has_pkg;
}

-- `summaries[fullName] = s`
unfoldable pub put_summary : SummaryMap → FunctionSummary → SummaryMap
put_summary [] s = s ∷ []
put_summary (r ∷ rs) s =
    let rest = put_summary rs s in if r.full_name == s.full_name then s ∷ rs else r ∷ rest

unfoldable pub initial_summaries : SummaryMap → List Function → SummaryMap
unfolding put_summary initial_summary
initial_summaries ss [] = ss
initial_summaries ss (fn ∷ fns) = initial_summaries (put_summary ss (initial_summary fn)) fns

-- What a round leaves, with `changed`.
abbrev pub Changed : Type 0 → Type 0
Changed A = A × Bool

-- `if !pSum.Escapes && escapes` and the two tests after it.
unfoldable pub mark : ParamSummary → Flags → Changed ParamSummary
mark p fl = (
  record p {
    escapes = p.escapes || fl.escapes;
    returned = p.returned || fl.returned;
    stored = p.stored || fl.stored;
  },
  not p.escapes && fl.escapes || not p.returned && fl.returned || not p.stored && fl.stored,
)

-- Parameter `i` of a list; each parameter has its entry, for functions whose names differ.
unfoldable pub mark_at : List ParamSummary → ℕ → Flags → Changed (List ParamSummary)
unfolding mark
mark_at [] i fl = ([], false)
mark_at (p ∷ ps) zero fl = let (q, c) = mark p fl in (q ∷ ps, c)
mark_at (p ∷ ps) (suc i) fl = let (qs, c) = mark_at ps i fl in (p ∷ qs, c)

-- Parameter `i` of the summary with the name; each function has its summary.
unfoldable pub mark_param : SummaryMap → ℕ → ℕ → Flags → Changed SummaryMap
unfolding mark_at
mark_param [] name i fl = ([], false)
mark_param (s ∷ ss) name i fl =
    let (rest, c) = mark_param ss name i fl in
    let (ps, d) = mark_at s.params i fl in
    if s.full_name == name then (record s { params = ps } ∷ ss, d) else (s ∷ rest, c)

abbrev pub or_changed : Bool → Option (Changed SummaryMap) → Option (Changed SummaryMap)
or_changed c none = none
or_changed c (some (ss, d)) = some (ss, c || d)

abbrev pub next_round :
    Changed SummaryMap → (SummaryMap → Option (Changed SummaryMap)) → Option (Changed SummaryMap)
next_round (ss, c) f = or_changed c (f ss)

abbrev pub apply_flow :
    SummaryMap
    → Function
    → ℕ
    → Found
    → (SummaryMap → Option (Changed SummaryMap))
    → Option (Changed SummaryMap)
unfolding mark_param
apply_flow ss fn i none f = none
apply_flow ss fn i (some (fl, vs)) f = next_round (mark_param ss fn.name i fl) f

-- `for i, p := range fn.Params`, from parameter `i`. `none` is out of fuel.
unfoldable pub round_params : Function → ℕ → List Ref → SummaryMap → Option (Changed SummaryMap)
unfolding mark_param value_flow
round_params fn i [] ss = some (ss, false)
round_params fn i (p ∷ ps) ss = apply_flow ss fn i (value_flow ss fn p) (round_params fn (suc i) ps)

abbrev pub and_round :
    Option (Changed SummaryMap)
    → (SummaryMap → Option (Changed SummaryMap))
    → Option (Changed SummaryMap)
and_round none f = none
and_round (some r) f = next_round r f

-- `s.HasBody` of the summary that is found by name; each function has its summary.
abbrev pub has_body_of : Option FunctionSummary → Bool
has_body_of none = false
has_body_of (some s) = s.has_body

-- A function without a body is passed over.
unfoldable pub round : List Function → SummaryMap → Option (Changed SummaryMap)
unfolding round_params summary_of
round [] ss = some (ss, false)
round (fn ∷ fns) ss =
    let rest = round fns in
    if has_body_of (summary_of ss fn.name)
    then and_round (round_params fn 0 fn.params ss) rest
    else rest ss

abbrev pub after_round :
    Option (Changed SummaryMap) → (SummaryMap → Option SummaryMap) → Option SummaryMap
after_round none f = none
after_round (some (ss, true)) f = f ss
after_round (some (ss, false)) f = some ss

unfoldable pub fixpoint : List Function → ℕ → SummaryMap → Option SummaryMap
unfolding round
fixpoint fns zero ss = none
fixpoint fns (suc fuel) ss = after_round (round fns ss) (fixpoint fns fuel)

abbrev pub unset : Bool → ℕ
unset true = 0
unset false = 1

unfoldable pub unset_params : List ParamSummary → ℕ
unset_params [] = 0
unset_params (p ∷ ps) = unset p.escapes + unset p.returned + unset p.stored + unset_params ps

-- How many flags are not set: each round but the last sets one.
unfoldable pub unset_flags : SummaryMap → ℕ
unfolding unset_params
unset_flags [] = 0
unset_flags (s ∷ ss) = unset_params s.params + unset_flags ss

-- `collectFuncs` has listed the functions, with their closures.
unfoldable pub analyze_summaries : List Function → Option SummaryMap
unfolding fixpoint unset_flags initial_summaries
analyze_summaries fns = let ss = initial_summaries [] fns in fixpoint fns (suc (unset_flags ss)) ss
