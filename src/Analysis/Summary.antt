-- ===== src/Analysis/Summary.antt =====
-- summary/types.go and summary/analyzer.go: what a function does with its parameters.
pub mod Values
pub mod Rounds
use rustygo.Base.{ℕ, Bool, true, false, Option, none, some, List, [], ◌∷◌, ◌==◌, if◌then◌else◌}

pub record ParamSummary : Type 0 where
  pub index : ℕ
  pub escapes : Bool
  pub returned : Bool
  pub stored : Bool

pub record FunctionSummary : Type 0 where
  pub full_name : ℕ
  pub params : List ParamSummary
  pub has_body : Bool
  pub is_external : Bool

abbrev pub SummaryMap : Type 0
SummaryMap = List FunctionSummary

-- `summaries[name]`
unfoldable pub summary_of : SummaryMap → ℕ → Option FunctionSummary
summary_of [] name = none
summary_of (s ∷ ss) name = if s.full_name == name then some s else summary_of ss name
