-- ===== src/Analysis/Lifetime/Report/Alarms.antt =====
-- Each verdict of a check is an alarm, and each alarm of a search is among the violations of its function.
use rustygo.Base.{
  Bool, true, false, Option, none, some, List, [], ◌∷◌, ◌||◌, not, ◌≡◌, refl, sym, inl, inr,
  Bool-cases, ℕ,
}
use mathlib.Core.Path.{subst}
use mathlib.Core.List.{Memᴰ}
use mathlib.Core.List.Memᴰ
use rustygo.Analysis.Ssa.{
  Ref, Op, Instruction, Function, ret, send, go_call, make_interface, call, CallCommon,
}
use rustygo.Analysis.Summary.{SummaryMap, FunctionSummary, summary_of}
use rustygo.Analysis.Lifetime.Graph.{NodeId, of_value, of_instr}
use rustygo.Analysis.Lifetime.Flows.{Flow}
use rustygo.Analysis.Lifetime.Search.{
  Verdict, Walk, Reason, hit, check_node, op_verdict, call_verdict, summary_verdict,
  argument_escapes,
}
use rustygo.Analysis.Lifetime.Report.{
  ObjectId, LifetimeResult, Answer, answer_of, add_report, report_all, check_alloc, is_safe,
}

-- The check gives no verdict, or one that is not safe.
abbrev pub Alarms : Option Verdict → Type 0
Alarms none = Unit
Alarms (some v) = is_safe v.state ≡ false

module _ (root : Ref → Option Ref) (ss : SummaryMap) (alloc : Ref) where
  summary_verdict-Alarms :
      (name : ℕ) (args : List Ref) (o : Option FunctionSummary)
      → Alarms (summary_verdict root alloc name args o)
  summary_verdict-Alarms name args none = refl
  summary_verdict-Alarms name args (some s) = elim (Bool-cases (not s.has_body || s.is_external)) [
    | inl e ↦ rw e refl
    | inr e ↦ elim (Bool-cases (argument_escapes root alloc s.params 0 args)) [
      | inl f ↦ rw (e, f) refl
      | inr f ↦ rw (e, f) tt
    ]
  ]

  call_verdict-Alarms :
      (c : CallCommon) (o : Option (ℕ × Bool)) → Alarms (call_verdict root ss alloc c o)
  call_verdict-Alarms c none = refl
  call_verdict-Alarms c (some (name, false)) = refl
  call_verdict-Alarms c (some (name, true)) =
      summary_verdict-Alarms name c.args (summary_of ss name)

  op_verdict-Alarms : (o : Option Op) → Alarms (op_verdict root ss alloc o)
  op_verdict-Alarms (some (ret rs)) = refl
  op_verdict-Alarms (some (go_call c)) = refl
  op_verdict-Alarms (some (send c x)) = refl
  op_verdict-Alarms (some (call c)) = elim (Bool-cases c.len_or_cap) [
    | inl e ↦ rw e tt
    | inr e ↦ rw e (call_verdict-Alarms c c.static_callee)
  ]
  op_verdict-Alarms (some (make_interface x)) = refl
  op_verdict-Alarms o = tt

  pub check_node-Alarms :
      (is_global : Ref → Bool) (op_at : Ref → Option Op) (n : NodeId)
      → Alarms (check_node root ss is_global op_at alloc n)
  unfolding check_node
  check_node-Alarms is_global op_at (of_value r) = elim (Bool-cases (is_global r)) [
    | inl e ↦ rw e refl
    | inr e ↦ rw e tt
  ]
  check_node-Alarms is_global op_at (of_instr r) = op_verdict-Alarms (op_at r)

-- The pair that the violation's message names.
abbrev pub alarm : Function → Instruction → Reason → ObjectId × Reason
alarm fn j r = (record { function = fn.name; position = j.position }, r)

module _ (fn : Function) (j : Instruction) where
  add_report-keeps :
      (r : Answer) (res : LifetimeResult) (x : ObjectId × Reason)
      → Memᴰ x res.violations
      → Memᴰ x (add_report fn j r res).violations
  unfolding add_report
  add_report-keeps (state, reason, vs, refs) res x m = elim (Bool-cases (is_safe state)) [
    | inl e ↦ rw e m
    | inr e ↦ rw e (Memᴰ.append_left (alarm fn j reason ∷ []) m)
  ]

  add_report-alarm :
      (d : Verdict) (w : Walk) (res : LifetimeResult)
      → is_safe d.state ≡ false
      → Memᴰ (alarm fn j d.reason) (add_report fn j (answer_of (hit d w)) res).violations
  unfolding add_report
  add_report-alarm d w res e = rw e (Memᴰ.append_right res.violations (Memᴰ.head refl))

module _ (ss : SummaryMap) (is_global : Ref → Bool) (fn : Function) (s : Flow) where
  report_all-keeps :
      (js : List Instruction) (res : LifetimeResult) (x : ObjectId × Reason)
      → Memᴰ x res.violations
      → Memᴰ x (report_all ss is_global fn s js res).violations
  unfolding report_all
  report_all-keeps [] res x m = m
  report_all-keeps (k ∷ ks) res x m =
      report_all-keeps ks _ x
        (add_report-keeps fn k (answer_of (check_alloc ss is_global fn s k.self)) res x m)

  pub report_all-alarm :
      (js : List Instruction) (res : LifetimeResult) (j : Instruction) (d : Verdict) (w : Walk)
      → Memᴰ j js
      → check_alloc ss is_global fn s j.self ≡ hit d w
      → is_safe d.state ≡ false
      → Memᴰ (alarm fn j d.reason) (report_all ss is_global fn s js res).violations
  unfolding report_all
  report_all-alarm [] res j d w m e u = absurd (Memᴰ.not-nil m)
  report_all-alarm (k ∷ ks) res j d w m e u = elim (Memᴰ.cases_cons m) [
    | inl same ↦ report_all-keeps ks _ (alarm fn j d.reason) (
        subst
          (λ (i : Instruction).
            Memᴰ (alarm fn j d.reason)
              (add_report fn i (answer_of (check_alloc ss is_global fn s i.self)) res).violations)
          same
          (subst (λ r. Memᴰ (alarm fn j d.reason) (add_report fn j (answer_of r) res).violations)
            (sym e) (add_report-alarm fn j d w res u)))
    | inr later ↦ report_all-alarm ks _ j d w later e u
  ]
