-- ===== src/Analysis/Summary/Rounds/Ends.antt =====
-- The rounds of `AnalyzeSummaries` end, with a map that one more round leaves as it is.
use rustygo.Base.{
  ℕ, zero, suc, ◌+◌, ◌≤◌, ◌<◌, Bool, true, false, not, ◌&&◌, ◌||◌, Option, none, some, ◌≡◌, refl,
  sym, ap, ◌∙◌, ◌⊎◌, inl, inr, List, [], ◌∷◌, Bool-cases, ◌==◌, arith,
}
use rustygo.Analysis.Ssa.{Ref, Function}
use rustygo.Analysis.Summary.{ParamSummary, SummaryMap, summary_of}
use rustygo.Analysis.Summary.Values.{Flags}
use rustygo.Analysis.Summary.Values.Fuel.{value_flow_found}
use rustygo.Analysis.Summary.Rounds.{
  initial_summaries, Changed, mark, mark_at, mark_param, or_changed, next_round, round_params,
  and_round, round, has_body_of, after_round, fixpoint, unset, unset_params, unset_flags,
  analyze_summaries,
}

-- A change sets a flag; without one, nothing is different.
abbrev Marks : {A : Type 0} → (A → ℕ) → A → A × Bool → Type 0
Marks size a (b, true) = size b < size a
Marks size a (b, false) = b ≡ a

abbrev unset_of : ParamSummary → ℕ
unset_of p = unset p.escapes + unset p.returned + unset p.stored

flag_cases :
    (a f : Bool)
    → (((not a && f) ≡ true) × (unset (a || f) < unset a))
      ⊎ (((not a && f) ≡ false) × ((a || f) ≡ a))
flag_cases true f = inr (refl, refl)
flag_cases false true = inl (refl, omega arith)
flag_cases false false = inr (refl, refl)

fewer : (a f : Bool) → unset (a || f) ≤ unset a
fewer true f = omega arith
fewer false true = omega arith
fewer false false = omega arith

mark-Marks : (p : ParamSummary) (fl : Flags) → Marks unset_of p (mark p fl)
unfolding mark
mark-Marks p fl =
    let escapes' = fewer p.escapes fl.escapes in
    let returned' = fewer p.returned fl.returned in
    let stored' = fewer p.stored fl.stored in
    elim (flag_cases p.escapes fl.escapes) [
      | inl (e, l) ↦ rw e (omega arith)
      | inr (e, l) ↦ elim (flag_cases p.returned fl.returned) [
        | inl (f, m) ↦ rw (e, f) (omega arith)
        | inr (f, m) ↦ elim (flag_cases p.stored fl.stored) [
          | inl (g, n) ↦ rw (e, f, g) (omega arith)
          | inr (g, n) ↦ rw (e, f, g, l, m, n) refl
        ]
      ]
    ]

mark_at-Marks :
    (ps : List ParamSummary) (i : ℕ) (fl : Flags) → Marks unset_params ps (mark_at ps i fl)
unfolding mark_at unset_params
mark_at-Marks [] i fl = refl
mark_at-Marks (p ∷ ps) zero fl = here (mark p fl) (mark-Marks p fl)
  where
    here :
        (r : Changed ParamSummary)
        → Marks unset_of p r
        → Marks unset_params (p ∷ ps) (r.0 ∷ ps, r.1)
    here (q, true) h = omega (arith, h)
    here (q, false) h = ap (λ x. x ∷ ps) h
mark_at-Marks (p ∷ ps) (suc i) fl = later (mark_at ps i fl) (mark_at-Marks ps i fl)
  where
    later :
        (r : Changed (List ParamSummary))
        → Marks unset_params ps r
        → Marks unset_params (p ∷ ps) (p ∷ r.0, r.1)
    later (qs, true) h = omega (arith, h)
    later (qs, false) h = ap (λ x. p ∷ x) h

mark_param-Marks :
    (ss : SummaryMap) (name i : ℕ) (fl : Flags) → Marks unset_flags ss (mark_param ss name i fl)
unfolding mark_param unset_flags
mark_param-Marks [] name i fl = refl
mark_param-Marks (s ∷ ss) name i fl = elim (Bool-cases (s.full_name == name)) [
  | inl e ↦ rw e (here (mark_at s.params i fl) (mark_at-Marks s.params i fl))
  | inr e ↦ rw e (later (mark_param ss name i fl) (mark_param-Marks ss name i fl))
]
  where
    here :
        (r : Changed (List ParamSummary))
        → Marks unset_params s.params r
        → Marks unset_flags (s ∷ ss) (record s { params = r.0 } ∷ ss, r.1)
    here (ps, true) h = omega (arith, h)
    here (ps, false) h = ap (λ (x : List ParamSummary). record s { params = x } ∷ ss) h

    later :
        (r : Changed SummaryMap)
        → Marks unset_flags ss r
        → Marks unset_flags (s ∷ ss) (s ∷ r.0, r.1)
    later (rest, true) h = omega (arith, h)
    later (rest, false) h = ap (λ (x : SummaryMap). s ∷ x) h

-- A round, or the part of it from some function on, that ends.
abbrev Rounds : SummaryMap → Option (Changed SummaryMap) → Type 0
Rounds ss none = ⊥
Rounds ss (some r) = Marks unset_flags ss r

next_round-Rounds :
    (ss : SummaryMap) (r : Changed SummaryMap) (f : SummaryMap → Option (Changed SummaryMap))
    → Marks unset_flags ss r
    → ((us' : SummaryMap) → Rounds us' (f us'))
    → Rounds ss (next_round r f)
next_round-Rounds ss (us, c) f h g = joined c h (f us) (g us)
  where
    joined :
        (c : Bool)
        → Marks unset_flags ss (us, c)
        → (r : Option (Changed SummaryMap)) → Rounds us r
        → Rounds ss (or_changed c r)
    joined c h none k = k
    joined true h (some (vs, true)) k = omega (arith, h, k)
    joined true h (some (vs, false)) k = rw k h
    joined false h (some (vs, true)) k = rw h at k
    joined false h (some (vs, false)) k = k ∙ h

round_params-Rounds :
    (fn : Function) (i : ℕ) (ps : List Ref) (ss : SummaryMap) → Rounds ss (round_params fn i ps ss)
unfolding round_params
round_params-Rounds fn i [] ss = refl
round_params-Rounds fn i (p ∷ ps) ss =
    let (fl, vs, e) = value_flow_found ss fn p in
    rw e (
      next_round-Rounds ss (mark_param ss fn.name i fl) (round_params fn (suc i) ps)
        (mark_param-Marks ss fn.name i fl) (round_params-Rounds fn (suc i) ps))

round-Rounds : (fns : List Function) (ss : SummaryMap) → Rounds ss (round fns ss)
unfolding round
round-Rounds [] ss = refl
round-Rounds (fn ∷ fns) ss = elim (Bool-cases (has_body_of (summary_of ss fn.name))) [
  | inl e ↦ rw e (
      joined (round_params fn 0 fn.params ss) (round_params-Rounds fn 0 fn.params ss)
        (round-Rounds fns))
  | inr e ↦ rw e (round-Rounds fns ss)
]
  where
    joined :
        (r : Option (Changed SummaryMap))
        → Rounds ss r
        → ((us : SummaryMap) → Rounds us (round fns us))
        → Rounds ss (and_round r (round fns))
    joined none h k = h
    joined (some r) h k = next_round-Rounds ss r (round fns) h k

-- A map that a further round leaves as it is.
abbrev Stable : List Function → Option SummaryMap → Type 0
Stable fns r = (us : SummaryMap) × (r ≡ some us) × (round fns us ≡ some (us, false))

fixpoint_ends :
    (fns : List Function) (fuel : ℕ) (ss : SummaryMap)
    → unset_flags ss < fuel
    → Stable fns (fixpoint fns fuel ss)
unfolding fixpoint
fixpoint_ends fns zero ss h = absurd (omega arith)
fixpoint_ends fns (suc fuel) ss h =
    by_round (round fns ss) refl (round-Rounds fns ss)
      (λ us k. fixpoint_ends fns fuel us (omega (arith, h, k)))
  where
    by_round :
        (r : Option (Changed SummaryMap))
        → round fns ss ≡ r
        → Rounds ss r
        → ((us : SummaryMap) → unset_flags us < unset_flags ss → Stable fns (fixpoint fns fuel us))
        → Stable fns (after_round r (fixpoint fns fuel))
    by_round none e k again = absurd k
    by_round (some (us, true)) e k again = again us k
    by_round (some (us, false)) e k again = (us, refl, rw (sym k) at e)

-- For every list of functions the rounds end, within as many rounds as there are flags and one more, with a map
-- that a further round leaves as it is.
pub analyze_summaries_ends :
    (fns : List Function)
    → (ss : SummaryMap) × (analyze_summaries fns ≡ some ss) × (round fns ss ≡ some (ss, false))
unfolding analyze_summaries
analyze_summaries_ends fns =
    let ss = initial_summaries [] fns in fixpoint_ends fns (suc (unset_flags ss)) ss (omega arith)
