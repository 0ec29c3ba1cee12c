-- ===== src/Analysis/Summary/Values/Fuel.antt =====
-- The recursion of `analyzeValueFlow` visits a value once, so its fuel is enough.
use rustygo.Base.{
  ℕ, zero, suc, ◌<◌, true, none, some, ◌≡◌, refl, ap, inl, inr, List, [], ◌∷◌, length, length-map,
  map, Bool-cases, arith,
}
use mathlib.Core.List.{Memᴰ}
use mathlib.Core.List.Memᴰ
use rustygo.Analysis.Ssa.{Ref, Instruction, Function, instructions}
use rustygo.Analysis.Summary.{SummaryMap}
use rustygo.Analysis.Summary.Values.{
  Flags, is_operand, uses, use_flags, is_address, Found, and_flags, and_then, follow,
  analyze_value_flow, value_flow,
}
use rustygo.Analysis.Lifetime.Graph.{NodeId, of_value, has_node}
use rustygo.Analysis.Lifetime.Graph.Nodes.{
  has_node-cons_of, unvisited, unvisited-nil, unvisited_mono, unvisited_less,
}

-- The recursion ends, and every value visited stays visited.
abbrev Ends : List NodeId → Found → Type 0
Ends vs none = ⊥
Ends vs (some (fl, ws)) = (x : NodeId) → has_node x vs ≡ true → has_node x ws ≡ true

abbrev values : List Instruction → List NodeId
values is = map (λ (i : Instruction). of_value i.self) is

abbrev Visits : (Ref → List NodeId → Found) → List Instruction → List NodeId → Type 0
Visits visit is vs =
    (i : Instruction) (ws : List NodeId)
    → Memᴰ i is
    → ((x : NodeId) → has_node x vs ≡ true → has_node x ws ≡ true)
    → Ends ws (visit i.self ws)

Ends-widen :
    (vs us : List NodeId) (r : Found)
    → ((x : NodeId) → has_node x vs ≡ true → has_node x us ≡ true)
    → Ends us r
    → Ends vs r
Ends-widen vs us none h k = k
Ends-widen vs us (some (fl, ws)) h k = λ x e. k x (h x e)

and_flags-Ends : (vs : List NodeId) (fl : Flags) (r : Found) → Ends vs r → Ends vs (and_flags fl r)
and_flags-Ends vs fl none h = h
and_flags-Ends vs fl (some (more, ws)) h = h

and_then-Ends :
    (vs : List NodeId) (r : Found) (f : List NodeId → Found)
    → Ends vs r
    → ((ws : List NodeId)
        → ((x : NodeId) → has_node x vs ≡ true → has_node x ws ≡ true)
        → Ends ws (f ws))
    → Ends vs (and_then r f)
and_then-Ends vs none f h g = h
and_then-Ends vs (some (fl, ws)) f h g =
    and_flags-Ends vs fl (f ws) (Ends-widen vs ws (f ws) h (g ws h))

follow-Ends :
    (visit : Ref → List NodeId → Found) (ss : SummaryMap) (v : Ref) (is : List Instruction)
    (vs : List NodeId)
    → Visits visit is vs
    → Ends vs (follow visit ss v is vs)
unfolding follow
follow-Ends visit ss v [] vs h = λ x e. e
follow-Ends visit ss v (i ∷ is) vs h =
    let later : (ws : List NodeId)
        → ((x : NodeId) → has_node x vs ≡ true → has_node x ws ≡ true)
        → Ends ws (follow visit ss v is ws) =
      λ ws g.
        follow-Ends visit ss v is ws (λ j us m k. h j us (Memᴰ.tail m) (λ x e. k x (g x e))) in
    elim (Bool-cases (is_address i.op)) [
      | inl e ↦ rw (e) (
          and_then-Ends vs (visit i.self vs) (follow visit ss v is)
            (h i vs (Memᴰ.head refl) (λ x e. e)) later)
      | inr e ↦
          rw (e) (
            and_flags-Ends vs (use_flags ss v i.op) (follow visit ss v is vs) (later vs (λ x e. e)))
    ]

uses_in :
    (v : Ref) (is : List Instruction) (i : Instruction)
    → Memᴰ i (uses v is)
    → Memᴰ (of_value i.self) (values is)
unfolding uses
uses_in v [] i m = absurd (Memᴰ.not-nil m)
uses_in v (j ∷ is) i m = elim (Bool-cases (is_operand v j.operands)) [
  | inl e ↦ elim (Memᴰ.cases_cons (rw e at m)) [
    | inl now ↦ Memᴰ.head (ap (λ (k : Instruction). of_value k.self) now)
    | inr later ↦ Memᴰ.tail (uses_in v is i later)
  ]
  | inr e ↦ Memᴰ.tail (uses_in v is i (rw e at m))
]

flow-Ends :
    (ss : SummaryMap) (is : List Instruction) (p : Ref) (fuel : ℕ) (v : Ref) (vs : List NodeId)
    → Memᴰ (of_value v) (of_value p ∷ values is)
    → unvisited (of_value p ∷ values is) vs < fuel
    → Ends vs (analyze_value_flow ss is fuel v vs)
unfolding analyze_value_flow
flow-Ends ss is p zero v vs m h = absurd (omega arith)
flow-Ends ss is p (suc fuel) v vs m h = elim (Bool-cases (has_node (of_value v) vs)) [
  | inl e ↦ rw e (λ x k. k)
  | inr e ↦ rw e (
      Ends-widen vs (of_value v ∷ vs)
        (follow (analyze_value_flow ss is fuel) ss v (uses v is) (of_value v ∷ vs))
        (λ x k. has_node-cons_of x (of_value v) vs k)
        (follow-Ends (analyze_value_flow ss is fuel) ss v (uses v is) (of_value v ∷ vs) (λ i ws k g.
          flow-Ends ss is p fuel i.self ws (Memᴰ.tail (uses_in v is i k)) (
            omega (
              arith,
              unvisited_less (of_value p ∷ values is) vs (of_value v) m e,
              unvisited_mono (of_value p ∷ values is) (of_value v ∷ vs) ws g,
              h,
            )))))
]

-- The flow of every parameter is found.
pub value_flow_found :
    (ss : SummaryMap) (fn : Function) (p : Ref)
    → (fl : Flags) × (vs : List NodeId) × (value_flow ss fn p ≡ some (fl, vs))
unfolding value_flow
value_flow_found ss fn p =
    let is = instructions fn.blocks in
    by_answer (value_flow ss fn p) (
      flow-Ends ss is p (suc (suc (length is))) p [] (Memᴰ.head refl) (
        omega (
          arith,
          unvisited-nil (of_value p ∷ values is),
          length-map is (λ (i : Instruction). of_value i.self),
        )))
  where
    by_answer : (r : Found) → Ends [] r → (fl : Flags) × (vs : List NodeId) × (r ≡ some (fl, vs))
    by_answer none h = absurd h
    by_answer (some (fl, vs)) h = (fl, vs, refl)
