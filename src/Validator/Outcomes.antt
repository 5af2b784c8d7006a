-- ===== src/Validator/Outcomes.antt =====
-- The outcomes that app/solver/baseline.py builds agree with its assignments, as
-- `_check_outcome_consistency` of app/validation/plan_validator.py wants.
use mathlib.Core.List.Memᴰ
use piggyon.Base.{
  ◌≡◌, ◌≢◌, refl, sym, ap, ap₂, ◌∙◌, inl, inr, Bool, true, false, not, none, List, [], ◌∷◌, map,
  String, eq_iff, Memᴰ, arith, contains, mem→contains, nil-append, flat_map-nil, select, sort_by,
  mem-sort_by, mem-sort_by_of_mem, Bool-cases, is_none, text_le,
}
use piggyon.Base.Dict.{Dict, get, values}
use piggyon.Eligibility.Types.{
  Candidate, InputState, valid, review_required, EligibilityState, not_evaluated, eligible,
  ineligible, OrderEvaluation, ScenarioEvaluation,
}
use piggyon.Eligibility.Verdicts.{IsVerdict}
use piggyon.Baseline.{Assignment, OrderOutcome}
use piggyon.Baseline.Outcomes.{outcome_at, outcome, build_outcomes}
use piggyon.Baseline.Solve.{to_assignment, candidate_le, plan_assignments}
use piggyon.Validator.{
  check_outcome, unreported, check_outcome_consistency, reports_assigned, marked_eligible,
  under_review,
}

select-nil :
    (test : String → Bool) (xs : List String)
    → ((x : String) → Memᴰ x xs → test x ≡ false)
    → select test xs ≡ []
unfolding select
select-nil test [] h = refl
select-nil test (x ∷ xs) h =
    rw (h x (Memᴰ.head refl)) (select-nil test xs (λ y m. h y (Memᴰ.tail m)))

unreported-nil :
    (ids reported : List String)
    → ((x : String) → Memᴰ x ids → contains x reported ≡ true)
    → unreported ids reported ≡ []
unfolding unreported sort_by
unreported-nil ids reported h =
    rw (select-nil (λ id. not (contains id reported)) ids (λ x m. rw (h x m) refl)) refl

pub mem→get : {k : String} {c : Candidate} (d : Dict Candidate) → Memᴰ (k, c) d → get k d ≢ none
unfolding get
mem→get [] m = elim m [ ]
mem→get {k} {c} ((j, w) ∷ d) (Memᴰ.head e) =
    ground (arith, eq_iff j k, ap (λ (p : String × Candidate). p.0) e)
mem→get {k} {c} ((j, w) ∷ d) (Memᴰ.tail m) = ground (arith, mem→get d m)

pub mem-assignments :
    (plan : Dict Candidate) {k : String} {c : Candidate}
    → Memᴰ (k, c) plan
    → Memᴰ (to_assignment c) (plan_assignments plan)
unfolding plan_assignments
mem-assignments plan m =
    Memᴰ.map to_assignment
      (mem-sort_by_of_mem candidate_le (values plan) (Memᴰ.map (λ (e : String × Candidate). e.1) m))

order_id-outcome_at :
    (i : InputState) (g : EligibilityState) (e : OrderEvaluation) (b : Bool)
    → (outcome_at i g e b).order_id ≡ e.order_id
unfolding outcome_at
order_id-outcome_at review_required g e b = refl
order_id-outcome_at valid ineligible e b = refl
order_id-outcome_at valid eligible e true = refl
order_id-outcome_at valid eligible e false = refl
order_id-outcome_at valid not_evaluated e true = refl
order_id-outcome_at valid not_evaluated e false = refl

pub order_id-outcome :
    (plan : Dict Candidate) (e : OrderEvaluation) → (outcome plan e).order_id ≡ e.order_id
unfolding outcome
order_id-outcome plan e =
    order_id-outcome_at e.input_state e.eligibility_state e (not (is_none (get e.order_id plan)))

-- What a plan has to do with an evaluation.
pub record Matches (plan : Dict Candidate) (e : OrderEvaluation) : Type 0 where
  pub verdict : IsVerdict e
  pub only_eligible :
      contains e.order_id (map (λ (a : Assignment). a.order_id) (plan_assignments plan)) ≡ true
      → (e.candidates ≢ []) × (get e.order_id plan ≢ none)
  pub reported :
      get e.order_id plan ≢ none
      → contains e.order_id (map (λ (a : Assignment). a.order_id) (plan_assignments plan)) ≡ true

module _ (ids : List String) (o : OrderOutcome) where
  absent :
      contains o.order_id ids ≡ false
      → reports_assigned o.assignment_state ≡ false
      → check_outcome ids o ≡ []
  unfolding check_outcome
  absent h k = ground arith

  present :
      contains o.order_id ids ≡ true
      → reports_assigned o.assignment_state ≡ true
      → marked_eligible o.eligibility_state ≡ true
      → under_review o.input_state ≡ false
      → check_outcome ids o ≡ []
  unfolding check_outcome
  present h k l n = ground arith

module _ (plan : Dict Candidate) (e : OrderEvaluation) (m : Matches plan e) where
  abbrev assigned_ids : List String
  assigned_ids = map (λ (a : Assignment). a.order_id) (plan_assignments plan)

  abbrev in_plan : Bool
  in_plan = not (is_none (get e.order_id plan))

  in_plan-contains : (b : Bool) → in_plan ≡ b → contains e.order_id assigned_ids ≡ b
  in_plan-contains true h = m.reported (λ k. ground arith)
  in_plan-contains false h = elim (Bool-cases (contains e.order_id assigned_ids)) [
    | inr no_entry ↦ no_entry
    | inl entry ↦ absurd ((m.only_eligible entry).1 (ground arith))
  ]

  -- An order with no candidates is in no assignment.
  unplaced : e.candidates ≡ [] → contains e.order_id assigned_ids ≡ false
  unplaced h = elim (Bool-cases (contains e.order_id assigned_ids)) [
    | inr no_entry ↦ no_entry
    | inl entry ↦ absurd ((m.only_eligible entry).0 h)
  ]

  quiet_eligible :
      (b : Bool)
      → in_plan ≡ b
      → e.input_state ≡ valid
      → e.eligibility_state ≡ eligible
      → check_outcome assigned_ids (outcome_at valid eligible e b) ≡ []
  unfolding outcome_at
  quiet_eligible true h i g =
      present assigned_ids (outcome_at valid eligible e true) (in_plan-contains true h) refl
        (rw g refl) (rw i refl)
  quiet_eligible false h i g =
      absent assigned_ids (outcome_at valid eligible e false) (in_plan-contains false h) refl

  outcome-eq :
      {i : InputState} {g : EligibilityState}
      → e.input_state ≡ i
      → e.eligibility_state ≡ g
      → outcome plan e ≡ outcome_at i g e in_plan
  unfolding outcome
  outcome-eq p q = ap₂ (λ x y. outcome_at x y e in_plan) p q

  quiet_review :
      (g : EligibilityState)
      → e.candidates ≡ []
      → check_outcome assigned_ids (outcome_at review_required g e in_plan) ≡ []
  unfolding outcome_at
  quiet_review g none_left =
      absent assigned_ids (outcome_at review_required g e in_plan) (unplaced none_left) refl

  quiet_refused :
      e.candidates ≡ [] → check_outcome assigned_ids (outcome_at valid ineligible e in_plan) ≡ []
  unfolding outcome_at
  quiet_refused none_left =
      absent assigned_ids (outcome_at valid ineligible e in_plan) (unplaced none_left) refl

  -- The consistency check finds nothing to say of the outcome of `e`.
  check_outcome-nil : check_outcome assigned_ids (outcome plan e) ≡ []
  check_outcome-nil = elim m.verdict [
    | IsVerdict.reviewed i g none_left why ↦
        rw (outcome-eq i g) (quiet_review not_evaluated none_left)
    | IsVerdict.accepted i g some_left why ↦ rw (outcome-eq i g) (quiet_eligible in_plan refl i g)
    | IsVerdict.refused i g none_left why ↦ rw (outcome-eq i g) (quiet_refused none_left)
  ]

module _ (evaluation : ScenarioEvaluation) (plan : Dict Candidate) where
  -- Where the plan matches every evaluation, and each assignment is of an evaluated order, the
  -- outcomes are consistent with the assignments.
  pub check_outcome_consistency-nil :
      ((e : OrderEvaluation) → Memᴰ e evaluation.evaluations → Matches plan e)
      → ((a : Assignment)
          → Memᴰ a (plan_assignments plan)
          → (e : OrderEvaluation) × Memᴰ e evaluation.evaluations × (e.order_id ≡ a.order_id))
      → check_outcome_consistency (plan_assignments plan) (build_outcomes evaluation plan) ≡ []
  unfolding check_outcome_consistency build_outcomes
  check_outcome_consistency-nil matches owned =
      nil-append
        (flat_map-nil (check_outcome ids) outcomes λ o mo.
          let (e, me, same) = Memᴰ.of_map (outcome plan) sorted mo in
          rw (← same)
            (check_outcome-nil plan e (matches e (mem-sort_by by_id evaluation.evaluations me))))
        (rw none_unreported refl)
    where
      by_id : OrderEvaluation → OrderEvaluation → Bool
      by_id d e = text_le d.order_id e.order_id

      sorted : List OrderEvaluation
      sorted =
          sort_by (λ (d : OrderEvaluation) (e : OrderEvaluation). text_le d.order_id e.order_id)
            evaluation.evaluations

      outcomes : List OrderOutcome
      outcomes = map (outcome plan) sorted

      ids : List String
      ids = map (λ (a : Assignment). a.order_id) (plan_assignments plan)

      none_unreported : unreported ids (map (λ (o : OrderOutcome). o.order_id) outcomes) ≡ []
      none_unreported = unreported-nil ids (map (λ (o : OrderOutcome). o.order_id) outcomes) λ id m.
          let (a, ma, ea) =
            Memᴰ.of_map (λ (a : Assignment). a.order_id) (plan_assignments plan) m in
          let (e, me, same) = owned a ma in
          let reported : Memᴰ (outcome plan e).order_id
              (map (λ (o : OrderOutcome). o.order_id) outcomes) =
            Memᴰ.map (λ (o : OrderOutcome). o.order_id)
              (Memᴰ.map (outcome plan) (mem-sort_by_of_mem by_id evaluation.evaluations me)) in
          mem→contains (Memᴰ.cast (sym (order_id-outcome plan e ∙ same ∙ ea)) reported)
