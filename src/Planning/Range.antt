-- ===== src/Planning/Range.antt =====
-- The ranges in which nothing of app/services/planning.py raises: dates within the calendar and
-- numbers within the 64 bits of the solver. The snapshot's model leaves these numbers unbounded.
use mathlib.Core.List.Memᴰ
use piggyon.Base.{
  ◌≡◌, refl, sym, ap, ◌∙◌, subst, inl, inr, Bool, true, false, Option, none, some, List, [], ◌∷◌,
  String, Memᴰ, arith, is_all, any, Bool-cases, ◌==◌, or_else, Option-cases, index_by_sound,
}
use piggyon.Snapshot.{PriorityClass, Service, Terminal, Slot, Wagon, Order, ScenarioInputSnapshot}
use piggyon.Eligibility.Types.{Candidate}
use piggyon.Eligibility.Groups.{IsInCalendar}
use piggyon.Baseline.{Assignment}
use piggyon.Baseline.Cp.{Var, fits_ℕ, fits_ℤ}
use piggyon.Baseline.Problem.{order_table, weight_of, capacity_of, first_wagon, coefficients_fit}
use piggyon.Baseline.Objectives.{score, score_of, variables, scores_fit}
use piggyon.Validator.Checks.{times_raise, found_raises, assignment_raises}
use piggyon.Validator.{tables_of, plan_raises}
use piggyon.Alternatives.Scope.{IsDerived, sent, destination_of}
use piggyon.Alternatives.Changes.{Change}

-- Dates within the calendar, and weights, limits and scores of 64 bits.
pub record IsInRange (s : ScenarioInputSnapshot) : Type 0 where
  pub calendar : IsInCalendar s
  pub weights : (o : Order) → Memᴰ o s.orders → fits_ℕ (or_else o.gross_weight_kg 0) ≡ true
  pub capacities : (w : Wagon) → Memᴰ w s.wagons → fits_ℕ w.max_total_weight_kg ≡ true
  pub scores : (p : PriorityClass) → fits_ℤ (score s.policy.priority_scores p) ≡ true

is_all_intro :
    {A : Type 0} (test : A → Bool) (xs : List A) → ((x : A) → test x ≡ true) → is_all test xs ≡ true
is_all_intro test [] h = refl
is_all_intro test (x ∷ xs) h = rw (h x) (is_all_intro test xs h)

not-any :
    {A : Type 0} (test : A → Bool) (xs : List A) → ((x : A) → test x ≡ false) → any test xs ≡ false
unfolding any
not-any test [] h = refl
not-any test (x ∷ xs) h = rw (h x) (not-any test xs h)

module _ (s : ScenarioInputSnapshot) (range : IsInRange s) where
  weight_fits : (id : String) → fits_ℕ (weight_of (order_table s id)) ≡ true
  weight_fits id = elim (Option-cases (order_table s id)) [
    | inl absent ↦ rw absent refl
    | inr (o, found) ↦
        let (listed, same) = index_by_sound (λ (x : Order). x.order_id) s.orders id found in
        rw found (range.weights o listed)
  ]

  first_wagon_fits :
      (id : String) (ws : List Wagon)
      → ((w : Wagon) → Memᴰ w ws → fits_ℕ w.max_total_weight_kg ≡ true)
      → fits_ℕ (capacity_of (first_wagon id ws)) ≡ true
  unfolding first_wagon
  first_wagon_fits id [] h = refl
  first_wagon_fits id (w ∷ ws) h = elim (Bool-cases (w.wagon_id == id)) [
    | inl own ↦ rw own (h w (Memᴰ.head refl))
    | inr other ↦ rw other (first_wagon_fits id ws (λ x m. h x (Memᴰ.tail m)))
  ]

  pub coefficients_fit_in_range : (cs : List Candidate) → coefficients_fit s cs ≡ true
  unfolding coefficients_fit
  coefficients_fit_in_range cs =
      is_all_intro _ cs
        λ c. rw (weight_fits c.order_id, first_wagon_fits c.wagon_id s.wagons range.capacities) refl

  score_fits : (o : Option Order) → fits_ℤ (score_of s.policy.priority_scores o) ≡ true
  score_fits none = refl
  score_fits (some o) = range.scores o.priority_class

  pub scores_fit_in_range : (cs : List Candidate) → scores_fit s cs ≡ true
  scores_fit_in_range cs =
      is_all_intro _ (variables s cs) λ (x : Var). score_fits (order_table s x.0)

  times_raise-false :
      (v : Service) → Memᴰ v s.services → times_raise v (tables_of s).terminals ≡ false
  times_raise-false v m = elim (Option-cases ((tables_of s).terminals v.destination_terminal_id)) [
    | inl absent ↦ rw absent (ground arith)
    | inr (t, found) ↦
        let (listed, same) =
          index_by_sound (λ (x : Terminal). x.terminal_id) s.terminals v.destination_terminal_id
            found in
        let fits = range.calendar.handled v m t listed in rw found (ground (arith, fits))
  ]

  found_raises_if :
      (o : Option Order) (v : Option Service) (w : Option Wagon) (t : Option Slot)
      → ((x : Service) → v ≡ some x → times_raise x (tables_of s).terminals ≡ false)
      → found_raises (tables_of s) o v w t ≡ false
  found_raises_if (some o) (some v) (some w) (some t) h = h v refl
  found_raises_if none v w t h = refl
  found_raises_if (some o) none w t h = refl
  found_raises_if (some o) (some v) none t h = refl
  found_raises_if (some o) (some v) (some w) none h = refl

  found_raises-false : (a : Assignment) → assignment_raises (tables_of s) a ≡ false
  found_raises-false a =
      found_raises_if ((tables_of s).orders a.order_id) ((tables_of s).services a.service_id)
        ((tables_of s).wagons a.wagon_id) ((tables_of s).slots a.slot_id)
        λ v found.
          times_raise-false v
            (index_by_sound (λ (x : Service). x.service_id) s.services a.service_id found).0

  pub plan_raises-false : (assignments : List Assignment) → plan_raises s assignments ≡ false
  unfolding plan_raises
  plan_raises-false assignments = not-any _ assignments found_raises-false

weight-sent :
    (order_id : String) (found : Option String) (o : Order)
    → (sent order_id found o).gross_weight_kg ≡ o.gross_weight_kg
weight-sent order_id none o = refl
weight-sent order_id (some id) o = elim (Bool-cases (o.order_id == order_id)) [
  | inl own ↦ rw own refl
  | inr other ↦ rw other refl
]

-- What is derived from a scenario stays in the ranges of it.
pub derived-IsInRange :
    {s derived : ScenarioInputSnapshot} {order_id : String} {cs : List Change}
    {order_services : List String}
    → IsDerived s order_id cs derived order_services
    → IsInRange s
    → IsInRange derived
derived-IsInRange {s} {derived} {order_id} {cs} d range =
    subst IsInRange (sym d.same_rest) (record {
      calendar = record { handled = range.calendar.handled };
      weights = λ o m.
          let (p, listed, same) =
            Memᴰ.of_map (sent order_id (destination_of none cs)) s.orders (rw d.orders_eq at m) in
          ap (λ w. fits_ℕ (or_else w 0))
            (ap (λ (x : Order). x.gross_weight_kg) (sym same)
              ∙ weight-sent order_id (destination_of none cs) p)
          ∙ range.weights p listed;
      capacities = range.capacities;
      scores = range.scores;
    })
