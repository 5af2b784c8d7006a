-- ===== src/Alternatives/Deltas.antt =====
-- app/services/alternatives.py: `_assignment_deltas` and `apply_to_baseline`.
use piggyon.Base.{
  Bool, ◌&&◌, Option, none, some, List, [], ◌∷◌, ◌++◌, map, String, ◌==◌, contains, flat_map,
  sort_by, text_le, if◌then◌else◌,
}
use piggyon.Base.Dict.{index_by}
use piggyon.Baseline.{Assignment, OrderOutcome, AlternativeState, available}
use piggyon.Planning.{OutcomeDocument}

pub data ChangeType : Type 0 where
  added moved unassigned : ChangeType

pub record AssignmentDelta : Type 0 where
  pub order_id : String
  pub change_type : ChangeType
  pub before_assignment : Option Assignment
  pub after_assignment : Option Assignment

abbrev pub same_assignment : Assignment → Assignment → Bool
same_assignment a b =
    a.order_id == b.order_id
    && (a.service_id == b.service_id && (a.wagon_id == b.wagon_id && a.slot_id == b.slot_id))

-- the body of the loop, by `was` and `now`
unfoldable pub delta : String → Option Assignment → Option Assignment → List AssignmentDelta
delta id none none = []
delta id none (some now) =
    record {
      order_id = id;
      change_type = added;
      before_assignment = none;
      after_assignment = some now;
    }
    ∷ []
delta id (some was) none =
    record {
      order_id = id;
      change_type = unassigned;
      before_assignment = some was;
      after_assignment = none;
    }
    ∷ []
delta id (some was) (some now) =
    if same_assignment was now
    then []
    else record {
      order_id = id;
      change_type = moved;
      before_assignment = some was;
      after_assignment = some now;
    }
      ∷ []

-- a set's elements, one by one
unfoldable pub distinct_ids : List String → List String
unfolding contains
distinct_ids [] = []
distinct_ids (x ∷ xs) = let rest = distinct_ids xs in if contains x rest then rest else x ∷ rest

abbrev pub by_order_id : List Assignment → String → Option Assignment
by_order_id plan = index_by (λ (a : Assignment). a.order_id) plan

-- `sorted(set(before_by_order) | set(after_by_order))`
unfoldable pub all_order_ids : List Assignment → List Assignment → List String
unfolding distinct_ids sort_by
all_order_ids before after = sort_by text_le (
    distinct_ids
      (map (λ (a : Assignment). a.order_id) before ++ map (λ (a : Assignment). a.order_id) after))

unfoldable pub assignment_deltas : List Assignment → List Assignment → List AssignmentDelta
unfolding all_order_ids delta
assignment_deltas before after =
    flat_map (λ id. delta id (by_order_id before id) (by_order_id after id))
      (all_order_ids before after)

abbrev pub with_alternative : AlternativeState → OrderOutcome → OrderOutcome
with_alternative state o = record {
  order_id = o.order_id;
  input_state = o.input_state;
  eligibility_state = o.eligibility_state;
  assignment_state = o.assignment_state;
  alternative_state = state;
  primary_reason_code = o.primary_reason_code;
  evidence = o.evidence;
  next_actions = o.next_actions;
}

abbrev pub badges_of : AlternativeState → List String
badges_of available = "조건부 대안 있음" ∷ []
badges_of _ = []

abbrev pub link_of : AlternativeState → Option String → Option String
link_of available id = id
link_of _ id = none

-- what `apply_to_baseline` writes into the outcome it finds
abbrev pub recorded : AlternativeState → Option String → OutcomeDocument → OutcomeDocument
recorded state scenario_id d = record {
  outcome = with_alternative state d.outcome;
  display_badges = some (badges_of state);
  alternative_scenario_id = link_of state scenario_id;
}

-- `apply_to_baseline`, on the outcomes: those after the change, and what is returned; `none` is `{}`
unfoldable pub apply_to_baseline :
    List OutcomeDocument
    → String
    → AlternativeState
    → Option String
    → List OutcomeDocument × Option OutcomeDocument
apply_to_baseline [] order_id state scenario_id = ([], none)
apply_to_baseline (d ∷ ds) order_id state scenario_id =
    let rest = apply_to_baseline ds order_id state scenario_id in
    if d.outcome.order_id == order_id
    then (recorded state scenario_id d ∷ ds, some (recorded state scenario_id d))
    else (d ∷ rest.0, rest.1)
