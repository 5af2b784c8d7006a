-- ===== src/Eligibility/Types.antt =====
-- app/rules/eligibility.py: the data classes.
use piggyon.Base.{Bool, not, Option, List, map, String, any, is_empty}
use piggyon.Base.Dict.{Dict}
use piggyon.ReasonCodes.{Code, select_primary}

pub record Candidate : Type 0 where
  pub order_id : String
  pub service_id : String
  pub wagon_id : String
  pub slot_id : String

pub data InputState : Type 0 where
  valid review_required : InputState

pub data EligibilityState : Type 0 where
  not_evaluated eligible ineligible : EligibilityState

-- `{"service_violations": …, "slot_violations": …}`; the second key comes only with the slots
pub record ServiceEvidence : Type 0 where
  pub service_violations : List Code
  pub slot_violations : Option (List Code)

pub record OrderEvaluation : Type 0 where
  pub order_id : String
  pub input_state : InputState
  pub eligibility_state : EligibilityState
  pub reason_codes : List Code
  pub missing_fields : List String
  pub candidates : List Candidate
  pub evidence : Dict ServiceEvidence

abbrev pub eligible_slot_ids : OrderEvaluation → List String
eligible_slot_ids e = map (λ c. c.slot_id) e.candidates

abbrev pub primary_reason_code : OrderEvaluation → Option Code
primary_reason_code e = select_primary e.reason_codes

pub record ScenarioEvaluation : Type 0 where
  pub evaluations : List OrderEvaluation

unfoldable pub has_any_candidate : ScenarioEvaluation → Bool
unfolding any
has_any_candidate e = any (λ x. not (is_empty x.candidates)) e.evaluations
