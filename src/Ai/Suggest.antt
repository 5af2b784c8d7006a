-- ===== src/Ai/Suggest.antt =====
-- app/ai/suggest.py: which approved change to try first. The dictionaries of the model's answer are
-- an argument, nothing where it gave none. What only its prompt reads is left out.
pub mod Permitted
pub mod Proposals
use piggyon.Base.{
  ℕ, Bool, true, false, not, ◌&&◌, ◌||◌, Option, none, some, List, [], ◌∷◌, ◌++◌, map, String, ◌==◌,
  any, contains, flat_map, is_empty, length, ltb, sort_by, text_le, when, if◌then◌else◌,
}
use piggyon.Base.Dict.{Dict, get, put, index_by}
use piggyon.ReasonCodes.{
  Code, Verdict, assigned, because, ready_after_cutoff, due_time_exceeded, capacity_conflict,
  service_unavailable, slot_unavailable, wagon_unavailable, terminal_not_compatible,
  terminal_not_on_service_route, tunnel_height_exceeded, route_width_exceeded,
  route_weight_exceeded,
}
use piggyon.Snapshot.{
  AllowedAdjustment, add_order_approved_service, change_to_approved_terminal, AdjustmentWindow,
  Service, Order, ScenarioInputSnapshot,
}
use piggyon.Eligibility.Types.{valid, review_required, InputState}
use piggyon.Baseline.{AssignmentState, OrderOutcome}
use piggyon.Planning.{Run}
use piggyon.Alternatives.Changes.{same_allowed}
use piggyon.Ai.Json.{
  Json, null, boolean, integer, real, text, array, object, JsonObject, str_at, get_or_null,
  items_or_nil,
}
use piggyon.Ai.Patterns.{CharTable}
use piggyon.Ai.Guard.{Rejection, Facts, rejection_reason_for_text}
use piggyon.Ai.Explain.{outcomes_of, facts_of, Source, llm, template}

abbrev pub adjustment_text : AllowedAdjustment → String
adjustment_text add_order_approved_service = "ADD_ORDER_APPROVED_SERVICE"
adjustment_text change_to_approved_terminal = "CHANGE_TO_APPROVED_TERMINAL"

-- `ADJUSTMENT_FOR_REASON`
abbrev pub adjustment_for_reason : Verdict → Option AllowedAdjustment
adjustment_for_reason (because ready_after_cutoff) = some add_order_approved_service
adjustment_for_reason (because due_time_exceeded) = some add_order_approved_service
adjustment_for_reason (because capacity_conflict) = some add_order_approved_service
adjustment_for_reason (because service_unavailable) = some add_order_approved_service
adjustment_for_reason (because slot_unavailable) = some add_order_approved_service
adjustment_for_reason (because wagon_unavailable) = some add_order_approved_service
adjustment_for_reason (because terminal_not_compatible) = some change_to_approved_terminal
adjustment_for_reason (because terminal_not_on_service_route) = some change_to_approved_terminal
adjustment_for_reason (because tunnel_height_exceeded) = some change_to_approved_terminal
adjustment_for_reason (because route_width_exceeded) = some change_to_approved_terminal
adjustment_for_reason (because route_weight_exceeded) = some change_to_approved_terminal
adjustment_for_reason _ = none

-- `TEMPLATE_TEXT`, `PAIRED_TEXT` and `NEUTRAL_TEXT`
abbrev pub template_text : AllowedAdjustment → String
template_text add_order_approved_service = "이 운행의 시간·용량 조건에서 막혔으므로, 승인된 다른 운행을 먼저 시도해 볼 만합니다."
template_text change_to_approved_terminal = "터미널 취급 조건이나 경로 한도에서 막혔으므로, 승인된 대체 터미널을 먼저 시도해 볼 만합니다."

abbrev pub paired_text : String
paired_text = "승인된 대체 터미널로 가는 기준 운행이 없어, 터미널만 바꾸면 실을 열차가 없습니다. 터미널 변경과 운행 추가를 함께 시도해야 합니다."

abbrev pub neutral_text : String
neutral_text = "승인된 변경을 하나씩 적용해 결과를 확인하세요."

-- `permitted_adjustments`, by the window
abbrev pub permitted_by : Option AdjustmentWindow → List AllowedAdjustment
permitted_by none = []
permitted_by (some w) =
    when (not (is_empty w.alternative_service_ids)) add_order_approved_service
    ++ when (not (is_empty w.alternative_destination_terminal_ids)) change_to_approved_terminal

abbrev pub permitted_adjustments : Order → List AllowedAdjustment
permitted_adjustments o = permitted_by o.adjustment_window

-- a service in scope that runs to one of the terminals
abbrev pub serves : List String → List String → Service → Bool
serves approved in_scope v =
    contains v.service_id in_scope && contains v.destination_terminal_id approved

abbrev pub pairing_by : Option AdjustmentWindow → ScenarioInputSnapshot → Bool
pairing_by none s = false
pairing_by (some w) s =
    not (is_empty w.alternative_destination_terminal_ids)
    && not (any (serves w.alternative_destination_terminal_ids s.baseline_service_ids) s.services)

-- `_needs_pairing`
abbrev pub needs_pairing : Order → ScenarioInputSnapshot → Bool
needs_pairing o s = pairing_by o.adjustment_window s

abbrev pub permits : List AllowedAdjustment → AllowedAdjustment → Bool
permits permitted a = any (same_allowed a) permitted

-- `adjustment_types` and `reason`
pub record Suggestion : Type 0 where
  pub order_id : String
  pub adjustment_types : List AllowedAdjustment
  pub reason : String

abbrev pub both : List AllowedAdjustment
both = change_to_approved_terminal ∷ add_order_approved_service ∷ []

-- `_template`, from the preferred change on
abbrev pub preferred_or_all :
    String → List AllowedAdjustment → Option AllowedAdjustment → Suggestion
preferred_or_all id permitted none = record {
  order_id = id;
  adjustment_types = permitted;
  reason = neutral_text;
}
preferred_or_all id permitted (some a) =
    if permits permitted a
    then record { order_id = id; adjustment_types = a ∷ []; reason = template_text a }
    else record { order_id = id; adjustment_types = permitted; reason = neutral_text }

-- the entry of `templates`
unfoldable pub template_for : String → List AllowedAdjustment → Verdict → Bool → Suggestion
unfolding any
template_for id permitted verdict pair =
    if pair
      && (permits permitted change_to_approved_terminal
          && permits permitted add_order_approved_service)
    then record { order_id = id; adjustment_types = both; reason = paired_text }
    else preferred_or_all id permitted (adjustment_for_reason verdict)

-- The part of an entry of `_candidates` that is read again.
pub record Candidate : Type 0 where
  pub order_id : String
  pub primary_reason_code : Verdict
  pub permitted_adjustment_types : List AllowedAdjustment
  pub terminal_change_needs_a_service : Bool

abbrev pub is_assigned : AssignmentState → Bool
is_assigned AssignmentState.assigned = true
is_assigned _ = false

abbrev pub is_valid : InputState → Bool
is_valid valid = true
is_valid review_required = false

abbrev pub candidate_of : OrderOutcome → Order → ScenarioInputSnapshot → Candidate
candidate_of o order s = record {
  order_id = o.order_id;
  primary_reason_code = o.primary_reason_code;
  permitted_adjustment_types = permitted_adjustments order;
  terminal_change_needs_a_service = needs_pairing order s;
}

-- the body of the loop of `_candidates`
unfoldable pub candidate_for : ScenarioInputSnapshot → OrderOutcome → Option Candidate
unfolding index_by any contains
candidate_for s o =
    if not (is_valid o.input_state) || is_assigned o.assignment_state
    then none
    else elim (index_by (λ (x : Order). x.order_id) s.orders o.order_id) [
      | none ↦ none
      | some order ↦
          if is_empty (permitted_adjustments order) then none else some (candidate_of o order s)
    ]

unfoldable pub put_candidates :
    ScenarioInputSnapshot → List OrderOutcome → Dict Candidate → Dict Candidate
unfolding candidate_for put
put_candidates s [] d = d
put_candidates s (o ∷ os) d =
    put_candidates s os (elim (candidate_for s o) [ none ↦ d | some c ↦ put o.order_id c d ])

abbrev pub template_entry : String × Candidate → String × Suggestion
template_entry (id, c) = (
  id,
  template_for id c.permitted_adjustment_types c.primary_reason_code
      c.terminal_change_needs_a_service,
)

-- `[t for t in … if t in candidate["permitted_adjustment_types"]]`
unfoldable pub chosen_among : List AllowedAdjustment → List Json → List AllowedAdjustment
unfolding flat_map
chosen_among permitted [] = []
chosen_among permitted (text t ∷ xs) =
    flat_map (λ a. when (t == adjustment_text a) a) permitted ++ chosen_among permitted xs
chosen_among permitted (x ∷ xs) = chosen_among permitted xs

-- `suggestions` and `replaced`
pub record Progress : Type 0 where
  pub suggestions : Dict Suggestion
  pub replaced : List String

pub record Suggestions : Type 0 where
  pub suggestions : Dict Suggestion
  pub source : Source
  pub replaced_order_ids : List String

-- the ids that an approved change may name
abbrev pub window_ids : Order → List String
window_ids o = elim o.adjustment_window [
  | none ↦ []
  | some w ↦ w.alternative_service_ids ++ w.alternative_destination_terminal_ids
]

abbrev pub suggestion_facts : Run → ScenarioInputSnapshot → Facts
suggestion_facts run s = record (facts_of run) {
  entity_ids = (facts_of run).entity_ids ++ flat_map window_ids s.orders;
}

module _ (table : CharTable) (printed : Json → String) (facts : Facts)
    (candidates : Dict Candidate) where
  -- from the chosen types and the guard's verdict on
  abbrev pub settled :
      String → Candidate → List AllowedAdjustment → String → Option Rejection → Progress → Progress
  settled id c chosen reason (some r) p = record p { replaced = p.replaced ++ id ∷ [] }
  settled id c [] reason none p = record p { replaced = p.replaced ++ id ∷ [] }
  settled id c (a ∷ chosen) reason none p = record p {
    suggestions =
        put id
          (if c.terminal_change_needs_a_service
            then template_for id c.permitted_adjustment_types c.primary_reason_code
                c.terminal_change_needs_a_service
            else record { order_id = id; adjustment_types = a ∷ chosen; reason = reason })
          p.suggestions;
  }

  -- the body of the loop; `none` where it raises
  unfoldable pub read_suggestion : JsonObject → Progress → Option Progress
  unfolding get put template_for chosen_among rejection_reason_for_text
  read_suggestion item p = elim (get_or_null "order_id" item) [
    | text id ↦ elim (get id candidates) [
      | none ↦ some p
      | some c ↦ elim (items_or_nil (get_or_null "adjustment_types" item)) [
        | none ↦ none
        | some xs ↦ some (
            settled id c (chosen_among c.permitted_adjustment_types xs)
              (str_at printed "reason" item)
              (rejection_reason_for_text table facts (some id) (str_at printed "reason" item)) p)
      ]
    ]
    | array xs ↦ none
    | object d ↦ none
    | null ↦ some p
    | boolean b ↦ some p
    | integer n ↦ some p
    | real r ↦ some p
  ]

  unfoldable pub read_suggestions : List JsonObject → Progress → Option Progress
  unfolding read_suggestion
  read_suggestions [] p = some p
  read_suggestions (item ∷ items) p = elim (read_suggestion item p) [
    | none ↦ none
    | some q ↦ read_suggestions items q
  ]

abbrev pub templates_only : Dict Suggestion → Suggestions
templates_only d = record { suggestions = d; source = template; replaced_order_ids = [] }

-- `served_by_model > 0`, where the difference may be negative
abbrev pub source_of : Dict Candidate → Progress → Source
source_of candidates p = if ltb (length p.replaced) (length candidates) then llm else template

unfoldable pub build_suggestions :
    CharTable
    → (Json → String)
    → Run
    → ScenarioInputSnapshot
    → Option (List JsonObject)
    → Option Suggestions
unfolding put_candidates template_for read_suggestions sort_by
build_suggestions table printed run s given =
    let candidates = put_candidates s (outcomes_of run) [] in
    let templates = map template_entry candidates in
    if is_empty candidates then some (templates_only []) else elim given [
      | none ↦ some (templates_only templates)
      | some items ↦
          elim (read_suggestions table printed (suggestion_facts run s) candidates items
            (record { suggestions = templates; replaced = [] })) [
              | none ↦ none
              | some p ↦ some (record {
                suggestions = p.suggestions;
                source = source_of candidates p;
                replaced_order_ids = sort_by text_le p.replaced;
              })
            ]
    ]
