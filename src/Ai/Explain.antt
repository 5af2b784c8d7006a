-- ===== src/Ai/Explain.antt =====
-- app/ai/explain.py: the cards of a run. What `_generate` returns is an argument: nothing, or the
-- dictionaries among the cards of the model's answer.
pub mod Served
use Prim.Native.String
use Prim.Native.String.{◌++◌}
use piggyon.Base.{
  ℕ, zero, suc, Bool, true, false, not, Option, none, some, List, [], ◌∷◌, map, String, ◌==◌, ltb,
  length, contains, flat_map, sort_by, text_le, or_else, if◌then◌else◌,
}
use piggyon.Base
use piggyon.Base.Dict.{Dict, get, put}
use piggyon.ReasonCodes.{
  Verdict, assigned, because, capacity_conflict, missing_required_field, ready_after_cutoff,
  due_time_exceeded, tunnel_height_exceeded, terminal_not_compatible, alternative_available,
}
use piggyon.Eligibility.Types.{
  valid, review_required, EligibilityState, eligible, ineligible, not_evaluated,
}
use piggyon.Baseline.{
  Assignment, AssignmentState, AlternativeState, not_searched, available, no_alternative,
  OutcomeEvidence, eligible_slots, OrderOutcome,
}
use piggyon.Baseline
use piggyon.Planning.{OutcomeDocument, Run}
use piggyon.Ai.Json.{
  Json, null, boolean, integer, real, text, array, object, JsonObject, str, str_at, get_or_null,
  is_hashable,
}
use piggyon.Ai.Patterns.{CharTable}
use piggyon.Ai.Guard.{Rejection, verdict_text, Facts, ids_of_assignment, rejection_reason_for_text}

pub record Card : Type 0 where
  pub order_id : String
  pub headline : String
  pub detail : String
  pub display_label : String
  pub display_badges : List String

-- `_badges`
abbrev pub badges : AlternativeState → List String
badges available = "조건부 대안 있음" ∷ []
badges _ = []

-- `INELIGIBLE_LABELS`
abbrev pub ineligible_label : AlternativeState → String
ineligible_label not_searched = "기본안 불가·대안 미검토"
ineligible_label available = "기본안 불가"
ineligible_label no_alternative = "불가"

abbrev pub eligible_label : AssignmentState → String
eligible_label AssignmentState.assigned = "편성 가능"
eligible_label _ = "편성 가능·미배정"

abbrev pub evaluated_label : EligibilityState → AssignmentState → AlternativeState → String
evaluated_label eligible placed state = eligible_label placed
evaluated_label ineligible placed state = ineligible_label state
evaluated_label not_evaluated placed state = "확인 필요"

-- `_display_label`
abbrev pub display_label : OrderOutcome → String
display_label o = elim o.input_state [
  | review_required ↦ "확인 필요"
  | valid ↦ evaluated_label o.eligibility_state o.assignment_state o.alternative_state
]

-- `REASON_TEXT`, and the text of a code that it lacks
abbrev pub reason_text : Verdict → String
reason_text assigned = "제약을 모두 만족해 슬롯에 배정되었습니다."
reason_text (because capacity_conflict) = "제약은 만족하지만 이번 운행의 슬롯이 부족해 선택되지 않았습니다."
reason_text (because missing_required_field) = "필수 입력값이 비어 있어 계산 대상에서 분리했습니다."
reason_text (because ready_after_cutoff) = "준비 시각이 이 운행의 반입 마감 이후입니다."
reason_text (because due_time_exceeded) = "이 운행으로는 도착·처리 후 납기를 넘깁니다."
reason_text (because tunnel_height_exceeded) = "화물 높이가 경로의 통과 높이 한도를 넘습니다."
reason_text (because terminal_not_compatible) = "지정된 터미널이 이 화물의 취급 태그를 지원하지 않습니다."
reason_text (because alternative_available) = "승인된 변경을 적용하면 배정할 수 있습니다."
reason_text (because code) = "사유 코드 " ++ (verdict_text (because code) ++ "에 해당합니다.")

abbrev pub detail_text : AlternativeState → String → String
detail_text available reason = reason ++ " 승인된 변경으로 검토할 수 있는 대안이 있습니다."
detail_text _ reason = reason

-- `_template_card`
abbrev pub template_card : OrderOutcome → Card
template_card o = record {
  order_id = o.order_id;
  headline = display_label o;
  detail = detail_text o.alternative_state (reason_text o.primary_reason_code);
  display_label = display_label o;
  display_badges = badges o.alternative_state;
}

abbrev pub slot_ids_of : OutcomeEvidence → List String
slot_ids_of (eligible_slots ids) = ids
slot_ids_of _ = []

abbrev pub outcomes_of : Run → List OrderOutcome
outcomes_of run = map (λ (d : OutcomeDocument). d.outcome) run.order_outcomes

abbrev pub ids_of : List OrderOutcome → List String
ids_of os = map (λ (o : OrderOutcome). o.order_id) os

-- `_entity_ids`
unfoldable pub entity_ids : Run → List String
unfolding flat_map
entity_ids run = Base.◌++◌ (ids_of (outcomes_of run)) (
    Base.◌++◌ (flat_map ids_of_assignment run.assignments)
      (flat_map (λ (o : OrderOutcome). slot_ids_of o.evidence) (outcomes_of run)))

-- `allowed_ids`, `allowed_codes` and `entity_ids`
abbrev pub facts_of : Run → Facts
facts_of run = record {
  allowed_ids = ids_of (outcomes_of run);
  allowed_codes = map (λ (o : OrderOutcome). verdict_text o.primary_reason_code) (outcomes_of run);
  entity_ids = entity_ids run;
}

-- `templates`
unfoldable pub put_templates : Dict Card → List OrderOutcome → Dict Card
unfolding put
put_templates d [] = d
put_templates d (o ∷ os) = put_templates (put o.order_id (template_card o) d) os

-- `text[:n]`
unfoldable pub take_chars : ℕ → String → String
take_chars zero s = String.[]
take_chars (suc n) String.[] = String.[]
take_chars (suc n) (String.◌∷◌ c s) = String.◌∷◌ c (take_chars n s)

pub data Replaced : Type 0 where
  rejected_for : Rejection → Replaced
  no_card_returned : Replaced

-- The loop's `cards`, `replaced`, `rejections` and `unmatched`.
pub record Progress : Type 0 where
  pub cards : Dict Card
  pub replaced : List String
  pub rejections : Dict Replaced
  pub unmatched : List String

pub data Source : Type 0 where
  llm template : Source

pub record Cards : Type 0 where
  pub cards : List Card
  pub source : Source
  pub replaced_order_ids : List String
  pub replaced_reasons : Dict Replaced
  pub unmatched_order_ids : List String

module _ (table : CharTable) (printed : Json → String) where
  -- `f"{card.get('headline', '')} {card.get('detail', '')}"`
  abbrev pub sentence_of : JsonObject → String
  sentence_of card = str_at printed "headline" card ++ (" " ++ str_at printed "detail" card)

  -- the card that is served for one that passes
  abbrev pub generated_card : String → Card → JsonObject → Card
  generated_card order_id computed card = record {
    order_id = order_id;
    headline = take_chars 40 (str_at printed "headline" card);
    detail = str_at printed "detail" card;
    display_label = computed.display_label;
    display_badges = computed.display_badges;
  }

  abbrev pub accept_or_replace : String → Card → JsonObject → Option Rejection → Progress → Progress
  accept_or_replace order_id computed card none p = record p {
    cards = put order_id (generated_card order_id computed card) p.cards;
  }
  accept_or_replace order_id computed card (some reason) p = record p {
    replaced = Base.◌++◌ p.replaced (order_id ∷ []);
    rejections = put order_id (rejected_for reason) p.rejections;
  }

  abbrev pub unmatched_with : String → Progress → Progress
  unmatched_with id p = record p { unmatched = Base.◌++◌ p.unmatched (id ∷ []) }

  -- the body of the loop, for a card that names an order by a text; the templates have a key for each
  -- of `allowed_ids`
  unfoldable pub named_card : Facts → Dict Card → JsonObject → String → Progress → Progress
  unfolding get put take_chars rejection_reason_for_text
  named_card facts templates card order_id p = elim (get order_id templates) [
    | none ↦ unmatched_with order_id p
    | some computed ↦ elim (get order_id p.cards) [
      | some seen ↦ p
      | none ↦
          accept_or_replace order_id computed card
            (rejection_reason_for_text table facts (some order_id) (sentence_of card)) p
    ]
  ]

  -- the body of the loop; `none` where the look-up in the set raises
  unfoldable pub read_card : Facts → Dict Card → JsonObject → Progress → Option Progress
  unfolding named_card
  read_card facts templates card p = elim (get_or_null "order_id" card) [
    | text order_id ↦ some (named_card facts templates card order_id p)
    | array xs ↦ none
    | object d ↦ none
    | null ↦ some (unmatched_with (printed null) p)
    | boolean b ↦ some (unmatched_with (printed (boolean b)) p)
    | integer n ↦ some (unmatched_with (printed (integer n)) p)
    | real r ↦ some (unmatched_with (printed (real r)) p)
  ]

  unfoldable pub read_cards : Facts → Dict Card → List JsonObject → Progress → Option Progress
  unfolding read_card
  read_cards facts templates [] p = some p
  read_cards facts templates (card ∷ cards) p = elim (read_card facts templates card p) [
    | none ↦ none
    | some q ↦ read_cards facts templates cards q
  ]

  abbrev pub with_default : Option Replaced → String → Dict Replaced → Dict Replaced
  with_default none id d = put id no_card_returned d
  with_default (some r) id d = d

  -- the round of the second loop, for an order without a card
  abbrev pub fall_back : String → Card → Progress → Progress
  fall_back id computed p = record p {
    cards = put id computed p.cards;
    replaced = if contains id p.replaced then p.replaced else Base.◌++◌ p.replaced (id ∷ []);
    rejections =
        if contains id p.replaced
        then p.rejections
        else with_default (get id p.rejections) id p.rejections;
  }

  unfoldable pub fill : Dict Card → Progress → Progress
  unfolding get put contains
  fill [] p = p
  fill ((id, computed) ∷ templates) p =
      fill templates (elim (get id p.cards) [ some seen ↦ p | none ↦ fall_back id computed p ])

  -- `[cards[o["order_id"]] for o in outcomes]`; `none` where a key is missing
  unfoldable pub in_order : List OrderOutcome → Dict Card → Option (List Card)
  unfolding get
  in_order [] d = some []
  in_order (o ∷ os) d = elim (get o.order_id d) [
    | none ↦ none
    | some card ↦ elim (in_order os d) [ none ↦ none | some cards ↦ some (card ∷ cards) ]
  ]

  abbrev pub packed : List OrderOutcome → Progress → List Card → Cards
  packed outcomes p cards = record {
    cards = cards;
    source = if ltb (length p.replaced) (length outcomes) then llm else template;
    replaced_order_ids = sort_by text_le p.replaced;
    replaced_reasons = p.rejections;
    unmatched_order_ids = sort_by text_le p.unmatched;
  }

  -- the return where nothing was generated
  abbrev pub templates_only : Dict Card → Cards
  templates_only templates = record {
    cards = Base.Dict.values templates;
    source = template;
    replaced_order_ids = [];
    replaced_reasons = [];
    unmatched_order_ids = [];
  }

  unfoldable pub build_cards : Run → Option (List JsonObject) → Option Cards
  unfolding put_templates read_cards fill in_order sort_by entity_ids
  build_cards run none = some (templates_only (put_templates [] (outcomes_of run)))
  build_cards run (some generated) =
      let outcomes = outcomes_of run in
      let templates = put_templates [] outcomes in
      elim (read_cards (facts_of run) templates generated
        (record { cards = []; replaced = []; rejections = []; unmatched = [] })) [
          | none ↦ none
          | some p ↦ elim (in_order outcomes (fill templates p).cards) [
            | none ↦ none
            | some cards ↦ some (packed outcomes (fill templates p) cards)
          ]
        ]
