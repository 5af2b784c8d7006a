-- ===== src/Ai/Answer.antt =====
-- app/ai/answer.py: `answer_question`. What the model returned is an argument, nothing where it was
-- not asked or gave nothing.
use mathlib.Core.List.Memᴰ
use piggyon.Base.{
  ◌≡◌, refl, sym, inl, inr, Bool, true, false, Option, none, some, List, [], ◌∷◌, ◌++◌, map, String,
  Memᴰ, contains, contains→mem, is_empty, Bool-cases, Option-cases, if◌then◌else◌,
}
use piggyon.Base.Lookups.{some_inj}
use piggyon.Snapshot.{
  Order, Service, Wagon, Slot, Terminal, Shipper, RouteConstraint, ScenarioInputSnapshot,
}
use piggyon.Planning.{Run}
use piggyon.Ai.Json.{Json, text, JsonObject, get_key, get_or_null, items_or_nil}
use piggyon.Ai.Patterns.{CharTable}
use piggyon.Ai.Guard.{Rejection, Facts, rejection_reason_for_text}
use piggyon.Ai.Guard.Grounded.{IsGrounded, rejection_reason_for_text-none_iff}
use piggyon.Ai.Explain.{outcomes_of, ids_of, facts_of}

-- `_snapshot_ids`
abbrev pub snapshot_ids : ScenarioInputSnapshot → List String
snapshot_ids s =
    map (λ (o : Order). o.order_id) s.orders
    ++ map (λ (v : Service). v.service_id) s.services
    ++ map (λ (w : Wagon). w.wagon_id) s.wagons
    ++ map (λ (t : Slot). t.slot_id) s.slots
    ++ map (λ (t : Terminal). t.terminal_id) s.terminals
    ++ map (λ (h : Shipper). h.shipper_id) s.shippers
    ++ map (λ (r : RouteConstraint). r.route_constraint_id) s.route_constraints

pub data AnswerSource : Type 0 where
  unavailable llm : AnswerSource

pub record Answer : Type 0 where
  pub answer : String
  pub source : AnswerSource
  pub grounded : Bool
  pub refused_reason : Option Rejection
  pub used_order_ids : List String

-- `UNAVAILABLE_ANSWER`
abbrev pub unavailable_answer : String
unavailable_answer = "생성형 레이어가 설정되어 있지 않아 질문에 답할 수 없습니다. 주문별 상태와 사유는 편성 화면의 설명 카드에서 확인하세요."

abbrev pub is_text : Option Json → Bool
is_text (some (text s)) = true
is_text _ = false

-- `_generate`, from the model's response on
abbrev pub usable_response : Run → Option JsonObject → Option JsonObject
usable_response run none = none
usable_response run (some response) =
    if is_empty (outcomes_of run)
    then none
    else if is_text (get_key "answer" response)
    then some response
    else none

-- `[x for x in xs if isinstance(x, str) and x in allowed_ids]`
unfoldable pub known_texts : List String → List Json → List String
unfolding contains
known_texts allowed [] = []
known_texts allowed (text s ∷ xs) =
    let rest = known_texts allowed xs in if contains s allowed then s ∷ rest else rest
known_texts allowed (x ∷ xs) = known_texts allowed xs

abbrev pub answer_text : JsonObject → String
answer_text response = elim (get_or_null "answer" response) [ text s ↦ s | _ ↦ "" ]

-- the ids of the run, and of the snapshot
abbrev pub answer_facts : Run → ScenarioInputSnapshot → Facts
answer_facts run s = record (facts_of run) {
  entity_ids = (facts_of run).entity_ids ++ snapshot_ids s;
}

abbrev pub refused_answer : Rejection → Answer
refused_answer reason = record {
  answer = "";
  source = llm;
  grounded = false;
  refused_reason = some reason;
  used_order_ids = [];
}

abbrev pub given_answer : String → List String → Answer
given_answer sentence used = record {
  answer = sentence;
  source = llm;
  grounded = true;
  refused_reason = none;
  used_order_ids = used;
}

abbrev pub no_answer : Answer
no_answer = record {
  answer = unavailable_answer;
  source = unavailable;
  grounded = false;
  refused_reason = none;
  used_order_ids = [];
}

-- `none` where the loop over `used_order_ids` raises
unfoldable pub answer_question :
    CharTable → Run → ScenarioInputSnapshot → Option JsonObject → Option Answer
unfolding rejection_reason_for_text known_texts
answer_question table run snapshot given = elim (usable_response run given) [
  | none ↦ some no_answer
  | some response ↦
      elim (rejection_reason_for_text table (answer_facts run snapshot) none
        (answer_text response)) [
          | some reason ↦ some (refused_answer reason)
          | none ↦ elim (items_or_nil (get_or_null "used_order_ids" response)) [
            | none ↦ none
            | some xs ↦
                some
                  (given_answer (answer_text response) (known_texts (ids_of (outcomes_of run)) xs))
          ]
        ]
]

mem-known_texts :
    (allowed : List String) (xs : List Json) {id : String}
    → Memᴰ id (known_texts allowed xs)
    → Memᴰ id allowed
unfolding known_texts
mem-known_texts allowed [] m = elim m [ ]
mem-known_texts allowed (text s ∷ xs) m = elim (Bool-cases (contains s allowed)) [
  | inr e ↦ mem-known_texts allowed xs (rw e at m)
  | inl e ↦ elim (Memᴰ.cases_cons (rw e at m)) [
    | inl here ↦ Memᴰ.cast here (contains→mem s allowed e)
    | inr later ↦ mem-known_texts allowed xs later
  ]
]
mem-known_texts allowed (Json.null ∷ xs) m = mem-known_texts allowed xs m
mem-known_texts allowed (Json.boolean b ∷ xs) m = mem-known_texts allowed xs m
mem-known_texts allowed (Json.integer n ∷ xs) m = mem-known_texts allowed xs m
mem-known_texts allowed (Json.real r ∷ xs) m = mem-known_texts allowed xs m
mem-known_texts allowed (Json.array ys ∷ xs) m = mem-known_texts allowed xs m
mem-known_texts allowed (Json.object d ∷ xs) m = mem-known_texts allowed xs m

-- What an answer is: unavailable, refused without a word of the model's, or grounded.
pub data IsGuarded (table : CharTable) (run : Run) (snapshot : ScenarioInputSnapshot) (a : Answer)
    : Type 0 where
  not_given : a ≡ no_answer → IsGuarded table run snapshot a
  refused : (reason : Rejection) → a ≡ refused_answer reason → IsGuarded table run snapshot a
  answered :
      a.grounded ≡ true
      → IsGrounded table (answer_facts run snapshot) none a.answer
      → ((id : String) → Memᴰ id a.used_order_ids → Memᴰ id (ids_of (outcomes_of run)))
      → IsGuarded table run snapshot a

none≢some : {a : Answer} → none ≡ some a → ⊥
none≢some h = cc

-- Every answer is the fixed sentence of the missing layer, a refusal without the model's text, or a
-- text that the guard lets through for the ids of the run and its snapshot, with used orders that
-- are all orders of the run.
pub answer_question-IsGuarded :
    (table : CharTable) (run : Run) (snapshot : ScenarioInputSnapshot) (given : Option JsonObject)
    (a : Answer)
    → answer_question table run snapshot given ≡ some a
    → IsGuarded table run snapshot a
unfolding answer_question
answer_question-IsGuarded table run snapshot given a e =
    elim (Option-cases (usable_response run given)) [
      | inl nothing ↦ IsGuarded.not_given (sym (some_inj (rw (nothing, answer_question) at e)))
      | inr (response, usable) ↦
          elim (Option-cases (
            rejection_reason_for_text table (answer_facts run snapshot) none
              (answer_text response))) [
                | inr (reason, rejected) ↦
                    IsGuarded.refused reason
                      (sym (some_inj (rw (usable, answer_question, rejected) at e)))
                | inl ok ↦
                    elim (Option-cases (items_or_nil (get_or_null "used_order_ids" response))) [
                      | inl broken ↦
                          absurd (none≢some (rw (usable, answer_question, ok, broken) at e))
                      | inr (xs, listed) ↦
                          let made = some_inj (rw (usable, answer_question, ok, listed) at e) in
                          rw (sym made) (
                            IsGuarded.answered refl
                              ((rejection_reason_for_text-none_iff table (answer_facts run snapshot)
                                  none (answer_text response)).0
                                ok)
                              (λ id m. mem-known_texts (ids_of (outcomes_of run)) xs m))
                    ]
              ]
    ]
