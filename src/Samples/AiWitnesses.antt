-- ===== src/Samples/AiWitnesses.antt =====
-- The theorems on app/ai, each applied to a concrete run and concrete answers of the model.
use mathlib.Core.List.Memᴰ
use piggyon.Base.{
  ◌≡◌, refl, ◌↔◌, true, false, none, some, [], ◌∷◌, String, Memᴰ, any, IsUnique, contains, flat_map,
  sort_by, insert_by,
}
use piggyon.Base.Dict.{get, put, index_by}
use piggyon.Planning.{Run, as_document}
use piggyon.Ai.Json.{
  Json, text, array, no_items, item, JsonObject, no_fields, field, get_or_null, is_hashable,
}
use piggyon.Ai.Patterns.{CharTable}
use piggyon.Ai.Guard.{Facts, rejection_reason_for_text}
use piggyon.Ai.Guard.Grounded.{IsGrounded, rejection_reason_for_text-none_iff}
use piggyon.Ai.Explain.{llm, Cards, outcomes_of, ids_of, facts_of, build_cards}
use piggyon.Ai.Explain.Served.{AllServed, build_cards-AllServed}
use piggyon.Ai.Answer.{
  given_answer, known_texts, answer_question, IsGuarded, answer_question-IsGuarded,
}
use piggyon.Ai.Suggest.{
  Suggestion, Suggestions, suggestion_facts, candidate_for, put_candidates, template_for,
  chosen_among, read_suggestion, read_suggestions, build_suggestions,
}
use piggyon.Ai.Suggest.Proposals.{IsProposal, build_suggestions-IsProposal}
use piggyon.Snapshot.{add_order_approved_service}
use piggyon.Samples.{scenario}
use piggyon.Samples.Runs
use piggyon.Samples.Calls.{outcome_for}

-- No character beyond those of ASCII is a digit, a letter or a space.
abbrev table : CharTable
table = record { other_decimal = λ c. false; other_alnum = λ c. false; other_space = λ c. false }

abbrev printed : Json → String
printed j = "?"

abbrev run : Run
run = record Runs.run {
  order_outcomes = as_document (outcome_for "O1") ∷ as_document (outcome_for "O2") ∷ [];
}

abbrev facts : Facts
facts = record {
  allowed_ids = "ORD-100" ∷ [];
  allowed_codes = "READY_AFTER_CUTOFF" ∷ [];
  entity_ids = "SLT-A1" ∷ [];
}

rejection_reason_for_text-none_iff_example :
    (rejection_reason_for_text table facts
        (some "ORD-100")
        "ORD-100 leaves SLT-A1 free: READY_AFTER_CUTOFF"
      ≡ none)
    ↔ IsGrounded table facts (some "ORD-100") "ORD-100 leaves SLT-A1 free: READY_AFTER_CUTOFF"
rejection_reason_for_text-none_iff_example =
    rejection_reason_for_text-none_iff table facts (some "ORD-100")
      "ORD-100 leaves SLT-A1 free: READY_AFTER_CUTOFF"

-- a card for the second order that passes
abbrev card : JsonObject
card =
    field "order_id" (text "O2")
      (field "headline" (text "late") (field "detail" (text "ready after the cutoff") no_fields))

different : IsUnique (ids_of (outcomes_of run))
unfolding contains
different = (refl, (refl, tt))

hashable : (g : JsonObject) → Memᴰ g (card ∷ []) → is_hashable (get_or_null "order_id" g) ≡ true
hashable g m = rw (Memᴰ.eq_of_singleton m) refl

build_cards-AllServed_example :
    (r : Cards) × (build_cards table printed run (some (card ∷ [])) ≡ some r)
    × AllServed table printed (facts_of run) (card ∷ []) (outcomes_of run) r.cards
build_cards-AllServed_example =
    build_cards-AllServed table printed run (card ∷ []) different hashable

-- an answer that uses an order of the run and one that is none
abbrev response : JsonObject
response =
    field "answer" (text "both are late")
      (field "used_order_ids" (array (item (text "O2") (item (text "O9") no_items))) no_fields)

answered :
    answer_question table run scenario (some response)
    ≡ some (given_answer "both are late" ("O2" ∷ []))
unfolding answer_question rejection_reason_for_text known_texts contains
answered = refl

answer_question-IsGuarded_example :
    IsGuarded table run scenario (given_answer "both are late" ("O2" ∷ []))
answer_question-IsGuarded_example =
    answer_question-IsGuarded table run scenario (some response)
      (given_answer "both are late" ("O2" ∷ [])) answered

-- a suggestion for the order that the scenario leaves out
abbrev proposal : JsonObject
proposal = field "order_id" (text "O2") (
    field "adjustment_types" (array (item (text "ADD_ORDER_APPROVED_SERVICE") no_items))
      (field "reason" (text "a later train is approved") no_fields))

abbrev suggestion : Suggestion
suggestion = record {
  order_id = "O2";
  adjustment_types = add_order_approved_service ∷ [];
  reason = "a later train is approved";
}

abbrev suggestions : Suggestions
suggestions = record {
  suggestions = ("O2", suggestion) ∷ [];
  source = llm;
  replaced_order_ids = [];
}

suggested : build_suggestions table printed run scenario (some (proposal ∷ [])) ≡ some suggestions
unfolding build_suggestions put_candidates candidate_for template_for read_suggestions
    read_suggestion chosen_among rejection_reason_for_text index_by get put any contains flat_map
    sort_by insert_by
suggested = refl

given_for_second : get "O2" suggestions.suggestions ≡ some suggestion
unfolding get
given_for_second = refl

build_suggestions-IsProposal_example :
    IsProposal table (suggestion_facts run scenario) scenario (outcomes_of run) "O2" suggestion
build_suggestions-IsProposal_example =
    build_suggestions-IsProposal table printed run scenario (some (proposal ∷ [])) suggestions
      suggested "O2" suggestion given_for_second
