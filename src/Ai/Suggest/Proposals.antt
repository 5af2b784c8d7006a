-- ===== src/Ai/Suggest/Proposals.antt =====
-- What `build_suggestions` of app/ai/suggest.py proposes, order by order.
use piggyon.Base.{
  ◌≡◌, ◌≢◌, refl, sym, ap, subst, ◌∙◌, ◌⊎◌, inl, inr, true, false, not, ◌||◌, Option, none, some,
  List, [], ◌∷◌, map, String, ◌==◌, eq_iff, arith, Memᴰ, is_empty, Bool-cases, Option-cases,
  index_by_sound,
}
use piggyon.Base.Dict.{Dict, get, put, index_by}
use piggyon.Base.Lookups.{some_inj, some-ne-none, put-cases}
use piggyon.Snapshot.{AllowedAdjustment, Order, ScenarioInputSnapshot}
use piggyon.Eligibility.Types.{InputState, valid, review_required}
use piggyon.Baseline.{OrderOutcome}
use piggyon.Planning.{Run}
use piggyon.Ai.Json.{
  Json, null, boolean, integer, real, text, array, object, JsonObject, str_at, get_or_null,
  items_or_nil,
}
use piggyon.Ai.Patterns.{CharTable}
use piggyon.Ai.Guard.{Rejection, Facts, rejection_reason_for_text}
use piggyon.Ai.Guard.Grounded.{IsGrounded, rejection_reason_for_text-none_iff}
use piggyon.Ai.Explain.{outcomes_of}
use piggyon.Ai.Suggest.{
  permitted_adjustments, needs_pairing, Suggestion, template_for, Candidate, is_assigned, is_valid,
  candidate_of, candidate_for, put_candidates, template_entry, templates_only, chosen_among,
  Progress, Suggestions, suggestion_facts, settled, read_suggestion, read_suggestions,
  build_suggestions,
}
use piggyon.Ai.Suggest.Permitted.{IsChosen, template_for-IsChosen, mem-chosen_among}

-- The order of a candidate: held by the plan, valid, and with something approved.
pub record IsCandidate (s : ScenarioInputSnapshot) (os : List OrderOutcome) (id : String)
    (c : Candidate) : Type 0 where
  pub outcome : OrderOutcome
  pub reported : Memᴰ outcome os
  pub outcome_id : outcome.order_id ≡ id
  pub is_complete : outcome.input_state ≡ valid
  pub left_out : is_assigned outcome.assignment_state ≡ false
  pub order : Order
  pub listed : Memᴰ order s.orders
  pub order_id : order.order_id ≡ id
  pub approved : permitted_adjustments order ≢ []
  pub made : c ≡ candidate_of outcome order s

-- A suggestion for an order: the changes to try are approved for it.
pub record IsProposal (table : CharTable) (facts : Facts) (s : ScenarioInputSnapshot)
    (os : List OrderOutcome) (id : String) (sug : Suggestion) : Type 0 where
  pub candidate : Candidate
  pub is_candidate : IsCandidate s os id candidate
  pub chosen :
      IsChosen id
        (permitted_adjustments is_candidate.order)
        is_candidate.approved
        is_candidate.outcome.primary_reason_code
        (needs_pairing is_candidate.order s)
        sug
  pub worded :
      (sug
        ≡ template_for id
            (permitted_adjustments is_candidate.order)
            is_candidate.outcome.primary_reason_code
            (needs_pairing is_candidate.order s))
      ⊎ IsGrounded table facts (some id) sug.reason

valid_of : (state : InputState) → is_valid state ≡ true → state ≡ valid
valid_of valid h = refl
valid_of review_required h = cc

is_empty-cons : {A : Type 0} (xs : List A) → is_empty xs ≡ false → xs ≢ []
is_empty-cons [] h e = cc
is_empty-cons (x ∷ xs) h e = cc

module _ (s : ScenarioInputSnapshot) where
  candidate_for-IsCandidate :
      (os : List OrderOutcome) (o : OrderOutcome) (c : Candidate)
      → Memᴰ o os
      → candidate_for s o ≡ some c
      → IsCandidate s os o.order_id c
  unfolding candidate_for
  candidate_for-IsCandidate os o c m e =
      elim (Bool-cases (not (is_valid o.input_state) || is_assigned o.assignment_state)) [
        | inl skipped ↦ absurd (some-ne-none {x = c} (sym (rw (skipped, candidate_for) at e)))
        | inr held ↦
            elim (Option-cases (index_by (λ (x : Order). x.order_id) s.orders o.order_id)) [
              | inl unknown ↦
                  absurd (some-ne-none {x = c} (sym (rw (held, candidate_for, unknown) at e)))
              | inr (order, known) ↦
                  let (listed, same) =
                    index_by_sound (λ (x : Order). x.order_id) s.orders o.order_id known in
                  elim (Bool-cases (is_empty (permitted_adjustments order))) [
                    | inl closed ↦
                        absurd (
                          some-ne-none {x = c} (sym (rw (held, candidate_for, known, closed) at e)))
                    | inr open_left ↦ record {
                      outcome = o;
                      reported = m;
                      outcome_id = refl;
                      is_complete = valid_of o.input_state (ground (arith, held));
                      left_out = ground (arith, held);
                      order = order;
                      listed = listed;
                      order_id = same;
                      approved = is_empty-cons (permitted_adjustments order) open_left;
                      made = sym (some_inj (rw (held, candidate_for, known, open_left) at e));
                    }
                  ]
            ]
      ]

  put_candidates-IsCandidate :
      (all os : List OrderOutcome) (d : Dict Candidate)
      → ((o : OrderOutcome) → Memᴰ o os → Memᴰ o all)
      → ((id : String) (c : Candidate) → get id d ≡ some c → IsCandidate s all id c)
      → (id : String) (c : Candidate) → get id (put_candidates s os d) ≡ some c
      → IsCandidate s all id c
  unfolding put_candidates
  put_candidates-IsCandidate all [] d within h id c e = h id c e
  put_candidates-IsCandidate all (o ∷ os) d within h id c e =
      elim (Option-cases (candidate_for s o)) [
        | inl skipped ↦
            put_candidates-IsCandidate all os d (λ x m. within x (Memᴰ.tail m)) h id c
              (rw (skipped, put_candidates) at e)
        | inr (made, is_made) ↦
            put_candidates-IsCandidate all os (put o.order_id made d)
              (λ x m. within x (Memᴰ.tail m))
              (λ j q found. elim (put-cases o.order_id j made d found) [
                | inr (other, old) ↦ h j q old
                | inl (same, is_new) ↦
                    subst (λ k. IsCandidate s all k q) same
                      (subst (IsCandidate s all o.order_id) (sym is_new)
                        (candidate_for-IsCandidate all o made (within o (Memᴰ.head refl)) is_made))
              ])
              id c (rw (is_made, put_candidates) at e)
      ]

get-map-template :
    (d : Dict Candidate) (id : String) (sug : Suggestion)
    → get id (map template_entry d) ≡ some sug
    → (c : Candidate) × (get id d ≡ some c) × (sug ≡ (template_entry (id, c)).1)
unfolding get
get-map-template [] id sug e = absurd (some-ne-none {x = sug} (sym e))
get-map-template ((j, c) ∷ d) id sug e = elim (Bool-cases (j == id)) [
  | inl same ↦ (
    c,
    rw same refl,
    sym (some_inj (rw same at e)) ∙ ap (λ k. (template_entry (k, c)).1) ((eq_iff j id).0 same),
  )
  | inr other ↦
      let (q, found, made) = get-map-template d id sug (rw other at e) in (q, rw other found, made)
]

module _ (table : CharTable) (printed : Json → String) (facts : Facts) (s : ScenarioInputSnapshot)
    (os : List OrderOutcome) where
  template-IsProposal :
      (id : String) (c : Candidate)
      → IsCandidate s os id c
      → IsProposal table facts s os id (template_entry (id, c)).1
  template-IsProposal id c k =
      subst (λ (q : Candidate). IsProposal table facts s os id (template_entry (id, q)).1)
        (sym k.made)
        (record {
          candidate = c;
          is_candidate = k;
          chosen =
              template_for-IsChosen id (permitted_adjustments k.order) k.approved
                k.outcome.primary_reason_code (needs_pairing k.order s);
          worded = inl refl;
        })

  abbrev AllProposals : Dict Suggestion → Type 0
  AllProposals d =
      (id : String) (sug : Suggestion) → get id d ≡ some sug → IsProposal table facts s os id sug

  put-AllProposals :
      (d : Dict Suggestion) (id : String) (sug : Suggestion)
      → IsProposal table facts s os id sug
      → AllProposals d
      → AllProposals (put id sug d)
  put-AllProposals d id sug ok h j q e = elim (put-cases id j sug d e) [
    | inr (other, old) ↦ h j q old
    | inl (same, is_new) ↦
        subst (IsProposal table facts s os j) (sym is_new)
          (subst (λ k. IsProposal table facts s os k sug) same ok)
  ]

  -- A suggestion of the model's for a candidate whose changes need not be paired.
  generated-IsProposal :
      (id : String) (c : Candidate) (k : IsCandidate s os id c) (types : List AllowedAdjustment)
      (reason : String)
      → types ≢ []
      → ((a : AllowedAdjustment) → Memᴰ a types → Memᴰ a c.permitted_adjustment_types)
      → c.terminal_change_needs_a_service ≡ false
      → rejection_reason_for_text table facts (some id) reason ≡ none
      → IsProposal table facts s os id
          (record { order_id = id; adjustment_types = types; reason = reason })
  generated-IsProposal id c k types reason nonempty within single ok = record {
    candidate = c;
    is_candidate = k;
    chosen = record {
      own = refl;
      nonempty = nonempty;
      within =
          λ a m. subst (λ (q : Candidate). Memᴰ a q.permitted_adjustment_types) k.made (within a m);
      paired = λ p mt ms. absurd (
          true≢false (
            sym p
            ∙ ap (λ (q : Candidate). q.terminal_change_needs_a_service) (sym k.made)
            ∙ single));
    };
    worded = inr ((rejection_reason_for_text-none_iff table facts (some id) reason).0 ok);
  }
    where
      true≢false : true ≡ false → ⊥
      true≢false h = cc

  module _ (candidates : Dict Candidate)
      (known : (id : String) (c : Candidate)
        → get id candidates ≡ some c
        → IsCandidate s os id c) where
    settled-AllProposals :
        (id : String) (c : Candidate) (k : IsCandidate s os id c) (chosen : List AllowedAdjustment)
        (reason : String) (verdict : Option Rejection) (p : Progress)
        → ((a : AllowedAdjustment) → Memᴰ a chosen → Memᴰ a c.permitted_adjustment_types)
        → rejection_reason_for_text table facts (some id) reason ≡ verdict
        → AllProposals p.suggestions
        → AllProposals
            (settled table printed facts candidates id c chosen reason verdict p).suggestions
    settled-AllProposals id c k chosen reason (some r) p within e h = h
    settled-AllProposals id c k [] reason none p within e h = h
    settled-AllProposals id c k (a ∷ chosen) reason none p within e h =
        elim (Bool-cases c.terminal_change_needs_a_service) [
          | inl pair ↦
              put-AllProposals p.suggestions id _
                (rw pair (
                  subst (IsProposal table facts s os id)
                    (ap (template_for id c.permitted_adjustment_types c.primary_reason_code) pair)
                    (template-IsProposal id c k)))
                h
          | inr single ↦
              put-AllProposals p.suggestions id _
                (rw single
                  (generated-IsProposal id c k (a ∷ chosen) reason (λ x. cc) within single e))
                h
        ]

    read_suggestion-AllProposals :
        (item : JsonObject) (p q : Progress) (id : Json)
        → get_or_null "order_id" item ≡ id
        → read_suggestion table printed facts candidates item p ≡ some q
        → AllProposals p.suggestions
        → AllProposals q.suggestions
    unfolding read_suggestion
    read_suggestion-AllProposals item p q (text id) e read h =
        elim (Option-cases (get id candidates)) [
          | inl unknown ↦
              subst (λ (x : Progress). AllProposals x.suggestions)
                (some_inj (rw (e, read_suggestion, unknown) at read)) h
          | inr (c, found) ↦
              elim (Option-cases (items_or_nil (get_or_null "adjustment_types" item))) [
                | inl broken ↦
                    absurd
                      (some-ne-none {x = q} (sym (rw (e, read_suggestion, found, broken) at read)))
                | inr (xs, listed) ↦
                    subst (λ (x : Progress). AllProposals x.suggestions)
                      (some_inj (rw (e, read_suggestion, found, listed) at read))
                      (settled-AllProposals id c (known id c found)
                        (chosen_among c.permitted_adjustment_types xs)
                        (str_at printed "reason" item) _ p
                        (λ a m. mem-chosen_among c.permitted_adjustment_types xs a m) refl h)
              ]
        ]
    read_suggestion-AllProposals item p q (array xs) e read h =
        absurd (some-ne-none {x = q} (sym (rw (e, read_suggestion) at read)))
    read_suggestion-AllProposals item p q (object d) e read h =
        absurd (some-ne-none {x = q} (sym (rw (e, read_suggestion) at read)))
    read_suggestion-AllProposals item p q null e read h =
        subst (λ (x : Progress). AllProposals x.suggestions)
          (some_inj (rw (e, read_suggestion) at read)) h
    read_suggestion-AllProposals item p q (boolean b) e read h =
        subst (λ (x : Progress). AllProposals x.suggestions)
          (some_inj (rw (e, read_suggestion) at read)) h
    read_suggestion-AllProposals item p q (integer n) e read h =
        subst (λ (x : Progress). AllProposals x.suggestions)
          (some_inj (rw (e, read_suggestion) at read)) h
    read_suggestion-AllProposals item p q (real r) e read h =
        subst (λ (x : Progress). AllProposals x.suggestions)
          (some_inj (rw (e, read_suggestion) at read)) h

    read_suggestions-AllProposals :
        (items : List JsonObject) (p q : Progress)
        → read_suggestions table printed facts candidates items p ≡ some q
        → AllProposals p.suggestions
        → AllProposals q.suggestions
    unfolding read_suggestions
    read_suggestions-AllProposals [] p q e h =
        subst (λ (x : Progress). AllProposals x.suggestions) (some_inj e) h
    read_suggestions-AllProposals (item ∷ items) p q e h =
        elim (Option-cases (read_suggestion table printed facts candidates item p)) [
          | inl broken ↦ absurd (some-ne-none {x = q} (sym (rw (broken, read_suggestions) at e)))
          | inr (r, read) ↦
              read_suggestions-AllProposals items r q (rw (read, read_suggestions) at e)
                (read_suggestion-AllProposals item p r (get_or_null "order_id" item) refl read h)
        ]

module _ (table : CharTable) (printed : Json → String) (run : Run) (s : ScenarioInputSnapshot) where
  abbrev candidates : Dict Candidate
  candidates = put_candidates s (outcomes_of run) []

  known :
      (id : String) (c : Candidate)
      → get id candidates ≡ some c
      → IsCandidate s (outcomes_of run) id c
  unfolding get
  known =
      put_candidates-IsCandidate s (outcomes_of run) (outcomes_of run) [] (λ o m. m)
        (λ id c h. absurd (some-ne-none {x = c} (sym h)))

  from_templates :
      AllProposals table printed
        (suggestion_facts run s)
        s
        (outcomes_of run)
        (map template_entry candidates)
  from_templates id sug h =
      let (c, found, made) = get-map-template candidates id sug h in
      subst (IsProposal table (suggestion_facts run s) s (outcomes_of run) id) (sym made) (
        template-IsProposal table printed (suggestion_facts run s) s (outcomes_of run) id c
          (known id c found))

  nothing :
      (r : Suggestions) (id : String) (sug : Suggestion)
      → templates_only [] ≡ r
      → get id r.suggestions ≡ some sug
      → IsProposal table (suggestion_facts run s) s (outcomes_of run) id sug
  unfolding get
  nothing r id sug e found =
      absurd (
        some-ne-none {x = sug} (sym found ∙ ap (λ (x : Suggestions). get id x.suggestions) (sym e)))

  -- Whatever the model answers, a suggestion is for an order of the run that is valid and left out.
  -- Its changes are not none and all approved for that order. They are a terminal and a service
  -- together where the terminal alone would leave no service and both are approved. Its sentence is
  -- the template's, or the guard lets it through within that order.
  pub build_suggestions-IsProposal :
      (given : Option (List JsonObject)) (r : Suggestions)
      → build_suggestions table printed run s given ≡ some r
      → (id : String) (sug : Suggestion) → get id r.suggestions ≡ some sug
      → IsProposal table (suggestion_facts run s) s (outcomes_of run) id sug
  unfolding build_suggestions get
  build_suggestions-IsProposal none r e id sug found = elim (Bool-cases (is_empty candidates)) [
    | inl nobody ↦ nothing r id sug (some_inj (rw (nobody, build_suggestions) at e)) found
    | inr somebody ↦ from_templates id sug (
        ap (λ (x : Suggestions). get id x.suggestions)
          (some_inj (rw (somebody, build_suggestions) at e))
        ∙ found)
  ]
  build_suggestions-IsProposal (some items) r e id sug found =
      elim (Bool-cases (is_empty candidates)) [
        | inl nobody ↦ nothing r id sug (some_inj (rw (nobody, build_suggestions) at e)) found
        | inr somebody ↦
            elim (Option-cases (
              read_suggestions table printed (suggestion_facts run s) candidates items
                (record { suggestions = map template_entry candidates; replaced = [] }))) [
                  | inl broken ↦
                      absurd
                        (some-ne-none {x = r} (sym (rw (somebody, build_suggestions, broken) at e)))
                  | inr (p, read) ↦
                      read_suggestions-AllProposals table printed (suggestion_facts run s) s
                        (outcomes_of run) candidates known items
                        (record { suggestions = map template_entry candidates; replaced = [] }) p
                        read from_templates id sug
                        (ap (λ (x : Suggestions). get id x.suggestions)
                            (some_inj (rw (somebody, build_suggestions, read) at e))
                          ∙ found)
                ]
      ]
