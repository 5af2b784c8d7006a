-- ===== src/Alternatives/Differences.antt =====
-- What `_assignment_deltas` and `apply_to_baseline` of app/services/alternatives.py report and keep.
use mathlib.Core.List.Memᴰ
use piggyon.Base.{
  ◌≡◌, ◌≢◌, refl, sym, ap, ◌∙◌, inl, inr, ◌↔◌, true, Option, none, some, List, [], ◌∷◌, ◌++◌, map,
  String, ◌==◌, eq_iff, eq_refl, Memᴰ, arith, contains, contains→mem, flat_map-eq-nil, flat_map-nil,
  mem-sort_by_of_mem, text_le, Bool-cases, Option-cases, index_by_sound,
}
use piggyon.Baseline.{Assignment, AlternativeState}
use piggyon.Planning.{OutcomeDocument}
use piggyon.Alternatives.Deltas.{
  AssignmentDelta, same_assignment, delta, distinct_ids, by_order_id, all_order_ids,
  assignment_deltas, apply_to_baseline,
}

same_assignment-eq : (a b : Assignment) → same_assignment a b ≡ true → a ≡ b
same_assignment-eq a b h = ground (
  arith,
  eq_iff a.order_id b.order_id,
  eq_iff a.service_id b.service_id,
  eq_iff a.wagon_id b.wagon_id,
  eq_iff a.slot_id b.slot_id,
)

same_assignment_self : (a : Assignment) → same_assignment a a ≡ true
same_assignment_self a =
    ground (arith, eq_refl a.order_id, eq_refl a.service_id, eq_refl a.wagon_id, eq_refl a.slot_id)

delta-nil_iff : (id : String) (was now : Option Assignment) → (delta id was now ≡ []) ↔ (was ≡ now)
unfolding delta
delta-nil_iff id none none = (λ h. refl, λ h. refl)
delta-nil_iff id none (some now) = (λ h. cc, λ h. cc)
delta-nil_iff id (some was) none = (λ h. cc, λ h. cc)
delta-nil_iff id (some was) (some now) = (
  λ h. elim (Bool-cases (same_assignment was now)) [
    | inl e ↦ ap some (same_assignment-eq was now e)
    | inr e ↦ absurd (cons≢nil (rw (e, delta) at h))
  ],
  λ h. rw (← some-eq h) (rw (same_assignment_self was) refl),
)
  where
    cons≢nil : {x : AssignmentDelta} → x ∷ [] ≡ [] → ⊥
    cons≢nil h = cc

    some-eq : {x y : Assignment} → some x ≡ some y → x ≡ y
    some-eq h = cc

pub mem-distinct_ids_of : {k : String} (xs : List String) → Memᴰ k xs → Memᴰ k (distinct_ids xs)
unfolding distinct_ids
mem-distinct_ids_of [] m = elim m [ ]
mem-distinct_ids_of (x ∷ xs) m = elim (Bool-cases (contains x (distinct_ids xs))) [
  | inl e ↦ rw e (elim (Memᴰ.cases_cons m) [
    | inl here ↦ rw here (contains→mem x (distinct_ids xs) e)
    | inr later ↦ mem-distinct_ids_of xs later
  ])
  | inr e ↦ rw e (elim (Memᴰ.cases_cons m) [
    | inl here ↦ Memᴰ.head here
    | inr later ↦ Memᴰ.tail (mem-distinct_ids_of xs later)
  ])
]

module _ (before after : List Assignment) where
  key_listed :
      (plan : List Assignment) (id : String) {a : Assignment}
      → by_order_id plan id ≡ some a
      → Memᴰ id (map (λ (a : Assignment). a.order_id) plan)
  key_listed plan id e =
      let (m, key) = index_by_sound (λ (a : Assignment). a.order_id) plan id e in
      Memᴰ.cast (sym key) (Memᴰ.map (λ (a : Assignment). a.order_id) m)

  listed :
      (id : String)
      → Memᴰ id (
          map (λ (a : Assignment). a.order_id) before ++ map (λ (a : Assignment). a.order_id) after)
      → Memᴰ id (all_order_ids before after)
  unfolding all_order_ids
  listed id m = mem-sort_by_of_mem text_le _ (mem-distinct_ids_of _ m)

  same_at :
      (id : String)
      → assignment_deltas before after ≡ []
      → by_order_id before id ≡ by_order_id after id
  unfolding assignment_deltas
  same_at id h = elim (Option-cases (by_order_id before id)) [
    | inr (a, e) ↦ at_listed (listed id (Memᴰ.append_left _ (key_listed before id e)))
    | inl e ↦ elim (Option-cases (by_order_id after id)) [
      | inr (b, f) ↦ at_listed (
          listed id (
            Memᴰ.append_right (map (λ (a : Assignment). a.order_id) before)
              (key_listed after id f)))
      | inl f ↦ e ∙ sym f
    ]
  ]
    where
      at_listed :
          Memᴰ id (all_order_ids before after) → by_order_id before id ≡ by_order_id after id
      at_listed m = (delta-nil_iff id (by_order_id before id) (by_order_id after id)).0 (
          flat_map-eq-nil (λ k. delta k (by_order_id before k) (by_order_id after k))
            (all_order_ids before after) h m)

  -- No difference is reported exactly when the two plans place every order alike.
  pub assignment_deltas-nil_iff :
      (assignment_deltas before after ≡ [])
      ↔ ((id : String) → by_order_id before id ≡ by_order_id after id)
  unfolding assignment_deltas
  assignment_deltas-nil_iff = (
    λ h id. same_at id h,
    λ h. flat_map-nil _ (all_order_ids before after) λ id m. (delta-nil_iff id _ _).1 (h id),
  )

-- An outcome that keeps the order, its states, its reasons and what it tells the operator, whatever
-- alternative it records.
pub record KeepsVerdict (before after : OutcomeDocument) : Type 0 where
  pub same_order : after.outcome.order_id ≡ before.outcome.order_id
  pub same_input : after.outcome.input_state ≡ before.outcome.input_state
  pub same_eligibility : after.outcome.eligibility_state ≡ before.outcome.eligibility_state
  pub same_assignment_state : after.outcome.assignment_state ≡ before.outcome.assignment_state
  pub same_reason : after.outcome.primary_reason_code ≡ before.outcome.primary_reason_code
  pub same_evidence : after.outcome.evidence ≡ before.outcome.evidence
  pub same_actions : after.outcome.next_actions ≡ before.outcome.next_actions

KeepsVerdict-refl : (d : OutcomeDocument) → KeepsVerdict d d
KeepsVerdict-refl d = record {
  same_order = refl;
  same_input = refl;
  same_eligibility = refl;
  same_assignment_state = refl;
  same_reason = refl;
  same_evidence = refl;
  same_actions = refl;
}

-- The lists have one length, and at each place the outcome keeps its verdict, and is unchanged
-- where it is of another order.
pub data Recorded (order_id : String) : List OutcomeDocument → List OutcomeDocument → Type 0 where
  done : Recorded order_id [] []
  step :
      {d e : OutcomeDocument} {ds es : List OutcomeDocument}
      → KeepsVerdict d e
      → (d.outcome.order_id ≢ order_id → e ≡ d)
      → Recorded order_id ds es
      → Recorded order_id (d ∷ ds) (e ∷ es)

pub Recorded-refl : (order_id : String) (ds : List OutcomeDocument) → Recorded order_id ds ds
Recorded-refl order_id [] = Recorded.done
Recorded-refl order_id (d ∷ ds) =
    Recorded.step (KeepsVerdict-refl d) (λ n. refl) (Recorded-refl order_id ds)

-- To record an alternative on a run moves no verdict: each outcome keeps its order, its three
-- states, its reason, its evidence and its next actions, and the outcomes of all other orders are
-- what they were.
pub apply_to_baseline-Recorded :
    (ds : List OutcomeDocument) (order_id : String) (state : AlternativeState)
    (scenario_id : Option String)
    → Recorded order_id ds (apply_to_baseline ds order_id state scenario_id).0
unfolding apply_to_baseline
apply_to_baseline-Recorded [] order_id state scenario_id = Recorded.done
apply_to_baseline-Recorded (d ∷ ds) order_id state scenario_id =
    elim (Bool-cases (d.outcome.order_id == order_id)) [
      | inl e ↦ rw e (
          Recorded.step
            (record {
              same_order = refl;
              same_input = refl;
              same_eligibility = refl;
              same_assignment_state = refl;
              same_reason = refl;
              same_evidence = refl;
              same_actions = refl;
            })
            (λ n. absurd (n ((eq_iff d.outcome.order_id order_id).0 e)))
            (Recorded-refl order_id ds))
      | inr e ↦ rw e (
          Recorded.step (KeepsVerdict-refl d) (λ n. refl)
            (apply_to_baseline-Recorded ds order_id state scenario_id))
    ]
