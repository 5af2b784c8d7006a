-- ===== src/Alternatives/Refusals.antt =====
-- When `build_change_set` of app/services/alternatives.py raises `PolicyViolation`.
use mathlib.Core.List.Memᴰ
use piggyon.Base.{
  ◌≡◌, refl, ap, inl, inr, ◌↔◌, true, false, Option, none, some, List, [], ◌∷◌, String, Memᴰ, arith,
  any, is_empty, Bool-cases, mem-sort_by, mem-sort_by_of_mem,
}
use piggyon.Snapshot.{
  ForbiddenAdjustment, change_weight_limit, change_dimension_limit, change_route_clearance,
  change_due_at, AdjustmentWindow, Policy, ScenarioInputSnapshot,
}
use piggyon.Alternatives.Changes.{
  AdjustmentType, allowed, forbidden, policy_violation, forbidden_among, distinct, sorted_set,
  same_forbidden, changes_of, changes_for, build_change_set,
}

same_forbidden-eq : (a b : ForbiddenAdjustment) → same_forbidden a b ≡ true → a ≡ b
same_forbidden-eq change_weight_limit change_weight_limit h = refl
same_forbidden-eq change_dimension_limit change_dimension_limit h = refl
same_forbidden-eq change_route_clearance change_route_clearance h = refl
same_forbidden-eq change_due_at change_due_at h = refl
same_forbidden-eq change_weight_limit change_dimension_limit h = cc
same_forbidden-eq change_weight_limit change_route_clearance h = cc
same_forbidden-eq change_weight_limit change_due_at h = cc
same_forbidden-eq change_dimension_limit change_weight_limit h = cc
same_forbidden-eq change_dimension_limit change_route_clearance h = cc
same_forbidden-eq change_dimension_limit change_due_at h = cc
same_forbidden-eq change_route_clearance change_weight_limit h = cc
same_forbidden-eq change_route_clearance change_dimension_limit h = cc
same_forbidden-eq change_route_clearance change_due_at h = cc
same_forbidden-eq change_due_at change_weight_limit h = cc
same_forbidden-eq change_due_at change_dimension_limit h = cc
same_forbidden-eq change_due_at change_route_clearance h = cc

same_forbidden_self : (a : ForbiddenAdjustment) → same_forbidden a a ≡ true
same_forbidden_self change_weight_limit = refl
same_forbidden_self change_dimension_limit = refl
same_forbidden_self change_route_clearance = refl
same_forbidden_self change_due_at = refl

mem_of_any :
    (f : ForbiddenAdjustment) (xs : List ForbiddenAdjustment)
    → any (same_forbidden f) xs ≡ true
    → Memᴰ f xs
unfolding any
mem_of_any f [] h = cc
mem_of_any f (x ∷ xs) h = elim (Bool-cases (same_forbidden f x)) [
  | inl e ↦ Memᴰ.head (same_forbidden-eq f x e)
  | inr e ↦ Memᴰ.tail (mem_of_any f xs (rw e at h))
]

any_of_mem :
    (f : ForbiddenAdjustment) (xs : List ForbiddenAdjustment)
    → Memᴰ f xs
    → any (same_forbidden f) xs ≡ true
unfolding any
any_of_mem f [] m = elim m [ ]
any_of_mem f (x ∷ xs) (Memᴰ.head e) = rw (← e) (rw (same_forbidden_self f) refl)
any_of_mem f (x ∷ xs) (Memᴰ.tail m) = ground (arith, any_of_mem f xs m)

module _ (listed : List ForbiddenAdjustment) (f : ForbiddenAdjustment) where
  mem-forbidden_among :
      (types : List AdjustmentType)
      → Memᴰ f (forbidden_among types listed)
      → Memᴰ (forbidden f) types × Memᴰ f listed
  unfolding forbidden_among
  mem-forbidden_among [] m = elim m [ ]
  mem-forbidden_among (allowed a ∷ types) m =
      let (asked, barred) = mem-forbidden_among types m in (Memᴰ.tail asked, barred)
  mem-forbidden_among (forbidden g ∷ types) m = elim (Bool-cases (any (same_forbidden g) listed)) [
    | inl e ↦ elim (Memᴰ.cases_cons (rw e at m)) [
      | inl here ↦ (Memᴰ.head (ap forbidden here), rw here (mem_of_any g listed e))
      | inr later ↦
          let (asked, barred) = mem-forbidden_among types later in (Memᴰ.tail asked, barred)
    ]
    | inr e ↦
        let (asked, barred) = mem-forbidden_among types (rw e at m) in (Memᴰ.tail asked, barred)
  ]

  forbidden-eq : {g : ForbiddenAdjustment} → forbidden f ≡ forbidden g → f ≡ g
  forbidden-eq h = cc

  mem-forbidden_among_of :
      (types : List AdjustmentType)
      → Memᴰ (forbidden f) types
      → Memᴰ f listed
      → Memᴰ f (forbidden_among types listed)
  unfolding forbidden_among
  mem-forbidden_among_of [] m b = elim m [ ]
  mem-forbidden_among_of (allowed a ∷ types) m b = elim (Memᴰ.cases_cons m) [
    | inl here ↦ cc
    | inr later ↦ mem-forbidden_among_of types later b
  ]
  mem-forbidden_among_of (forbidden g ∷ types) m b = elim (Memᴰ.cases_cons m) [
    | inl here ↦
        let same = forbidden-eq here in rw (any_of_mem g listed (rw same at b)) (Memᴰ.head same)
    | inr later ↦ elim (Bool-cases (any (same_forbidden g) listed)) [
      | inl e ↦ rw e (Memᴰ.tail (mem-forbidden_among_of types later b))
      | inr e ↦ rw e (mem-forbidden_among_of types later b)
    ]
  ]

module _ (f : ForbiddenAdjustment) where
  mem-distinct : (fs : List ForbiddenAdjustment) → Memᴰ f (distinct fs) → Memᴰ f fs
  unfolding distinct
  mem-distinct [] m = elim m [ ]
  mem-distinct (x ∷ fs) m = elim (Bool-cases (any (same_forbidden x) (distinct fs))) [
    | inl e ↦ Memᴰ.tail (mem-distinct fs (rw e at m))
    | inr e ↦ elim (Memᴰ.cases_cons (rw e at m)) [
      | inl here ↦ Memᴰ.head here
      | inr later ↦ Memᴰ.tail (mem-distinct fs later)
    ]
  ]

  mem-distinct_of : (fs : List ForbiddenAdjustment) → Memᴰ f fs → Memᴰ f (distinct fs)
  unfolding distinct
  mem-distinct_of [] m = elim m [ ]
  mem-distinct_of (x ∷ fs) m = elim (Bool-cases (any (same_forbidden x) (distinct fs))) [
    | inl e ↦ rw e (elim (Memᴰ.cases_cons m) [
      | inl here ↦ rw here (mem_of_any x (distinct fs) e)
      | inr later ↦ mem-distinct_of fs later
    ])
    | inr e ↦ rw e (elim (Memᴰ.cases_cons m) [
      | inl here ↦ Memᴰ.head here
      | inr later ↦ Memᴰ.tail (mem-distinct_of fs later)
    ])
  ]

  mem-sorted_set_iff : (fs : List ForbiddenAdjustment) → Memᴰ f (sorted_set fs) ↔ Memᴰ f fs
  unfolding sorted_set
  mem-sorted_set_iff fs = (
    λ m. mem-distinct fs (mem-sort_by _ (distinct fs) m),
    λ m. mem-sort_by_of_mem _ (distinct fs) (mem-distinct_of fs m),
  )

never_refused :
    (order_id : String) (types : List AdjustmentType) (policy : Policy)
    (window : Option AdjustmentWindow) (fs : List ForbiddenAdjustment)
    → changes_for order_id types policy window ≡ policy_violation fs
    → ⊥
unfolding changes_of
never_refused order_id types policy none fs e = cc
never_refused order_id types policy (some window) fs e = ground arith

nonempty :
    {f : ForbiddenAdjustment} (fs : List ForbiddenAdjustment) → Memᴰ f fs → is_empty fs ≡ false
nonempty [] m = elim m [ ]
nonempty (x ∷ fs) m = refl

violation-eq :
    {fs gs : List ForbiddenAdjustment} → policy_violation gs ≡ policy_violation fs → fs ≡ gs
violation-eq h = cc

-- The request is refused over an adjustment exactly when the caller asked for it and the policy
-- forbids it; the refusal names each such adjustment and no other.
pub build_change_set-policy_violation_iff :
    (s : ScenarioInputSnapshot) (order_id : String) (types : List AdjustmentType)
    (f : ForbiddenAdjustment)
    → ((fs : List ForbiddenAdjustment) × (build_change_set s order_id types ≡ policy_violation fs)
        × Memᴰ f fs)
      ↔ (Memᴰ (forbidden f) types × Memᴰ f s.policy.forbidden_adjustments)
unfolding build_change_set
build_change_set-policy_violation_iff s order_id types f = (
  λ (fs, e, m). elim (Bool-cases (is_empty found)) [
    | inl none_found ↦
        absurd (never_refused order_id types s.policy _ fs (rw (none_found, build_change_set) at e))
    | inr some_found ↦
        let same = violation-eq (rw (some_found, build_change_set) at e) in
        mem-forbidden_among s.policy.forbidden_adjustments f types
          ((mem-sorted_set_iff f found).0 (rw same at m))
  ],
  λ (asked, barred).
      let m = mem-forbidden_among_of s.policy.forbidden_adjustments f types asked barred in
      (sorted_set found, rw (nonempty found m) refl, (mem-sorted_set_iff f found).1 m),
)
  where
    found : List ForbiddenAdjustment
    found = forbidden_among types s.policy.forbidden_adjustments
