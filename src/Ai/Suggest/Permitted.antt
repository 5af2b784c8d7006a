-- ===== src/Ai/Suggest/Permitted.antt =====
-- What `build_suggestions` of app/ai/suggest.py proposes.
use mathlib.Core.List.Memᴰ
use piggyon.Base.{
  ◌≡◌, ◌≢◌, refl, inl, inr, Bool, true, false, ◌&&◌, ◌||◌, Option, none, some, List, [], ◌∷◌,
  String, ◌==◌, arith, Memᴰ, any, when, flat_map, Bool-cases, mem-flat_map,
}
use piggyon.Snapshot.{AllowedAdjustment, add_order_approved_service, change_to_approved_terminal}
use piggyon.ReasonCodes.{Verdict}
use piggyon.Alternatives.Changes.{same_allowed}
use piggyon.Ai.Json.{Json, null, boolean, integer, real, text, array, object}
use piggyon.Ai.Suggest.{
  adjustment_text, adjustment_for_reason, permits, Suggestion, both, preferred_or_all, template_for,
  chosen_among,
}

none≢some : {A : Type 0} {a : A} → none ≡ some a → ⊥
none≢some h = cc

same_allowed-eq : (a b : AllowedAdjustment) → same_allowed a b ≡ true → a ≡ b
same_allowed-eq add_order_approved_service add_order_approved_service h = refl
same_allowed-eq change_to_approved_terminal change_to_approved_terminal h = refl
same_allowed-eq add_order_approved_service change_to_approved_terminal h = cc
same_allowed-eq change_to_approved_terminal add_order_approved_service h = cc

permits→mem :
    (permitted : List AllowedAdjustment) (a : AllowedAdjustment)
    → permits permitted a ≡ true
    → Memᴰ a permitted
unfolding any
permits→mem [] a h = cc
permits→mem (b ∷ bs) a h = elim (Bool-cases (same_allowed a b)) [
  | inl e ↦ Memᴰ.head (same_allowed-eq a b e)
  | inr e ↦ Memᴰ.tail (permits→mem bs a (rw e at h))
]

mem→permits :
    (permitted : List AllowedAdjustment) (a : AllowedAdjustment)
    → Memᴰ a permitted
    → permits permitted a ≡ true
unfolding any
mem→permits [] a m = elim m [ ]
mem→permits (b ∷ bs) a (Memᴰ.head e) = rw (← e) (or_left (any (same_allowed a) bs) (same_self a))
  where
    same_self : (c : AllowedAdjustment) → same_allowed c c ≡ true
    same_self add_order_approved_service = refl
    same_self change_to_approved_terminal = refl

    or_left : {x : Bool} (y : Bool) → x ≡ true → (x || y) ≡ true
    or_left y h = rw h refl
mem→permits (b ∷ bs) a (Memᴰ.tail m) = or_right (same_allowed a b) (mem→permits bs a m)
  where
    or_right : (x : Bool) {y : Bool} → y ≡ true → (x || y) ≡ true
    or_right true h = refl
    or_right false h = h

both-of :
    (permitted : List AllowedAdjustment)
    → (permits permitted change_to_approved_terminal
        && permits permitted add_order_approved_service)
      ≡ true
    → (a : AllowedAdjustment) → Memᴰ a both
    → Memᴰ a permitted
both-of permitted h a m = elim (Memᴰ.cases_cons m) [
  | inl here ↦ Memᴰ.cast here (permits→mem permitted change_to_approved_terminal (first _ _ h))
  | inr later ↦
      Memᴰ.cast (Memᴰ.eq_of_singleton later)
        (permits→mem permitted add_order_approved_service (second _ _ h))
]
  where
    first : (x y : Bool) → (x && y) ≡ true → x ≡ true
    first true y e = refl
    first false y e = cc

    second : (x y : Bool) → (x && y) ≡ true → y ≡ true
    second true y e = e
    second false y e = cc

-- The changes of a template are permitted, and the pair where a pair is needed.
module _ (id : String) (permitted : List AllowedAdjustment) (some_left : permitted ≢ [])
    (verdict : Verdict) where
  pub record IsChosen (pair : Bool) (sug : Suggestion) : Type 0 where
    pub own : sug.order_id ≡ id
    pub nonempty : sug.adjustment_types ≢ []
    pub within : (a : AllowedAdjustment) → Memᴰ a sug.adjustment_types → Memᴰ a permitted
    pub paired :
        pair ≡ true
        → Memᴰ change_to_approved_terminal permitted
        → Memᴰ add_order_approved_service permitted
        → sug.adjustment_types ≡ both

  abbrev has_both : Bool
  has_both =
      permits permitted change_to_approved_terminal && permits permitted add_order_approved_service

  unpaired :
      (b : Bool)
      → (b && has_both) ≡ false
      → b ≡ true
      → Memᴰ change_to_approved_terminal permitted
      → Memᴰ add_order_approved_service permitted
      → ⊥
  unpaired b h p mt ms = ground (
    arith,
    p,
    h,
    mem→permits permitted change_to_approved_terminal mt,
    mem→permits permitted add_order_approved_service ms,
  )

  all-IsChosen :
      (pair : Bool) (reason : String)
      → (pair && has_both) ≡ false
      → IsChosen pair (record { order_id = id; adjustment_types = permitted; reason = reason })
  all-IsChosen pair reason single = record {
    own = refl;
    nonempty = some_left;
    within = λ a m. m;
    paired = λ p mt ms. absurd (unpaired pair single p mt ms);
  }

  preferred-IsChosen :
      (pair : Bool) (o : Option AllowedAdjustment)
      → (pair && has_both) ≡ false
      → IsChosen pair (preferred_or_all id permitted o)
  preferred-IsChosen pair none single = all-IsChosen pair _ single
  preferred-IsChosen pair (some a) single = elim (Bool-cases (permits permitted a)) [
    | inr e ↦ rw e (all-IsChosen pair _ single)
    | inl e ↦ rw e (record {
      own = refl;
      nonempty = λ h. cc;
      within = λ b m. Memᴰ.cast (Memᴰ.eq_of_singleton m) (permits→mem permitted a e);
      paired = λ p mt ms. absurd (unpaired pair single p mt ms);
    })
  ]

  pub template_for-IsChosen : (pair : Bool) → IsChosen pair (template_for id permitted verdict pair)
  unfolding template_for
  template_for-IsChosen pair = elim (Bool-cases (pair && has_both)) [
    | inr single ↦
        rw (single, template_for) (preferred-IsChosen pair (adjustment_for_reason verdict) single)
    | inl twice ↦
        rw (twice, template_for)
          (record {
            own = refl;
            nonempty = λ h. cc;
            within = both-of permitted (second pair has_both twice);
            paired = λ p mt ms. refl;
          })
  ]
    where
      second : (x y : Bool) → (x && y) ≡ true → y ≡ true
      second true y e = e
      second false y e = cc

mem-when : (b : Bool) (a x : AllowedAdjustment) → Memᴰ x (when b a) → x ≡ a
mem-when true a x m = Memᴰ.eq_of_singleton m
mem-when false a x m = elim m [ ]

pub mem-chosen_among :
    (permitted : List AllowedAdjustment) (xs : List Json) (a : AllowedAdjustment)
    → Memᴰ a (chosen_among permitted xs)
    → Memᴰ a permitted
unfolding chosen_among
mem-chosen_among permitted [] a m = elim m [ ]
mem-chosen_among permitted (text t ∷ xs) a m =
    elim (Memᴰ.append_cases (flat_map (λ b. when (t == adjustment_text b) b) permitted) m) [
      | inr later ↦ mem-chosen_among permitted xs a later
      | inl here ↦
          let (b, mb, mw) = mem-flat_map (λ b. when (t == adjustment_text b) b) permitted here in
          Memᴰ.cast (mem-when (t == adjustment_text b) b a mw) mb
    ]
mem-chosen_among permitted (null ∷ xs) a m = mem-chosen_among permitted xs a m
mem-chosen_among permitted (boolean b ∷ xs) a m = mem-chosen_among permitted xs a m
mem-chosen_among permitted (integer n ∷ xs) a m = mem-chosen_among permitted xs a m
mem-chosen_among permitted (real r ∷ xs) a m = mem-chosen_among permitted xs a m
mem-chosen_among permitted (array ys ∷ xs) a m = mem-chosen_among permitted xs a m
mem-chosen_among permitted (object d ∷ xs) a m = mem-chosen_among permitted xs a m
