-- ===== src/Base/Lookups.antt =====
-- What a lookup finds in a dictionary that was changed, case by case.
use Prim.Native.String.{String}
use mathlib.Core.Path.{◌≡◌, refl, sym, ap, ◌∙◌}
use mathlib.Core.Logic.{◌⊎◌, inl, inr, ◌≢◌}
use mathlib.Core.Bool.{true, false}
use mathlib.Core.Option.{none, some}
use mathlib.Core.List.{◌++◌, [], ◌∷◌, List, Memᴰ}
use mathlib.Core.List.Memᴰ
use text.Mathlib.Text.{◌==◌}
use text.Mathlib.TextEquality.{eq_iff}
use text.Mathlib.TextPositions.{eq_refl}
use piggyon.Base.Tests.{Bool-cases, or_else}
use piggyon.Base.Dict.{Dict, get, put, pop, add_to_group, get-put, get-pop}

module _ {ℓ} {A : Type ℓ} where
  pub some_inj : {x y : A} → some x ≡ some y → x ≡ y
  some_inj h = cc

  pub some-ne-none : {x : A} → some x ≢ none
  some-ne-none h = cc

module _ {V : Type 0} (k j : String) (v : V) (d : Dict V) where
  pub put-same : get k (put k v d) ≡ some v
  put-same = get-put k k v d ∙ rw (eq_refl k) refl

  pub put-other : k ≢ j → get j (put k v d) ≡ get j d
  put-other n = elim (Bool-cases (k == j)) [
    | inl e ↦ absurd (n ((eq_iff k j).0 e))
    | inr e ↦ get-put k j v d ∙ rw e refl
  ]

  pub put-cases :
      {w : V} → get j (put k v d) ≡ some w → ((k ≡ j) × (w ≡ v)) ⊎ ((k ≢ j) × (get j d ≡ some w))
  put-cases h = elim (Bool-cases (k == j)) [
    | inl e ↦ inl ((eq_iff k j).0 e, some_inj (sym h ∙ get-put k j v d ∙ rw e refl))
    | inr e ↦
        inr (
          λ same. true≢false (sym ((eq_iff k j).1 same) ∙ e),
          sym (get-put k j v d ∙ rw e refl) ∙ h,
        )
  ]
    where
      true≢false : true ≡ false → ⊥
      true≢false p = cc

  pub put-none : get j (put k v d) ≡ none → (k ≢ j) × (get j d ≡ none)
  put-none h = elim (Bool-cases (k == j)) [
    | inl e ↦ absurd (some-ne-none {x = v} (sym (get-put k j v d ∙ rw e refl) ∙ h))
    | inr e ↦
        (λ same. true≢false (sym ((eq_iff k j).1 same) ∙ e), sym (get-put k j v d ∙ rw e refl) ∙ h)
  ]
    where
      true≢false : true ≡ false → ⊥
      true≢false p = cc

  pub put_present : {w : V} → get j d ≡ some w → (u : V) × (get j (put k v d) ≡ some u)
  put_present {w} h = elim (Bool-cases (k == j)) [
    | inl e ↦ (v, get-put k j v d ∙ rw e refl)
    | inr e ↦ (w, get-put k j v d ∙ rw e h)
  ]

module _ {V : Type 0} (k j : String) (d : Dict V) where
  pub pop-other : k ≢ j → get j (pop k d) ≡ get j d
  pop-other n = elim (Bool-cases (k == j)) [
    | inl e ↦ absurd (n ((eq_iff k j).0 e))
    | inr e ↦ get-pop k j d ∙ rw e refl
  ]

  pub pop-some : {w : V} → get j (pop k d) ≡ some w → get j d ≡ some w
  pop-some h = elim (Bool-cases (k == j)) [
    | inl e ↦ absurd (some-ne-none (sym h ∙ get-pop k j d ∙ rw e refl))
    | inr e ↦ sym (get-pop k j d ∙ rw e refl) ∙ h
  ]

-- A group after one more member.
pub mem-add_to_group :
    {V : Type 0} (k j : String) (v : V) (d : Dict (List V)) {w : V}
    → Memᴰ w (or_else (get j (add_to_group k v d)) [])
    → ((k ≡ j) × (w ≡ v)) ⊎ Memᴰ w (or_else (get j d) [])
unfolding add_to_group
mem-add_to_group k j v d {w} m = elim (Bool-cases (k == j)) [
  | inr e ↦ inr (rw (get-put k j (or_else (get k d) [] ++ v ∷ []) d, e) at m)
  | inl e ↦
      let same = (eq_iff k j).0 e in
      elim (Memᴰ.append_cases (or_else (get k d) [])
        (rw (get-put k j (or_else (get k d) [] ++ v ∷ []) d, e) at m)) [
          | inl old ↦ inr (rw same at old)
          | inr new ↦ inl (same, Memᴰ.eq_of_singleton new)
        ]
]

pub add_to_group-other :
    {V : Type 0} (k j : String) (v : V) (d : Dict (List V))
    → k ≢ j
    → or_else (get j (add_to_group k v d)) [] ≡ or_else (get j d) []
unfolding add_to_group
add_to_group-other k j v d n = ap (λ o. or_else o []) (put-other k j _ d n)
