-- ===== src/Rules/Tags.antt =====
-- has_both tag tests decide the inclusion of the tags.
use piggyon.Base.{
  ◌≡◌, refl, ◌↔◌, inl, inr, Bool, true, List, [], ◌∷◌, Memᴰ, arith, any, is_all, Bool-cases,
}
use piggyon.Snapshot.{CompatibilityTag}
use piggyon.Eligibility.Checks.{tag_eq, tags_within}
use piggyon.Validator.Checks.{same_tag, subset_of}
use piggyon.Rules.{Covers}

module _ (eq : CompatibilityTag → CompatibilityTag → Bool)
    (eq_iff : (a b : CompatibilityTag) → (eq a b ≡ true) ↔ (a ≡ b)) where
  any→mem : (t : CompatibilityTag) (xs : List CompatibilityTag) → any (eq t) xs ≡ true → Memᴰ t xs
  unfolding any
  any→mem t [] h = cc
  any→mem t (x ∷ xs) h = elim (Bool-cases (eq t x)) [
    | inl e ↦ Memᴰ.head ((eq_iff t x).0 e)
    | inr e ↦ Memᴰ.tail (any→mem t xs (rw e at h))
  ]

  mem→any : (t : CompatibilityTag) (xs : List CompatibilityTag) → Memᴰ t xs → any (eq t) xs ≡ true
  unfolding any
  mem→any t [] m = elim m [ ]
  mem→any t (x ∷ xs) (Memᴰ.head e) = rw ((eq_iff t x).1 e) refl
  mem→any t (x ∷ xs) (Memᴰ.tail m) = ground (arith, mem→any t xs m)

  all→Covers :
      (supported tags : List CompatibilityTag)
      → is_all (λ t. any (eq t) supported) tags ≡ true
      → Covers tags supported
  all→Covers supported [] h t m = elim m [ ]
  all→Covers supported (x ∷ tags) h t (Memᴰ.head e) = any→mem t supported (rw e (ground arith))
  all→Covers supported (x ∷ tags) h t (Memᴰ.tail m) = all→Covers supported tags (ground arith) t m

  Covers→all :
      (supported tags : List CompatibilityTag)
      → Covers tags supported
      → is_all (λ t. any (eq t) supported) tags ≡ true
  Covers→all supported [] c = refl
  Covers→all supported (x ∷ tags) c =
      rw (mem→any x supported (c x (Memᴰ.head refl)))
        (Covers→all supported tags (λ t m. c t (Memᴰ.tail m)))

tag_eq_iff : (a b : CompatibilityTag) → (tag_eq a b ≡ true) ↔ (a ≡ b)
tag_eq_iff a b = ground arith

same_tag_iff : (a b : CompatibilityTag) → (same_tag a b ≡ true) ↔ (a ≡ b)
same_tag_iff a b = ground arith

pub tags_within_iff :
    (tags supported : List CompatibilityTag)
    → (tags_within tags supported ≡ true) ↔ Covers tags supported
unfolding tags_within
tags_within_iff tags supported =
    (all→Covers tag_eq tag_eq_iff supported tags, Covers→all tag_eq tag_eq_iff supported tags)

pub subset_of_iff :
    (tags supported : List CompatibilityTag)
    → (subset_of tags supported ≡ true) ↔ Covers tags supported
unfolding subset_of
subset_of_iff tags supported = (
  all→Covers same_tag same_tag_iff supported tags,
  Covers→all same_tag same_tag_iff supported tags,
)
