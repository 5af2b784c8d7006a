-- ===== src/ReasonCodes/Primary.antt =====
-- The choice of the primary code: total, least, and the same for any two lists with the same codes.
use piggyon.Base.{
  ℕ, zero, suc, ◌≤◌, ◌≡◌, refl, ap, ◌⊎◌, inl, inr, ◌↔◌, Bool, true, false, ◌&&◌, none, some, List,
  [], ◌∷◌, Memᴰ, arith, ltb, Bool-cases, if◌then◌else◌, get_elem?,
}
use piggyon.ReasonCodes.{
  Code, missing_required_field, invalid_time_range, ready_after_cutoff, due_time_exceeded,
  terminal_not_compatible, terminal_not_on_service_route, tunnel_height_exceeded,
  route_width_exceeded, route_weight_exceeded, slot_height_exceeded, slot_width_exceeded,
  slot_length_exceeded, slot_weight_exceeded, wagon_weight_exceeded, service_unavailable,
  wagon_unavailable, slot_unavailable, slot_tag_not_supported, no_eligible_slot, capacity_conflict,
  alternative_available, alternative_requires_forbidden_change, alternative_not_required,
  no_feasible_alternative, key_lt, least, select_primary,
}

-- The documented order of all codes: by family, then by the alphabet.
abbrev pub ranking : List Code
ranking =
    invalid_time_range ∷ missing_required_field ∷ due_time_exceeded ∷ ready_after_cutoff
    ∷ terminal_not_compatible ∷ terminal_not_on_service_route ∷ route_weight_exceeded
    ∷ route_width_exceeded ∷ slot_height_exceeded ∷ slot_length_exceeded ∷ slot_weight_exceeded
    ∷ slot_width_exceeded ∷ tunnel_height_exceeded ∷ wagon_weight_exceeded ∷ no_eligible_slot
    ∷ service_unavailable ∷ slot_tag_not_supported ∷ slot_unavailable ∷ wagon_unavailable
    ∷ capacity_conflict ∷ alternative_available ∷ alternative_not_required
    ∷ alternative_requires_forbidden_change ∷ no_feasible_alternative ∷ []

-- the place of a code in `ranking`
abbrev pub rank : Code → ℕ
rank invalid_time_range = 0
rank missing_required_field = 1
rank due_time_exceeded = 2
rank ready_after_cutoff = 3
rank terminal_not_compatible = 4
rank terminal_not_on_service_route = 5
rank route_weight_exceeded = 6
rank route_width_exceeded = 7
rank slot_height_exceeded = 8
rank slot_length_exceeded = 9
rank slot_weight_exceeded = 10
rank slot_width_exceeded = 11
rank tunnel_height_exceeded = 12
rank wagon_weight_exceeded = 13
rank no_eligible_slot = 14
rank service_unavailable = 15
rank slot_tag_not_supported = 16
rank slot_unavailable = 17
rank wagon_unavailable = 18
rank capacity_conflict = 19
rank alternative_available = 20
rank alternative_not_required = 21
rank alternative_requires_forbidden_change = 22
rank no_feasible_alternative = 23

get_elem?-rank : (c : Code) → get_elem? ranking (rank c) ≡ some c
get_elem?-rank missing_required_field = refl
get_elem?-rank c = refl

rank-injective : (a b : Code) → rank a ≡ rank b → a ≡ b
rank-injective a b e = cc (get_elem?-rank a, get_elem?-rank b, ap (get_elem? ranking) e)

same : Bool → Bool → Bool
same true b = b
same false true = false
same false false = true

-- `test` holds of every code
every : (Code → Bool) → List Code → Bool
every test [] = true
every test (c ∷ codes) = test c && every test codes

every-at :
    (test : Code → Bool) (codes : List Code) (i : ℕ) (c : Code)
    → every test codes ≡ true
    → get_elem? codes i ≡ some c
    → test c ≡ true
unfolding every
every-at test [] i c h e = cc
every-at test (d ∷ codes) zero c h e = ground arith
every-at test (d ∷ codes) (suc i) c h e = every-at test codes i c (ground arith) e

agrees : Code → Code → Bool
unfolding same
agrees a b = same (key_lt a b) (ltb (rank a) (rank b))

table : every (λ a. every (agrees a) ranking) ranking ≡ true
unfolding every agrees key_lt
table = refl

same-eq : (a b : Bool) → same a b ≡ true → a ≡ b
unfolding same
same-eq a b h = ground arith

-- The order of the keys is the order of the ranks.
key_lt-eq-rank : (a b : Code) → key_lt a b ≡ ltb (rank a) (rank b)
unfolding agrees
key_lt-eq-rank a b =
    let row =
      every-at (λ x. every (agrees x) ranking) ranking (rank a) a table (get_elem?-rank a) in
    same-eq (key_lt a b) (ltb (rank a) (rank b))
      (every-at (agrees a) ranking (rank b) b row (get_elem?-rank b))

least_cases :
    (best : Code) (codes : List Code) → (least best codes ≡ best) ⊎ Memᴰ (least best codes) codes
unfolding least
least_cases best [] = inl refl
least_cases best (c ∷ codes) = elim (Bool-cases (key_lt c best)) [
  | inl e ↦ elim (least_cases c codes) [
    | inl here ↦ rw e (inr (Memᴰ.head here))
    | inr later ↦ rw e (inr (Memᴰ.tail later))
  ]
  | inr e ↦ elim (least_cases best codes) [
    | inl here ↦ rw e (inl here)
    | inr later ↦ rw e (inr (Memᴰ.tail later))
  ]
]

least-le_best : (best : Code) (codes : List Code) → rank (least best codes) ≤ rank best
unfolding least
least-le_best best [] = omega arith
least-le_best best (c ∷ codes) =
    ground (arith, key_lt-eq-rank c best, least-le_best c codes, least-le_best best codes)

least-le :
    {c : Code} (best : Code) (codes : List Code) → Memᴰ c codes → rank (least best codes) ≤ rank c
unfolding least
least-le best [] m = elim m [ ]
least-le best (d ∷ codes) (Memᴰ.head e) =
    rw e (ground (arith, key_lt-eq-rank d best, least-le_best d codes, least-le_best best codes))
least-le best (d ∷ codes) (Memᴰ.tail m) = least-le (if key_lt d best then d else best) codes m

-- `c` is the code of `codes` that comes first in `ranking`.
pub record IsRankedFirst (codes : List Code) (c : Code) : Type 0 where
  pub member : Memᴰ c codes
  pub first : (d : Code) → Memᴰ d codes → rank c ≤ rank d

select_primary-IsRankedFirst_cons :
    (d : Code) (codes : List Code) → IsRankedFirst (d ∷ codes) (least d codes)
select_primary-IsRankedFirst_cons d codes = record {
  member = elim (least_cases d codes) [ inl here ↦ Memᴰ.head here | inr later ↦ Memᴰ.tail later ];
  first = λ x m. first x m;
}
  where
    first : (x : Code) → Memᴰ x (d ∷ codes) → rank (least d codes) ≤ rank x
    first x (Memᴰ.head e) = rw e (least-le_best d codes)
    first x (Memᴰ.tail m) = least-le d codes m

IsRankedFirst-unique :
    {codes : List Code} {a b : Code} → IsRankedFirst codes a → IsRankedFirst codes b → a ≡ b
IsRankedFirst-unique {a} {b} p q =
    rank-injective a b (omega (arith, p.first b q.member, q.first a p.member))

-- A code is selected exactly when it is the one of the list that the documented order (family,
-- then the code's string) puts first.
pub select_primary-eq-some_iff :
    (codes : List Code) (c : Code) → (select_primary codes ≡ some c) ↔ IsRankedFirst codes c
unfolding select_primary
select_primary-eq-some_iff [] c = (λ h. cc, λ p. none_member p.member)
  where
    none_member : Memᴰ c [] → none ≡ some c
    none_member m = elim m [ ]
select_primary-eq-some_iff (d ∷ codes) c = (
  λ h. subst_primary (ground arith),
  λ p. ap some (IsRankedFirst-unique (select_primary-IsRankedFirst_cons d codes) p),
)
  where
    subst_primary : least d codes ≡ c → IsRankedFirst (d ∷ codes) c
    subst_primary e = rw e at (select_primary-IsRankedFirst_cons d codes)

-- Two lists with the same codes, in any order and as often as they like, select the same code.
pub select_primary_same :
    (xs ys : List Code)
    → ((c : Code) → Memᴰ c xs → Memᴰ c ys)
    → ((c : Code) → Memᴰ c ys → Memᴰ c xs)
    → select_primary xs ≡ select_primary ys
unfolding select_primary
select_primary_same [] [] f g = refl
select_primary_same [] (y ∷ ys) f g = no_member (g y (Memᴰ.head refl))
  where
    no_member : Memᴰ y [] → none ≡ some (least y ys)
    no_member m = elim m [ ]
select_primary_same (x ∷ xs) [] f g = no_member (f x (Memᴰ.head refl))
  where
    no_member : Memᴰ x [] → some (least x xs) ≡ none
    no_member m = elim m [ ]
select_primary_same (x ∷ xs) (y ∷ ys) f g =
    let p = select_primary-IsRankedFirst_cons x xs in
    let q = select_primary-IsRankedFirst_cons y ys in
    ap some (
      rank-injective (least x xs) (least y ys) (
        omega (
          arith,
          p.first (least y ys) (g (least y ys) q.member),
          q.first (least x xs) (f (least x xs) p.member),
        )))
