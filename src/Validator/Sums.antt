-- ===== src/Validator/Sums.antt =====
-- The two checks of app/validation/plan_validator.py that look at the whole plan: each order and
-- slot once, and no wagon over its limit.
use mathlib.Core.List.Memᴰ
use piggyon.Base.{
  ℕ, ◌+◌, ◌≤◌, ◌≡◌, refl, inl, inr, false, Option, none, some, List, [], ◌∷◌, String, ◌==◌, eq_iff,
  eq_refl, Memᴰ, arith, contains, nil-append, flat_map-nil, sum_over, or_else, Option-cases,
  Bool-cases, if◌then◌else◌,
}
use piggyon.Base.Dict.{Dict, get, put, get→mem}
use piggyon.Snapshot.{Order, Wagon}
use piggyon.Baseline.{Assignment}
use piggyon.Baseline.Problem.{weight_of}
use piggyon.Validator.{
  uniqueness_from, check_uniqueness, load_into, over_capacity, check_wagon_capacity,
}

-- how many assignments are of an order, and of a slot
abbrev pub order_count : String → List Assignment → ℕ
order_count id plan = sum_over (λ (a : Assignment). if a.order_id == id then 1 else 0) plan

abbrev pub slot_count : String → List Assignment → ℕ
slot_count id plan = sum_over (λ (a : Assignment). if a.slot_id == id then 1 else 0) plan

abbrev seen_count : String → List String → ℕ
seen_count id seen = if contains id seen then 1 else 0

fresh :
    (key : Assignment → String) (a : Assignment) (rest : List Assignment) (seen : List String)
    → seen_count (key a) seen
        + sum_over (λ (b : Assignment). if key b == key a then 1 else 0) (a ∷ rest)
      ≤ 1
    → contains (key a) seen ≡ false
fresh key a rest seen h = ground (arith, eq_refl (key a))

pass_on :
    (key : Assignment → String) (a : Assignment) (rest : List Assignment) (seen : List String)
    (id : String)
    → seen_count id seen + sum_over (λ (b : Assignment). if key b == id then 1 else 0) (a ∷ rest)
      ≤ 1
    → seen_count id (key a ∷ seen)
        + sum_over (λ (b : Assignment). if key b == id then 1 else 0) rest
      ≤ 1
unfolding contains
pass_on key a rest seen id h = ground arith

uniqueness_from-nil :
    (seen_orders seen_slots : List String) (plan : List Assignment)
    → ((id : String) → seen_count id seen_orders + order_count id plan ≤ 1)
    → ((id : String) → seen_count id seen_slots + slot_count id plan ≤ 1)
    → uniqueness_from seen_orders seen_slots plan ≡ []
unfolding uniqueness_from
uniqueness_from-nil seen_orders seen_slots [] f g = refl
uniqueness_from-nil seen_orders seen_slots (a ∷ rest) f g =
    nil-append (rw (fresh (λ b. b.order_id) a rest seen_orders (f a.order_id)) refl) (
      nil-append (rw (fresh (λ b. b.slot_id) a rest seen_slots (g a.slot_id)) refl) (
        uniqueness_from-nil (a.order_id ∷ seen_orders) (a.slot_id ∷ seen_slots) rest
          (λ id. pass_on (λ b. b.order_id) a rest seen_orders id (f id))
          (λ id. pass_on (λ b. b.slot_id) a rest seen_slots id (g id))))

pub check_uniqueness-nil :
    (plan : List Assignment)
    → ((id : String) → order_count id plan ≤ 1)
    → ((id : String) → slot_count id plan ≤ 1)
    → check_uniqueness plan ≡ []
unfolding check_uniqueness contains
check_uniqueness-nil plan f g =
    uniqueness_from-nil [] [] plan (λ id. omega (arith, f id)) (λ id. omega (arith, g id))

module _ (orders : String → Option Order) where
  -- the weight that a plan puts on a wagon
  abbrev pub load : String → List Assignment → ℕ
  load id plan =
      sum_over (λ (a : Assignment). if a.wagon_id == id then weight_of (orders a.order_id) else 0)
        plan

  -- Every entry is at most `bound` at its key.
  abbrev Bounded : (String → ℕ) → Dict ℕ → Type 0
  Bounded bound d = (e : String × ℕ) → Memᴰ e d → e.1 ≤ bound e.0

  Bounded-put :
      (bound : String → ℕ) (k : String) (n : ℕ) (d : Dict ℕ)
      → Bounded bound d
      → n ≤ bound k
      → Bounded bound (put k n d)
  unfolding put
  Bounded-put bound k n [] b h e (Memᴰ.head p) = rw p h
  Bounded-put bound k n [] b h e (Memᴰ.tail m) = elim m [ ]
  Bounded-put bound k n ((j, w) ∷ d) b h e m = elim (Bool-cases (j == k)) [
    | inl same ↦ elim (Memᴰ.cases_cons (rw same at m)) [
      | inl here ↦ rw here (rw ((eq_iff j k).0 same) h)
      | inr later ↦ b e (Memᴰ.tail later)
    ]
    | inr other ↦ elim (Memᴰ.cases_cons (rw other at m)) [
      | inl here ↦ b e (Memᴰ.head here)
      | inr later ↦ Bounded-put bound k n d (λ x mx. b x (Memᴰ.tail mx)) h e later
    ]
  ]

  get-le :
      (bound : String → ℕ) (k : String) (d : Dict ℕ)
      → Bounded bound d
      → or_else (get k d) 0 ≤ bound k
  get-le bound k d b = elim (Option-cases (get k d)) [
    | inl absent ↦ rw absent (omega arith)
    | inr (n, found) ↦ rw found (b (k, n) (get→mem k d found))
  ]

  load_into-Bounded :
      (plan : List Assignment) (bound : String → ℕ) (d : Dict ℕ)
      → Bounded bound d
      → Bounded (λ k. bound k + load k plan) (load_into orders plan d)
  unfolding load_into
  load_into-Bounded [] bound d b e m = omega (arith, b e m)
  load_into-Bounded (a ∷ rest) bound d b e m = elim (Option-cases (orders a.order_id)) [
    | inl absent ↦ omega (arith, load_into-Bounded rest bound d b e (rw (absent, load_into) at m))
    | inr (order, found) ↦
        let weight : ℕ = or_else order.gross_weight_kg 0 in
        let raised : String → ℕ = λ k. bound k + (if a.wagon_id == k then weight else 0) in
        let grown : Bounded raised (put a.wagon_id (or_else (get a.wagon_id d) 0 + weight) d) =
          Bounded-put raised a.wagon_id (or_else (get a.wagon_id d) 0 + weight) d
            (λ x mx. omega (arith, b x mx))
            (ground (arith, get-le bound a.wagon_id d b, eq_refl a.wagon_id)) in
        rw found
          (omega (arith, load_into-Bounded rest raised _ grown e (rw (found, load_into) at m)))
  ]

  over_capacity-nil :
      (found : Option Wagon) (total : ℕ)
      → ((w : Wagon) → found ≡ some w → total ≤ w.max_total_weight_kg)
      → over_capacity found total ≡ []
  unfolding over_capacity
  over_capacity-nil none total h = refl
  over_capacity-nil (some w) total h = ground (arith, h w refl)

  pub check_wagon_capacity-nil :
      (wagons : String → Option Wagon) (plan : List Assignment)
      → ((id : String) (w : Wagon) → wagons id ≡ some w → load id plan ≤ w.max_total_weight_kg)
      → check_wagon_capacity orders wagons plan ≡ []
  unfolding check_wagon_capacity
  check_wagon_capacity-nil wagons plan h =
      flat_map-nil (λ (e : String × ℕ). over_capacity (wagons e.0) e.1) (load_into orders plan [])
        λ e m. over_capacity-nil (wagons e.0) e.1 λ w found.
          omega (arith, h e.0 w found, load_into-Bounded plan (λ _. 0) [] (λ x mx. elim mx [ ]) e m)
