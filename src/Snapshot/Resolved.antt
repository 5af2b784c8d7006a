-- ===== src/Snapshot/Resolved.antt =====
-- What the referential check of app/models/snapshot.py establishes, and that it rejects nothing else.
use mathlib.Core.List.Memᴰ
use piggyon.Base.{
  ◌≤◌, ◌<◌, ◌≡◌, refl, sym, ◌↔◌, inl, inr, false, not, eq_iff, some, List, [], ◌∷◌, String, Memᴰ,
  arith, when, when-nil, append-eq-nil, nil-append, contains, contains→mem, mem→contains, flat_map,
  flat_map-eq-nil, flat_map-nil, IsUnique, Bool-cases,
}
use piggyon.Snapshot.{AdjustmentWindow, Service, Wagon, Slot, Order, ScenarioInputSnapshot}
use piggyon.Snapshot.References.{
  terminal_ids, route_ids, service_ids, wagon_ids, slot_ids, order_ids, shipper_ids,
  duplicates_from, reject_duplicates, unless_known,
}

abbrev pub Within : List String → List String → Type 0
Within xs known = (x : String) → Memᴰ x xs → Memᴰ x known

pub record ServiceResolves (terminals routes : List String) (v : Service) : Type 0 where
  pub origin : Memᴰ v.origin_terminal_id terminals
  pub destination : Memᴰ v.destination_terminal_id terminals
  pub route : Memᴰ v.route_constraint_id routes
  pub travels : v.departure_at < v.arrival_at
  pub closes_before_departure : v.planning_cutoff_at ≤ v.departure_at

pub record OrderResolves (shippers terminals services : List String) (o : Order) : Type 0 where
  pub shipper : Memᴰ o.shipper_id shippers
  pub origins : Within o.origin_terminal_ids terminals
  pub destinations : Within o.destination_terminal_ids terminals
  pub window_services :
      (w : AdjustmentWindow)
      → o.adjustment_window ≡ some w
      → Within w.alternative_service_ids services
  pub window_terminals :
      (w : AdjustmentWindow)
      → o.adjustment_window ≡ some w
      → Within w.alternative_destination_terminal_ids terminals

-- Names are unique in each collection, and every name that is used is declared.
pub record IsResolved (s : ScenarioInputSnapshot) : Type 0 where
  pub unique_terminals : IsUnique (terminal_ids s)
  pub unique_services : IsUnique (service_ids s)
  pub unique_wagons : IsUnique (wagon_ids s)
  pub unique_slots : IsUnique (slot_ids s)
  pub unique_orders : IsUnique (order_ids s)
  pub unique_shippers : IsUnique (shipper_ids s)
  pub unique_routes : IsUnique (route_ids s)
  pub baseline_services : Within s.baseline_service_ids (service_ids s)
  pub services :
      (v : Service) → Memᴰ v s.services → ServiceResolves (terminal_ids s) (route_ids s) v
  pub wagons : (w : Wagon) → Memᴰ w s.wagons → Memᴰ w.service_id (service_ids s)
  pub slots : (t : Slot) → Memᴰ t s.slots → Memᴰ t.wagon_id (wagon_ids s)
  pub orders :
      (o : Order)
      → Memᴰ o s.orders
      → OrderResolves (shipper_ids s) (terminal_ids s) (service_ids s) o

pub known_of_when :
    {A : Type 0} (known : List String) (value : String) (e : A)
    → when (not (contains value known)) e ≡ []
    → Memᴰ value known
known_of_when known value e h =
    contains→mem value known (ground (arith, when-nil (not (contains value known)) e h))

pub when_of_known :
    {A : Type 0} {known : List String} {value : String} (e : A)
    → Memᴰ value known
    → when (not (contains value known)) e ≡ []
when_of_known e m = rw (mem→contains m) refl

pub Within-of_nil :
    (known : List String) (c o f : String) (values : List String)
    → flat_map (unless_known known c o f) values ≡ []
    → Within values known
unfolding unless_known
Within-of_nil known c o f values h x m =
    known_of_when known x _ (flat_map-eq-nil (unless_known known c o f) values h m)

pub nil_of_Within :
    (known : List String) (c o f : String) (values : List String)
    → Within values known
    → flat_map (unless_known known c o f) values ≡ []
unfolding unless_known
nil_of_Within known c o f values w =
    flat_map-nil (unless_known known c o f) values (λ x m. when_of_known _ (w x m))

-- The elements of `xs` are not among `seen`.
abbrev Apart : List String → List String → Type 0
Apart xs seen = (x : String) → Memᴰ x xs → contains x seen ≡ false

contains-false :
    (k x : String) (xs : List String)
    → contains k (x ∷ xs) ≡ false
    → (k ≡ x → ⊥) × (contains k xs ≡ false)
unfolding contains
contains-false k x xs h = (λ e. ground (arith, eq_iff x k), ground arith)

false-contains :
    (k x : String) (xs : List String)
    → (k ≡ x → ⊥)
    → contains k xs ≡ false
    → contains k (x ∷ xs) ≡ false
unfolding contains
false-contains k x xs n h = ground (arith, eq_iff x k)

not-mem→contains : (k : String) (xs : List String) → (Memᴰ k xs → ⊥) → contains k xs ≡ false
not-mem→contains k xs n = elim (Bool-cases (contains k xs)) [
  | inl e ↦ absurd (n (contains→mem k xs e))
  | inr e ↦ e
]

IsUnique-of_nil :
    (seen : List String) (c : String) (ids : List String)
    → duplicates_from seen c ids ≡ []
    → IsUnique ids × Apart ids seen
unfolding duplicates_from
IsUnique-of_nil seen c [] h = (tt, λ x m. elim m [ ])
IsUnique-of_nil seen c (id ∷ ids) h =
    let (first, rest) = append-eq-nil (when (contains id seen) _) h in
    let fresh = when-nil (contains id seen) _ first in
    let (unique, apart) = IsUnique-of_nil (id ∷ seen) c ids rest in
    (
      (not-mem→contains id ids (λ m. (contains-false id id seen (apart id m)).0 refl), unique),
      λ x m. apart_at fresh apart x m,
    )
  where
    apart_at : contains id seen ≡ false → Apart ids (id ∷ seen) → Apart (id ∷ ids) seen
    apart_at fresh apart x (Memᴰ.head e) = rw e fresh
    apart_at fresh apart x (Memᴰ.tail m) = (contains-false x id seen (apart x m)).1

nil_of_unique :
    (seen : List String) (c : String) (ids : List String)
    → IsUnique ids
    → Apart ids seen
    → duplicates_from seen c ids ≡ []
unfolding duplicates_from
nil_of_unique seen c [] u apart = refl
nil_of_unique seen c (id ∷ ids) u apart = nil-append (rw (apart id (Memᴰ.head refl)) refl) (
    nil_of_unique (id ∷ seen) c ids u.1 λ x m.
      false-contains x id seen (λ e. ground (arith, mem→contains (Memᴰ.cast (sym e) m), u.0))
        (apart x (Memᴰ.tail m)))

pub reject-nil : (c : String) (ids : List String) → (reject_duplicates c ids ≡ []) ↔ IsUnique ids
unfolding reject_duplicates contains
reject-nil c ids =
    (λ h. (IsUnique-of_nil [] c ids h).0, λ u. nil_of_unique [] c ids u (λ x m. refl))
