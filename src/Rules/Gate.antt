-- ===== src/Rules/Gate.antt =====
-- The gate's checks (app/rules/eligibility.py) find nothing exactly where the constraints hold.
use piggyon.Base.{
  ℕ, suc, ◌+◌, ◌*◌, ◌≤◌, ◌≡◌, refl, ◌↔◌, Bool, true, false, not, Option, none, some, [], ◌∷◌, arith,
  ltb, when, when-nil, append-eq-nil, nil-append, contains, contains→mem, mem→contains, is_none,
}
use piggyon.ReasonCodes.{terminal_not_compatible}
use piggyon.Snapshot.{Terminal, RouteConstraint, Service, Wagon, Slot, Order}
use piggyon.Eligibility.Lookup.{Index}
use piggyon.Eligibility.Checks.{
  weight_over, handling_minutes, tags_within, check_terminal, check_route, check_service,
  check_slot, validate_input,
}
use piggyon.Rules.{WeightWithin, Handles, ClearsIfAny, Travels, FitsSlot, handling}
use piggyon.Rules.Tags.{tags_within_iff}

module _ {A : Type 0} where
  -- a conditional append that appended nothing
  pub not_over : (limit value : ℕ) (x : A) → when (ltb limit value) x ≡ [] → value ≤ limit
  not_over limit value x h = ground (arith, when-nil (ltb limit value) x h)

  pub none_over : {limit value : ℕ} (x : A) → value ≤ limit → when (ltb limit value) x ≡ []
  none_over x h = ground arith

  pub held : (b : Bool) (x : A) → when (not b) x ≡ [] → b ≡ true
  held true x h = refl
  held false x h = cc

  pub holds : {b : Bool} (x : A) → b ≡ true → when (not b) x ≡ []
  holds x h = rw h refl

  weight_not_over :
      (w : Option ℕ) (limit : ℕ) (x : A) → when (weight_over w limit) x ≡ [] → WeightWithin w limit
  weight_not_over none limit x h = tt
  weight_not_over (some w) limit x h = not_over limit w x h

  weight_none_over :
      (w : Option ℕ) (limit : ℕ) (x : A) → WeightWithin w limit → when (weight_over w limit) x ≡ []
  weight_none_over none limit x h = refl
  weight_none_over (some w) limit x h = none_over x h

terminal_of_nil :
    (order : Order) (t : Option Terminal) → check_terminal order t ≡ [] → Handles order t
unfolding check_terminal
terminal_of_nil order none h = absurd (cons≢nil h)
  where
    cons≢nil : terminal_not_compatible ∷ [] ≡ [] → ⊥
    cons≢nil e = cc
terminal_of_nil order (some t) h =
    (tags_within_iff order.compatibility_tags t.supported_tags).0
      (held (tags_within order.compatibility_tags t.supported_tags) terminal_not_compatible h)

nil_of_terminal :
    (order : Order) (t : Option Terminal) → Handles order t → check_terminal order t ≡ []
unfolding check_terminal
nil_of_terminal order none h = absurd h
nil_of_terminal order (some t) h =
    holds _ ((tags_within_iff order.compatibility_tags t.supported_tags).1 h)

route_of_nil :
    (order : Order) (r : Option RouteConstraint) → check_route order r ≡ [] → ClearsIfAny order r
unfolding check_route
route_of_nil order none h = tt
route_of_nil order (some r) h =
    let (h1, r1) = append-eq-nil (when (ltb r.max_height_mm order.dimensions_mm.height) _) h in
    let (h2, h3) = append-eq-nil (when (ltb r.max_width_mm order.dimensions_mm.width) _) r1 in
    record {
      height = not_over _ _ _ h1;
      width = not_over _ _ _ h2;
      weight = weight_not_over order.gross_weight_kg r.max_weight_kg _ h3;
    }

nil_of_route :
    (order : Order) (r : Option RouteConstraint) → ClearsIfAny order r → check_route order r ≡ []
unfolding check_route
nil_of_route order none h = refl
nil_of_route order (some r) h = nil-append (none_over _ h.height) (
    nil-append (none_over _ h.width)
      (weight_none_over order.gross_weight_kg r.max_weight_kg _ h.weight))

-- The service's own constraints hold: it runs, the order travels its leg in time, and the route
-- takes the order's size and weight.
pub record ServiceAdmits (order : Order) (service : Service) (index : Index) : Type 0 where
  pub runs : service.available ≡ true
  pub travels : Travels index.terminals order service
  pub clears : ClearsIfAny order (index.routes service.route_constraint_id)

pub record SlotAdmits (order : Order) (wagon : Wagon) (slot : Slot) : Type 0 where
  pub wagon_available : wagon.available ≡ true
  pub slot_available : slot.available ≡ true
  pub fits : FitsSlot order slot
  pub wagon_weight : WeightWithin order.gross_weight_kg wagon.max_total_weight_kg

handling_minutes-eq : (t : Option Terminal) → handling_minutes t ≡ handling t
handling_minutes-eq none = refl
handling_minutes-eq (some t) = refl

module _ (order : Order) (service : Service) (index : Index) where
  abbrev origin : Option Terminal
  origin = index.terminals service.origin_terminal_id

  abbrev destination : Option Terminal
  destination = index.terminals service.destination_terminal_id

  service_of_nil : check_service order service index ≡ [] → ServiceAdmits order service index
  unfolding check_service
  service_of_nil h =
      let (h1, r1) = append-eq-nil (when (not service.available) _) h in
      let (h2, r2) =
        append-eq-nil (when (not (contains service.origin_terminal_id order.origin_terminal_ids)) _)
          r1 in
      let (h3, r3) =
        append-eq-nil
          (when (not (contains service.destination_terminal_id order.destination_terminal_ids)) _)
          r2 in
      let (h4, r4) = append-eq-nil (check_terminal order origin) r3 in
      let (h5, r5) = append-eq-nil (check_terminal order destination) r4 in
      let (h6, r6) = append-eq-nil (when (ltb service.planning_cutoff_at order.ready_at) _) r5 in
      let (h7, h8) =
        append-eq-nil
          (when (ltb order.due_at (service.arrival_at + handling_minutes destination * 60000000)) _)
          r6 in
      record {
        runs = held _ _ h1;
        travels = record {
          from_origin = contains→mem _ _ (held _ _ h2);
          to_destination = contains→mem _ _ (held _ _ h3);
          origin_handles = terminal_of_nil order origin h4;
          destination_handles = terminal_of_nil order destination h5;
          ready_in_time = not_over _ _ _ h6;
          delivered_in_time = rw (← handling_minutes-eq destination) (not_over _ _ _ h7);
        };
        clears = route_of_nil order (index.routes service.route_constraint_id) h8;
      }

  nil_of_service : ServiceAdmits order service index → check_service order service index ≡ []
  unfolding check_service
  nil_of_service a = nil-append (holds _ a.runs) (
      nil-append (holds _ (mem→contains a.travels.from_origin)) (
        nil-append (holds _ (mem→contains a.travels.to_destination)) (
          nil-append (nil_of_terminal order origin a.travels.origin_handles) (
            nil-append (nil_of_terminal order destination a.travels.destination_handles) (
              nil-append (none_over _ a.travels.ready_in_time) (
                nil-append
                  (none_over _ (rw (handling_minutes-eq destination) a.travels.delivered_in_time))
                  (nil_of_route order (index.routes service.route_constraint_id) a.clears)))))))

-- The service-level check of the gate finds nothing exactly when the service runs, its leg joins
-- terminals of the order that handle the order's tags, the order is ready and delivered in time, and
-- the route's clearance and weight limit admit the order.
pub check_service-ServiceAdmits_iff :
    (order : Order) (service : Service) (index : Index)
    → (check_service order service index ≡ []) ↔ ServiceAdmits order service index
check_service-ServiceAdmits_iff order service index =
    (service_of_nil order service index, nil_of_service order service index)

module _ (order : Order) (wagon : Wagon) (slot : Slot) where
  slot_of_nil : check_slot order wagon slot ≡ [] → SlotAdmits order wagon slot
  unfolding check_slot
  slot_of_nil h =
      let (h1, r1) = append-eq-nil (when (not wagon.available) _) h in
      let (h2, r2) = append-eq-nil (when (not slot.available) _) r1 in
      let (h3, r3) =
        append-eq-nil (when (not (tags_within order.compatibility_tags slot.supported_tags)) _)
          r2 in
      let (h4, r4) =
        append-eq-nil (when (ltb slot.max_dimensions_mm.height order.dimensions_mm.height) _) r3 in
      let (h5, r5) =
        append-eq-nil (when (ltb slot.max_dimensions_mm.width order.dimensions_mm.width) _) r4 in
      let (h6, r6) =
        append-eq-nil (when (ltb slot.max_dimensions_mm.length order.dimensions_mm.length) _) r5 in
      let (h7, h8) =
        append-eq-nil (when (weight_over order.gross_weight_kg slot.max_weight_kg) _) r6 in
      record {
        wagon_available = held _ _ h1;
        slot_available = held _ _ h2;
        fits = record {
          tags = (tags_within_iff order.compatibility_tags slot.supported_tags).0 (held _ _ h3);
          height = not_over _ _ _ h4;
          width = not_over _ _ _ h5;
          length = not_over _ _ _ h6;
          weight = weight_not_over order.gross_weight_kg slot.max_weight_kg _ h7;
        };
        wagon_weight = weight_not_over order.gross_weight_kg wagon.max_total_weight_kg _ h8;
      }

  nil_of_slot : SlotAdmits order wagon slot → check_slot order wagon slot ≡ []
  unfolding check_slot
  nil_of_slot a = nil-append (holds _ a.wagon_available) (
      nil-append (holds _ a.slot_available) (
        nil-append
          (holds _ ((tags_within_iff order.compatibility_tags slot.supported_tags).1 a.fits.tags))
          (nil-append (none_over _ a.fits.height) (
            nil-append (none_over _ a.fits.width) (
              nil-append (none_over _ a.fits.length) (
                nil-append
                  (weight_none_over order.gross_weight_kg slot.max_weight_kg _ a.fits.weight)
                  (weight_none_over order.gross_weight_kg wagon.max_total_weight_kg _
                    a.wagon_weight)))))))

-- The slot-level check of the gate finds nothing exactly when wagon and slot are available, the slot
-- supports the order's tags and takes its size and weight, and the whole wagon may carry its weight.
pub check_slot-SlotAdmits_iff :
    (order : Order) (wagon : Wagon) (slot : Slot)
    → (check_slot order wagon slot ≡ []) ↔ SlotAdmits order wagon slot
check_slot-SlotAdmits_iff order wagon slot =
    (slot_of_nil order wagon slot, nil_of_slot order wagon slot)

-- An order's input is accepted exactly when its weight is stated and it is ready before it is due.
pub record IsComplete (order : Order) : Type 0 where
  pub weight : is_none order.gross_weight_kg ≡ false
  pub in_order : suc order.ready_at ≤ order.due_at

-- The input check of the gate finds nothing exactly when the order states its weight and is ready
-- before it is due.
pub validate_input-IsComplete_iff : (order : Order) → (validate_input order ≡ []) ↔ IsComplete order
unfolding validate_input
validate_input-IsComplete_iff order = (
  λ h. record { weight = ground arith; in_order = ground arith },
  λ c. ground (arith, c.weight, c.in_order),
)
