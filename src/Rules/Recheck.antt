-- ===== src/Rules/Recheck.antt =====
-- The validator's checks of one assignment (app/validation/plan_validator.py) find nothing exactly
-- where the constraints hold.
use piggyon.Base.{
  ℕ, ◌≡◌, refl, ◌↔◌, Bool, true, false, not, ◌&&◌, ◌||◌, ◌==◌, eq_iff, Option, none, some, List, [],
  ◌∷◌, String, Memᴰ, arith, ltb, when, when-nil, append-eq-nil, nil-append, contains, contains→mem,
  mem→contains, is_none, or_else,
}
use piggyon.Snapshot.{Terminal, RouteConstraint, Service, Wagon, Slot, Order}
use piggyon.Baseline.{Assignment}
use piggyon.Validator.Checks.{
  ValidationFinding, Tables, subset_of, handles, handling_of, check_terminals, check_times,
  check_clearance, check_dimensions, check_resolved,
}
use piggyon.Rules.{WeightWithin, Handles, Clears, Travels, FitsSlot, handling}
use piggyon.Rules.Tags.{subset_of_iff}
use piggyon.Rules.Gate.{not_over, none_over, held, holds}

-- The validator wants a route constraint, the gate does not.
abbrev pub ClearsKnown : Order → Option RouteConstraint → Type 0
ClearsKnown order none = ⊥
ClearsKnown order (some route) = Clears order route

-- What the validator demands of one assignment whose four names are known.
pub record IsSoundPlacement (tables : Tables) (permitted : List String) (a : Assignment)
    (order : Order) (service : Service) (wagon : Wagon) (slot : Slot) : Type 0 where
  pub in_scope : Memᴰ a.service_id permitted
  pub slot_in_wagon : slot.wagon_id ≡ wagon.wagon_id
  pub wagon_in_service : wagon.service_id ≡ service.service_id
  pub service_available : service.available ≡ true
  pub wagon_available : wagon.available ≡ true
  pub slot_available : slot.available ≡ true
  pub weight_known : is_none order.gross_weight_kg ≡ false
  pub travels : Travels tables.terminals order service
  pub fits : FitsSlot order slot
  pub clears : ClearsKnown order (tables.routes service.route_constraint_id)

module _ {A : Type 0} where
  weight_at_most :
      (w : Option ℕ) (limit : ℕ) (x : A)
      → when (ltb limit (or_else w 0)) x ≡ []
      → WeightWithin w limit
  weight_at_most none limit x h = tt
  weight_at_most (some w) limit x h = not_over limit w x h

  nil_of_weight :
      (w : Option ℕ) (limit : ℕ) (x : A)
      → WeightWithin w limit
      → when (ltb limit (or_else w 0)) x ≡ []
  nil_of_weight none limit x h = ground arith
  nil_of_weight (some w) limit x h = none_over x h

handling_of-eq : (t : Option Terminal) → handling_of t ≡ handling t
handling_of-eq none = refl
handling_of-eq (some t) = refl

handles_iff : (order : Order) (t : Option Terminal) → (handles order t ≡ true) ↔ Handles order t
unfolding handles
handles_iff order none = (λ h. absurd (not_true h), λ h. absurd h)
  where
    not_true : false ≡ true → ⊥
    not_true h = cc
handles_iff order (some t) = subset_of_iff order.compatibility_tags t.supported_tags

clearance_of_nil :
    (id : String) (order : Order) (r : Option RouteConstraint)
    → check_clearance id order r ≡ []
    → ClearsKnown order r
unfolding check_clearance
clearance_of_nil id order none h = absurd (cons≢nil h)
  where
    cons≢nil : {x : ValidationFinding} → x ∷ [] ≡ [] → ⊥
    cons≢nil e = cc
clearance_of_nil id order (some r) h =
    let (h1, r1) = append-eq-nil (when (ltb r.max_height_mm order.dimensions_mm.height) _) h in
    let (h2, h3) = append-eq-nil (when (ltb r.max_width_mm order.dimensions_mm.width) _) r1 in
    record {
      height = not_over _ _ _ h1;
      width = not_over _ _ _ h2;
      weight = weight_at_most order.gross_weight_kg r.max_weight_kg _ h3;
    }

nil_of_clearance :
    (id : String) (order : Order) (r : Option RouteConstraint)
    → ClearsKnown order r
    → check_clearance id order r ≡ []
unfolding check_clearance
nil_of_clearance id order none h = absurd h
nil_of_clearance id order (some r) h = nil-append (none_over _ h.height) (
    nil-append (none_over _ h.width)
      (nil_of_weight order.gross_weight_kg r.max_weight_kg _ h.weight))

module _ (tables : Tables) (permitted : List String) (a : Assignment) (order : Order)
    (service : Service) (wagon : Wagon) (slot : Slot) where
  abbrev origin : Option Terminal
  origin = tables.terminals service.origin_terminal_id

  abbrev destination : Option Terminal
  destination = tables.terminals service.destination_terminal_id

  Travels-of_nil :
      check_terminals a.order_id order service tables.terminals ≡ []
      → check_times a.order_id order service tables.terminals ≡ []
      → Travels tables.terminals order service
  unfolding check_terminals check_times
  Travels-of_nil h k =
      let (h1, r1) =
        append-eq-nil (when (not (contains service.origin_terminal_id order.origin_terminal_ids)) _)
          h in
      let (h2, r2) =
        append-eq-nil
          (when (not (contains service.destination_terminal_id order.destination_terminal_ids)) _)
          r1 in
      let (h3, h4) = append-eq-nil (when (not (handles order origin)) _) r2 in
      let (k1, k2) = append-eq-nil (when (ltb service.planning_cutoff_at order.ready_at) _) k in
      record {
        from_origin = contains→mem _ _ (held _ _ h1);
        to_destination = contains→mem _ _ (held _ _ h2);
        origin_handles = (handles_iff order origin).0 (held _ _ h3);
        destination_handles = (handles_iff order destination).0 (held _ _ h4);
        ready_in_time = not_over _ _ _ k1;
        delivered_in_time = rw (← handling_of-eq destination) (not_over _ _ _ k2);
      }

  nil_of_Travels :
      Travels tables.terminals order service
      → (check_terminals a.order_id order service tables.terminals ≡ [])
        × (check_times a.order_id order service tables.terminals ≡ [])
  unfolding check_terminals check_times
  nil_of_Travels t = (
    nil-append (holds _ (mem→contains t.from_origin)) (
        nil-append (holds _ (mem→contains t.to_destination)) (
          nil-append (holds _ ((handles_iff order origin).1 t.origin_handles))
            (holds _ ((handles_iff order destination).1 t.destination_handles)))),
    nil-append (none_over _ t.ready_in_time)
        (none_over _ (rw (handling_of-eq destination) t.delivered_in_time)),
  )

  slot_of_nil :
      check_dimensions a.order_id order service slot tables.routes ≡ []
      → FitsSlot order slot × ClearsKnown order (tables.routes service.route_constraint_id)
  unfolding check_dimensions
  slot_of_nil h =
      let (h1, r1) =
        append-eq-nil (when (ltb slot.max_dimensions_mm.height order.dimensions_mm.height) _) h in
      let (h2, r2) =
        append-eq-nil (when (ltb slot.max_dimensions_mm.width order.dimensions_mm.width) _) r1 in
      let (h3, r3) =
        append-eq-nil (when (ltb slot.max_dimensions_mm.length order.dimensions_mm.length) _) r2 in
      let (h4, r4) =
        append-eq-nil (when (ltb slot.max_weight_kg (or_else order.gross_weight_kg 0)) _) r3 in
      let (h5, h6) =
        append-eq-nil (when (not (subset_of order.compatibility_tags slot.supported_tags)) _) r4 in
      (
        record {
          tags = (subset_of_iff order.compatibility_tags slot.supported_tags).0 (held _ _ h5);
          height = not_over _ _ _ h1;
          width = not_over _ _ _ h2;
          length = not_over _ _ _ h3;
          weight = weight_at_most order.gross_weight_kg slot.max_weight_kg _ h4;
        },
        clearance_of_nil a.order_id order (tables.routes service.route_constraint_id) h6,
      )

  nil_of_slot :
      FitsSlot order slot
      → ClearsKnown order (tables.routes service.route_constraint_id)
      → check_dimensions a.order_id order service slot tables.routes ≡ []
  unfolding check_dimensions
  nil_of_slot f c = nil-append (none_over _ f.height) (
      nil-append (none_over _ f.width) (
        nil-append (none_over _ f.length) (
          nil-append (nil_of_weight order.gross_weight_kg slot.max_weight_kg _ f.weight) (
            nil-append
              (holds _ ((subset_of_iff order.compatibility_tags slot.supported_tags).1 f.tags))
              (nil_of_clearance a.order_id order (tables.routes service.route_constraint_id) c)))))

  abbrev disconnected : Bool
  disconnected =
      not (slot.wagon_id == wagon.wagon_id) || not (wagon.service_id == service.service_id)

  connected :
      disconnected ≡ false
      → (slot.wagon_id ≡ wagon.wagon_id) × (wagon.service_id ≡ service.service_id)
  connected h = (
    (eq_iff slot.wagon_id wagon.wagon_id).0 (ground arith),
    (eq_iff wagon.service_id service.service_id).0 (ground arith),
  )

  placement_of_nil :
      check_resolved tables permitted a order service wagon slot ≡ []
      → IsSoundPlacement tables permitted a order service wagon slot
  unfolding check_resolved
  placement_of_nil h =
      let (h1, r1) = append-eq-nil (when (not (contains a.service_id permitted)) _) h in
      let (h2, r2) = append-eq-nil (when disconnected _) r1 in
      let (h3, r3) =
        append-eq-nil (when (not (service.available && (wagon.available && slot.available))) _)
          r2 in
      let (h4, r4) = append-eq-nil (when (is_none order.gross_weight_kg) _) r3 in
      let (h5, r5) = append-eq-nil (check_terminals a.order_id order service tables.terminals) r4 in
      let (h6, h7) = append-eq-nil (check_times a.order_id order service tables.terminals) r5 in
      let (joined_wagon, joined_service) = connected (when-nil disconnected _ h2) in
      let open_all : (service.available && (wagon.available && slot.available)) ≡ true =
        held _ _ h3 in
      let (fits, clears) = slot_of_nil h7 in
      record {
        in_scope = contains→mem _ _ (held _ _ h1);
        slot_in_wagon = joined_wagon;
        wagon_in_service = joined_service;
        service_available = ground arith;
        wagon_available = ground arith;
        slot_available = ground arith;
        weight_known = when-nil (is_none order.gross_weight_kg) _ h4;
        travels = Travels-of_nil h5 h6;
        fits = fits;
        clears = clears;
      }

  all_available :
      IsSoundPlacement tables permitted a order service wagon slot
      → (service.available && (wagon.available && slot.available)) ≡ true
  all_available p = rw (p.service_available, p.wagon_available, p.slot_available) refl

  joined : IsSoundPlacement tables permitted a order service wagon slot → disconnected ≡ false
  joined p =
      rw
        (
          (eq_iff slot.wagon_id wagon.wagon_id).1 p.slot_in_wagon,
          (eq_iff wagon.service_id service.service_id).1 p.wagon_in_service,
        )
        refl

  nil_of_placement :
      IsSoundPlacement tables permitted a order service wagon slot
      → check_resolved tables permitted a order service wagon slot ≡ []
  unfolding check_resolved
  nil_of_placement p =
      let (terminals, times) = nil_of_Travels p.travels in
      nil-append (holds _ (mem→contains p.in_scope)) (
        nil-append (rw (joined p) refl) (
          nil-append (holds _ (all_available p)) (
            nil-append (rw p.weight_known refl)
              (nil-append terminals (nil-append times (nil_of_slot p.fits p.clears))))))

-- The re-check of an assignment whose order, service, wagon and slot are known finds nothing exactly
-- when the placement is sound: permitted service, connected topology, available resources, a stated
-- weight, a leg that serves the order in time, a slot and a route that take it.
pub check_resolved-IsSoundPlacement_iff :
    (tables : Tables) (permitted : List String) (a : Assignment) (order : Order) (service : Service)
    (wagon : Wagon) (slot : Slot)
    → (check_resolved tables permitted a order service wagon slot ≡ [])
      ↔ IsSoundPlacement tables permitted a order service wagon slot
check_resolved-IsSoundPlacement_iff tables permitted a order service wagon slot = (
  placement_of_nil tables permitted a order service wagon slot,
  nil_of_placement tables permitted a order service wagon slot,
)
