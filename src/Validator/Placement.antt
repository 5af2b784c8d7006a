-- ===== src/Validator/Placement.antt =====
-- A candidate of the gate passes the validator's re-check of a single assignment.
use mathlib.Core.List.Memᴰ
use piggyon.Base.{
  ◌≡◌, sym, ap, ◌∙◌, Option, none, some, List, [], map, String, Memᴰ, or_else, mem-flat_map,
  index_by_sound, index_by-known, index_by_of_mem, mem→contains,
}
use piggyon.Base.Dict.{Dict, get, index_by}
use piggyon.Snapshot.{Order, Service, Wagon, RouteConstraint, ScenarioInputSnapshot}
use piggyon.Snapshot.Resolved.{Within, IsResolved}
use piggyon.Eligibility.{ids_or, evaluate_order, evaluate_with}
use piggyon.Eligibility.Types.{Candidate, OrderEvaluation}
use piggyon.Eligibility.Lookup.{Index}
use piggyon.Eligibility.Candidates.{Fits, candidates-Fits_iff}
use piggyon.Eligibility.Groups.{IsPlaced, IsIndexOf}
use piggyon.Baseline.Problem.{all_candidates}
use piggyon.Baseline.Solve.{to_assignment}
use piggyon.Validator.{tables_of}
use piggyon.Validator.Checks.{check_assignment}
use piggyon.Rules.{ClearsIfAny}
use piggyon.Rules.Gate.{
  ServiceAdmits, SlotAdmits, check_service-ServiceAdmits_iff, check_slot-SlotAdmits_iff,
  validate_input-IsComplete_iff,
}
use piggyon.Rules.Recheck.{IsSoundPlacement, ClearsKnown, check_resolved-IsSoundPlacement_iff}

-- the services that an order may use
abbrev pub ids_for :
    ScenarioInputSnapshot → Option (List String) → Dict (List String) → Order → List String
ids_for s ids per_order order =
    or_else (get order.order_id per_order) (ids_or ids s.baseline_service_ids)

clears_known :
    (order : Order) (found : Option RouteConstraint) {r : RouteConstraint}
    → found ≡ some r
    → ClearsIfAny order found
    → ClearsKnown order found
clears_known order none e c = cc
clears_known order (some r) e c = c

module _ (s : ScenarioInputSnapshot) (ids : Option (List String)) (per_order : Dict (List String))
    (index : Index) (r : IsResolved s) (ix : IsIndexOf s index) where
  -- A candidate belongs to an order of the snapshot and fits it.
  pub owner_of :
      (c : Candidate)
      → Memᴰ c (all_candidates (evaluate_with s ids per_order index))
      → (order : Order) × Memᴰ order s.orders × Fits order index (ids_for s ids per_order order) c
  unfolding evaluate_with
  owner_of c m =
      let f : Order → OrderEvaluation =
        λ order. evaluate_order order index (ids_for s ids per_order order) in
      let (e, me, mc) = mem-flat_map (λ (e : OrderEvaluation). e.candidates) (map f s.orders) m in
      let (order, listed, same) = Memᴰ.of_map f s.orders me in
      (
        order,
        listed,
        (candidates-Fits_iff order index (ids_for s ids per_order order) c).0 (rw (← same) at mc),
      )

  module _ (permitted : List String) (order : Order) (listed : Memᴰ order s.orders)
      (scope : Within (ids_for s ids per_order order) permitted) (c : Candidate)
      (f : Fits order index (ids_for s ids per_order order) c) where
    placed :
        IsPlaced
          (index_by (λ (w : Wagon). w.wagon_id) s.wagons)
          s.slots
          c.service_id
          (f.wagon, f.slot)
    placed = ix.placed c.service_id (f.wagon, f.slot) f.on_service

    wagon_facts : Memᴰ f.wagon s.wagons × (f.wagon.wagon_id ≡ f.slot.wagon_id)
    wagon_facts = index_by_sound (λ w. w.wagon_id) s.wagons f.slot.wagon_id placed.found

    known_service :
        index_by (λ (v : Service). v.service_id) s.services c.service_id ≡ some f.service
    known_service =
        ap (λ (t : String → Option Service). t c.service_id) (sym ix.services) ∙ f.known_service

    service_facts : Memᴰ f.service s.services × (f.service.service_id ≡ c.service_id)
    service_facts = index_by_sound (λ v. v.service_id) s.services c.service_id known_service

    admits : ServiceAdmits order f.service index
    admits = (check_service-ServiceAdmits_iff order f.service index).0 f.service_passes

    slot_admits : SlotAdmits order f.wagon f.slot
    slot_admits = (check_slot-SlotAdmits_iff order f.wagon f.slot).0 f.slot_passes

    clears : ClearsKnown order ((tables_of s).routes f.service.route_constraint_id)
    clears =
        let (route, found) =
          index_by-known (λ (x : RouteConstraint). x.route_constraint_id) s.route_constraints
            f.service.route_constraint_id
            (mem→contains (r.services f.service service_facts.0).route) in
        clears_known order _ found (rw ix.routes at admits.clears)

    pub sound_placement :
        IsSoundPlacement (tables_of s) permitted (to_assignment c) order f.service f.wagon f.slot
    sound_placement = record {
      in_scope = scope c.service_id f.offered;
      slot_in_wagon = sym wagon_facts.1;
      wagon_in_service = placed.on_service ∙ sym service_facts.1;
      service_available = admits.runs;
      wagon_available = slot_admits.wagon_available;
      slot_available = slot_admits.slot_available;
      weight_known = ((validate_input-IsComplete_iff order).0 f.valid_input).weight;
      travels = rw ix.terminals at admits.travels;
      fits = slot_admits.fits;
      clears = clears;
    }

    pub known_order : (tables_of s).orders c.order_id ≡ some order
    known_order =
        rw f.same_order (index_by_of_mem (λ o. o.order_id) s.orders r.unique_orders listed)

    pub known_wagon : (tables_of s).wagons c.wagon_id ≡ some f.wagon
    known_wagon =
        rw f.same_wagon (index_by_of_mem (λ w. w.wagon_id) s.wagons r.unique_wagons wagon_facts.0)

    known_slot : (tables_of s).slots c.slot_id ≡ some f.slot
    known_slot =
        rw f.same_slot (index_by_of_mem (λ t. t.slot_id) s.slots r.unique_slots placed.listed)

    -- The re-check of the candidate's assignment finds nothing.
    pub check_assignment-nil : check_assignment (tables_of s) permitted (to_assignment c) ≡ []
    unfolding check_assignment
    check_assignment-nil =
        rw (known_order, known_service, known_wagon, known_slot)
          ((check_resolved-IsSoundPlacement_iff (tables_of s) permitted (to_assignment c) order
              f.service f.wagon f.slot).1
            sound_placement)
