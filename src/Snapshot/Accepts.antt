-- ===== src/Snapshot/Accepts.antt =====
-- The referential check of app/models/snapshot.py accepts exactly the resolved snapshots.
use piggyon.Base.{
  ◌≤◌, ◌<◌, ◌≡◌, refl, ◌↔◌, not, Option, none, some, List, [], String, arith, ltb, leb, when,
  when-nil, append-eq-nil, nil-append, contains, flat_map, flat_map-eq-nil, flat_map-nil,
}
use piggyon.Snapshot.{AdjustmentWindow, Service, Wagon, Slot, Order, ScenarioInputSnapshot}
use piggyon.Snapshot.References.{
  SnapshotError, unknown_baseline_service, terminal_ids, route_ids, service_ids, wagon_ids,
  slot_ids, order_ids, shipper_ids, references_resolve, unless_known, service_errors, window_errors,
  order_errors, duplicate_errors,
}
use piggyon.Snapshot.Resolved.{
  Within, ServiceResolves, OrderResolves, IsResolved, known_of_when, when_of_known, Within-of_nil,
  nil_of_Within, reject-nil,
}

after_departure :
    (v : Service) (e : SnapshotError)
    → when (leb v.arrival_at v.departure_at) e ≡ []
    → v.departure_at < v.arrival_at
after_departure v e h = ground (arith, when-nil (leb v.arrival_at v.departure_at) e h)

before_departure :
    (v : Service) (e : SnapshotError)
    → when (ltb v.departure_at v.planning_cutoff_at) e ≡ []
    → v.planning_cutoff_at ≤ v.departure_at
before_departure v e h = ground (arith, when-nil (ltb v.departure_at v.planning_cutoff_at) e h)

arrives_later :
    (v : Service) (e : SnapshotError)
    → v.departure_at < v.arrival_at
    → when (leb v.arrival_at v.departure_at) e ≡ []
arrives_later v e h = ground arith

closes_in_time :
    (v : Service) (e : SnapshotError)
    → v.planning_cutoff_at ≤ v.departure_at
    → when (ltb v.departure_at v.planning_cutoff_at) e ≡ []
closes_in_time v e h = ground arith

module _ (terminals routes : List String) (v : Service) where
  service_of_nil : service_errors terminals routes v ≡ [] → ServiceResolves terminals routes v
  unfolding service_errors
  service_of_nil h =
      let (h1, r1) = append-eq-nil (when (not (contains v.origin_terminal_id terminals)) _) h in
      let (h2, r2) =
        append-eq-nil (when (not (contains v.destination_terminal_id terminals)) _) r1 in
      let (h3, r3) = append-eq-nil (when (not (contains v.route_constraint_id routes)) _) r2 in
      let (h4, h5) = append-eq-nil (when (leb v.arrival_at v.departure_at) _) r3 in
      record {
        origin = known_of_when terminals v.origin_terminal_id _ h1;
        destination = known_of_when terminals v.destination_terminal_id _ h2;
        route = known_of_when routes v.route_constraint_id _ h3;
        travels = after_departure v _ h4;
        closes_before_departure = before_departure v _ h5;
      }

  nil_of_service : ServiceResolves terminals routes v → service_errors terminals routes v ≡ []
  unfolding service_errors
  nil_of_service r = nil-append (when_of_known _ r.origin) (
      nil-append (when_of_known _ r.destination) (
        nil-append (when_of_known _ r.route) (
          nil-append (arrives_later v _ r.travels) (closes_in_time v _ r.closes_before_departure))))

module _ (shippers terminals services : List String) (o : Order) where
  window_of_nil :
      (window : Option AdjustmentWindow)
      → window_errors services terminals o.order_id window ≡ []
      → (w : AdjustmentWindow) → window ≡ some w
      → Within w.alternative_service_ids services
        × Within w.alternative_destination_terminal_ids terminals
  unfolding window_errors
  window_of_nil none h w e = cc
  window_of_nil (some u) h w e =
      let (hs, ht) =
        append-eq-nil
          (flat_map (unless_known services "orders" o.order_id "alternative_service_ids")
            u.alternative_service_ids)
          h in
      let same : w ≡ u = cc in
      rw same (
        Within-of_nil services _ _ _ u.alternative_service_ids hs,
        Within-of_nil terminals _ _ _ u.alternative_destination_terminal_ids ht,
      )

  nil_of_window :
      (window : Option AdjustmentWindow)
      → ((w : AdjustmentWindow) → window ≡ some w → Within w.alternative_service_ids services)
      → ((w : AdjustmentWindow)
          → window ≡ some w
          → Within w.alternative_destination_terminal_ids terminals)
      → window_errors services terminals o.order_id window ≡ []
  unfolding window_errors
  nil_of_window none f g = refl
  nil_of_window (some u) f g =
      nil-append (nil_of_Within services _ _ _ u.alternative_service_ids (f u refl))
        (nil_of_Within terminals _ _ _ u.alternative_destination_terminal_ids (g u refl))

  order_of_nil :
      order_errors shippers terminals services o ≡ [] → OrderResolves shippers terminals services o
  unfolding order_errors
  order_of_nil h =
      let (h1, r1) = append-eq-nil (when (not (contains o.shipper_id shippers)) _) h in
      let (h2, r2) =
        append-eq-nil
          (flat_map (unless_known terminals "orders" o.order_id "origin_terminal_ids")
            o.origin_terminal_ids)
          r1 in
      let (h3, h4) =
        append-eq-nil
          (flat_map (unless_known terminals "orders" o.order_id "destination_terminal_ids")
            o.destination_terminal_ids)
          r2 in
      record {
        shipper = known_of_when shippers o.shipper_id _ h1;
        origins = Within-of_nil terminals _ _ _ o.origin_terminal_ids h2;
        destinations = Within-of_nil terminals _ _ _ o.destination_terminal_ids h3;
        window_services = λ w e. (window_of_nil o.adjustment_window h4 w e).0;
        window_terminals = λ w e. (window_of_nil o.adjustment_window h4 w e).1;
      }

  nil_of_order :
      OrderResolves shippers terminals services o → order_errors shippers terminals services o ≡ []
  unfolding order_errors
  nil_of_order r = nil-append (when_of_known _ r.shipper) (
      nil-append (nil_of_Within terminals _ _ _ o.origin_terminal_ids r.origins) (
        nil-append (nil_of_Within terminals _ _ _ o.destination_terminal_ids r.destinations)
          (nil_of_window o.adjustment_window r.window_services r.window_terminals)))

module _ (s : ScenarioInputSnapshot) where
  abbrev baseline_error : String → List SnapshotError
  baseline_error id = when (not (contains id (service_ids s))) (unknown_baseline_service id)

  abbrev wagon_error : Wagon → List SnapshotError
  wagon_error w = unless_known (service_ids s) "wagons" w.wagon_id "service_id" w.service_id

  abbrev slot_error : Slot → List SnapshotError
  slot_error t = unless_known (wagon_ids s) "slots" t.slot_id "wagon_id" t.wagon_id

  IsResolved-of_nil : references_resolve s ≡ [] → IsResolved s
  unfolding references_resolve
  IsResolved-of_nil h =
      let (d, r1) = append-eq-nil (duplicate_errors s) h in
      let (d1, e1) = append-eq-nil _ d in
      let (d2, e2) = append-eq-nil _ e1 in
      let (d3, e3) = append-eq-nil _ e2 in
      let (d4, e4) = append-eq-nil _ e3 in
      let (d5, e5) = append-eq-nil _ e4 in
      let (d6, d7) = append-eq-nil _ e5 in
      let (b, r2) = append-eq-nil (flat_map baseline_error s.baseline_service_ids) r1 in
      let (v, r3) =
        append-eq-nil (flat_map (service_errors (terminal_ids s) (route_ids s)) s.services) r2 in
      let (w, r4) = append-eq-nil (flat_map wagon_error s.wagons) r3 in
      let (t, o) = append-eq-nil (flat_map slot_error s.slots) r4 in
      record {
        unique_terminals = (reject-nil _ (terminal_ids s)).0 d1;
        unique_services = (reject-nil _ (service_ids s)).0 d2;
        unique_wagons = (reject-nil _ (wagon_ids s)).0 d3;
        unique_slots = (reject-nil _ (slot_ids s)).0 d4;
        unique_orders = (reject-nil _ (order_ids s)).0 d5;
        unique_shippers = (reject-nil _ (shipper_ids s)).0 d6;
        unique_routes = (reject-nil _ (route_ids s)).0 d7;
        baseline_services = λ id m.
            known_of_when (service_ids s) id _
              (flat_map-eq-nil baseline_error s.baseline_service_ids b m);
        services = λ x m.
            service_of_nil _ _ x
              (flat_map-eq-nil (service_errors (terminal_ids s) (route_ids s)) s.services v m);
        wagons = λ x m.
            known_of_when (service_ids s) x.service_id _ (flat_map-eq-nil wagon_error s.wagons w m);
        slots = λ x m.
            known_of_when (wagon_ids s) x.wagon_id _ (flat_map-eq-nil slot_error s.slots t m);
        orders = λ x m. order_of_nil _ _ _ x (
            flat_map-eq-nil (order_errors (shipper_ids s) (terminal_ids s) (service_ids s)) s.orders
              o m);
      }

  nil_of_IsResolved : IsResolved s → references_resolve s ≡ []
  unfolding references_resolve
  nil_of_IsResolved r =
      nil-append
        (nil-append ((reject-nil _ (terminal_ids s)).1 r.unique_terminals) (
          nil-append ((reject-nil _ (service_ids s)).1 r.unique_services) (
            nil-append ((reject-nil _ (wagon_ids s)).1 r.unique_wagons) (
              nil-append ((reject-nil _ (slot_ids s)).1 r.unique_slots) (
                nil-append ((reject-nil _ (order_ids s)).1 r.unique_orders) (
                  nil-append ((reject-nil _ (shipper_ids s)).1 r.unique_shippers)
                    ((reject-nil _ (route_ids s)).1 r.unique_routes)))))))
        (nil-append
          (flat_map-nil baseline_error s.baseline_service_ids
            (λ x m. when_of_known _ (r.baseline_services x m)))
          (nil-append
            (flat_map-nil (service_errors (terminal_ids s) (route_ids s)) s.services
              (λ x m. nil_of_service _ _ x (r.services x m)))
            (nil-append (flat_map-nil wagon_error s.wagons (λ x m. when_of_known _ (r.wagons x m)))
              (nil-append (flat_map-nil slot_error s.slots (λ x m. when_of_known _ (r.slots x m))) (
                flat_map-nil (order_errors (shipper_ids s) (terminal_ids s) (service_ids s))
                  s.orders (λ x m. nil_of_order _ _ _ x (r.orders x m)))))))

-- The check finds no error exactly when the names of each collection are unique, every reference
-- (baseline services included) names a declared entry, and every service's times are ordered as the
-- code demands: it arrives after it departs, and closes its intake no later than it departs. The
-- positions of slots are not compared.
pub references_resolve-IsResolved_iff :
    (s : ScenarioInputSnapshot) → (references_resolve s ≡ []) ↔ IsResolved s
references_resolve-IsResolved_iff s = (IsResolved-of_nil s, nil_of_IsResolved s)
