-- ===== src/Snapshot/References.antt =====
-- app/models/snapshot.py: `_references_resolve`, the referential check of a snapshot.
use piggyon.Base.{
  not, Option, none, some, List, [], ◌∷◌, ◌++◌, map, String, ltb, leb, when, contains, flat_map,
}
use piggyon.Snapshot.{AdjustmentWindow, Service, Order, ScenarioInputSnapshot}

-- One entry of `errors`: which collection, whose entry, which field, which value.
pub data SnapshotError : Type 0 where
  duplicate_id : String → String → SnapshotError
  unknown_baseline_service : String → SnapshotError
  unknown_reference : String → String → String → String → SnapshotError
  arrival_not_after_departure : String → SnapshotError
  cutoff_after_departure : String → SnapshotError

unfoldable pub duplicates_from : List String → String → List String → List SnapshotError
duplicates_from seen collection [] = []
duplicates_from seen collection (value ∷ ids) =
    when (contains value seen) (duplicate_id collection value)
    ++ duplicates_from (value ∷ seen) collection ids

-- `_reject_duplicates`
unfoldable pub reject_duplicates : String → List String → List SnapshotError
unfolding duplicates_from
reject_duplicates = duplicates_from []

-- `if value not in known: errors.append(…)`
unfoldable pub unless_known : List String → String → String → String → String → List SnapshotError
unless_known known collection owner field value =
    when (not (contains value known)) (unknown_reference collection owner field value)

unfoldable pub service_errors : List String → List String → Service → List SnapshotError
unfolding unless_known
service_errors terminal_ids route_ids service =
    unless_known terminal_ids "services" service.service_id "origin_terminal_id"
      service.origin_terminal_id
    ++ (unless_known terminal_ids "services" service.service_id "destination_terminal_id"
          service.destination_terminal_id
        ++ (unless_known route_ids "services" service.service_id "route_constraint_id"
              service.route_constraint_id
            ++ (when (leb service.arrival_at service.departure_at)
                  (arrival_not_after_departure service.service_id)
                ++ when (ltb service.departure_at service.planning_cutoff_at)
                    (cutoff_after_departure service.service_id))))

unfoldable pub window_errors :
    List String → List String → String → Option AdjustmentWindow → List SnapshotError
unfolding unless_known
window_errors service_ids terminal_ids owner none = []
window_errors service_ids terminal_ids owner (some window) =
    flat_map (unless_known service_ids "orders" owner "alternative_service_ids")
      window.alternative_service_ids
    ++ flat_map (unless_known terminal_ids "orders" owner "alternative_destination_terminal_ids")
        window.alternative_destination_terminal_ids

unfoldable pub order_errors : List String → List String → List String → Order → List SnapshotError
unfolding unless_known window_errors
order_errors shipper_ids terminal_ids service_ids order =
    unless_known shipper_ids "orders" order.order_id "shipper_id" order.shipper_id
    ++ (flat_map (unless_known terminal_ids "orders" order.order_id "origin_terminal_ids")
          order.origin_terminal_ids
        ++ (flat_map (unless_known terminal_ids "orders" order.order_id "destination_terminal_ids")
              order.destination_terminal_ids
            ++ window_errors service_ids terminal_ids order.order_id order.adjustment_window))

module _ (s : ScenarioInputSnapshot) where
  abbrev pub terminal_ids : List String
  terminal_ids = map (λ t. t.terminal_id) s.terminals

  abbrev pub route_ids : List String
  route_ids = map (λ r. r.route_constraint_id) s.route_constraints

  abbrev pub service_ids : List String
  service_ids = map (λ t. t.service_id) s.services

  abbrev pub wagon_ids : List String
  wagon_ids = map (λ w. w.wagon_id) s.wagons

  abbrev pub slot_ids : List String
  slot_ids = map (λ t. t.slot_id) s.slots

  abbrev pub order_ids : List String
  order_ids = map (λ o. o.order_id) s.orders

  abbrev pub shipper_ids : List String
  shipper_ids = map (λ p. p.shipper_id) s.shippers

  unfoldable pub duplicate_errors : List SnapshotError
  duplicate_errors =
      reject_duplicates "terminals" terminal_ids
      ++ (reject_duplicates "services" service_ids
          ++ (reject_duplicates "wagons" wagon_ids
              ++ (reject_duplicates "slots" slot_ids
                  ++ (reject_duplicates "orders" order_ids
                      ++ (reject_duplicates "shippers" shipper_ids
                          ++ reject_duplicates "route_constraints" route_ids)))))

  -- The list `errors` of `_references_resolve`; the snapshot is accepted when it is empty.
  unfoldable pub references_resolve : List SnapshotError
  unfolding duplicate_errors service_errors order_errors unless_known
  references_resolve =
      duplicate_errors
      ++ (flat_map (λ id. when (not (contains id service_ids)) (unknown_baseline_service id))
            s.baseline_service_ids
          ++ (flat_map (service_errors terminal_ids route_ids) s.services
              ++ (flat_map
                    (λ w. unless_known service_ids "wagons" w.wagon_id "service_id" w.service_id)
                    s.wagons
                  ++ (flat_map (λ t. unless_known wagon_ids "slots" t.slot_id "wagon_id" t.wagon_id)
                        s.slots
                      ++ flat_map (order_errors shipper_ids terminal_ids service_ids) s.orders))))
