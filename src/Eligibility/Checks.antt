-- ===== src/Eligibility/Checks.antt =====
-- app/rules/eligibility.py: the input, service and slot checks.
-- A `set[str]` of codes is the list of what was added to it; only `sorted_codes` and the test for
-- emptiness read it.
use piggyon.Base.{
  ℕ, ◌+◌, ◌*◌, Bool, true, false, not, Option, none, some, List, [], ◌∷◌, ◌++◌, String, ltb, leb,
  when, any, is_all, is_none, is_empty, contains,
}
use piggyon.ReasonCodes.{
  Code, missing_required_field, invalid_time_range, ready_after_cutoff, due_time_exceeded,
  terminal_not_compatible, terminal_not_on_service_route, tunnel_height_exceeded,
  route_width_exceeded, route_weight_exceeded, slot_height_exceeded, slot_width_exceeded,
  slot_length_exceeded, slot_weight_exceeded, wagon_weight_exceeded, service_unavailable,
  wagon_unavailable, slot_unavailable, slot_tag_not_supported,
}
use piggyon.Snapshot.{
  Instant, CompatibilityTag, trailer_standard, trailer_tall, Terminal, RouteConstraint, Service,
  Wagon, Slot, Order,
}
use piggyon.Eligibility.Lookup.{Index}

-- `_add_minutes`, in microseconds, where `overflows` does not say that it raises
abbrev pub add_minutes : Instant → ℕ → Instant
add_minutes moment minutes = moment + minutes * 60000000

abbrev pub tag_eq : CompatibilityTag → CompatibilityTag → Bool
tag_eq trailer_standard trailer_standard = true
tag_eq trailer_tall trailer_tall = true
tag_eq _ _ = false

-- `set(tags).issubset(set(supported))`
unfoldable pub tags_within : List CompatibilityTag → List CompatibilityTag → Bool
unfolding any
tags_within tags supported = is_all (λ t. any (tag_eq t) supported) tags

-- `value is not None and value > limit`
abbrev pub weight_over : Option ℕ → ℕ → Bool
weight_over none limit = false
weight_over (some weight) limit = ltb limit weight

-- `_validate_input`: the missing fields, then the codes
unfoldable pub missing_fields_of : Order → List String
missing_fields_of order = when (is_none order.gross_weight_kg) "gross_weight_kg"

unfoldable pub validate_input : Order → List Code
unfolding missing_fields_of
validate_input order =
    when (not (is_empty (missing_fields_of order))) missing_required_field
    ++ when (leb order.due_at order.ready_at) invalid_time_range

-- one round of `for terminal in (origin, destination)`
unfoldable pub check_terminal : Order → Option Terminal → List Code
unfolding tags_within
check_terminal order none = terminal_not_compatible ∷ []
check_terminal order (some terminal) =
    when (not (tags_within order.compatibility_tags terminal.supported_tags))
      terminal_not_compatible

abbrev pub handling_minutes : Option Terminal → ℕ
handling_minutes none = 0
handling_minutes (some terminal) = terminal.minimum_handling_minutes

-- `_add_minutes` raises: the sum is past the last instant of the calendar.
abbrev pub overflows : Service → Option Terminal → Bool
overflows service destination = ltb service.arrival_left (handling_minutes destination * 60000000)

unfoldable pub check_route : Order → Option RouteConstraint → List Code
check_route order none = []
check_route order (some route) =
    when (ltb route.max_height_mm order.dimensions_mm.height) tunnel_height_exceeded
    ++ (when (ltb route.max_width_mm order.dimensions_mm.width) route_width_exceeded
        ++ when (weight_over order.gross_weight_kg route.max_weight_kg) route_weight_exceeded)

-- `_check_service`
unfoldable pub check_service : Order → Service → Index → List Code
unfolding check_terminal check_route
check_service order service index =
    let origin = index.terminals service.origin_terminal_id in
    let destination = index.terminals service.destination_terminal_id in
    when (not service.available) service_unavailable
    ++ (when (not (contains service.origin_terminal_id order.origin_terminal_ids))
          terminal_not_on_service_route
        ++ (when (not (contains service.destination_terminal_id order.destination_terminal_ids))
              terminal_not_on_service_route
            ++ (check_terminal order origin
                ++ (check_terminal order destination
                    ++ (when (ltb service.planning_cutoff_at order.ready_at) ready_after_cutoff
                        ++ (when
                              (ltb order.due_at
                                (add_minutes service.arrival_at (handling_minutes destination)))
                              due_time_exceeded
                            ++ check_route order (index.routes service.route_constraint_id)))))))

-- `_check_slot`
unfoldable pub check_slot : Order → Wagon → Slot → List Code
unfolding tags_within
check_slot order wagon slot =
    when (not wagon.available) wagon_unavailable
    ++ (when (not slot.available) slot_unavailable
        ++ (when (not (tags_within order.compatibility_tags slot.supported_tags))
              slot_tag_not_supported
            ++ (when (ltb slot.max_dimensions_mm.height order.dimensions_mm.height)
                  slot_height_exceeded
                ++ (when (ltb slot.max_dimensions_mm.width order.dimensions_mm.width)
                      slot_width_exceeded
                    ++ (when (ltb slot.max_dimensions_mm.length order.dimensions_mm.length)
                          slot_length_exceeded
                        ++ (when (weight_over order.gross_weight_kg slot.max_weight_kg)
                              slot_weight_exceeded
                            ++ when (weight_over order.gross_weight_kg wagon.max_total_weight_kg)
                                wagon_weight_exceeded))))))
