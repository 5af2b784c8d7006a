-- ===== src/Alternatives/Changes.antt =====
-- app/services/alternatives.py: `build_change_set`.
use piggyon.Base.{
  Bool, true, false, not, ◌&&◌, ◌||◌, Option, none, some, List, [], ◌∷◌, ◌++◌, map, String, ◌==◌,
  any, is_empty, sort_by, text_le, ltb, length, if◌then◌else◌,
}
use piggyon.Snapshot.{
  AllowedAdjustment, add_order_approved_service, change_to_approved_terminal, ForbiddenAdjustment,
  change_weight_limit, change_dimension_limit, change_route_clearance, change_due_at,
  AdjustmentWindow, Order, Policy, ScenarioInputSnapshot,
}

-- `AdjustmentType` of app/models/api.py: the two literals of the policy, which share no name
pub data AdjustmentType : Type 0 where
  allowed : AllowedAdjustment → AdjustmentType
  forbidden : ForbiddenAdjustment → AdjustmentType

pub data Change : Type 0 where
  change_terminal : String → Change
  add_service : String → Change

-- What is returned, or which of the two exceptions is raised.
pub data ChangeSet : Type 0 where
  changes : List Change → ChangeSet
  policy_violation : List ForbiddenAdjustment → ChangeSet
  ambiguous_alternative : String → List String → ChangeSet

abbrev pub forbidden_text : ForbiddenAdjustment → String
forbidden_text change_weight_limit = "CHANGE_WEIGHT_LIMIT"
forbidden_text change_dimension_limit = "CHANGE_DIMENSION_LIMIT"
forbidden_text change_route_clearance = "CHANGE_ROUTE_CLEARANCE"
forbidden_text change_due_at = "CHANGE_DUE_AT"

abbrev pub same_forbidden : ForbiddenAdjustment → ForbiddenAdjustment → Bool
same_forbidden change_weight_limit change_weight_limit = true
same_forbidden change_dimension_limit change_dimension_limit = true
same_forbidden change_route_clearance change_route_clearance = true
same_forbidden change_due_at change_due_at = true
same_forbidden _ _ = false

abbrev pub same_allowed : AllowedAdjustment → AllowedAdjustment → Bool
same_allowed add_order_approved_service add_order_approved_service = true
same_allowed change_to_approved_terminal change_to_approved_terminal = true
same_allowed _ _ = false

-- `[t for t in adjustment_types if t in policy.forbidden_adjustments]`
unfoldable pub forbidden_among :
    List AdjustmentType → List ForbiddenAdjustment → List ForbiddenAdjustment
unfolding any
forbidden_among [] listed = []
forbidden_among (allowed a ∷ types) listed = forbidden_among types listed
forbidden_among (forbidden f ∷ types) listed =
    let rest = forbidden_among types listed in
    if any (same_forbidden f) listed then f ∷ rest else rest

-- the set's elements, one by one
unfoldable pub distinct : List ForbiddenAdjustment → List ForbiddenAdjustment
unfolding any
distinct [] = []
distinct (f ∷ fs) = let rest = distinct fs in if any (same_forbidden f) rest then rest else f ∷ rest

-- `sorted(set(forbidden))`
unfoldable pub sorted_set : List ForbiddenAdjustment → List ForbiddenAdjustment
unfolding distinct sort_by
sorted_set fs =
    sort_by
      (λ (a : ForbiddenAdjustment) (b : ForbiddenAdjustment).
        text_le (forbidden_text a) (forbidden_text b))
      (distinct fs)

unfoldable pub asks_for : AllowedAdjustment → List AdjustmentType → Bool
asks_for a [] = false
asks_for a (allowed b ∷ types) = same_allowed a b || asks_for a types
asks_for a (forbidden f ∷ types) = asks_for a types

-- `t in requested`
unfoldable pub requested : AllowedAdjustment → List AdjustmentType → Policy → Bool
unfolding asks_for any
requested a types policy = asks_for a types && any (same_allowed a) policy.allowed_adjustments

-- `next((o for o in snapshot.orders if o.order_id == order_id), None)`
unfoldable pub first_order : String → List Order → Option Order
first_order id [] = none
first_order id (o ∷ os) = if o.order_id == id then some o else first_order id os

-- the sort key: the place in `CHANGE_SET_ORDER`, then the items, which differ only in the name
unfoldable pub change_le : Change → Change → Bool
change_le (change_terminal a) (change_terminal b) = text_le a b
change_le (change_terminal a) (add_service b) = true
change_le (add_service a) (change_terminal b) = false
change_le (add_service a) (add_service b) = text_le a b

abbrev pub terminal_changes : Bool → AdjustmentWindow → List Change
terminal_changes false window = []
terminal_changes true window = map change_terminal window.alternative_destination_terminal_ids

abbrev pub service_changes : Bool → AdjustmentWindow → List Change
service_changes false window = []
service_changes true window = map add_service window.alternative_service_ids

-- What follows the early returns.
unfoldable pub changes_of : String → Bool → Bool → AdjustmentWindow → ChangeSet
unfolding change_le sort_by
changes_of order_id terminal service window =
    if terminal && ltb 1 (length window.alternative_destination_terminal_ids)
    then ambiguous_alternative order_id window.alternative_destination_terminal_ids
    else changes
        (sort_by change_le (terminal_changes terminal window ++ service_changes service window))

abbrev pub changes_for : String → List AdjustmentType → Policy → Option AdjustmentWindow → ChangeSet
changes_for order_id types policy none = changes []
changes_for order_id types policy (some window) =
    changes_of order_id (requested change_to_approved_terminal types policy)
      (requested add_order_approved_service types policy) window

abbrev pub window_of : Option Order → Option AdjustmentWindow
window_of none = none
window_of (some order) = order.adjustment_window

unfoldable pub build_change_set : ScenarioInputSnapshot → String → List AdjustmentType → ChangeSet
unfolding forbidden_among sorted_set first_order requested changes_of
build_change_set snapshot order_id adjustment_types =
    let found = forbidden_among adjustment_types snapshot.policy.forbidden_adjustments in
    if not (is_empty found)
    then policy_violation (sorted_set found)
    else changes_for order_id adjustment_types snapshot.policy
        (window_of (first_order order_id snapshot.orders))
