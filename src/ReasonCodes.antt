-- ===== src/ReasonCodes.antt =====
-- app/rules/reason_codes.py: the reason codes, their families and the choice of the code to show.
-- A code is a constructor; `text` is its string. `Verdict` adds the sentinel ASSIGNED, which is a
-- state marker in an outcome and never stands among the codes that are ranked.
pub mod Primary
use Prim.Native.String
use piggyon.Base.{
  ℕ, zero, suc, Bool, true, false, ◌&&◌, ◌||◌, Option, none, some, List, [], ◌∷◌, ltb, nat_eq,
  text_lt, if◌then◌else◌, String,
}

pub data Family : Type 0 where
  input time terminal dimension_weight resource capacity alternative : Family

-- The value of the `IntEnum` member: a lower one wins.
abbrev pub priority : Family → ℕ
priority input = 0
priority time = 1
priority terminal = 2
priority dimension_weight = 3
priority resource = 4
priority capacity = 5
priority alternative = 6

pub data Code : Type 0 where
  missing_required_field invalid_time_range : Code
  ready_after_cutoff due_time_exceeded : Code
  terminal_not_compatible terminal_not_on_service_route : Code
  tunnel_height_exceeded route_width_exceeded route_weight_exceeded : Code
  slot_height_exceeded slot_width_exceeded slot_length_exceeded slot_weight_exceeded : Code
  wagon_weight_exceeded : Code
  service_unavailable wagon_unavailable slot_unavailable slot_tag_not_supported : Code
  no_eligible_slot : Code
  capacity_conflict : Code
  alternative_available alternative_requires_forbidden_change : Code
  alternative_not_required no_feasible_alternative : Code

-- What an outcome reports as its primary reason code.
pub data Verdict : Type 0 where
  assigned : Verdict
  because : Code → Verdict

abbrev pub text : Code → String
text missing_required_field = "MISSING_REQUIRED_FIELD"
text invalid_time_range = "INVALID_TIME_RANGE"
text ready_after_cutoff = "READY_AFTER_CUTOFF"
text due_time_exceeded = "DUE_TIME_EXCEEDED"
text terminal_not_compatible = "TERMINAL_NOT_COMPATIBLE"
text terminal_not_on_service_route = "TERMINAL_NOT_ON_SERVICE_ROUTE"
text tunnel_height_exceeded = "TUNNEL_HEIGHT_EXCEEDED"
text route_width_exceeded = "ROUTE_WIDTH_EXCEEDED"
text route_weight_exceeded = "ROUTE_WEIGHT_EXCEEDED"
text slot_height_exceeded = "SLOT_HEIGHT_EXCEEDED"
text slot_width_exceeded = "SLOT_WIDTH_EXCEEDED"
text slot_length_exceeded = "SLOT_LENGTH_EXCEEDED"
text slot_weight_exceeded = "SLOT_WEIGHT_EXCEEDED"
text wagon_weight_exceeded = "WAGON_WEIGHT_EXCEEDED"
text service_unavailable = "SERVICE_UNAVAILABLE"
text wagon_unavailable = "WAGON_UNAVAILABLE"
text slot_unavailable = "SLOT_UNAVAILABLE"
text slot_tag_not_supported = "SLOT_TAG_NOT_SUPPORTED"
text no_eligible_slot = "NO_ELIGIBLE_SLOT"
text capacity_conflict = "CAPACITY_CONFLICT"
text alternative_available = "ALTERNATIVE_AVAILABLE"
text alternative_requires_forbidden_change = "ALTERNATIVE_REQUIRES_FORBIDDEN_CHANGE"
text alternative_not_required = "ALTERNATIVE_NOT_REQUIRED"
text no_feasible_alternative = "NO_FEASIBLE_ALTERNATIVE"

abbrev pub family_by_code : Code → Family
family_by_code missing_required_field = input
family_by_code invalid_time_range = input
family_by_code ready_after_cutoff = time
family_by_code due_time_exceeded = time
family_by_code terminal_not_compatible = terminal
family_by_code terminal_not_on_service_route = terminal
family_by_code tunnel_height_exceeded = dimension_weight
family_by_code route_width_exceeded = dimension_weight
family_by_code route_weight_exceeded = dimension_weight
family_by_code slot_height_exceeded = dimension_weight
family_by_code slot_width_exceeded = dimension_weight
family_by_code slot_length_exceeded = dimension_weight
family_by_code slot_weight_exceeded = dimension_weight
family_by_code wagon_weight_exceeded = dimension_weight
family_by_code service_unavailable = resource
family_by_code wagon_unavailable = resource
family_by_code slot_unavailable = resource
family_by_code slot_tag_not_supported = resource
family_by_code no_eligible_slot = resource
family_by_code capacity_conflict = capacity
family_by_code alternative_available = alternative
family_by_code alternative_requires_forbidden_change = alternative
family_by_code alternative_not_required = alternative
family_by_code no_feasible_alternative = alternative

-- `<` on the key `(FAMILY_BY_CODE[code], code)`
unfoldable pub key_lt : Code → Code → Bool
key_lt a b =
    let p = priority (family_by_code a) in
    let q = priority (family_by_code b) in ltb p q || nat_eq p q && text_lt (text a) (text b)

-- `min(…, key=…)`: the first of the least
unfoldable pub least : Code → List Code → Code
unfolding key_lt
least best [] = best
least best (c ∷ codes) = least (if key_lt c best then c else best) codes

unfoldable pub select_primary : List Code → Option Code
unfolding least
select_primary [] = none
select_primary (c ∷ codes) = some (least c codes)

-- `sorted` of a set of codes: by their strings, each once
unfoldable pub insert_code : Code → List Code → List Code
insert_code c [] = c ∷ []
insert_code c (d ∷ ds) = elim (String.compare (text c) (text d)) [
  | Prim.Native.Nat.Ordering.lt ↦ c ∷ d ∷ ds
  | Prim.Native.Nat.Ordering.eq ↦ d ∷ ds
  | Prim.Native.Nat.Ordering.gt ↦ d ∷ insert_code c ds
]

unfoldable pub sorted_codes : List Code → List Code
unfolding insert_code
sorted_codes [] = []
sorted_codes (c ∷ codes) = insert_code c (sorted_codes codes)
