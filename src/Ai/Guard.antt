-- ===== src/Ai/Guard.antt =====
-- app/ai/explain.py: `rejection_reason_for_text`, the guard of every generated sentence.
pub mod Grounded
use Prim.Native.String.{count}
use piggyon.Base.{
  Bool, true, false, not, ◌&&◌, ◌||◌, Option, none, some, List, [], ◌∷◌, map, String, ◌==◌, any,
  contains, if◌then◌else◌,
}
use piggyon.ReasonCodes.{Verdict, assigned, because}
use piggyon.ReasonCodes
use piggyon.Baseline.{Assignment}
use piggyon.Planning.{OutcomeDocument, Run}
use piggyon.Ai.Patterns.{
  CharTable, Claim, claims, search, starts, is_blank, claim_at, order_ids_in, entity_ids_in,
  tokens_in,
}

pub data Rejection : Type 0 where
  empty_text : Rejection
  forbidden_claim : Claim → Rejection
  unknown_order foreign_order unknown_entity unknown_token : String → Rejection

-- `SCHEMA_VOCABULARY`
abbrev pub schema_vocabulary : List String
schema_vocabulary =
    "TRAILER_STANDARD" ∷ "TRAILER_TALL" ∷ "VALID" ∷ "REVIEW_REQUIRED" ∷ "ELIGIBLE" ∷ "INELIGIBLE"
    ∷ "NOT_EVALUATED" ∷ "ASSIGNED" ∷ "UNASSIGNED" ∷ "NOT_APPLICABLE" ∷ "AVAILABLE" ∷ "NONE"
    ∷ "NOT_SEARCHED" ∷ "DEMO_ASSUMPTION" ∷ []

abbrev pub verdict_text : Verdict → String
verdict_text assigned = "ASSIGNED"
verdict_text (because code) = ReasonCodes.text code

-- What a sentence may mention.
pub record Facts : Type 0 where
  pub allowed_ids : List String
  pub allowed_codes : List String
  pub entity_ids : List String

-- `scope_order_id is not None and mentioned != scope_order_id`
abbrev pub is_foreign : Option String → String → Bool
is_foreign none mentioned = false
is_foreign (some scope) mentioned = not (mentioned == scope)

-- the loop over the orders it names
unfoldable pub reject_orders : List String → Option String → List String → Option Rejection
unfolding contains
reject_orders allowed_ids scope [] = none
reject_orders allowed_ids scope (mentioned ∷ rest) =
    let later = reject_orders allowed_ids scope rest in
    if not (contains mentioned allowed_ids)
    then some (unknown_order mentioned)
    else if is_foreign scope mentioned
    then some (foreign_order mentioned)
    else later

-- the loop over the entities it names
unfoldable pub reject_entities : List String → List String → Option Rejection
unfolding contains
reject_entities entity_ids [] = none
reject_entities entity_ids (mentioned ∷ rest) =
    let later = reject_entities entity_ids rest in
    if starts "ORD-" mentioned || contains mentioned entity_ids
    then later
    else some (unknown_entity mentioned)

-- `token in mentioned`, on texts
abbrev pub is_part : String → String → Bool
is_part token mentioned = search (starts token) mentioned

-- a reason code of the run, a word of the schema, or a part of an entity's id
abbrev pub is_known : List String → List String → String → Bool
is_known allowed_codes entities token =
    contains token allowed_codes
    || (contains token schema_vocabulary || any (is_part token) entities)

-- the loop over the remaining tokens
unfoldable pub reject_tokens : List String → List String → List String → Option Rejection
unfolding contains any search
reject_tokens allowed_codes entities [] = none
reject_tokens allowed_codes entities (token ∷ rest) =
    let later = reject_tokens allowed_codes entities rest in
    if is_known allowed_codes entities token then later else some (unknown_token token)

-- The first of the rejections.
abbrev pub or_rejected : Option Rejection → Option Rejection → Option Rejection
or_rejected none next = next
or_rejected (some r) next = some r

module _ (table : CharTable) where
  -- the loop over `FORBIDDEN_PATTERNS`
  unfoldable pub reject_claims : List Claim → String → Option Rejection
  unfolding search
  reject_claims [] sentence = none
  reject_claims (claim ∷ rest) sentence =
      let later = reject_claims rest sentence in
      if search (claim_at table claim) sentence then some (forbidden_claim claim) else later

  unfoldable pub rejection_reason_for_text : Facts → Option String → String → Option Rejection
  unfolding reject_claims reject_orders reject_entities reject_tokens order_ids_in entity_ids_in
      tokens_in
  rejection_reason_for_text facts scope sentence =
      if is_blank table sentence
      then some empty_text
      else or_rejected (reject_claims claims sentence) (
          or_rejected (reject_orders facts.allowed_ids scope (order_ids_in table sentence)) (
            or_rejected (reject_entities facts.entity_ids (entity_ids_in table sentence)) (
              reject_tokens facts.allowed_codes (entity_ids_in table sentence)
                (tokens_in table sentence))))

-- `_entity_ids`: the ids of the outcomes, of the assignments and of the eligible slots
abbrev pub ids_of_assignment : Assignment → List String
ids_of_assignment a = a.order_id ∷ a.service_id ∷ a.wagon_id ∷ a.slot_id ∷ []
