-- ===== src/Ai/Patterns.antt =====
-- app/ai/explain.py: the patterns, each as a function that reads a text from one place on. Which
-- other characters are decimal digits, letters or digits, and spaces, is Python's table of Unicode.
use Prim.Native.Char.{Char, code}
use Prim.Native.String
use Prim.Native.String.{count}
use piggyon.Base.{
  ℕ, zero, suc, ◌-◌, Bool, true, false, not, ◌&&◌, ◌||◌, Option, none, some, List, [], ◌∷◌, String,
  leb, nat_eq, any, if◌then◌else◌,
}

-- beyond the characters that the code names
pub record CharTable : Type 0 where
  pub other_decimal : ℕ → Bool
  pub other_alnum : ℕ → Bool
  pub other_space : ℕ → Bool

abbrev is_between : ℕ → ℕ → Char → Bool
is_between a b c = leb a (code c) && leb (code c) b

-- `[A-Z]`
abbrev pub is_capital : Char → Bool
is_capital c = is_between 65 90 c

-- `[A-Z_]`
abbrev pub is_shouty : Char → Bool
is_shouty c = is_capital c || nat_eq (code c) 95

-- `[A-Z0-9-]`
abbrev pub is_id_char : Char → Bool
is_id_char c = is_capital c || is_between 48 57 c || nat_eq (code c) 45

-- the longest run at the start
unfoldable pub run_of : (Char → Bool) → String → String
run_of test String.[] = String.[]
run_of test (String.◌∷◌ c s) =
    let rest = run_of test s in if test c then String.◌∷◌ c rest else String.[]

-- what follows it
unfoldable pub past_run : (Char → Bool) → String → String
past_run test String.[] = String.[]
past_run test (String.◌∷◌ c s) =
    let rest = past_run test s in if test c then rest else String.◌∷◌ c s

-- what follows the literal, where the text starts with it
unfoldable pub after : String → String → Option String
after String.[] s = some s
after (String.◌∷◌ c t) String.[] = none
after (String.◌∷◌ c t) (String.◌∷◌ d s) =
    let rest = after t s in if nat_eq (code c) (code d) then rest else none

abbrev pub starts : String → String → Bool
starts t s = elim (after t s) [ none ↦ false | some rest ↦ true ]

-- `pattern.search(text)`: some place matches
unfoldable pub search : (String → Bool) → String → Bool
search at_place String.[] = at_place String.[]
search at_place (String.◌∷◌ c s) = let rest = search at_place s in at_place (String.◌∷◌ c s) || rest

-- `pattern.findall(text)`: what a match takes is passed over; the last character read is at hand
unfoldable pub find_all :
    (Option Char → String → Option String) → Option Char → ℕ → String → List String
find_all at_place last skip String.[] = []
find_all at_place last (suc skip) (String.◌∷◌ c s) = find_all at_place (some c) skip s
find_all at_place last zero (String.◌∷◌ c s) = elim (at_place last (String.◌∷◌ c s)) [
  | none ↦ find_all at_place (some c) 0 s
  | some hit ↦ hit ∷ find_all at_place (some c) (count hit - 1) s
]

-- The claims of `FORBIDDEN_PATTERNS`.
pub data Claim : Type 0 where
  percentage probability cost_saving carbon guarantee real_operation : Claim

abbrev pub claims : List Claim
claims = percentage ∷ probability ∷ cost_saving ∷ carbon ∷ guarantee ∷ real_operation ∷ []

-- the literal, then spaces, then one of the literals
abbrev one_of : List String → String → Bool
one_of ts s = any (λ t. starts t s) ts

module _ (table : CharTable) where
  -- `\d`, `\w` and `\s`
  abbrev pub is_decimal : Char → Bool
  is_decimal c = is_between 48 57 c || table.other_decimal (code c)

  abbrev pub is_word : Char → Bool
  is_word c =
      is_capital c
      || is_between 97 122 c
      || is_between 48 57 c
      || nat_eq (code c) 95
      || table.other_alnum (code c)

  abbrev pub is_space : Char → Bool
  is_space c = nat_eq (code c) 32 || is_between 9 13 c || table.other_space (code c)

  -- `\b` before a character of a word
  abbrev pub begins_word : Option Char → Bool
  begins_word none = true
  begins_word (some c) = not (is_word c)

  -- `\b` after a character of a word
  abbrev pub ends_word : String → Bool
  ends_word String.[] = true
  ends_word (String.◌∷◌ c s) = not (is_word c)

  -- `not text.strip()`
  abbrev pub is_blank : String → Bool
  is_blank s = nat_eq (count (past_run is_space s)) 0

  -- `\d+\s*%`; from the first digit on
  abbrev pub percentage_at : String → Bool
  percentage_at s =
      leb 1 (count (run_of is_decimal s)) && starts "%" (past_run is_space (past_run is_decimal s))

  -- `비용\s*(절감|절약)`
  abbrev pub cost_saving_at : String → Bool
  cost_saving_at s = elim (after "비용" s) [
    | none ↦ false
    | some rest ↦ one_of ("절감" ∷ "절약" ∷ []) (past_run is_space rest)
  ]

  -- `실제\s*운행이?\s*가능`
  abbrev pub real_operation_at : String → Bool
  real_operation_at s = elim (after "실제" s) [
    | none ↦ false
    | some rest ↦ elim (after "운행" (past_run is_space rest)) [
      | none ↦ false
      | some more ↦ elim (after "이" more) [
        | none ↦ starts "가능" (past_run is_space more)
        | some last ↦ starts "가능" (past_run is_space last)
      ]
    ]
  ]

  abbrev pub claim_at : Claim → String → Bool
  claim_at percentage s = percentage_at s
  claim_at probability s = starts "확률" s
  claim_at cost_saving s = cost_saving_at s
  claim_at carbon s = starts "탄소" s
  claim_at guarantee s = starts "보장" s
  claim_at real_operation s = real_operation_at s

  -- `ORDER_ID`: `ORD-\d{3,}`
  abbrev pub order_id_at : Option Char → String → Option String
  order_id_at last s = elim (after "ORD-" s) [
    | none ↦ none
    | some rest ↦
        if leb 3 (count (run_of is_decimal rest))
        then some (String.◌++◌ "ORD-" (run_of is_decimal rest))
        else none
  ]

  -- `PREFIX-[A-Z0-9-]+`
  abbrev pub id_after : String → String → Option String
  id_after prefix s = elim (after prefix s) [
    | none ↦ none
    | some rest ↦
        if leb 1 (count (run_of is_id_char rest))
        then some (String.◌++◌ prefix (run_of is_id_char rest))
        else none
  ]

  unfoldable pub first_id : List String → String → Option String
  unfolding run_of after
  first_id [] s = none
  first_id (prefix ∷ prefixes) s =
      let others = first_id prefixes s in
      elim (id_after prefix s) [ none ↦ others | some hit ↦ some hit ]

  -- `ENTITY_ID`
  abbrev pub entity_at : Option Char → String → Option String
  entity_at last s =
      if begins_word last
      then first_id ("ORD-" ∷ "SLT-" ∷ "SVC-" ∷ "WGN-" ∷ "TRM-" ∷ "SHP-" ∷ "RTC-" ∷ []) s
      else none

  -- `SHOUTY_TOKEN`: `\b[A-Z][A-Z_]{4,}\b`
  abbrev pub shouty_at : Option Char → String → Option String
  shouty_at last String.[] = none
  shouty_at last (String.◌∷◌ c s) =
      if begins_word last
        && (is_capital c
            && (leb 4 (count (run_of is_shouty s)) && ends_word (past_run is_shouty s)))
      then some (String.◌∷◌ c (run_of is_shouty s))
      else none

  unfoldable pub order_ids_in : String → List String
  unfolding find_all run_of after
  order_ids_in s = find_all order_id_at none 0 s

  unfoldable pub entity_ids_in : String → List String
  unfolding find_all first_id
  entity_ids_in s = find_all entity_at none 0 s

  unfoldable pub tokens_in : String → List String
  unfolding find_all run_of past_run
  tokens_in s = find_all shouty_at none 0 s
