-- ===== src/Ai/Json.antt =====
-- The values of `json.loads`, and what app/ai does with a value of unknown shape.
use piggyon.Base.{
  Bool, true, false, ◌||◌, Option, none, some, List, [], ◌∷◌, String, ◌==◌, nat_eq, if◌then◌else◌,
}
use piggyon.Base.Int.{ℤ, pos, negsuc}

mutual
  pub data Json : Type 0 where
    null : Json
    boolean : Bool → Json
    integer : ℤ → Json
    real : String → Json
    text : String → Json
    array : JsonArray → Json
    object : JsonObject → Json

  pub data JsonArray : Type 0 where
    no_items : JsonArray
    item : Json → JsonArray → JsonArray

  pub data JsonObject : Type 0 where
    no_fields : JsonObject
    field : String → Json → JsonObject → JsonObject

abbrev pub entries : JsonArray → List Json
entries no_items = []
entries (item x xs) = x ∷ entries xs

-- `d.get(k)`, where a key that is missing gives nothing
abbrev pub get_key : String → JsonObject → Option Json
get_key k no_fields = none
get_key k (field j v d) = if j == k then some v else get_key k d

-- `str(value)`; how Python prints what is not a text is `printed`
abbrev pub str : (Json → String) → Json → String
str printed (text s) = s
str printed j = printed j

-- `str(d.get(k, ""))`
abbrev pub str_at : (Json → String) → String → JsonObject → String
str_at printed k d = elim (get_key k d) [ none ↦ "" | some j ↦ str printed j ]

-- `d.get(k)` with `None` for a missing key
abbrev pub get_or_null : String → JsonObject → Json
get_or_null k d = elim (get_key k d) [ none ↦ null | some j ↦ j ]

-- A list or a dictionary cannot be looked up in a set or a dictionary: that raises.
abbrev pub is_hashable : Json → Bool
is_hashable (array xs) = false
is_hashable (object d) = false
is_hashable _ = true

-- `[x for x in xs if isinstance(x, dict)]`
abbrev pub objects : List Json → List JsonObject
objects [] = []
objects (object d ∷ xs) = d ∷ objects xs
objects (_ ∷ xs) = objects xs

-- the keys of a dictionary, as values
abbrev pub keys_of : JsonObject → List Json
keys_of no_fields = []
keys_of (field j v d) = text j ∷ keys_of d

-- the characters of a text, each a text
abbrev pub chars_of : String → List Json
chars_of String.[] = []
chars_of (String.◌∷◌ c s) = text (String.◌∷◌ c String.[]) ∷ chars_of s

-- `for x in (value or [])`; `none` where that raises
abbrev pub items_or_nil : Json → Option (List Json)
items_or_nil null = some []
items_or_nil (boolean b) = if b then none else some []
items_or_nil (integer (pos n)) = if nat_eq n 0 then some [] else none
items_or_nil (integer (negsuc n)) = none
items_or_nil (real r) = if r == "0.0" || r == "-0.0" then some [] else none
items_or_nil (text s) = some (chars_of s)
items_or_nil (array xs) = some (entries xs)
items_or_nil (object d) = some (keys_of d)
