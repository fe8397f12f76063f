-- ===== src/Gptadmin/Json.antt =====
-- `serde_json::Value` with the accesses that src/gptadmin.rs makes. A number is its text; an object
-- is the list of its fields; `pointer` walks through objects.
use grepmesh.Prelude.{
  Bool, true, false, Option, none, some, String, List, [], ◌∷◌, if◌then◌else◌, ◌==◌, string_ord,
}

mutual
  pub data Value : Type 0 where
    null : Value
    bool : Bool → Value
    number : String → Value
    string : String → Value
    array : Items → Value
    object : Fields → Value

  pub data Items : Type 0 where
    done : Items
    item : Value → Items → Items

  pub data Fields : Type 0 where
    closed : Fields
    field : String → Value → Fields → Fields

unfoldable pub find_field : String → Fields → Option Value
find_field key closed = none
find_field key (field name value fields) = if key == name then some value else find_field key fields

-- `Value::get` with a key
unfoldable pub get_field : String → Value → Option Value
unfolding find_field
get_field key (object fields) = find_field key fields
get_field key _ = none

unfoldable pub pointer : List String → Value → Option Value
unfolding get_field
pointer [] value = some value
pointer (key ∷ keys) value =
    let rest : Value → Option Value = pointer keys in
    elim (get_field key value) [ none ↦ none | some inner ↦ rest inner ]

abbrev pub as_str : Option Value → Option String
as_str (some (string text)) = some text
as_str _ = none

abbrev pub as_bool : Option Value → Option Bool
as_bool (some (bool b)) = some b
as_bool _ = none

-- `== Some(true)` and the like
abbrev pub is_bool : Bool → Option Value → Bool
is_bool true (some (bool b)) = b
is_bool false (some (bool true)) = false
is_bool false (some (bool false)) = true
is_bool expected _ = false

abbrev pub is_text : String → Option Value → Bool
is_text expected (some (string text)) = text == expected
is_text expected _ = false
