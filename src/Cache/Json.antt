-- ===== src/Cache/Json.antt =====
-- The values of `json.dumps` and `json.loads`. An object is its list of pairs, as
-- `object_pairs_hook` receives it, so a repeated key shows.
use dj_hyperview.Prelude.{
  ℕ, Bool, true, false, ◌&&◌, ◌||◌, not, Option, none, some, List, [], ◌∷◌, if◌then◌else◌, Text,
  text_eq,
}

mutual
  pub data Json : Type 0 where
    null : Json
    boolean : Bool → Json
    int : ℕ → Json
    -- a negative number, or one with a fraction or an exponent
    other_number : Json
    str : Text → Json
    array : Items → Json
    object : Fields → Json

  pub data Items : Type 0 where
    nil : Items
    cons : Json → Items → Items

  pub data Fields : Type 0 where
    end : Fields
    field : Text → Json → Fields → Fields

unfoldable pub has_key : Text → Fields → Bool
has_key k end = false
has_key k (field j v fs) = text_eq j k || has_key k fs

-- `value.get(key)`
unfoldable pub get_field : Text → Fields → Option Json
get_field k end = none
get_field k (field j v fs) = if text_eq j k then some v else get_field k fs

-- `_unique_object`, called on every object of the text: a repeated key is a `ValueError`.
unfoldable mutual
  pub is_unique : Json → Bool
  is_unique null = true
  is_unique (boolean b) = true
  is_unique (int n) = true
  is_unique other_number = true
  is_unique (str t) = true
  is_unique (array items) = is_unique_items items
  is_unique (object fields) = is_unique_fields fields

  pub is_unique_items : Items → Bool
  is_unique_items nil = true
  is_unique_items (cons v items) = is_unique v && is_unique_items items

  pub is_unique_fields : Fields → Bool
  is_unique_fields end = true
  is_unique_fields (field k v fields) =
      not (has_key k fields) && (is_unique v && is_unique_fields fields)

-- A Python object that a cache backend returns: a text that is JSON, standing for the value that
-- `json.loads` reads in it, a text that is not JSON, or an object that is no `str`.
pub data Value : Type 0 where
  json : Json → Value
  plain : Text → Value
  opaque : Value

-- `json.loads(payload, object_pairs_hook=_unique_object)` of a `str`.
unfoldable pub loads : Value → Option Json
unfolding is_unique
loads (json j) = if is_unique j then some j else none
loads (plain t) = none
loads opaque = none

-- `set(value) == names`: the keys of the object are the names, each of them and no other.
unfoldable pub member : Text → List Text → Bool
member k [] = false
member k (j ∷ js) = text_eq j k || member k js

unfoldable pub all_in : Fields → List Text → Bool
all_in end names = true
all_in (field k v fs) names = member k names && all_in fs names

unfoldable pub all_present : List Text → Fields → Bool
all_present [] fs = true
all_present (n ∷ names) fs = has_key n fs && all_present names fs

unfoldable pub has_exactly : Fields → List Text → Bool
unfolding member all_in all_present has_key
has_exactly fs names = all_in fs names && all_present names fs

-- `value[key]`, if it is a `str`.
unfoldable pub get_text : Text → Fields → Option Text
get_text k fs = elim (get_field k fs) [ some (str t) ↦ some t | _ ↦ none ]
