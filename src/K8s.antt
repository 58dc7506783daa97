-- ===== src/K8s.antt =====
-- `serde_json::Value`, and the fields that src/k8s.rs looks up in a manifest.
pub mod Policy
pub mod Safe
pub mod Accepted
mod Tests
use shellfleet_agent.Common.{
  ℕ, Bool, true, false, not, ◌&&◌, ◌||◌, List, [], ◌∷◌, Option, none, some, if◌then◌else◌, equal,
  Text,
}

-- A number is a `u64`, or another one, which the source does not look into.
mutual
  pub data Json : Type 0 where
    null other_number : Json
    bool : Bool → Json
    unsigned : ℕ → Json
    string : Text → Json
    array : Items → Json
    object : Fields → Json

  pub data Items : Type 0 where
    no_items : Items
    item : Json → Items → Items

  pub data Fields : Type 0 where
    no_fields : Fields
    field : Text → Json → Fields → Fields

-- `Value::get(&str)`
unfoldable pub get_field : Text → Fields → Option Json
get_field key no_fields = none
get_field key (field k v rest) = if equal k key then some v else get_field key rest

unfoldable pub get : Text → Json → Option Json
get key (object fields) = get_field key fields
get key _ = none

-- `Value::pointer` for segments that are no numbers.
unfoldable pub pointer : List Text → Json → Option Json
pointer [] v = some v
pointer (key ∷ keys) v = elim (get key v) [ none ↦ none | some w ↦ pointer keys w ]

unfoldable pub as_bool : Json → Option Bool
as_bool (bool b) = some b
as_bool _ = none

unfoldable pub as_str : Json → Option Text
as_str (string s) = some s
as_str _ = none

unfoldable pub as_u64 : Json → Option ℕ
as_u64 (unsigned n) = some n
as_u64 _ = none

unfoldable pub as_array : Json → Option Items
as_array (array items) = some items
as_array _ = none

abbrev pub and_then {ℓ κ} : {A : Type ℓ} {B : Type κ} → Option A → (A → Option B) → Option B
and_then none f = none
and_then (some a) f = f a

unfoldable pub bool_at : List Text → Json → Option Bool
bool_at path v = and_then (pointer path v) as_bool

unfoldable pub str_at : List Text → Json → Option Text
str_at path v = and_then (pointer path v) as_str

unfoldable pub array_at : List Text → Json → Option Items
array_at path v = and_then (pointer path v) as_array

-- `Iterator::any`
unfoldable pub any_item : (Json → Bool) → Items → Bool
any_item test no_items = false
any_item test (item v rest) = test v || any_item test rest

-- A predicate that holds of every item.
abbrev pub Each : (Json → Type 0) → Items → Type 0
Each P no_items = Unit
Each P (item v rest) = P v × Each P rest
