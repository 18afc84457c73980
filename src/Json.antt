-- ===== src/Json.antt =====
-- JSON values as the JSON columns hold them. Numbers with a fraction do not occur in the modelled
-- code; an integer is a sign and a size.
use relayvia.Prelude.{
  ℕ, String, Bool, true, false, not, ◌&&◌, Option, none, some, if◌then◌else◌, List, any,
}
use text.Mathlib.Text.{◌==◌ as str_eq}

mutual
  pub data Json : Type 0 where
    null : Json
    bool : Bool → Json
    nat : ℕ → Json
    negative : ℕ → Json
    str : String → Json
    arr : Items → Json
    obj : Fields → Json

  pub data Items : Type 0 where
    nil : Items
    cons : Json → Items → Items

  pub data Fields : Type 0 where
    end : Fields
    field : String → Json → Fields → Fields

-- `{}`
abbrev pub empty_object : Json
empty_object = Json.obj Fields.end

-- `value.get(key)` of a JSON object
abbrev field_of : String → Fields → Option Json
field_of key end = none
field_of key (field name value fields) = if str_eq name key then some value else field_of key fields

-- `value.get(key) if isinstance(value, dict) else None`
abbrev pub get_field : String → Json → Option Json
get_field key (obj fields) = field_of key fields
get_field key _ = none

abbrev pub set_field_in : String → Json → Fields → Fields
set_field_in key value end = field key value end
set_field_in key value (field name old fields) =
    if str_eq name key
    then field name value fields
    else field name old (set_field_in key value fields)

-- Whether `**value` may stand in a call beside the arguments that `given` names: the value is an object,
-- and none of its keys is among the names.
abbrev none_given : List String → Fields → Bool
none_given given end = true
none_given given (field name value fields) =
    not (any (str_eq name) given) && none_given given fields

unfoldable pub may_spread : List String → Json → Bool
may_spread given (obj fields) = none_given given fields
may_spread given _ = false

-- `{**(value or {}), key: item}` of a column that holds an object
abbrev pub with_field : String → Json → Json → Json
with_field key item (obj fields) = obj (set_field_in key item fields)
with_field key item _ = obj (field key item end)
