-- ===== src/Common/Json.antt =====
-- JSON-like Python values, as a request body or a provider's usage object holds them. The program
-- never does arithmetic on a float, so a float is its text.
use inferrail.Common.{String, Bool, Option, none, some, if◌then◌else◌, same_text}
use inferrail.Common.Int.{ℤ}

mutual
  pub data Json : Type 0 where
    null : Json
    boolean : Bool → Json
    integer : ℤ → Json
    float : String → Json
    text : String → Json
    array : Items → Json
    object : Fields → Json

  pub data Items : Type 0 where
    no_items : Items
    item : Json → Items → Items

  pub data Fields : Type 0 where
    no_fields : Fields
    field : String → Json → Fields → Fields

-- `value.get(key)`, and so also `key in value`
unfoldable pub get_field : String → Fields → Option Json
get_field k no_fields = none
get_field k (field j v rest) = if same_text j k then some v else get_field k rest
