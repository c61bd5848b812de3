-- ===== src/Data/Json.antt =====
-- JSON values: what a `dict[str, Any]` of the program holds where it is stored as text.
pub mod Read
use stocky_cognitive_runtime.Prelude.{
  zero, String, Bool, true, false, not, Option, none, some, if◌then◌else◌, str_eq,
}
use stocky_cognitive_runtime.Prelude.Int.{ℤ, pos}
use stocky_cognitive_runtime.Data.Float.{Float, finite}

mutual
  pub data Json : Type 0 where
    null : Json
    bool : Bool → Json
    int : ℤ → Json
    real : Float → Json
    str : String → Json
    arr : Items → Json
    obj : Fields → Json

  pub data Items : Type 0 where
    nil : Items
    cons : Json → Items → Items

  pub data Fields : Type 0 where
    end : Fields
    field : String → Json → Fields → Fields

-- Python's truth value.
unfoldable pub truthy : Json → Bool
truthy null = false
truthy (bool b) = b
truthy (int (pos zero)) = false
truthy (int _) = true
truthy (real (finite (pos zero))) = false
truthy (real _) = true
truthy (str s) = not (str_eq s "")
truthy (arr nil) = false
truthy (arr _) = true
truthy (obj end) = false
truthy (obj _) = true

-- `d.get(key)`, at the keys of an object.
unfoldable pub get_field : Fields → String → Option Json
get_field end key = none
get_field (field k v rest) key = if str_eq k key then some v else get_field rest key

-- The `json` module, which the program calls.
pub record Codec : Type 0 where
  pub dumps : Json → String
  pub loads : String → Json
