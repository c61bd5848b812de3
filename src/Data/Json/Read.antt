-- ===== src/Data/Json/Read.antt =====
-- How the fields of a record are written as JSON values and read from them; a value of another type
-- than the field's is not read.
use stocky_cognitive_runtime.Prelude.{ℕ, String, Bool, Option, none, some, List, [], ◌∷◌}
use stocky_cognitive_runtime.Prelude.Int.{ℤ, pos}
use stocky_cognitive_runtime.Data.Float.{Float}
use stocky_cognitive_runtime.Data.Json.{
  Json, null, bool, int, real, str, arr, obj, Items, nil, cons, Fields, end, field,
}

infixl 5 ◌>>=◌
abbrev pub ◌>>=◌ {ℓ κ} : {A : Type ℓ} {B : Type κ} → Option A → (A → Option B) → Option B
none >>= f = none
some a >>= f = f a

-- A dictionary of keys and values in their order.
abbrev pub dict : List (String × Json) → Fields
dict [] = end
dict ((key, v) ∷ rest) = field key v (dict rest)

abbrev pub json_items {ℓ} : {A : Type ℓ} → (A → Json) → List A → Items
json_items show [] = nil
json_items show (x ∷ xs) = cons (show x) (json_items show xs)

abbrev pub json_list {ℓ} : {A : Type ℓ} → (A → Json) → List A → Json
json_list show xs = arr (json_items show xs)

abbrev pub json_option : Option String → Json
json_option none = null
json_option (some s) = str s

abbrev pub json_number : ℕ → Json
json_number n = int (pos n)

abbrev pub read_text : Json → Option String
read_text (str s) = some s
read_text _ = none

abbrev pub read_option : Json → Option (Option String)
read_option null = some none
read_option (str s) = some (some s)
read_option _ = none

abbrev pub read_bool : Json → Option Bool
read_bool (bool b) = some b
read_bool _ = none

abbrev pub read_int : Json → Option ℤ
read_int (int z) = some z
read_int _ = none

abbrev pub read_number : Json → Option ℕ
read_number (int (pos n)) = some n
read_number _ = none

abbrev pub read_real : Json → Option Float
read_real (real x) = some x
read_real _ = none

abbrev pub read_dict : Json → Option Fields
read_dict (obj d) = some d
read_dict _ = none

abbrev pub read_items {ℓ} : {A : Type ℓ} → (Json → Option A) → Items → Option (List A)
read_items read nil = some []
read_items read (cons j js) = do x ← read j; xs ← read_items read js; some (x ∷ xs)

abbrev pub read_list {ℓ} : {A : Type ℓ} → (Json → Option A) → Json → Option (List A)
read_list read (arr js) = read_items read js
read_list read _ = none

-- `data.get(key, default)`, where a field without a default is `none`.
abbrev pub read_or {ℓ} : {A : Type ℓ} → (Json → Option A) → Option A → Option Json → Option A
read_or read default none = default
read_or read default (some j) = read j
