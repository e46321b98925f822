-- ===== src/Json.antt =====
-- What a Go value of type `any` holds after json.Unmarshal: the payloads that orchestrations, profiles
-- and schemas carry. Numbers are opaque to the code, and kept as their text.
use cfm.Prelude.{String, Bool, Option, none, some, List, [], ◌∷◌, if◌then◌else◌, str_eq}

mutual
  pub data Value : Type 0 where
    null : Value
    bool : Bool → Value
    number : String → Value
    str : String → Value
    array : Items → Value
    object : Fields → Value

  pub data Items : Type 0 where
    nil : Items
    cons : Value → Items → Items

  pub data Fields : Type 0 where
    end : Fields
    field : String → Value → Fields → Fields

-- m[k] of a map[string]any
unfoldable pub get : Fields → String → Option Value
get end k = none
get (field j v fs) k = if str_eq j k then some v else get fs k

-- x.(string), x.(map[string]any), x.([]any) of what a lookup gave
abbrev pub as_string : Option Value → Option String
as_string (some (str s)) = some s
as_string _ = none

abbrev pub as_object : Option Value → Option Fields
as_object (some (object fs)) = some fs
as_object _ = none

abbrev pub as_array : Option Value → Option Items
as_array (some (array xs)) = some xs
as_array _ = none

abbrev pub items : Items → List Value
items nil = []
items (cons v vs) = v ∷ items vs
