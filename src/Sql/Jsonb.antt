-- ===== src/Sql/Jsonb.antt =====
-- PostgresJSONBBuilder (common/sqlstore/query.go). A counter is the number of the last placeholder; `none` is the
-- panic of IN and NOT IN on a value that is not a list.
use cfm.Prelude.{ℕ, suc, String, Bool, true, false, Option, none, some, List, [], ◌∷◌, ◌++◌}
use cfm.Json.{Value, array, items}
use cfm.Query.{
  Operator, op_equal, op_not_equal, op_greater, op_greater_equal, op_less, op_less_equal, op_in,
  op_not_in, op_is_null, op_is_not_null, op_contains, op_text,
}
use cfm.Sql.{
  Piece, text, param, join, FieldType, scalar, array_of_scalars, map_of_arrays, jsonb_path,
  jsonb_accessor, array_element_accessor, exists,
}

-- the SQL, its arguments, and the counter behind it
pub record Built : Type 0 where
  pub sql : List Piece
  pub args : List Value
  pub counter : ℕ

-- A condition with one placeholder, the next one.
abbrev pub one : ℕ → List Piece → List Piece → Value → Built
one n before after value = record {
  sql = before ++ param (suc n) ∷ after;
  args = value ∷ [];
  counter = suc n;
}

-- A condition without placeholders.
abbrev pub plain : ℕ → List Piece → Built
plain n sql = record { sql = sql; args = []; counter = n }

-- The placeholders of a list, and the counter behind them.
unfoldable pub placeholders : ℕ → List Value → List (List Piece)
placeholders n [] = []
placeholders n (v ∷ vs) = (param (suc n) ∷ []) ∷ placeholders (suc n) vs

unfoldable pub count_on : ℕ → List Value → ℕ
count_on n [] = n
count_on n (v ∷ vs) = count_on (suc n) vs

-- A condition on a list of values.
abbrev pub listed : ℕ → List Piece → List Piece → List Value → Built
listed n before after values = record {
  sql = before ++ (join "," (placeholders n values) ++ after);
  args = values;
  counter = count_on n values;
}

-- buildJSONBIsNull and buildJSONBIsNotNull
unfoldable pub jsonb_null : String → String → List String → FieldType → List Piece
jsonb_null test field [] type = text field ∷ text test ∷ []
jsonb_null test field (p ∷ path) scalar = text (jsonb_path field (p ∷ path)) ∷ text test ∷ []
jsonb_null test field (p ∷ path) type =
    exists field (text (array_element_accessor (p ∷ path) true) ∷ text test ∷ [])

-- buildJSONBArraySearch, before and behind its placeholder
unfoldable pub search_before : String → List String → String → FieldType → List Piece
search_before field [] op array_of_scalars =
    text "EXISTS (SELECT 1 FROM jsonb_array_elements("
    ∷ text field
    ∷ text ") elem WHERE elem = to_jsonb("
    ∷ []
search_before field path op type =
    text "EXISTS (SELECT 1 FROM jsonb_array_elements("
    ∷ text field
    ∷ text ") elem WHERE "
    ∷ text (array_element_accessor path true)
    ∷ text " "
    ∷ text op
    ∷ text " "
    ∷ []

unfoldable pub search_after : List String → FieldType → List Piece
search_after [] array_of_scalars = text "::text))" ∷ []
search_after path type = text ")" ∷ []

abbrev pub jsonb_array_search : ℕ → String → List String → String → FieldType → Value → Built
jsonb_array_search n field path op type value =
    one n (search_before field path op type) (search_after path type) value

-- buildJSONBEqual
unfoldable pub jsonb_equal : ℕ → String → List String → FieldType → Value → Built
unfolding search_before search_after
jsonb_equal n field [] scalar value = one n (text field ∷ text " = " ∷ []) [] value
jsonb_equal n field (p ∷ path) map_of_arrays value =
    one n (text (jsonb_accessor field (p ∷ path) false) ∷ text " @> jsonb_build_array(" ∷ [])
      (text "::text)" ∷ []) value
jsonb_equal n field (p ∷ path) scalar value =
    one n (text (jsonb_accessor field (p ∷ path) true) ∷ text " = " ∷ []) [] value
jsonb_equal n field path type value = jsonb_array_search n field path "=" type value

-- buildJSONBNotEqual
unfoldable pub jsonb_not_equal : ℕ → String → List String → FieldType → Value → Built
unfolding search_before search_after
jsonb_not_equal n field [] scalar value = one n (text field ∷ text " != " ∷ []) [] value
jsonb_not_equal n field (p ∷ path) scalar value =
    one n (text (jsonb_accessor field (p ∷ path) true) ∷ text " != " ∷ []) [] value
jsonb_not_equal n field path type value = jsonb_array_search n field path "!=" type value

-- the field of a scalar with its path
abbrev scalar_path : String → List String → Bool → String
scalar_path field [] text_cast = field
scalar_path field (p ∷ path) text_cast = jsonb_accessor field (p ∷ path) text_cast

-- buildJSONBComparison
unfoldable pub jsonb_comparison : ℕ → String → List String → FieldType → String → Value → Built
jsonb_comparison n field path scalar op value =
    one n
      (text "(" ∷ text (scalar_path field path true) ∷ text ")::numeric " ∷ text op ∷ text " " ∷ [])
      (text "::numeric" ∷ []) value
jsonb_comparison n field (p ∷ path) type op value =
    one n
      (text "EXISTS (SELECT 1 FROM jsonb_array_elements("
        ∷ text field
        ∷ text ") elem WHERE ("
        ∷ text (array_element_accessor (p ∷ path) false)
        ∷ text ")::numeric "
        ∷ text op
        ∷ text " "
        ∷ [])
      (text "::numeric)" ∷ []) value
jsonb_comparison n field [] type op value =
    one n
      (text "EXISTS (SELECT 1 FROM jsonb_array_elements("
        ∷ text field
        ∷ text ") elem WHERE elem::text::numeric "
        ∷ text op
        ∷ text " "
        ∷ [])
      (text "::numeric)" ∷ []) value

-- buildJSONBIn and buildJSONBNotIn, for " IN (" and " NOT IN ("
unfoldable pub jsonb_in : String → ℕ → String → List String → FieldType → List Value → Built
unfolding placeholders count_on join
jsonb_in test n field path scalar values =
    listed n (text (scalar_path field path true) ∷ text test ∷ []) (text ")" ∷ []) values
jsonb_in test n field path type values =
    listed n
      (text "EXISTS (SELECT 1 FROM jsonb_array_elements("
        ∷ text field
        ∷ text ") elem WHERE "
        ∷ text (array_element_accessor path true)
        ∷ text test
        ∷ [])
      (text "))" ∷ []) values

-- buildJSONBContains
unfoldable pub jsonb_contains : ℕ → String → List String → FieldType → Value → Built
jsonb_contains n field path scalar value =
    one n (text (scalar_path field path false) ∷ text " @> " ∷ []) [] value
jsonb_contains n field path type value = one n (text field ∷ text " @> " ∷ []) [] value

-- value.([]any)
abbrev pub list_value : Value → Option (List Value)
list_value (array xs) = some (items xs)
list_value _ = none

abbrev pub on_list : Value → (List Value → Built) → Option Built
on_list value build = elim (list_value value) [ none ↦ none | some values ↦ some (build values) ]

-- An operator in its place, as for a field that is no JSONB column.
abbrev pub direct : ℕ → String → Operator → Value → Built
direct n field op value = one n (text field ∷ text " " ∷ text (op_text op) ∷ text " " ∷ []) [] value

-- buildJSONBCondition, of a predicate on `name`
unfoldable pub jsonb_condition :
    ℕ → String → List String → FieldType → String → Operator → Value → Option Built
unfolding jsonb_null jsonb_equal jsonb_not_equal jsonb_comparison jsonb_in jsonb_contains
jsonb_condition n field path type name op_is_null value =
    some (plain n (jsonb_null " IS NULL" field path type))
jsonb_condition n field path type name op_is_not_null value =
    some (plain n (jsonb_null " IS NOT NULL" field path type))
jsonb_condition n field path type name op_equal value = some (jsonb_equal n field path type value)
jsonb_condition n field path type name op_not_equal value =
    some (jsonb_not_equal n field path type value)
jsonb_condition n field path type name op_in value =
    on_list value (jsonb_in " IN (" n field path type)
jsonb_condition n field path type name op_not_in value =
    on_list value (jsonb_in " NOT IN (" n field path type)
jsonb_condition n field path type name op_less value =
    some (jsonb_comparison n field path type "<" value)
jsonb_condition n field path type name op_less_equal value =
    some (jsonb_comparison n field path type "<=" value)
jsonb_condition n field path type name op_greater value =
    some (jsonb_comparison n field path type ">" value)
jsonb_condition n field path type name op_greater_equal value =
    some (jsonb_comparison n field path type ">=" value)
jsonb_condition n field path type name op_contains value =
    some (jsonb_contains n field path type value)
jsonb_condition n field path type name op value = some (direct n name op value)

-- buildStandardPredicateSQL, of a field whose name is mapped
unfoldable pub standard_condition : ℕ → String → Operator → Value → Option Built
unfolding placeholders count_on join
standard_condition n field op_is_null value = some (plain n (text field ∷ text " IS NULL" ∷ []))
standard_condition n field op_is_not_null value =
    some (plain n (text field ∷ text " IS NOT NULL" ∷ []))
standard_condition n field op_in value =
    on_list value (listed n (text field ∷ text " IN (" ∷ []) (text ")" ∷ []))
standard_condition n field op_not_in value =
    on_list value (listed n (text field ∷ text " NOT IN (" ∷ []) (text ")" ∷ []))
standard_condition n field op value = some (direct n field op value)
