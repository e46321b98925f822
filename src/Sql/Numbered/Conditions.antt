-- ===== src/Sql/Numbered/Conditions.antt =====
-- The placeholders of each condition that is built (common/sqlstore/query.go).
use cfm.Prelude.{ℕ, ◌≡◌, refl, String, true, List, [], ◌∷◌}
use cfm.Json.{Value}
use cfm.Query.{
  Operator, op_equal, op_not_equal, op_greater, op_greater_equal, op_less, op_less_equal, op_in,
  op_not_in, op_is_null, op_is_not_null, op_contains,
}
use cfm.Sql.{text, FieldType, unknown, scalar, array_of_objects, array_of_scalars, map_of_arrays}
use cfm.Sql.Jsonb.{
  jsonb_null, search_before, search_after, jsonb_array_search, jsonb_equal, jsonb_not_equal,
  jsonb_comparison, jsonb_in, jsonb_contains, jsonb_condition, standard_condition,
}
use cfm.Sql.Numbered.{
  params, Holds, plain-Holds, one-Holds, single-Holds, listed-Holds, op_values, has_list, Builds,
  on_list-Builds,
}

jsonb_null-none :
    (test field : String) (path : List String) (type : FieldType)
    → params (jsonb_null test field path type) ≡ []
unfolding jsonb_null
jsonb_null-none test field [] type = refl
jsonb_null-none test field (p ∷ path) unknown = refl
jsonb_null-none test field (p ∷ path) scalar = refl
jsonb_null-none test field (p ∷ path) array_of_objects = refl
jsonb_null-none test field (p ∷ path) array_of_scalars = refl
jsonb_null-none test field (p ∷ path) map_of_arrays = refl

search_before-none :
    (field : String) (path : List String) (op : String) (type : FieldType)
    → params (search_before field path op type) ≡ []
unfolding search_before
search_before-none field [] op unknown = refl
search_before-none field [] op scalar = refl
search_before-none field [] op array_of_objects = refl
search_before-none field [] op array_of_scalars = refl
search_before-none field [] op map_of_arrays = refl
search_before-none field (p ∷ path) op type = refl

search_after-none : (path : List String) (type : FieldType) → params (search_after path type) ≡ []
unfolding search_after
search_after-none [] unknown = refl
search_after-none [] scalar = refl
search_after-none [] array_of_objects = refl
search_after-none [] array_of_scalars = refl
search_after-none [] map_of_arrays = refl
search_after-none (p ∷ path) type = refl

search-Holds :
    (n : ℕ) (field : String) (path : List String) (op : String) (type : FieldType) (value : Value)
    → Holds n (value ∷ []) (jsonb_array_search n field path op type value)
search-Holds n field path op type value =
    one-Holds n (search_before field path op type) (search_after path type) value
      (search_before-none field path op type) (search_after-none path type)

jsonb_equal-Holds :
    (n : ℕ) (field : String) (path : List String) (type : FieldType) (value : Value)
    → Holds n (value ∷ []) (jsonb_equal n field path type value)
unfolding jsonb_equal
jsonb_equal-Holds n field [] scalar value = single-Holds n _ value refl
jsonb_equal-Holds n field (p ∷ path) map_of_arrays value = single-Holds n _ value refl
jsonb_equal-Holds n field (p ∷ path) scalar value = single-Holds n _ value refl
jsonb_equal-Holds n field [] type value = search-Holds n field [] "=" type value
jsonb_equal-Holds n field (p ∷ path) type value = search-Holds n field (p ∷ path) "=" type value

jsonb_not_equal-Holds :
    (n : ℕ) (field : String) (path : List String) (type : FieldType) (value : Value)
    → Holds n (value ∷ []) (jsonb_not_equal n field path type value)
unfolding jsonb_not_equal
jsonb_not_equal-Holds n field [] scalar value = single-Holds n _ value refl
jsonb_not_equal-Holds n field (p ∷ path) scalar value = single-Holds n _ value refl
jsonb_not_equal-Holds n field [] type value = search-Holds n field [] "!=" type value
jsonb_not_equal-Holds n field (p ∷ path) type value =
    search-Holds n field (p ∷ path) "!=" type value

jsonb_comparison-Holds :
    (n : ℕ) (field : String) (path : List String) (type : FieldType) (op : String) (value : Value)
    → Holds n (value ∷ []) (jsonb_comparison n field path type op value)
unfolding jsonb_comparison
jsonb_comparison-Holds n field path scalar op value = single-Holds n _ value refl
jsonb_comparison-Holds n field (p ∷ path) type op value = single-Holds n _ value refl
jsonb_comparison-Holds n field [] type op value = single-Holds n _ value refl

jsonb_in-Holds :
    (test : String) (n : ℕ) (field : String) (path : List String) (type : FieldType)
    (values : List Value)
    → Holds n values (jsonb_in test n field path type values)
unfolding jsonb_in
jsonb_in-Holds test n field path scalar values = listed-Holds n _ (text ")" ∷ []) values refl refl
jsonb_in-Holds test n field path type values = listed-Holds n _ (text "))" ∷ []) values refl refl

jsonb_contains-Holds :
    (n : ℕ) (field : String) (path : List String) (type : FieldType) (value : Value)
    → Holds n (value ∷ []) (jsonb_contains n field path type value)
unfolding jsonb_contains
jsonb_contains-Holds n field path scalar value = single-Holds n _ value refl
jsonb_contains-Holds n field path type value = single-Holds n _ value refl

pub jsonb_condition-Builds :
    (n : ℕ) (field : String) (path : List String) (type : FieldType) (name : String) (op : Operator)
    (value : Value)
    → has_list op value ≡ true
    → Builds n (op_values op value) (jsonb_condition n field path type name op value)
unfolding jsonb_condition
jsonb_condition-Builds n field path type name op_is_null value h =
    plain-Holds n _ (jsonb_null-none " IS NULL" field path type)
jsonb_condition-Builds n field path type name op_is_not_null value h =
    plain-Holds n _ (jsonb_null-none " IS NOT NULL" field path type)
jsonb_condition-Builds n field path type name op_equal value h =
    jsonb_equal-Holds n field path type value
jsonb_condition-Builds n field path type name op_not_equal value h =
    jsonb_not_equal-Holds n field path type value
jsonb_condition-Builds n field path type name op_in value h =
    on_list-Builds n value _ (jsonb_in-Holds " IN (" n field path type) h
jsonb_condition-Builds n field path type name op_not_in value h =
    on_list-Builds n value _ (jsonb_in-Holds " NOT IN (" n field path type) h
jsonb_condition-Builds n field path type name op_less value h =
    jsonb_comparison-Holds n field path type "<" value
jsonb_condition-Builds n field path type name op_less_equal value h =
    jsonb_comparison-Holds n field path type "<=" value
jsonb_condition-Builds n field path type name op_greater value h =
    jsonb_comparison-Holds n field path type ">" value
jsonb_condition-Builds n field path type name op_greater_equal value h =
    jsonb_comparison-Holds n field path type ">=" value
jsonb_condition-Builds n field path type name op_contains value h =
    jsonb_contains-Holds n field path type value
jsonb_condition-Builds n field path type name op value h = single-Holds n _ value refl

pub standard_condition-Builds :
    (n : ℕ) (field : String) (op : Operator) (value : Value)
    → has_list op value ≡ true
    → Builds n (op_values op value) (standard_condition n field op value)
unfolding standard_condition
standard_condition-Builds n field op_is_null value h = plain-Holds n _ refl
standard_condition-Builds n field op_is_not_null value h = plain-Holds n _ refl
standard_condition-Builds n field op_in value h =
    on_list-Builds n value _ (λ xs. listed-Holds n _ (text ")" ∷ []) xs refl refl) h
standard_condition-Builds n field op_not_in value h =
    on_list-Builds n value _ (λ xs. listed-Holds n _ (text ")" ∷ []) xs refl refl) h
standard_condition-Builds n field op value h = single-Holds n _ value refl
