-- ===== src/Examples/Query.antt =====
-- Samples for query predicates and for the SQL that they become.
use cfm.Prelude.{◌≡◌, refl, String, true, none, some, [], ◌∷◌, Map, lookup, insert}
use cfm.Json.{Value, null, str, array, object, nil, cons, number, field, end, get}
use cfm.Errors.{ok, err, plain}
use cfm.Query.{
  op_equal, op_not_equal, op_in, op_not_in, op_greater, Predicate, atomic, compound, no_more, next,
  FieldMatcher, matches,
}
use cfm.Query.Encoding.{marshal, unmarshal_predicate, operator, fits}
use cfm.Query.RoundTrip.{has_constants, unmarshal_predicate-marshal}
use cfm.Text.{to_lower, to_upper}
use cfm.Sql.{text, param, array_of_scalars, JsonbBuilder}
use cfm.Sql.Jsonb.{Built}
use cfm.Sql.Builder.{build, new_builder, with_jsonb_fields, with_jsonb_field_types, build_sql}
use cfm.Sql.Numbered.{Holds}
use cfm.Sql.Numbered.Whole.{values_of, has_lists, build_sql-Holds}

abbrev by_presence : FieldMatcher (Map Value)
by_presence = record {
  get_field_value =
      λ obj name. elim (lookup obj name) [ none ↦ err (plain "field not found") | some v ↦ ok v ];
  compare_values = λ op found value. true;
}

abbrev cell : Map Value
cell = ("id", str "c1") ∷ ("state", str "active") ∷ []

abbrev present : String → Predicate
present name = atomic name op_equal (str "x")

abbrev either : Predicate
either = compound "OR" (next (present "owner") (next (present "id") no_more))

either-matches : matches by_presence cell either ≡ true
unfolding matches lookup
either-matches = refl

abbrev builder : JsonbBuilder
builder =
    with_jsonb_fields (with_jsonb_field_types new_builder (("Roles", array_of_scalars) ∷ []))
      ("vpas" ∷ [])

abbrev query : Predicate
query = compound "AND" (
    next (atomic "state" op_equal (str "active")) (
      next (atomic "vpas.cell.id" op_in (array (cons (str "a") (cons (str "b") nil))))
        (next (atomic "version" op_greater (number "3")) no_more)))

query-has_lists : has_lists query ≡ true
unfolding has_lists
query-has_lists = refl

query-has_constants : has_constants query ≡ true
unfolding has_constants
query-has_constants = refl

unmarshal_predicate-marshal_example : unmarshal_predicate (marshal query) ≡ some query
unmarshal_predicate-marshal_example = unmarshal_predicate-marshal query query-has_constants

-- A field under "Predicates" makes no compound predicate, and an operator is read in any case.
lower_case_read :
    unmarshal_predicate (
      object (
        field "field"
          (str "state")
          (field "operator" (str "not in") (field "Predicates" (array nil) end))))
    ≡ some (atomic "state" op_not_in null)
unfolding unmarshal_predicate operator get to_upper
lower_case_read = refl

-- An operator is a text.
untyped_operator_refused :
    unmarshal_predicate
      (object (field "operator" (number "1") (field "predicates" (array nil) end)))
    ≡ none
unfolding unmarshal_predicate operator get fits to_lower
untyped_operator_refused = refl

build_sql-Holds_example :
    (r : Built) × (build_sql builder query ≡ some r) × Holds 0 (values_of query) r
build_sql-Holds_example = build_sql-Holds builder query query-has_lists

-- Inequality with the elements of an array of scalars is built as an equality.
not_equal_built :
    build_sql builder (atomic "roles" op_not_equal (str "admin"))
    ≡ some (record {
      sql =
          text "EXISTS (SELECT 1 FROM jsonb_array_elements("
          ∷ text "roles"
          ∷ text ") elem WHERE elem = to_jsonb("
          ∷ param 1
          ∷ text "::text))"
          ∷ [];
      args = str "admin" ∷ [];
      counter = 1;
    })
unfolding build with_jsonb_fields with_jsonb_field_types lookup insert
not_equal_built = refl
