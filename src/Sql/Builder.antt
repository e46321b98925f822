-- ===== src/Sql/Builder.antt =====
-- PostgresJSONBBuilder.BuildSQL over a whole predicate (common/sqlstore/query.go).
use cfm.Prelude.{
  ℕ, String, true, false, Option, none, some, List, [], ◌∷◌, ◌++◌, Map, insert, has, merge, lookup,
  from_option, if◌then◌else◌,
}
use cfm.Json.{Value}
use cfm.Query.{Operator, Predicate, Predicates, atomic, compound, match_all, no_more, next}
use cfm.Text.{to_lower, split_dots}
use cfm.Sql.{Piece, text, FieldType, array_of_objects, JsonbBuilder}
use cfm.Sql.Jsonb.{Built, plain, jsonb_condition, standard_condition}

abbrev pub new_builder : JsonbBuilder
new_builder = record { jsonb_fields = []; jsonb_field_types = []; field_mappings = [] }

-- WithJSONBFields
unfoldable pub with_jsonb_fields : JsonbBuilder → List String → JsonbBuilder
unfolding to_lower
with_jsonb_fields b [] = b
with_jsonb_fields b (field ∷ fields) =
    let lower = to_lower field in
    with_jsonb_fields
      (record b {
        jsonb_fields = insert b.jsonb_fields lower true;
        jsonb_field_types =
            if has b.jsonb_field_types lower
            then b.jsonb_field_types
            else insert b.jsonb_field_types lower array_of_objects;
      })
      fields

-- WithJSONBFieldTypes
unfoldable pub with_jsonb_field_types : JsonbBuilder → Map FieldType → JsonbBuilder
unfolding to_lower
with_jsonb_field_types b [] = b
with_jsonb_field_types b ((field, type) ∷ types) =
    with_jsonb_field_types
      (record b {
        jsonb_fields = insert b.jsonb_fields (to_lower field) true;
        jsonb_field_types = insert b.jsonb_field_types (to_lower field) type;
      })
      types

-- WithFieldMappings
abbrev pub with_field_mappings : JsonbBuilder → Map String → JsonbBuilder
with_field_mappings b mappings = record b { field_mappings = merge b.field_mappings mappings }

-- The parts of a compound predicate, their arguments, and the counter behind them.
pub record Parts : Type 0 where
  pub parts : List (List Piece)
  pub args : List Value
  pub counter : ℕ

abbrev pub in_parentheses : List Piece → List Piece
in_parentheses sql = text "(" ∷ (sql ++ text ")" ∷ [])

abbrev pub onto : Built → Parts → Parts
onto first rest = record {
  parts = in_parentheses first.sql ∷ rest.parts;
  args = first.args ++ rest.args;
  counter = rest.counter;
}

unfoldable pub join_op : String → List (List Piece) → List Piece
join_op op [] = []
join_op op (p ∷ []) = p
join_op op (p ∷ q ∷ ps) = p ++ text " " ∷ text op ∷ text " " ∷ join_op op (q ∷ ps)

abbrev pub joined : String → Parts → Built
joined op p = record { sql = join_op op p.parts; args = p.args; counter = p.counter }

module _ (b : JsonbBuilder) where
  -- tryBuildJSONBSQL, and the standard condition where it fails
  unfoldable pub build_simple : ℕ → String → Operator → Value → Option Built
  unfolding to_lower split_dots jsonb_condition standard_condition
  build_simple n field op value =
      let (first, path) = split_dots field in
      let root = to_lower first in
      if from_option false (lookup b.jsonb_fields root)
      then jsonb_condition n (from_option root (lookup b.field_mappings first)) path
          (from_option array_of_objects (lookup b.jsonb_field_types root)) field op value
      else standard_condition n (from_option field (lookup b.field_mappings field)) op value

  unfoldable mutual
    unfolding build_simple join_op

    pub build : ℕ → Predicate → Option Built
    build n (atomic field op value) = build_simple n field op value
    build n (compound op no_more) = some (plain n (text "true" ∷ []))
    build n (compound op (next p no_more)) = build n p
    build n (compound op (next p (next q qs))) = elim (build_all n (next p (next q qs))) [
      | none ↦ none
      | some all ↦ some (joined op all)
    ]
    build n match_all = some (plain n (text "true" ∷ []))

    pub build_all : ℕ → Predicates → Option Parts
    build_all n no_more = some (record { parts = []; args = []; counter = n })
    build_all n (next p ps) = elim (build n p) [
      | none ↦ none
      | some first ↦ elim (build_all first.counter ps) [
        | none ↦ none
        | some rest ↦ some (onto first rest)
      ]
    ]

  -- BuildSQL
  abbrev pub build_sql : Predicate → Option Built
  build_sql p = build 0 p
