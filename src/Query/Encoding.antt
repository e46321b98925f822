-- ===== src/Query/Encoding.antt =====
-- Predicates as JSON (common/query/predicate.go: UnmarshalPredicate and the encodings). A JSON text is its value, with
-- distinct names in each object; `none` is an error. A nil slice of predicates is the empty one.
use cfm.Prelude.{
  String, Bool, true, false, ◌&&◌, ◌||◌, not, Option, none, some, if◌then◌else◌, str_eq,
  from_option,
}
use cfm.Json.{Value, null, str, array, object, Items, nil, cons, Fields, end, field, get, as_string}
use cfm.Text.{to_lower, to_upper}
use cfm.Query.{
  Operator, op_equal, op_not_equal, op_greater, op_greater_equal, op_less, op_less_equal, op_in,
  op_not_in, op_like, op_not_like, op_is_null, op_is_not_null, op_contains, op_starts_with,
  op_ends_with, other, op_text, Predicate, atomic, compound, match_all, Predicates, no_more, next,
}

-- json.Marshal of a predicate
unfoldable mutual
  pub marshal : Predicate → Value
  marshal (atomic name op value) =
      object
        (field "field" (str name) (field "operator" (str (op_text op)) (field "value" value end)))
  marshal (compound op ps) =
      object (field "operator" (str op) (field "predicates" (array (marshal_all ps)) end))
  marshal match_all = object (field "type" (str "matchAll") end)

  pub marshal_all : Predicates → Items
  marshal_all no_more = nil
  marshal_all (next p ps) = cons (marshal p) (marshal_all ps)

-- the operator that a text is
unfoldable pub operator : String → Operator
operator s =
    if str_eq s "="
    then op_equal
    else if str_eq s "!="
    then op_not_equal
    else if str_eq s ">"
    then op_greater
    else if str_eq s ">="
    then op_greater_equal
    else if str_eq s "<"
    then op_less
    else if str_eq s "<="
    then op_less_equal
    else if str_eq s "IN"
    then op_in
    else if str_eq s "NOT IN"
    then op_not_in
    else if str_eq s "LIKE"
    then op_like
    else if str_eq s "NOT LIKE"
    then op_not_like
    else if str_eq s "IS NULL"
    then op_is_null
    else if str_eq s "IS NOT NULL"
    then op_is_not_null
    else if str_eq s "CONTAINS"
    then op_contains
    else if str_eq s "STARTS_WITH"
    then op_starts_with
    else if str_eq s "ENDS_WITH"
    then op_ends_with
    else other s

-- AtomicPredicate.UnmarshalJSON of an object
unfoldable pub atomic_of : Fields → Predicate
unfolding get operator to_upper
atomic_of fs =
    atomic (from_option "" (as_string (get fs "field")))
      (elim (as_string (get fs "operator")) [ none ↦ other "" | some op ↦ operator (to_upper op) ])
      (from_option null (get fs "value"))

-- A value that a string takes; null leaves it as it is.
abbrev is_text : Value → Bool
is_text (str s) = true
is_text null = true
is_text _ = false

abbrev is_list : Value → Bool
is_list (array xs) = true
is_list null = true
is_list _ = false

abbrev all_text : Fields → Bool
all_text end = true
all_text (field j v fs) = is_text v && all_text fs

-- Is it {"type": "matchAll"}, behind which all other values are texts too?
abbrev is_match_all : Fields → Bool
is_match_all fs = elim (as_string (get fs "type")) [
  | none ↦ false
  | some type ↦ str_eq type "matchAll" && all_text fs
]

abbrev has_field : String → Fields → Bool
has_field name fs = elim (get fs name) [ none ↦ false | some v ↦ true ]

-- The fields of a struct are found under their names in any case.
abbrev names : String → String → Bool
names key name = str_eq (to_lower key) name

-- Can the struct that CompoundPredicate.UnmarshalJSON decodes take the fields?
unfoldable pub fits : Fields → Bool
unfolding to_lower
fits end = true
fits (field j v fs) =
    (not (names j "operator") || is_text v)
    && ((not (names j "predicates") || is_list v) && fits fs)

-- its operator, the last one given
unfoldable pub compound_operator : String → Fields → String
unfolding to_lower
compound_operator op end = op
compound_operator op (field j (str s) fs) =
    compound_operator (if names j "operator" then s else op) fs
compound_operator op (field j v fs) = compound_operator op fs

abbrev pub compound_of : Fields → Option (Option Predicates) → Option Predicate
compound_of fs (some (some ps)) =
    if fits fs then some (compound (compound_operator "" fs) ps) else none
compound_of fs _ = none

unfoldable mutual
  unfolding get to_lower fits compound_operator atomic_of

  -- UnmarshalPredicate
  pub unmarshal_predicate : Value → Option Predicate
  unmarshal_predicate (object fs) =
      if is_match_all fs
      then some match_all
      else if has_field "predicates" fs
      then compound_of fs (last_predicates fs)
      else some (atomic_of fs)
  unmarshal_predicate null = some (atomic_of end)
  unmarshal_predicate v = none

  -- the predicates of a compound one, the last ones given
  pub last_predicates : Fields → Option (Option Predicates)
  last_predicates end = none
  last_predicates (field j v fs) = elim (last_predicates fs) [
    | some r ↦ some r
    | none ↦ if names j "predicates" then some (unmarshal_predicates v) else none
  ]

  -- UnmarshalPredicates
  pub unmarshal_predicates : Value → Option Predicates
  unmarshal_predicates (array xs) = unmarshal_items xs
  unmarshal_predicates null = some no_more
  unmarshal_predicates v = none

  pub unmarshal_items : Items → Option Predicates
  unmarshal_items nil = some no_more
  unmarshal_items (cons v vs) = elim (unmarshal_predicate v) [
    | none ↦ none
    | some p ↦ elim (unmarshal_items vs) [ none ↦ none | some ps ↦ some (next p ps) ]
  ]
