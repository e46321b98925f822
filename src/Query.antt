-- ===== src/Query.antt =====
-- Query predicates (common/query/predicate.go). A value of type `any` is one of Json; a []any is an array.
pub mod Matching
pub mod Encoding
pub mod RoundTrip
use cfm.Prelude.{String, Bool, true, false, not, ◌&&◌, List, [], ◌∷◌, if◌then◌else◌, str_eq}
use cfm.Json.{Value}
use cfm.Errors.{Result, ok, err}

-- `other` is an operator that has no constant.
pub data Operator : Type 0 where
  op_equal op_not_equal op_greater op_greater_equal op_less op_less_equal : Operator
  op_in op_not_in op_like op_not_like op_is_null op_is_not_null : Operator
  op_contains op_starts_with op_ends_with : Operator
  other : String → Operator

-- the operator's text
abbrev pub op_text : Operator → String
op_text op_equal = "="
op_text op_not_equal = "!="
op_text op_greater = ">"
op_text op_greater_equal = ">="
op_text op_less = "<"
op_text op_less_equal = "<="
op_text op_in = "IN"
op_text op_not_in = "NOT IN"
op_text op_like = "LIKE"
op_text op_not_like = "NOT LIKE"
op_text op_is_null = "IS NULL"
op_text op_is_not_null = "IS NOT NULL"
op_text op_contains = "CONTAINS"
op_text op_starts_with = "STARTS_WITH"
op_text op_ends_with = "ENDS_WITH"
op_text (other s) = s

mutual
  pub data Predicate : Type 0 where
    atomic : String → Operator → Value → Predicate
    compound : String → Predicates → Predicate
    match_all : Predicate

  pub data Predicates : Type 0 where
    no_more : Predicates
    next : Predicate → Predicates → Predicates

abbrev pub predicates : Predicates → List Predicate
predicates no_more = []
predicates (next p ps) = p ∷ predicates ps

pub record FieldMatcher (Obj : Type 0) : Type 0 where
  pub get_field_value : Obj → String → Result Value
  pub compare_values : Operator → Value → Value → Bool

-- A missing field is null.
abbrev pub matches_missing : Operator → Bool
matches_missing op_is_null = true
matches_missing _ = false

abbrev pub matches_atomic :
    {Obj : Type 0} → FieldMatcher Obj → Obj → String → Operator → Value → Bool
matches_atomic m obj field op value = elim (m.get_field_value obj field) [
  | err _ ↦ matches_missing op
  | ok found ↦ m.compare_values op found value
]

-- The body of the loop over the predicates of a compound one: what its first predicate gives, and what the
-- rest of the loop gives.
abbrev pub combine : String → Bool → Bool → Bool
combine op here rest =
    if str_eq op "AND" && not here then false else if str_eq op "OR" && here then true else rest

module _ {Obj : Type 0} (m : FieldMatcher Obj) (obj : Obj) where
  unfoldable mutual
    pub matches : Predicate → Bool
    matches (atomic field op value) = matches_atomic m obj field op value
    matches (compound op no_more) = true
    matches (compound op (next p ps)) = matches_loop op (next p ps)
    matches match_all = true

    pub matches_loop : String → Predicates → Bool
    matches_loop op no_more = str_eq op "AND"
    matches_loop op (next p ps) = combine op (matches p) (matches_loop op ps)
