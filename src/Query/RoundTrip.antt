-- ===== src/Query/RoundTrip.antt =====
-- A predicate is read back from its JSON (common/query/predicate.go).
use cfm.Prelude.{◌≡◌, refl, Bool, true, false, ◌&&◌, some, arith, ap}
use cfm.Query.{
  Operator, op_equal, op_not_equal, op_greater, op_greater_equal, op_less, op_less_equal, op_in,
  op_not_in, op_like, op_not_like, op_is_null, op_is_not_null, op_contains, op_starts_with,
  op_ends_with, other, op_text, Predicate, atomic, compound, match_all, Predicates, no_more, next,
}
use cfm.Text.{to_upper}
use cfm.Query.Encoding.{marshal, marshal_all, operator, unmarshal_predicate, unmarshal_items}

abbrev is_constant : Operator → Bool
is_constant (other s) = false
is_constant _ = true

-- Are all operators of its atomic parts constants of the source?
unfoldable mutual
  pub has_constants : Predicate → Bool
  has_constants (atomic name op value) = is_constant op
  has_constants (compound op ps) = all_constants ps
  has_constants match_all = true

  pub all_constants : Predicates → Bool
  all_constants no_more = true
  all_constants (next p ps) = has_constants p && all_constants ps

operator-op_text : (op : Operator) → is_constant op ≡ true → operator (to_upper (op_text op)) ≡ op
unfolding operator to_upper
operator-op_text op_equal h = refl
operator-op_text op_not_equal h = refl
operator-op_text op_greater h = refl
operator-op_text op_greater_equal h = refl
operator-op_text op_less h = refl
operator-op_text op_less_equal h = refl
operator-op_text op_in h = refl
operator-op_text op_not_in h = refl
operator-op_text op_like h = refl
operator-op_text op_not_like h = refl
operator-op_text op_is_null h = refl
operator-op_text op_is_not_null h = refl
operator-op_text op_contains h = refl
operator-op_text op_starts_with h = refl
operator-op_text op_ends_with h = refl
operator-op_text (other s) h = cc

mutual
  unfolding marshal unmarshal_predicate has_constants

  marshal_lem : (p : Predicate) → has_constants p ≡ true → unmarshal_predicate (marshal p) ≡ some p
  marshal_lem (atomic name op value) h =
      ap (λ o. some (atomic name o value)) (operator-op_text op h)
  marshal_lem (compound op ps) h = rw (marshal_all_lem ps h) refl
  marshal_lem match_all h = refl

  marshal_all_lem :
      (ps : Predicates) → all_constants ps ≡ true → unmarshal_items (marshal_all ps) ≡ some ps
  marshal_all_lem no_more h = refl
  marshal_all_lem (next p ps) h =
      rw (marshal_lem p (ground arith), marshal_all_lem ps (ground arith)) refl

-- A predicate whose atomic parts have operators with a constant is read back from its JSON as it was.
pub unmarshal_predicate-marshal :
    (p : Predicate) → has_constants p ≡ true → unmarshal_predicate (marshal p) ≡ some p
unmarshal_predicate-marshal p h = marshal_lem p h
