-- ===== src/Sql/Numbered.antt =====
-- The placeholders of a condition (common/sqlstore/query.go): they are numbered in the order of the arguments.
pub mod Conditions
pub mod Whole
use mathlib.Core.List.{append-nil}
use cfm.Prelude.{
  ℕ, zero, suc, ◌+◌, ◌≡◌, refl, String, Bool, true, false, Option, none, some, List, [], ◌∷◌, ◌++◌,
  length, length-append, arith, ap, sym, ◌∙◌, if◌then◌else◌,
}
use cfm.Json.{Value, array, items}
use cfm.Query.{
  Operator, op_equal, op_not_equal, op_greater, op_greater_equal, op_less, op_less_equal, op_in,
  op_not_in, op_like, op_not_like, op_is_null, op_is_not_null, op_contains, op_starts_with,
  op_ends_with, other,
}
use cfm.Sql.{
  Piece, text, param, join, FieldType, unknown, scalar, array_of_objects, array_of_scalars,
  map_of_arrays, jsonb_path, jsonb_accessor, array_element_accessor, exists,
}
use cfm.Sql.Jsonb.{
  Built, plain, one, placeholders, count_on, listed, jsonb_null, search_before, search_after,
  jsonb_array_search, jsonb_equal, jsonb_not_equal, jsonb_comparison, jsonb_in, jsonb_contains,
  list_value, on_list, direct, jsonb_condition, standard_condition,
}

-- the numbers of the placeholders
abbrev pub params : List Piece → List ℕ
params [] = []
params (text s ∷ ps) = params ps
params (param n ∷ ps) = n ∷ params ps

-- n + 1, …, n + k
abbrev pub numbers : ℕ → ℕ → List ℕ
numbers n zero = []
numbers n (suc k) = suc n ∷ numbers (suc n) k

pub params-append : (xs ys : List Piece) → params (xs ++ ys) ≡ params xs ++ params ys
params-append [] ys = refl
params-append (text s ∷ xs) ys = params-append xs ys
params-append (param n ∷ xs) ys = ap (λ ns. n ∷ ns) (params-append xs ys)

-- The SQL has a placeholder for each of these values, numbered on from `n`, and the values are its arguments.
pub record Holds (n : ℕ) (values : List Value) (r : Built) : Type 0 where
  pub args : r.args ≡ values
  pub numbered : params r.sql ≡ numbers n (length values)
  pub counted : r.counter ≡ n + length values

pub plain-Holds : (n : ℕ) (sql : List Piece) → params sql ≡ [] → Holds n [] (plain n sql)
plain-Holds n sql h = record { args = refl; numbered = h; counted = omega arith }

pub one-Holds :
    (n : ℕ) (before after : List Piece) (value : Value)
    → params before ≡ []
    → params after ≡ []
    → Holds n (value ∷ []) (one n before after value)
one-Holds n before after value b a = record {
  args = refl;
  numbered = params-append before (param (suc n) ∷ after) ∙ rw (b, a) refl;
  counted = omega arith;
}

abbrev pub params_all : List (List Piece) → List ℕ
params_all [] = []
params_all (p ∷ ps) = params p ++ params_all ps

params-join : (sep : String) (ps : List (List Piece)) → params (join sep ps) ≡ params_all ps
unfolding join
params-join sep [] = refl
params-join sep (p ∷ []) = sym (append-nil (params p))
params-join sep (p ∷ q ∷ ps) =
    params-append p (text sep ∷ join sep (q ∷ ps))
    ∙ ap (λ ns. params p ++ ns) (params-join sep (q ∷ ps))

params_all-placeholders :
    (n : ℕ) (values : List Value) → params_all (placeholders n values) ≡ numbers n (length values)
unfolding placeholders
params_all-placeholders n [] = refl
params_all-placeholders n (v ∷ vs) = ap (λ ns. suc n ∷ ns) (params_all-placeholders (suc n) vs)

count_on-length : (n : ℕ) (values : List Value) → count_on n values ≡ n + length values
unfolding count_on
count_on-length n [] = omega arith
count_on-length n (v ∷ vs) = omega (arith, count_on-length (suc n) vs)

-- A condition with one placeholder.
pub single-Holds :
    (n : ℕ) (sql : List Piece) (value : Value)
    → params sql ≡ suc n ∷ []
    → Holds n (value ∷ []) (record { sql = sql; args = value ∷ []; counter = suc n })
single-Holds n sql value h = record { args = refl; numbered = h; counted = omega arith }

-- A condition on a list of values.
pub listed-Holds :
    (n : ℕ) (sql after : List Piece) (values : List Value)
    → params sql ≡ params (join "," (placeholders n values) ++ after)
    → params after ≡ []
    → Holds n values (record { sql = sql; args = values; counter = count_on n values })
listed-Holds n sql after values h a = record {
  args = refl;
  numbered =
      h
      ∙ params-append (join "," (placeholders n values)) after
      ∙ rw
          (
            a,
            append-nil (params (join "," (placeholders n values))),
            params-join "," (placeholders n values),
            params_all-placeholders n values,
          )
          refl;
  counted = count_on-length n values;
}

abbrev pub list_items : Value → List Value
list_items (array xs) = items xs
list_items value = value ∷ []

-- the values that a condition compares with
abbrev pub op_values : Operator → Value → List Value
op_values op_is_null value = []
op_values op_is_not_null value = []
op_values op_in value = list_items value
op_values op_not_in value = list_items value
op_values op value = value ∷ []

abbrev pub is_list : Value → Bool
is_list (array xs) = true
is_list _ = false

-- Does an operator on lists have one?
abbrev pub has_list : Operator → Value → Bool
has_list op_in value = is_list value
has_list op_not_in value = is_list value
has_list op value = true

abbrev pub Builds : ℕ → List Value → Option Built → Type 0
Builds n values none = ⊥
Builds n values (some r) = Holds n values r

pub on_list-Builds :
    (n : ℕ) (value : Value) (build : List Value → Built)
    → ((xs : List Value) → Holds n xs (build xs))
    → is_list value ≡ true
    → Builds n (list_items value) (on_list value build)
on_list-Builds n (array xs) build h is = h (items xs)
on_list-Builds n _ build h is = cc
