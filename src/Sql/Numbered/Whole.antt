-- ===== src/Sql/Numbered/Whole.antt =====
-- The placeholders of a whole predicate (common/sqlstore/query.go: BuildSQL).
use mathlib.Core.List.{append-nil}
use cfm.Prelude.{
  ℕ, suc, ◌+◌, ◌≡◌, refl, String, Bool, true, false, ◌&&◌, Option, none, some, List, [], ◌∷◌, ◌++◌,
  subst, length, length-append, arith, ap, sym, ◌∙◌, lookup, from_option, inl, inr, Bool-cases,
}
use cfm.Json.{Value}
use cfm.Query.{Operator, Predicate, Predicates, atomic, compound, match_all, no_more, next}
use cfm.Text.{to_lower, split_dots}
use cfm.Sql.{Piece, text, JsonbBuilder}
use cfm.Sql.Jsonb.{Built}
use cfm.Sql.Builder.{Parts, onto, join_op, joined, build_simple, build, build_all, build_sql}
use cfm.Sql.Numbered.{
  params, params-append, params_all, numbers, Holds, plain-Holds, op_values, has_list, Builds,
}
use cfm.Sql.Numbered.Conditions.{jsonb_condition-Builds, standard_condition-Builds}

-- The values of a predicate, from left to right, and whether every IN and NOT IN has a list.
unfoldable mutual
  pub values_of : Predicate → List Value
  values_of (atomic field op value) = op_values op value
  values_of (compound op ps) = all_values ps
  values_of match_all = []

  pub all_values : Predicates → List Value
  all_values no_more = []
  all_values (next p ps) = values_of p ++ all_values ps

unfoldable mutual
  pub has_lists : Predicate → Bool
  has_lists (atomic field op value) = has_list op value
  has_lists (compound op ps) = all_lists ps
  has_lists match_all = true

  pub all_lists : Predicates → Bool
  all_lists no_more = true
  all_lists (next p ps) = has_lists p && all_lists ps

numbers-append :
    (n : ℕ) (vs ws : List Value)
    → numbers n (length (vs ++ ws)) ≡ numbers n (length vs) ++ numbers (n + length vs) (length ws)
numbers-append n [] ws = ap (λ m. numbers m (length ws)) (omega arith)
numbers-append n (v ∷ vs) ws =
    ap (λ ns. suc n ∷ ns)
      (numbers-append (suc n) vs ws
        ∙ ap (λ m. numbers (suc n) (length vs) ++ numbers m (length ws)) (omega arith))

-- The parts' placeholders.
record PartsHold (n : ℕ) (values : List Value) (p : Parts) : Type 0 where
  pub args : p.args ≡ values
  pub numbered : params_all p.parts ≡ numbers n (length values)
  pub counted : p.counter ≡ n + length values

params-join_op : (op : String) (ps : List (List Piece)) → params (join_op op ps) ≡ params_all ps
unfolding join_op
params-join_op op [] = refl
params-join_op op (p ∷ []) = sym (append-nil (params p))
params-join_op op (p ∷ q ∷ ps) =
    params-append p (text " " ∷ text op ∷ text " " ∷ join_op op (q ∷ ps))
    ∙ ap (λ ns. params p ++ ns) (params-join_op op (q ∷ ps))

joined-Holds :
    (op : String) (n : ℕ) (values : List Value) (p : Parts)
    → PartsHold n values p
    → Holds n values (joined op p)
joined-Holds op n values p h = record {
  args = h.args;
  numbered = params-join_op op p.parts ∙ h.numbered;
  counted = h.counted;
}

onto-PartsHold :
    (n : ℕ) (vs ws : List Value) (first : Built) (rest : Parts)
    → Holds n vs first
    → PartsHold first.counter ws rest
    → PartsHold n (vs ++ ws) (onto first rest)
onto-PartsHold n vs ws first rest h t = record {
  args = rw (h.args, t.args) refl;
  numbered =
      ap (λ ns. ns ++ params_all rest.parts)
        (params-append first.sql (text ")" ∷ []) ∙ append-nil (params first.sql))
      ∙ rw (h.numbered, t.numbered, h.counted, numbers-append n vs ws) refl;
  counted = omega (arith, h.counted, t.counted, length-append vs ws);
}

built-Holds :
    {n : ℕ} {values : List Value} (o : Option Built)
    → Builds n values o
    → (r : Built) × (o ≡ some r) × Holds n values r
built-Holds none h = absurd h
built-Holds (some r) h = (r, refl, h)

module _ (b : JsonbBuilder) where
  build_simple-Builds :
      (n : ℕ) (field : String) (op : Operator) (value : Value)
      → has_list op value ≡ true
      → Builds n (op_values op value) (build_simple b n field op value)
  unfolding build_simple
  build_simple-Builds n field op value h =
      elim (Bool-cases
        (from_option false (lookup b.jsonb_fields (to_lower (split_dots field).0)))) [
          | inl jsonb ↦ rw (build_simple, jsonb) (jsonb_condition-Builds n _ _ _ field op value h)
          | inr standard ↦ rw (build_simple, standard) (standard_condition-Builds n _ op value h)
        ]

  abbrev BuildsParts : ℕ → List Value → Option Parts → Type 0
  BuildsParts n values none = ⊥
  BuildsParts n values (some p) = PartsHold n values p

  onto_rest-BuildsParts :
      (n : ℕ) (vs ws : List Value) (first : Built) (rest : Option Parts)
      → Holds n vs first
      → BuildsParts first.counter ws rest
      → BuildsParts n (vs ++ ws) (elim rest [ none ↦ none | some p ↦ some (onto first p) ])
  onto_rest-BuildsParts n vs ws first none h t = absurd t
  onto_rest-BuildsParts n vs ws first (some p) h t = onto-PartsHold n vs ws first p h t

  joined-Builds :
      (op : String) (n : ℕ) (values : List Value) (all : Option Parts)
      → BuildsParts n values all
      → Builds n values (elim all [ none ↦ none | some p ↦ some (joined op p) ])
  joined-Builds op n values none h = absurd h
  joined-Builds op n values (some p) h = joined-Holds op n values p h

  -- One more part in front.
  onto-BuildsParts :
      (n : ℕ) (vs ws : List Value) (first : Option Built) (rest : ℕ → Option Parts)
      → Builds n vs first
      → ((m : ℕ) → BuildsParts m ws (rest m))
      → BuildsParts n (vs ++ ws) (elim first [
        | none ↦ none
        | some r ↦ elim (rest r.counter) [ none ↦ none | some p ↦ some (onto r p) ]
      ])
  onto-BuildsParts n vs ws none rest h t = absurd h
  onto-BuildsParts n vs ws (some r) rest h t =
      onto_rest-BuildsParts n vs ws r (rest r.counter) h (t r.counter)

  mutual
    unfolding build values_of has_lists

    build-Builds :
        (p : Predicate) (n : ℕ) → has_lists p ≡ true → Builds n (values_of p) (build b n p)
    build-Builds (atomic field op value) n h = build_simple-Builds n field op value h
    build-Builds (compound op no_more) n h = plain-Holds n _ refl
    build-Builds (compound op (next p no_more)) n h =
        subst (λ vs. Builds n vs (build b n p)) (sym (append-nil (values_of p)))
          (build-Builds p n (ground arith))
    build-Builds (compound op (next p (next q qs))) n h =
        joined-Builds op n (values_of p ++ all_values (next q qs))
          (build_all b n (next p (next q qs))) (build_all-Builds (next p (next q qs)) n h)
    build-Builds match_all n h = plain-Holds n _ refl

    build_all-Builds :
        (ps : Predicates) (n : ℕ)
        → all_lists ps ≡ true
        → BuildsParts n (all_values ps) (build_all b n ps)
    build_all-Builds no_more n h = record { args = refl; numbered = refl; counted = omega arith }
    build_all-Builds (next p ps) n h =
        onto-BuildsParts n (values_of p) (all_values ps) (build b n p) (λ m. build_all b m ps)
          (build-Builds p n (ground arith)) (λ m. build_all-Builds ps m (ground arith))

  -- A predicate in which every IN and NOT IN has a list is built without a panic. The arguments are the
  -- predicate's values from left to right, and the SQL's placeholders are $1, $2, … in the same order, one for
  -- each argument.
  pub build_sql-Holds :
      (p : Predicate)
      → has_lists p ≡ true
      → (r : Built) × (build_sql b p ≡ some r) × Holds 0 (values_of p) r
  build_sql-Holds p h = built-Holds (build b 0 p) (build-Builds p 0 h)
