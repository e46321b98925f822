-- ===== src/Query/Matching.antt =====
-- What a compound predicate means (common/query/predicate.go: Matches).
use cfm.Prelude.{
  ◌≡◌, refl, String, Bool, true, false, ◌&&◌, ◌||◌, List, [], ◌∷◌, if◌then◌else◌, str_eq, every,
  some_of, arith, eq_iff, ap, ◌∙◌,
}
use cfm.Query.{
  Predicate, Predicates, compound, no_more, next, predicates, FieldMatcher, combine, matches,
  matches_loop,
}

not_both : (op : String) → str_eq op "AND" ≡ true → str_eq op "OR" ≡ false
not_both op h = let same : op ≡ "AND" = (eq_iff op "AND").0 h in rw same refl

-- What an operator makes of the conjunction and of the disjunction of its parts.
abbrev select : String → Bool → Bool → Bool
select op all any = if str_eq op "AND" then all else if str_eq op "OR" then any else false

combine-select :
    (op : String) (here all any : Bool)
    → combine op here (select op all any) ≡ select op (here && all) (here || any)
combine-select op here all any = ground (arith, not_both op)

module _ {Obj : Type 0} (m : FieldMatcher Obj) (obj : Obj) where
  -- What a non-empty list of predicates gives under an operator.
  abbrev combined : String → List Predicate → Bool
  combined op ps =
      if str_eq op "AND"
      then every (matches m obj) ps
      else if str_eq op "OR"
      then some_of (matches m obj) ps
      else false

  matches_loop-combined :
      (op : String) (ps : Predicates) → matches_loop m obj op ps ≡ combined op (predicates ps)
  unfolding matches
  matches_loop-combined op no_more = ground arith
  matches_loop-combined op (next p ps) =
      ap (combine op (matches m obj p)) (matches_loop-combined op ps)
      ∙ combine-select op (matches m obj p) (every (matches m obj) (predicates ps))
          (some_of (matches m obj) (predicates ps))

  -- A compound predicate without parts matches everything. With parts, AND matches if all of them do, OR if one
  -- of them does, and any other operator matches nothing.
  matches_compound :
      (op : String) (ps : Predicates)
      → matches m obj (compound op ps)
        ≡ elim (predicates ps) [ [] ↦ true | q ∷ qs ↦ combined op (q ∷ qs) ]
  unfolding matches
  matches_compound op no_more = refl
  matches_compound op (next p ps) = matches_loop-combined op (next p ps)
