-- ===== src/Errors/Classes.antt =====
-- What joining does to the class of an error (common/types/errors.go).
use cfm.Prelude.{◌≡◌, refl, Bool, false, Option, none, some, ◌||◌, List, [], ◌∷◌, some_of, arith}
use cfm.Errors.{
  Error, joined, in_chain, is_recoverable, is_client_error, is_fatal, implements_recoverable,
  implements_client_error, implements_fatal, join_onto, join_all,
}

-- A class test of what may be nil.
abbrev pub any_class : (Error → Bool) → Option Error → Bool
any_class p none = false
any_class p (some e) = p e

module _ (p : Error → Bool) (plain_join : (a b : Error) → p (joined a b) ≡ false) where
  in_chain-join_onto :
      (e : Error) (o : Option Error)
      → any_class (in_chain p) (join_onto e o) ≡ (in_chain p e || any_class (in_chain p) o)
  unfolding in_chain
  in_chain-join_onto e none = ground arith
  in_chain-join_onto e (some r) = rw (plain_join e r)

  in_chain-join_all :
      (es : List Error) → any_class (in_chain p) (join_all es) ≡ some_of (in_chain p) es
  unfolding join_all
  in_chain-join_all [] = refl
  in_chain-join_all (e ∷ es) = rw (in_chain-join_onto e (join_all es), in_chain-join_all es)

-- Joined errors are recoverable, client or fatal exactly if one of them is.
pub join_all-classes :
    (es : List Error)
    → (any_class is_recoverable (join_all es) ≡ some_of is_recoverable es)
      × (any_class is_client_error (join_all es) ≡ some_of is_client_error es)
      × (any_class is_fatal (join_all es) ≡ some_of is_fatal es)
unfolding is_recoverable is_client_error is_fatal
join_all-classes es = (
  in_chain-join_all implements_recoverable (λ a b. refl) es,
  in_chain-join_all implements_client_error (λ a b. refl) es,
  in_chain-join_all implements_fatal (λ a b. refl) es,
)
