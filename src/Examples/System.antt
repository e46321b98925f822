-- ===== src/Examples/System.antt =====
-- Samples for the order of assemblies.
use cfm.Prelude.{
  ◌≡◌, refl, ℕ, suc, String, Option, none, some, List, [], ◌∷◌, contains, insert, lookup, nat_eq,
  if◌then◌else◌,
}
use cfm.Errors.{Error, ok, err, plain, wrapped}
use cfm.System.{Assembly, Call, init_order, assemble}
use cfm.System.Wired.{names}
use cfm.System.Started.{providers, Provided, init_order-Provided}

abbrev api : Assembly
api = record { name = "api"; provides = []; requires = "store" ∷ "client" ∷ [] }

abbrev store : Assembly
store = record { name = "store"; provides = "store" ∷ []; requires = "client" ∷ [] }

abbrev client : Assembly
client = record { name = "client"; provides = "client" ∷ []; requires = [] }

abbrev assemblies : List Assembly
assemblies = api ∷ store ∷ client ∷ []

abbrev in_order : List Assembly
in_order = client ∷ store ∷ api ∷ []

ordered : init_order assemblies ≡ ok in_order
unfolding init_order insert lookup
ordered = refl

init_order-Provided_example :
    Provided (providers assemblies) [] in_order
    × ((k : String) → contains k (names in_order) ≡ contains k (names assemblies))
init_order-Provided_example = init_order-Provided assemblies in_order ordered

-- A service that nothing provides
missing_provider : init_order (api ∷ []) ≡ err (plain "required assembly not found for assembly")
unfolding init_order insert lookup
missing_provider = refl

-- The world counts the calls, of which the fifth one fails.
abbrev invoke : ℕ → Call → Assembly → ℕ × Option Error
invoke n call a = (suc n, if nat_eq n 4 then some (plain "no") else none)

prepare_fails :
    assemble invoke 0 assemblies ≡ (5, err (wrapped "error preparing assembly" (plain "no")))
unfolding assemble insert lookup
prepare_fails = refl
