-- ===== src/Manager/Definitions/Memory/Defined.antt =====
-- What is defined stays so until it is deleted (pmanager/memorystore/store.go).
use cfm.Prelude.{
  ◌≡◌, refl, String, Bool, true, false, some, List, [], ◌∷◌, Map, lookup, insert, delete, has,
  some_of, every, str_eq, eq_iff, arith, lookup-insert, lookup-delete,
}
use cfm.Orchestration.{Activity}
use cfm.Manager.{OrchestrationDefinition, ActivityDefinition}
use cfm.Manager.Definitions.Memory.{Memory, references}

abbrev pub all_defined : Map ActivityDefinition → List Activity → Bool
all_defined defs = every (λ a. has defs a.type)

-- The activities of every orchestration definition are defined.
abbrev pub Closed : Memory → Type 0
Closed m =
    (k : String) (d : OrchestrationDefinition)
    → lookup m.orchestrations k ≡ some d
    → all_defined m.activities d.activities ≡ true

pub all_defined-insert :
    (defs : Map ActivityDefinition) (k : String) (v : ActivityDefinition) (as' : List Activity)
    → all_defined defs as' ≡ true
    → all_defined (insert defs k v) as' ≡ true
all_defined-insert defs k v [] h = refl
all_defined-insert defs k v (a ∷ rest) h =
    ground (arith, lookup-insert defs k a.type v, all_defined-insert defs k v rest)

pub all_defined-delete :
    (defs : Map ActivityDefinition) (k : String) (as' : List Activity)
    → all_defined defs as' ≡ true
    → some_of (λ a. str_eq a.type k) as' ≡ false
    → all_defined (delete defs k) as' ≡ true
all_defined-delete defs k [] h n = refl
all_defined-delete defs k (a ∷ rest) h n = ground (
  arith,
  eq_iff k a.type,
  eq_iff a.type k,
  lookup-delete defs k a.type,
  all_defined-delete defs k rest,
)

-- What nothing refers to is in no definition.
pub references-none :
    (ds : Map OrchestrationDefinition) (type k : String) (d : OrchestrationDefinition)
    → references ds type ≡ []
    → lookup ds k ≡ some d
    → some_of (λ a. str_eq a.type type) d.activities ≡ false
unfolding references lookup
references-none [] type k d n found = absurd (ground arith)
references-none ((j, e) ∷ ds) type k d n found = ground (arith, references-none ds type k d)
