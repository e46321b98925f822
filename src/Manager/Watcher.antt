-- ===== src/Manager/Watcher.antt =====
-- OrchestrationIndexWatcher (pmanager/natsorchestration/watcher.go): recording orchestration updates in
-- the index, and compensating an orchestration that failed.
pub mod Indexed
use cfm.Prelude.{
  ℕ, suc, ◌*◌, ◌≡◌, String, Bool, true, false, not, ◌||◌, ◌&&◌, Option, none, some, List, [], ◌∷◌,
  Map, ℤ, pos, nat_eq, if◌then◌else◌, str_eq, length,
}
use Prim.Native.String.{◌++◌ as str_append}
use cfm.Errors.{Error, wrapped, system_error, is_not_found, Result, ok, err}
use cfm.Store.{EntityStore, IsLawful}
use cfm.Nats.Retry.{Settle, acked, nak_delayed, second}
use cfm.Orchestration.{
  State, initialized, running, completed, errored, is_completed, is_errored, Orchestration,
}
use cfm.Manager.{OrchestrationDefinition, Manifest}

pub record OrchestrationEntry : Type 0 where
  pub id : String
  pub version : ℕ
  pub correlation_id : String
  pub definition_id : String
  pub state : State
  pub state_timestamp : ℕ
  pub created_timestamp : ℕ
  pub orchestration_type : String

abbrev pub same_state : State → State → Bool
same_state initialized initialized = true
same_state running running = true
same_state completed completed = true
same_state errored errored = true
same_state _ _ = false

-- convertToEntry
unfoldable pub convert_to_entry : Orchestration → OrchestrationEntry
convert_to_entry o = record {
  id = o.id;
  version = 0;
  correlation_id = o.correlation_id;
  definition_id = o.definition_id;
  state = o.state;
  state_timestamp = o.state_timestamp;
  created_timestamp = o.created_timestamp;
  orchestration_type = o.orchestration_type;
}

-- CompensationID
unfoldable pub compensation_id : String → String
compensation_id id = str_append id "-compensation"

abbrev pub dispose_type : String
dispose_type = "cfm.orchestration.vpa.dispose"

-- The manifest of the compensation; its payload is the data of the failed orchestration.
unfoldable pub compensation_manifest : Orchestration → Manifest
unfolding compensation_id
compensation_manifest o = record {
  id = compensation_id o.id;
  correlation_id = o.correlation_id;
  orchestration_type = dispose_type;
  payload = o.processing_data;
  compensated_manifest_id = o.id;
}

-- What the watcher stands on: the index, its transactions, the provision manager's Start and the
-- definition manager's queries by type, and by template and type.
pub record Parts : Type 1 where
  pub World : Type 0
  pub index : EntityStore World OrchestrationEntry
  pub commit : {A : Type 0} → World → World × Result A → World × Result A
  pub start : World → Manifest → World × Result Orchestration
  pub definitions_of_type : World → String → Result (List OrchestrationDefinition)
  pub definitions_of_template : World → String → String → Result (List OrchestrationDefinition)

abbrev pub next_version : OrchestrationEntry → OrchestrationEntry
next_version e = record e { version = suc e.version }

-- What the watcher relies on: the index is lawful, a transaction that succeeds has committed what its
-- callback did, and starting an orchestration leaves the index as it is.
pub record IsSound (p : Parts) : Type 1 where
  pub index-IsLawful : IsLawful {World = p.World} (λ e. e.id) next_version p.index
  pub committed :
      {A : Type 0} (w : p.World) (x : p.World × Result A) (w' : p.World) (a : A)
      → p.commit w x ≡ (w', ok a)
      → x ≡ (w', ok a)
  pub starting :
      (w : p.World) (m : Manifest) (k : String)
      → p.index.find_by_id (p.start w m).0 k ≡ p.index.find_by_id w k

-- Is the update new to the index? A terminal entry takes no update, nor does one that it has already.
unfoldable pub is_stale : OrchestrationEntry → Orchestration → Bool
is_stale entry o =
    (same_state entry.state o.state && nat_eq o.state_timestamp entry.state_timestamp)
    || (is_completed entry.state || is_errored entry.state)

abbrev pub must_compensate : Orchestration → Bool
must_compensate o = is_errored o.state && not (str_eq o.orchestration_type dispose_type)

module _ (p : Parts) where
  open p use {World}

  -- existsCompensationOrchestration
  unfoldable pub exists_compensation : World → String → String → Result Bool
  exists_compensation w orchestration_type definition_id =
      elim (p.definitions_of_type w definition_id) [
        | err e ↦ err e
        | ok [] ↦ err (system_error "expected exactly one orchestration definition")
        | ok (d ∷ []) ↦ elim (p.definitions_of_template w d.template_ref orchestration_type) [
          | err e ↦ err e
          | ok ds ↦ ok (nat_eq (length ds) 1)
        ]
        | ok (d ∷ (d2 ∷ ds)) ↦ err (system_error "expected exactly one orchestration definition")
      ]

  abbrev pub after_start : World × Result Orchestration → World × Option Error
  after_start (w, ok _) = (w, none)
  after_start (w, err e) = (w, some e)

  -- startCompensationOrchestration
  unfoldable pub start_compensation : World → Orchestration → World × Option Error
  unfolding exists_compensation compensation_manifest
  start_compensation w o = elim (exists_compensation w dispose_type o.definition_id) [
    | err e ↦ (w, some e)
    | ok false ↦ (w, none)
    | ok true ↦ after_start (p.start w (compensation_manifest o))
  ]

  abbrev pub compensated : World × Option Error → World × Result (Unit {0})
  compensated (w, none) = (w, ok tt)
  compensated (w, some e) = (w, err (wrapped "failed to start compensation" e))

  abbrev pub after_update : Orchestration → World × Option Error → World × Result (Unit {0})
  after_update o (w, some e) = (w, err (wrapped "failed to update orchestration entry" e))
  after_update o (w, none) =
      if must_compensate o then compensated (start_compensation w o) else (w, ok tt)

  abbrev pub after_create : World × Result OrchestrationEntry → World × Result (Unit {0})
  after_create (w, ok _) = (w, ok tt)
  after_create (w, err e) = (w, err (wrapped "failed to create orchestration entry" e))

  abbrev pub create_entry : World → Orchestration → World × Result (Unit {0})
  create_entry w o = after_create (p.index.create w (convert_to_entry o))

  -- The callback that onMessage executes in a transaction.
  unfoldable pub index_in : World → Orchestration → World × Result (Unit {0})
  unfolding convert_to_entry is_stale start_compensation is_not_found
  index_in w o = elim (p.index.find_by_id w o.id) [
    | err e ↦
        if is_not_found e
        then create_entry w o
        else (w, err (wrapped "failed to look up orchestration entry" e))
    | ok entry ↦
        if is_stale entry o
        then (w, ok tt)
        else after_update o (p.index.update w (convert_to_entry o))
  ]

  -- watcherRedeliveryDelay
  abbrev pub watcher_redelivery_delay : ℤ
  watcher_redelivery_delay = pos (5 * second)

  abbrev pub settle : World × Result (Unit {0}) → World × List Settle
  settle (w, ok _) = (w, acked ∷ [])
  settle (w, err _) = (w, nak_delayed watcher_redelivery_delay ∷ [])

  -- onMessage, given what the data decodes to
  unfoldable pub on_message : World → Result Orchestration → World × List Settle
  unfolding index_in
  on_message w (err e) = (w, acked ∷ [])
  on_message w (ok o) = settle (p.commit w (index_in w o))
