-- ===== src/Tenant/Pending.antt =====
-- The orchestration that a profile is waiting on (tmanager/core/service_participant.go).
use cfm.Prelude.{
  ◌≡◌, inl, inr, ◌↔◌, String, Bool, true, false, ◌&&◌, none, some, str_eq, if◌then◌else◌, arith,
  Bool-cases, eq_iff, from_option, lookup, insert, delete, lookup-insert, lookup-delete,
}
use cfm.Json.{Value, str, object, field, end, get, as_object, as_string}
use cfm.Engine.Client.{OrchestrationResponse}
use cfm.Tenant.{ParticipantProfile, OrchestrationManifest, vpa_deploy_type, vpa_dispose_type}

abbrev pub pending_orchestration_key : String
pending_orchestration_key = "cfm.orchestration.pending"

abbrev pub pending_manifest_id_key : String
pending_manifest_id_key = "manifestId"

abbrev pub pending_type_key : String
pending_type_key = "orchestrationType"

abbrev pub pending_value : OrchestrationManifest → Value
pending_value m = object (
    field pending_manifest_id_key (str m.id)
      (field pending_type_key (str m.orchestration_type) end))

unfoldable pub set_pending_orchestration :
    ParticipantProfile → OrchestrationManifest → ParticipantProfile
set_pending_orchestration profile manifest = record profile {
  properties = insert profile.properties pending_orchestration_key (pending_value manifest);
}

-- The tests of isPendingOrchestration on the recorded ID and type.
unfoldable pub matches_pending : String → String → OrchestrationResponse → Bool
matches_pending manifest_id orchestration_type response =
    if str_eq manifest_id ""
    then false
    else if str_eq manifest_id response.manifest_id
    then str_eq orchestration_type response.orchestration_type
    else str_eq manifest_id response.compensated_manifest_id
      && (str_eq orchestration_type vpa_deploy_type
          && str_eq response.orchestration_type vpa_dispose_type)

unfoldable pub is_pending_orchestration : ParticipantProfile → OrchestrationResponse → Bool
unfolding matches_pending get
is_pending_orchestration profile response =
    elim (as_object (lookup profile.properties pending_orchestration_key)) [
      | none ↦ false
      | some pending ↦
          matches_pending (from_option "" (as_string (get pending pending_manifest_id_key)))
            (from_option "" (as_string (get pending pending_type_key))) response
    ]

-- delete(profile.Properties, pendingOrchestrationKey)
unfoldable pub clear_pending : ParticipantProfile → ParticipantProfile
clear_pending profile = record profile {
  properties = delete profile.properties pending_orchestration_key;
}

-- A response is one to `m`, or the compensation of a failed deployment `m`.
pub data Answers (m : OrchestrationManifest) (r : OrchestrationResponse) : Type 0 where
  direct : m.id ≡ r.manifest_id → m.orchestration_type ≡ r.orchestration_type → Answers m r
  compensation :
      m.id ≡ r.compensated_manifest_id
      → str_eq m.id r.manifest_id ≡ false
      → m.orchestration_type ≡ vpa_deploy_type
      → r.orchestration_type ≡ vpa_dispose_type
      → Answers m r

is_pending-set_pending :
    (p : ParticipantProfile) (m : OrchestrationManifest) (r : OrchestrationResponse)
    → is_pending_orchestration (set_pending_orchestration p m) r
      ≡ matches_pending m.id m.orchestration_type r
unfolding is_pending_orchestration set_pending_orchestration
is_pending-set_pending p m r = rw (
  is_pending_orchestration,
  lookup-insert p.properties pending_orchestration_key pending_orchestration_key (pending_value m),
)

matches_pending-true :
    (m : OrchestrationManifest) (r : OrchestrationResponse)
    → matches_pending m.id m.orchestration_type r ≡ true
    → Answers m r
unfolding matches_pending
matches_pending-true m r h = elim (Bool-cases (str_eq m.id r.manifest_id)) [
  | inl y ↦
      direct ((eq_iff _ _).0 y) (ground (arith, eq_iff m.orchestration_type r.orchestration_type))
  | inr n ↦
      compensation (ground (arith, eq_iff m.id r.compensated_manifest_id)) n
        (ground (arith, eq_iff m.orchestration_type vpa_deploy_type))
        (ground (arith, eq_iff r.orchestration_type vpa_dispose_type))
]

Answers-matches_pending :
    (m : OrchestrationManifest) (r : OrchestrationResponse)
    → str_eq m.id "" ≡ false
    → Answers m r
    → matches_pending m.id m.orchestration_type r ≡ true
unfolding matches_pending
Answers-matches_pending m r h (direct a b) =
    rw (h, (eq_iff m.id r.manifest_id).1 a) ((eq_iff _ _).1 b)
Answers-matches_pending m r h (compensation a n b c) =
    rw (h, n, (eq_iff m.id r.compensated_manifest_id).1 a, (eq_iff _ _).1 b, (eq_iff _ _).1 c)

-- A profile that waits on a manifest takes exactly the responses to it: those with its ID and type, and the
-- dispose orchestrations that compensate it, if it is a deployment.
pub set_pending_orchestration_iff :
    (p : ParticipantProfile) (m : OrchestrationManifest) (r : OrchestrationResponse)
    → str_eq m.id "" ≡ false
    → (is_pending_orchestration (set_pending_orchestration p m) r ≡ true) ↔ Answers m r
unfolding is_pending_orchestration set_pending_orchestration
set_pending_orchestration_iff p m r h =
    rw (is_pending-set_pending p m r) (matches_pending-true m r, Answers-matches_pending m r h)

-- After the pending orchestration is cleared, no response is taken.
pub clear_pending-none :
    (p : ParticipantProfile) (r : OrchestrationResponse)
    → is_pending_orchestration (clear_pending p) r ≡ false
unfolding is_pending_orchestration clear_pending
clear_pending-none p r = rw (
  is_pending_orchestration,
  lookup-delete p.properties pending_orchestration_key pending_orchestration_key,
)
