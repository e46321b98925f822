-- ===== src/Tenant/Participants/Dispose/Restored.antt =====
-- What revertDispose makes of a profile that was being disposed (tmanager/core/service_participant.go).
use cfm.Prelude.{
  Bool-cases, inl, inr, none, if◌then◌else◌, ◌≡◌, refl, ap, ◌∙◌, String, true, false, List, [], ◌∷◌,
  lookup, lookup-insert, lookup-delete, every, str_eq, arith,
}
use cfm.Engine.Client.{OrchestrationResponse}
use cfm.Tenant.{
  DeploymentState, unset, initial, pending, active, disposing, disposed, locked, offline, error,
  is_active, ParticipantProfile, VirtualParticipantAgent, OrchestrationManifest, next_version,
}
use cfm.Tenant.Pending.{
  set_pending_orchestration, is_pending_orchestration, clear_pending, clear_pending-none,
  pending_orchestration_key, pending_value,
}
use cfm.Tenant.Callback.{with_state}
use cfm.Tenant.Participants.Dispose.{to_dispose, reverted}

is_active-eq : (d : DeploymentState) → is_active d ≡ true → active ≡ d
is_active-eq active h = refl
is_active-eq unset h = cc
is_active-eq initial h = cc
is_active-eq pending h = cc
is_active-eq disposing h = cc
is_active-eq disposed h = cc
is_active-eq locked h = cc
is_active-eq offline h = cc
is_active-eq error h = cc

same-state :
    (v : VirtualParticipantAgent) → is_active v.state ≡ true → record v { state = active } ≡ v
same-state v h = ap (λ d. record v { state = d }) (is_active-eq v.state h)

-- The states that a dispose overwrites are the ones that its revert puts back.
restore-active :
    (vs : List VirtualParticipantAgent)
    → every (λ v. is_active v.state) vs ≡ true
    → with_state active (with_state disposing vs) ≡ vs
restore-active [] h = refl
restore-active (v ∷ vs) h =
    let (now_active, rest) : (is_active v.state ≡ true)
        × (every (λ v. is_active v.state) vs ≡ true) =
      ground arith in
    ap (λ u. u ∷ with_state active (with_state disposing vs)) (same-state v now_active)
    ∙ ap (λ us. v ∷ us) (restore-active vs rest)

-- `p'` is `p` as it was before it waited on an orchestration, but for the version: it takes no response.
pub record Restored (p p' : ParticipantProfile) : Type 0 where
  pub id : p'.id ≡ p.id
  pub identifier : p'.identifier ≡ p.identifier
  pub tenant : p'.tenant_id ≡ p.tenant_id
  pub owner : p'.owner ≡ p.owner
  pub dataspaces : p'.dataspace_profile_ids ≡ p.dataspace_profile_ids
  pub roles : p'.participant_roles ≡ p.participant_roles
  pub vpas : p'.vpas ≡ p.vpas
  pub error : p'.error ≡ p.error
  pub error_detail : p'.error_detail ≡ p.error_detail
  pub properties :
      (k : String)
      → lookup p'.properties k
        ≡ (if str_eq pending_orchestration_key k then none else lookup p.properties k)
  pub waits_on_nothing : (r : OrchestrationResponse) → is_pending_orchestration p' r ≡ false

pub reverted-Restored :
    (p : ParticipantProfile) (m : OrchestrationManifest)
    → every (λ v. is_active v.state) p.vpas ≡ true
    → Restored p (next_version (reverted (next_version (to_dispose p m))))
unfolding set_pending_orchestration clear_pending is_pending_orchestration
reverted-Restored p m h = record {
  id = refl;
  identifier = refl;
  tenant = refl;
  owner = refl;
  dataspaces = refl;
  roles = refl;
  vpas = restore-active p.vpas h;
  error = refl;
  error_detail = refl;
  properties = λ k. elim (Bool-cases (str_eq pending_orchestration_key k)) [
    | inl y ↦ rw (lookup-delete (to_dispose p m).properties pending_orchestration_key k, y) refl
    | inr n ↦
        rw (lookup-delete (to_dispose p m).properties pending_orchestration_key k, n)
          (rw (lookup-insert p.properties pending_orchestration_key k (pending_value m), n) refl)
  ];
  waits_on_nothing = λ r. clear_pending-none (to_dispose p m) r;
}
