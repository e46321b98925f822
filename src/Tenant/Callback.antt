-- ===== src/Tenant/Callback.antt =====
-- vpaCallbackHandler: what a response does to the profile that waits for it
-- (tmanager/core/service_participant.go), and the dispatch by type (tmanager/natsprovision/provision.go).
pub mod Applied
use cfm.Prelude.{
  ℕ, String, Bool, true, false, Option, none, some, List, [], ◌∷◌, Map, insert, lookup, map,
  if◌then◌else◌,
}
use cfm.Json.{Value, object, Fields, field, end}
use cfm.Errors.{Error, wrapped, system_error, Result, ok, err}
use cfm.Engine.Client.{OrchestrationResponse}
use cfm.Tenant.{
  DeploymentState, active, error, disposed, ParticipantProfile, VirtualParticipantAgent,
  vpa_state_data,
}
use cfm.Tenant.Pending.{is_pending_orchestration, clear_pending}
use cfm.Tenant.Stores.{Stores}

abbrev pub fields_of : Map Value → Fields
fields_of [] = end
fields_of ((k, v) ∷ m) = field k v (fields_of m)

abbrev pub with_state :
    DeploymentState → List VirtualParticipantAgent → List VirtualParticipantAgent
with_state s [] = []
with_state s (v ∷ vs) = record v { state = s } ∷ with_state s vs

-- The update of handleDeploy
unfoldable pub deploy_updater : ParticipantProfile → OrchestrationResponse → ParticipantProfile
deploy_updater profile r = record profile {
  properties = insert profile.properties vpa_state_data (object (fields_of r.properties));
  vpas = with_state (if r.success then active else error) profile.vpas;
}

-- The update of handleDispose
unfoldable pub dispose_updater : ParticipantProfile → OrchestrationResponse → ParticipantProfile
dispose_updater profile r = record profile { vpas = with_state disposed profile.vpas }

abbrev pub Updater : Type 0
Updater = ParticipantProfile → OrchestrationResponse → ParticipantProfile

-- The profile that handle stores for a response to the pending orchestration. One that failed stays
-- pending, so that its compensation can still be applied.
abbrev pub applied_as :
    Bool → Updater → ParticipantProfile → OrchestrationResponse → ParticipantProfile
applied_as true handler profile r = handler (clear_pending profile) r
applied_as false handler profile r =
    handler (record profile { error = true; error_detail = r.error_detail }) r

unfoldable pub applied : Updater → ParticipantProfile → OrchestrationResponse → ParticipantProfile
unfolding clear_pending
applied handler profile r = applied_as r.success handler profile r

module _ (s : Stores) where
  open s use {World}

  abbrev pub after_update : World × Option Error → World × Result (Unit {0})
  after_update (w', none) = (w', ok tt)
  after_update (w', some e) = (w', err (wrapped "error updating participant profile" e))

  -- The callback that handle executes in a transaction.
  unfoldable pub handle_in : Updater → World → OrchestrationResponse → World × Result (Unit {0})
  unfolding applied is_pending_orchestration
  handle_in handler w r = elim (s.profiles.find_by_id w r.correlation_id) [
    | err _ ↦ (w, ok tt)
    | ok profile ↦
        if is_pending_orchestration profile r
        then after_update (s.profiles.update w (applied handler profile r))
        else (w, ok tt)
  ]

  unfoldable pub handle : Updater → World → OrchestrationResponse → World × Result (Unit {0})
  unfolding handle_in
  handle handler w r = s.commit w (handle_in handler w r)

  unfoldable pub handle_deploy : World → OrchestrationResponse → World × Result (Unit {0})
  unfolding handle deploy_updater
  handle_deploy = handle deploy_updater

  unfoldable pub handle_dispose : World → OrchestrationResponse → World × Result (Unit {0})
  unfolding handle dispose_updater
  handle_dispose = handle dispose_updater

  -- provisionCallbackService.Dispatch, over the registered handlers
  unfoldable pub dispatch :
      Map (World → OrchestrationResponse → World × Result (Unit {0}))
      → World
      → OrchestrationResponse
      → World × Result (Unit {0})
  dispatch handlers w r = elim (lookup handlers r.orchestration_type) [
    | none ↦ (w, err (system_error "provision handler not found for type"))
    | some handler ↦ handler w r
  ]
