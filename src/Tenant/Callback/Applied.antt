-- ===== src/Tenant/Callback/Applied.antt =====
-- How often, and to which profiles, responses are applied (tmanager/core/service_participant.go).
use cfm.Prelude.{
  ◌≡◌, refl, ap, sym, ◌∙◌, Bool, true, false, Option, none, some, List, [], ◌∷◌, lookup,
  lookup-insert, arith, if◌then◌else◌,
}
use cfm.Json.{object}
use cfm.Errors.{Error, ok}
use cfm.Engine.Client.{OrchestrationResponse}
use cfm.Tenant.{
  DeploymentState, active, error, disposed, ParticipantProfile, VirtualParticipantAgent,
  vpa_state_data, next_version,
}
use cfm.Tenant.Pending.{
  is_pending_orchestration, clear_pending, clear_pending-none, pending_orchestration_key,
}
use cfm.Tenant.Stores.{Stores, IsSound}
use cfm.Tenant.Callback.{
  with_state, fields_of, Updater, applied, applied_as, deploy_updater, dispose_updater,
  after_update, handle_in, handle,
}

-- The updaters that the Tenant Manager registers.
pub data Registered : Updater → Type 0 where
  deploying : Registered deploy_updater
  disposing : Registered dispose_updater

-- What a successful response makes of the profile `p`: after a deployment all its VPAs are active and the
-- response's properties are its state data; after a disposal all its VPAs are disposed.
abbrev pub Effect :
    (f : Updater)
    → Registered f
    → ParticipantProfile
    → OrchestrationResponse
    → ParticipantProfile
    → Type 0
Effect f deploying p r p' =
    (p'.vpas ≡ with_state active p.vpas)
    × (lookup p'.properties vpa_state_data ≡ some (object (fields_of r.properties)))
Effect f disposing p r p' = p'.vpas ≡ with_state disposed p.vpas

updater-Effect :
    (f : Updater) (x : Registered f) (p : ParticipantProfile) (r : OrchestrationResponse)
    → r.success ≡ true
    → Effect f x p r (next_version (f (clear_pending p) r))
unfolding deploy_updater dispose_updater clear_pending
updater-Effect f deploying p r good = (
  ap (λ b. with_state (if b then active else error) p.vpas) good,
  lookup-insert (clear_pending p).properties vpa_state_data vpa_state_data
      (object (fields_of r.properties)),
)
updater-Effect f disposing p r good = refl

-- An updater keeps the ID, and does not decide which responses are pending.
updater-id :
    (f : Updater) (p : ParticipantProfile) (r : OrchestrationResponse)
    → Registered f
    → (f p r).id ≡ p.id
unfolding deploy_updater dispose_updater
updater-id f p r deploying = refl
updater-id f p r disposing = refl

updater-pending :
    (f : Updater) (p : ParticipantProfile) (r q : OrchestrationResponse)
    → Registered f
    → is_pending_orchestration (f p r) q ≡ is_pending_orchestration p q
unfolding deploy_updater dispose_updater is_pending_orchestration
updater-pending f p r q deploying = rw (
  is_pending_orchestration,
  lookup-insert p.properties vpa_state_data pending_orchestration_key _,
)
updater-pending f p r q disposing = refl

applied_as-id :
    (b : Bool) (f : Updater) (p : ParticipantProfile) (r : OrchestrationResponse)
    → Registered f
    → (applied_as b f p r).id ≡ p.id
unfolding clear_pending
applied_as-id true f p r x = updater-id f (clear_pending p) r x
applied_as-id false f p r x =
    updater-id f (record p { error = true; error_detail = r.error_detail }) r x

-- Once a successful response is applied no response is pending, and once a failed one is, those are that
-- were before.
applied_as-pending :
    (b : Bool) (f : Updater) (p : ParticipantProfile) (r q : OrchestrationResponse)
    → Registered f
    → is_pending_orchestration (next_version (applied_as b f p r)) q
      ≡ (if b then false else is_pending_orchestration p q)
unfolding is_pending_orchestration
applied_as-pending true f p r q x =
    updater-pending f (clear_pending p) r q x ∙ clear_pending-none p q
applied_as-pending false f p r q x =
    updater-pending f (record p { error = true; error_detail = r.error_detail }) r q x

with_state-with_state :
    (a b : DeploymentState) (vs : List VirtualParticipantAgent)
    → with_state a (with_state b vs) ≡ with_state a vs
with_state-with_state a b [] = refl
with_state-with_state a b (v ∷ vs) =
    ap (λ rest. record v { state = a } ∷ rest) (with_state-with_state a b vs)

disposed-after :
    (b : Bool) (p : ParticipantProfile) (r q : OrchestrationResponse)
    → let p1 = next_version (applied_as false deploy_updater p r) in
      ((applied_as b dispose_updater p1 q).error ≡ true)
      × ((applied_as b dispose_updater p1 q).vpas ≡ with_state disposed p.vpas)
unfolding deploy_updater dispose_updater clear_pending
disposed-after true p r q = (refl, with_state-with_state disposed _ p.vpas)
disposed-after false p r q = (refl, with_state-with_state disposed _ p.vpas)

module _ (s : Stores) (sound : IsSound s) where
  open s use {World}

  handle_in-pending :
      (f : Updater) (w : World) (r : OrchestrationResponse) (p : ParticipantProfile)
      → s.profiles.find_by_id w r.correlation_id ≡ ok p
      → is_pending_orchestration p r ≡ true
      → handle_in s f w r ≡ after_update s (s.profiles.update w (applied f p r))
  unfolding handle_in
  handle_in-pending f w r p found y = rw (found, handle_in, y)

  -- A response that the profile does not wait for is acknowledged and changes nothing.
  unexpected_ignored :
      (f : Updater) (w : World) (r : OrchestrationResponse) (p : ParticipantProfile)
      → s.profiles.find_by_id w r.correlation_id ≡ ok p
      → is_pending_orchestration p r ≡ false
      → handle s f w r ≡ s.commit w (w, ok tt)
  unfolding handle handle_in
  unexpected_ignored f w r p found n = ap (s.commit w) (rw (found, handle_in, n))

  after_update-ok :
      (x : World × Option Error) (w' : World) → after_update s x ≡ (w', ok tt) → x ≡ (w', none)
  after_update-ok (w1, none) w' h = ground arith
  after_update-ok (w1, some e) w' h = absurd (ground arith)

  -- What a committed response to the pending orchestration leaves in the store.
  handled-stored :
      (f : Updater) (w w' : World) (r : OrchestrationResponse) (p : ParticipantProfile)
      → Registered f
      → s.profiles.find_by_id w r.correlation_id ≡ ok p
      → p.id ≡ r.correlation_id
      → is_pending_orchestration p r ≡ true
      → handle s f w r ≡ (w', ok tt)
      → s.profiles.find_by_id w' r.correlation_id ≡ ok (next_version (applied f p r))
  unfolding handle applied
  handled-stored f w w' r p x found same y h =
      let done : handle_in s f w r ≡ (w', ok tt) = sound.committed w (handle_in s f w r) w' tt h in
      let written =
        after_update-ok (s.profiles.update w (applied f p r)) w'
          (sym (handle_in-pending f w r p found y) ∙ done) in
      ap (s.profiles.find_by_id w') (sym (applied_as-id r.success f p r x ∙ same))
      ∙ sound.profiles-IsLawful.find-update w (applied f p r) w' written

  -- A successful response is applied once: it makes the profile's VPAs active, with the response's
  -- properties as the state data, if it is to a deployment, and disposed if to a disposal. The profile then
  -- waits for nothing, so that a further response for it, the same one included, that is handled in the
  -- world this left only commits a transaction that does nothing.
  pub success_applied_once :
      (f g : Updater) (w w' : World) (r q : OrchestrationResponse) (p : ParticipantProfile)
      → (x : Registered f) → s.profiles.find_by_id w r.correlation_id ≡ ok p
      → p.id ≡ r.correlation_id
      → is_pending_orchestration p r ≡ true
      → r.success ≡ true
      → q.correlation_id ≡ r.correlation_id
      → handle s f w r ≡ (w', ok tt)
      → (s.profiles.find_by_id w' r.correlation_id ≡ ok (next_version (f (clear_pending p) r)))
        × (handle s g w' q ≡ s.commit w' (w', ok tt))
        × Effect f x p r (next_version (f (clear_pending p) r))
  unfolding applied
  success_applied_once f g w w' r q p x found same y good to h =
      let stored : s.profiles.find_by_id w' r.correlation_id
          ≡ ok (next_version (applied_as true f p r)) =
        handled-stored f w w' r p x found same y h
        ∙ ap (λ b. ok (next_version (applied_as b f p r))) good in
      (
        stored,
        unexpected_ignored g w' q _ (ap (s.profiles.find_by_id w') to ∙ stored)
            (applied_as-pending true f p r q x),
        updater-Effect f x p r good,
      )

  -- A failed response is applied, and the profile keeps waiting: the compensation that answers the same
  -- pending orchestration is still taken, and leaves every VPA disposed.
  pub failure_compensated :
      (w w1 w2 : World) (r q : OrchestrationResponse) (p : ParticipantProfile)
      → s.profiles.find_by_id w r.correlation_id ≡ ok p
      → p.id ≡ r.correlation_id
      → is_pending_orchestration p r ≡ true
      → r.success ≡ false
      → q.correlation_id ≡ r.correlation_id
      → is_pending_orchestration p q ≡ true
      → handle s deploy_updater w r ≡ (w1, ok tt)
      → handle s dispose_updater w1 q ≡ (w2, ok tt)
      → (p' : ParticipantProfile) × (s.profiles.find_by_id w2 r.correlation_id ≡ ok p')
        × (p'.error ≡ true)
        × (p'.vpas ≡ with_state disposed p.vpas)
  unfolding applied
  failure_compensated w w1 w2 r q p found same y bad to z h1 h2 =
      let p1 = next_version (applied_as false deploy_updater p r) in
      let stored : s.profiles.find_by_id w1 r.correlation_id ≡ ok p1 =
        handled-stored deploy_updater w w1 r p deploying found same y h1
        ∙ ap (λ b. ok (next_version (applied_as b deploy_updater p r))) bad in
      let waits = applied_as-pending false deploy_updater p r q deploying ∙ z in
      let again =
        handled-stored dispose_updater w1 w2 q p1 disposing
          (ap (s.profiles.find_by_id w1) to ∙ stored)
          (applied_as-id false deploy_updater p r deploying ∙ (same ∙ sym to)) waits h2 in
      let (flagged, states) = disposed-after q.success p r q in
      (
        next_version (applied dispose_updater p1 q),
        ap (s.profiles.find_by_id w2) (sym to) ∙ again,
        flagged,
        states,
      )
