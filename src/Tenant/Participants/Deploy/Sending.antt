-- ===== src/Tenant/Participants/Deploy/Sending.antt =====
-- What DeployProfile stores and sends (tmanager/core/service_participant.go).
use cfm.Prelude.{
  ℕ, ◌≡◌, refl, ap, sym, ◌∙◌, ◌↔◌, inl, inr, String, true, false, Option, none, some, arith, str_eq,
}
use cfm.Errors.{Error, wrapped, Result, ok, err, err_not_found, Result-cases, bind-ok}
use cfm.Store.{lock_shared}
use cfm.Engine.Client.{OrchestrationResponse}
use cfm.Tenant.{ParticipantProfile, Tenant, OrchestrationManifest, vpa_deploy_type}
use cfm.Tenant.Access.{TenantAccess, check_access}
use cfm.Tenant.Pending.{
  set_pending_orchestration, is_pending_orchestration, set_pending_orchestration_iff, Answers,
}
use cfm.Tenant.Generation.{Selector, Deployment, generate, generated}
use cfm.Tenant.Stores.{Stores, IsSound, unless_error, unless_error-ok}
use cfm.Tenant.Participants.Deploy.{
  owned, deploy_manifest, prepare_deployment, deploy_in, after_create, after_send, after_commit,
  delete_in, send_failed, deploy_profile,
}
use cfm.Tenant.Participants.{lock_references, get_filtered_profiles}

module _ (s : Stores) (sound : IsSound s) (selector : Selector) (ids : ℕ → String) (now : ℕ) where
  open s use {World}

  -- What a deployment is prepared from: a tenant that the caller may access, and a cell that is selected.
  pub record Deployable (w : World) (ctx : Option TenantAccess) (tenant_id : String)
      (p' : ParticipantProfile) (m : OrchestrationManifest) : Type 0 where
    pub tenant : Tenant
    pub found : s.tenants.find_by_id_and_lock w tenant_id lock_shared ≡ ok tenant
    pub accessible : check_access ctx tenant.owner ≡ none
    pub profile : ParticipantProfile
    pub prepared : p' ≡ set_pending_orchestration profile m
    pub owner : profile.owner ≡ tenant.owner
    pub of_tenant : profile.tenant_id ≡ tenant_id
    pub locked : lock_references s w profile ≡ ok tt
    pub manifest_id : m.id ≡ ids 5
    pub correlation : m.correlation_id ≡ profile.id
    pub type : m.orchestration_type ≡ vpa_deploy_type

  prepare_deployment-Deployable :
      (w : World) (ctx : Option TenantAccess) (tenant_id : String) (d : Deployment)
      (p : ParticipantProfile) (m : OrchestrationManifest)
      → prepare_deployment s selector ids now w ctx tenant_id d ≡ ok (p, m)
      → Deployable w ctx tenant_id p m
  unfolding prepare_deployment generate
  prepare_deployment-Deployable w ctx tenant_id d p m h =
      let (tenant, found, h1) =
        bind-ok (s.tenants.find_by_id_and_lock w tenant_id lock_shared) _ h in
      let (u, allowed, h2) = bind-ok (unless_error (check_access ctx tenant.owner)) _ h1 in
      let (cells, all_cells, h3) = bind-ok (s.cells.get_all w) _ h2 in
      let (profiles, all_profiles, h4) =
        bind-ok (get_filtered_profiles s w d.dataspace_profile_ids) _ h3 in
      let (q, made, h5) = bind-ok (generate selector ids now tenant_id d cells profiles) _ h4 in
      let (cell, selected, made') = bind-ok (selector vpa_deploy_type cells profiles) _ made in
      let (v, locks, h6) = bind-ok (lock_references s w (owned tenant q)) _ h5 in
      let m0 = deploy_manifest s selector ids now (owned tenant q) profiles in
      let same_p : set_pending_orchestration (owned tenant q) m0 ≡ p = ground arith in
      let same_m : m0 ≡ m = ground arith in
      let same_q : generated ids now tenant_id d profiles cell ≡ q = ground arith in
      record {
        tenant = tenant;
        found = found;
        accessible = unless_error-ok (check_access ctx tenant.owner) allowed;
        profile = owned tenant q;
        prepared = sym same_p ∙ ap (set_pending_orchestration (owned tenant q)) same_m;
        owner = refl;
        of_tenant = ap (λ (x : ParticipantProfile). x.tenant_id) (sym same_q);
        locked = locks;
        manifest_id = ap (λ (x : OrchestrationManifest). x.id) (sym same_m);
        correlation = ap (λ (x : OrchestrationManifest). x.correlation_id) (sym same_m);
        type = ap (λ (x : OrchestrationManifest). x.orchestration_type) (sym same_m);
      }

  after_create-ok :
      (m0 m : OrchestrationManifest) (x : World × Result ParticipantProfile) (w' : World)
      (p : ParticipantProfile)
      → after_create s selector ids now m0 x ≡ (w', ok (p, m))
      → (x ≡ (w', ok p)) × (m0 ≡ m)
  after_create-ok m0 m (w1, ok q) w' p h = (ground arith, ground arith)
  after_create-ok m0 m (w1, err e) w' p h = absurd (ground arith)

  -- A deployment that is committed was allowed, and the profile it stores waits on its manifest.
  pub deploy_in-ok :
      (w w' : World) (ctx : Option TenantAccess) (tenant_id : String) (d : Deployment)
      (p : ParticipantProfile) (m : OrchestrationManifest)
      → s.commit w (deploy_in s selector ids now w ctx tenant_id d) ≡ (w', ok (p, m))
      → Deployable w ctx tenant_id p m × (s.profiles.find_by_id w' p.id ≡ ok p)
  unfolding deploy_in
  deploy_in-ok w w' ctx tenant_id d p m h =
      let done = sound.committed w (deploy_in s selector ids now w ctx tenant_id d) w' (p, m) h in
      elim (Result-cases (prepare_deployment s selector ids now w ctx tenant_id d)) [
        | inl (e, q) ↦ absurd (ground (arith, rw (q, deploy_in) at done))
        | inr ((p0, m0), q) ↦
            let (written, same) =
              after_create-ok m0 m (s.profiles.create w p0) w' p (rw (q, deploy_in) at done) in
            let (stored, given) = sound.profiles-IsLawful.find-create w p0 w' p written in
            (
              prepare_deployment-Deployable w ctx tenant_id d p m
                  (q ∙ (ap (λ x. ok (x, m0)) (sym given) ∙ ap (λ x. ok (p, x)) same)),
              ap (λ (x : ParticipantProfile). s.profiles.find_by_id w' x.id) given
                  ∙ (stored ∙ ap (λ x. ok x) (sym given)),
            )
      ]

  -- A deployment whose manifest is sent returns the profile that it stored, for a tenant that the caller
  -- may access, and the profile takes exactly the responses to that manifest.
  pub deploy_profile-sent :
      (w w1 w2 : World) (ctx : Option TenantAccess) (tenant_id : String) (d : Deployment)
      (p : ParticipantProfile) (m : OrchestrationManifest)
      → s.commit w (deploy_in s selector ids now w ctx tenant_id d) ≡ (w1, ok (p, m))
      → s.send w1 m ≡ (w2, none)
      → str_eq (ids 5) "" ≡ false
      → (deploy_profile s selector ids now w ctx tenant_id d ≡ (w2, ok p))
        × (s.profiles.find_by_id w2 p.id ≡ ok p)
        × Deployable w ctx tenant_id p m
        × ((r : OrchestrationResponse) → (is_pending_orchestration p r ≡ true) ↔ Answers m r)
  unfolding deploy_profile
  deploy_profile-sent w w1 w2 ctx tenant_id d p m h sent fresh =
      let (x, stored) = deploy_in-ok w w1 ctx tenant_id d p m h in
      let nonempty : str_eq m.id "" ≡ false = ap (λ k. str_eq k "") x.manifest_id ∙ fresh in
      (
        ap (after_commit s selector ids now) h ∙ ap (after_send s selector ids now p) sent,
        ap (λ (y : World × Option Error). s.profiles.find_by_id y.0 p.id) (sym sent)
            ∙ (sound.sending w1 m p.id ∙ stored),
        x,
        λ r. rw x.prepared (set_pending_orchestration_iff x.profile m r nonempty),
      )

  delete_in-ok :
      (x : World × Option Error) (w' : World)
      → delete_in s selector ids now x ≡ (w', ok tt)
      → x ≡ (w', none)
  delete_in-ok (w1, none) w' h = ground arith
  delete_in-ok (w1, some e) w' h = absurd (ground arith)

  -- A deployment whose manifest cannot be sent leaves no profile behind, if the removal is committed.
  pub deploy_profile-unsent :
      (w w1 w2 w3 : World) (ctx : Option TenantAccess) (tenant_id : String) (d : Deployment)
      (p : ParticipantProfile) (m : OrchestrationManifest) (e : Error)
      → s.commit w (deploy_in s selector ids now w ctx tenant_id d) ≡ (w1, ok (p, m))
      → s.send w1 m ≡ (w2, some e)
      → s.commit w2 (delete_in s selector ids now (s.profiles.delete w2 p.id)) ≡ (w3, ok tt)
      → (deploy_profile s selector ids now w ctx tenant_id d
          ≡ (w3, err (wrapped "error deploying participant" e)))
        × (s.profiles.find_by_id w3 p.id ≡ err err_not_found)
  unfolding deploy_profile
  deploy_profile-unsent w w1 w2 w3 ctx tenant_id d p m e h sent removed = (
    ap (after_commit s selector ids now) h
        ∙ (ap (after_send s selector ids now p) sent
            ∙ ap (send_failed s selector ids now e) removed),
    sound.profiles-IsLawful.find-delete w2 p.id w3 (
        delete_in-ok (s.profiles.delete w2 p.id) w3 (
          sound.committed w2 (delete_in s selector ids now (s.profiles.delete w2 p.id)) w3 tt
            removed)),
  )
