-- ===== src/Tenant/Participants/Dispose/Reverting.antt =====
-- What DisposeProfile and revertDispose leave in the store (tmanager/core/service_participant.go).
use cfm.Prelude.{
  ℕ, ◌≡◌, refl, ap, sym, ◌∙◌, inl, inr, String, true, false, Option, none, some, lookup, subst,
  arith, every, str_eq,
}
use cfm.Json.{Value}
use cfm.Errors.{Error, wrapped, ok, err, Result-cases, bind-ok, if-ok, err_not_found}
use cfm.Tenant.{
  disposing, is_active, ParticipantProfile, OrchestrationManifest, next_version, vpa_state_data,
}
use cfm.Tenant.Access.{TenantAccess, check_access}
use cfm.Tenant.Pending.{
  set_pending_orchestration, is_pending_orchestration, clear_pending, set_pending_orchestration_iff,
  direct,
}
use cfm.Tenant.Stores.{Stores, IsSound, unless_error, unless_error-ok}
use cfm.Tenant.Callback.{with_state}
use cfm.Tenant.Participants.Dispose.Restored.{Restored, reverted-Restored}
use cfm.Tenant.Participants.Dispose.{
  all_active, to_dispose, prepare_disposal, dispose_in, after_update, reverted, reverted_or,
  response_to, revert_in, revert_dispose, dispose_failed, after_dispose_send, after_dispose_commit,
  dispose_profile, state_data_of, dispose_manifest,
}
use cfm.Tenant.Participants.{find_profile, get_filtered_profiles}

state_data_of-some :
    (p : ParticipantProfile) {v : Value}
    → state_data_of p ≡ ok v
    → lookup p.properties vpa_state_data ≡ some v
state_data_of-some p {v} h = go (lookup p.properties vpa_state_data) refl
  where
    go :
        (o : Option Value)
        → lookup p.properties vpa_state_data ≡ o
        → lookup p.properties vpa_state_data ≡ some v
    go none q = absurd (ground (arith, h, q))
    go (some x) q = ground (arith, h, q)

module _ (s : Stores) (sound : IsSound s) (ids : ℕ → String) where
  open s use {World}

  -- What must hold for a disposal to be prepared, and what is prepared.
  pub record Disposable (w : World) (ctx : Option TenantAccess) (tenant_id id : String)
      (p' : ParticipantProfile) (m : OrchestrationManifest) : Type 0 where
    pub profile : ParticipantProfile
    pub state_data : Value
    pub found : s.profiles.find_by_id w id ≡ ok profile
    pub of_tenant : str_eq profile.tenant_id tenant_id ≡ true
    pub accessible : check_access ctx profile.owner ≡ none
    pub deployed : every (λ v. is_active v.state) profile.vpas ≡ true
    pub with_data : lookup profile.properties vpa_state_data ≡ some state_data
    pub prepared : p' ≡ to_dispose profile m
    pub manifest_id : m.id ≡ ids 0
    pub correlation : m.correlation_id ≡ id

  find_profile-ok :
      (w : World) (ctx : Option TenantAccess) (tenant_id id : String) (p : ParticipantProfile)
      → find_profile s w ctx tenant_id id ≡ ok p
      → (s.profiles.find_by_id w id ≡ ok p)
        × (str_eq p.tenant_id tenant_id ≡ true)
        × (check_access ctx p.owner ≡ none)
  unfolding find_profile
  find_profile-ok w ctx tenant_id id p h =
      let (q, found, guarded) = bind-ok (s.profiles.find_by_id w id) _ h in
      let (same, checked) = if-ok (str_eq q.tenant_id tenant_id) _ err_not_found guarded in
      let (u, allowed, eq) = bind-ok (unless_error (check_access ctx q.owner)) _ checked in
      let same_q : q ≡ p = ground arith in
      rw (← same_q) (found, same, unless_error-ok (check_access ctx q.owner) allowed)

  prepare_disposal-Disposable :
      (w : World) (ctx : Option TenantAccess) (tenant_id id : String) (p : ParticipantProfile)
      (m : OrchestrationManifest)
      → prepare_disposal s ids w ctx tenant_id id ≡ ok (p, m)
      → Disposable w ctx tenant_id id p m
  unfolding prepare_disposal
  prepare_disposal-Disposable w ctx tenant_id id p m h =
      let (q, found, rest) = bind-ok (find_profile s w ctx tenant_id id) _ h in
      let (in_store, same, allowed) = find_profile-ok w ctx tenant_id id q found in
      let (ready, rest2) = if-ok (all_active q) _ _ rest in
      let (value, has_data, rest3) = bind-ok (state_data_of q) _ rest2 in
      let (profiles, some_found, rest4) =
        bind-ok (get_filtered_profiles s w q.dataspace_profile_ids) _ rest3 in
      let m0 = dispose_manifest s ids id q value profiles in
      let same_p : to_dispose q m0 ≡ p = ground arith in
      let same_m : m0 ≡ m = ground arith in
      record {
        profile = q;
        state_data = value;
        found = in_store;
        of_tenant = same;
        accessible = allowed;
        deployed = ready;
        with_data = state_data_of-some q has_data;
        prepared = sym same_p ∙ ap (to_dispose q) same_m;
        manifest_id = ap (λ (x : OrchestrationManifest). x.id) (sym same_m);
        correlation = ap (λ (x : OrchestrationManifest). x.correlation_id) (sym same_m);
      }

  after_update-ok :
      (m0 m : OrchestrationManifest) (x : World × Option Error) (w' : World)
      → after_update s m0 x ≡ (w', ok m)
      → (x ≡ (w', none)) × (m0 ≡ m)
  after_update-ok m0 m (w1, none) w' h = ground arith
  after_update-ok m0 m (w1, some e) w' h = absurd (ground arith)

  -- A disposal that is committed was allowed, for a profile that is deployed and whose VPAs are all
  -- active, and leaves that profile waiting on the new manifest with all its VPAs disposing.
  pub dispose_in-ok :
      (w w' : World) (ctx : Option TenantAccess) (tenant_id id : String) (m : OrchestrationManifest)
      → s.commit w (dispose_in s ids w ctx tenant_id id) ≡ (w', ok m)
      → (p' : ParticipantProfile) × Disposable w ctx tenant_id id p' m
        × (s.profiles.find_by_id w' p'.id ≡ ok (next_version p'))
  unfolding dispose_in
  dispose_in-ok w w' ctx tenant_id id m h =
      let done = sound.committed w (dispose_in s ids w ctx tenant_id id) w' m h in
      elim (Result-cases (prepare_disposal s ids w ctx tenant_id id)) [
        | inl (e, q) ↦ absurd (ground (arith, rw (q, dispose_in) at done))
        | inr ((p, m0), q) ↦
            let (written, same) =
              after_update-ok m0 m (s.profiles.update w p) w' (rw (q, dispose_in) at done) in
            (
              p,
              prepare_disposal-Disposable w ctx tenant_id id p m (q ∙ ap (λ x. ok (p, x)) same),
              sound.profiles-IsLawful.find-update w p w' written,
            )
      ]

  reverted_or-ok :
      (x : World × Option Error) (w' : World) → reverted_or s x ≡ (w', ok tt) → x ≡ (w', none)
  reverted_or-ok (w1, none) w' h = ground arith
  reverted_or-ok (w1, some e) w' h = absurd (ground arith)

  to_dispose-pending :
      (q : ParticipantProfile) (m : OrchestrationManifest)
      → str_eq m.id "" ≡ false
      → is_pending_orchestration (next_version (to_dispose q m)) (response_to m) ≡ true
  unfolding is_pending_orchestration set_pending_orchestration
  to_dispose-pending q m fresh =
      (set_pending_orchestration_iff (record q { vpas = with_state disposing q.vpas }) m
          (response_to m) fresh).1
        (direct refl refl)

  revert_in-pending :
      (w : World) (id : String) (m : OrchestrationManifest) (q : ParticipantProfile)
      → s.profiles.find_by_id w id ≡ ok q
      → is_pending_orchestration q (response_to m) ≡ true
      → revert_in s w id m ≡ reverted_or s (s.profiles.update w (reverted q))
  unfolding revert_in
  revert_in-pending w id m q found y = rw (found, revert_in, y)

  -- What a committed revert leaves of a profile that is being disposed.
  revert_dispose-stored :
      (w w' : World) (id : String) (m : OrchestrationManifest) (q : ParticipantProfile)
      → s.profiles.find_by_id w id ≡ ok (next_version (to_dispose q m))
      → q.id ≡ id
      → str_eq m.id "" ≡ false
      → revert_dispose s w id m ≡ (w', ok tt)
      → s.profiles.find_by_id w' id ≡ ok (next_version (reverted (next_version (to_dispose q m))))
  unfolding revert_dispose set_pending_orchestration clear_pending
  revert_dispose-stored w w' id m q found same fresh h =
      let p' = next_version (to_dispose q m) in
      let done = sound.committed w (revert_in s w id m) w' tt h in
      let written =
        reverted_or-ok (s.profiles.update w (reverted p')) w'
          (sym (revert_in-pending w id m p' found (to_dispose-pending q m fresh)) ∙ done) in
      ap (s.profiles.find_by_id w') (sym same)
      ∙ sound.profiles-IsLawful.find-update w (reverted p') w' written

  to_dispose-id : (q : ParticipantProfile) (m : OrchestrationManifest) → (to_dispose q m).id ≡ q.id
  unfolding set_pending_orchestration
  to_dispose-id q m = refl

  dispose_profile-failed :
      (w w1 w2 w3 : World) (ctx : Option TenantAccess) (tenant_id id : String)
      (m : OrchestrationManifest) (e : Error)
      → s.commit w (dispose_in s ids w ctx tenant_id id) ≡ (w1, ok m)
      → s.send w1 m ≡ (w2, some e)
      → revert_dispose s w2 id m ≡ (w3, ok tt)
      → dispose_profile s ids w ctx tenant_id id
        ≡ (w3, err (wrapped "error disposing participant" e))
  unfolding dispose_profile
  dispose_profile-failed w w1 w2 w3 ctx tenant_id id m e h sent back =
      ap (after_dispose_commit s id) h
      ∙ ap (after_dispose_send s id m) sent
      ∙ ap (dispose_failed s e) back

  -- When a disposal was committed, its manifest cannot be sent and its revert is committed, the caller gets
  -- the error, and the stored profile waits on nothing, so that it takes no response, and is what it was
  -- before the disposal, but for its version and its pending mark.
  pub dispose_profile-reverted :
      (w w1 w2 w3 : World) (ctx : Option TenantAccess) (tenant_id id : String)
      (m : OrchestrationManifest) (e : Error) (p : ParticipantProfile)
      → s.commit w (dispose_in s ids w ctx tenant_id id) ≡ (w1, ok m)
      → s.profiles.find_by_id w id ≡ ok p
      → p.id ≡ id
      → str_eq (ids 0) "" ≡ false
      → s.send w1 m ≡ (w2, some e)
      → revert_dispose s w2 id m ≡ (w3, ok tt)
      → (dispose_profile s ids w ctx tenant_id id
          ≡ (w3, err (wrapped "error disposing participant" e)))
        × ((p' : ParticipantProfile) × (s.profiles.find_by_id w3 id ≡ ok p') × Restored p p')
  dispose_profile-reverted w w1 w2 w3 ctx tenant_id id m e p h found same fresh sent back =
      let (p', d, stored) = dispose_in-ok w w1 ctx tenant_id id m h in
      let q = d.profile in
      let was : q ≡ p = ground (arith, d.found, found) in
      let q_id : q.id ≡ id = ap (λ (x : ParticipantProfile). x.id) was ∙ same in
      let p_id : p'.id ≡ id =
        ap (λ (x : ParticipantProfile). x.id) d.prepared ∙ (to_dispose-id q m ∙ q_id) in
      let in_w1 : s.profiles.find_by_id w1 id ≡ ok (next_version (to_dispose q m)) =
        ap (s.profiles.find_by_id w1) (sym p_id)
        ∙ (stored ∙ ap (λ x. ok (next_version x)) d.prepared) in
      let in_w2 : s.profiles.find_by_id w2 id ≡ ok (next_version (to_dispose q m)) =
        ap (λ (x : World × Option Error). s.profiles.find_by_id x.0 id) (sym sent)
        ∙ (sound.sending w1 m id ∙ in_w1) in
      let nonempty : str_eq m.id "" ≡ false = ap (λ k. str_eq k "") d.manifest_id ∙ fresh in
      (
        dispose_profile-failed w w1 w2 w3 ctx tenant_id id m e h sent back,
        (
          next_version (reverted (next_version (to_dispose q m))),
          revert_dispose-stored w2 w3 id m q in_w2 q_id nonempty back,
          subst (λ x. Restored x (next_version (reverted (next_version (to_dispose q m))))) was
              (reverted-Restored q m d.deployed),
        ),
      )
