-- ===== src/Tenant/Services/Guards.antt =====
-- What the deletions of tenants, cells and dataspace profiles check first (tmanager/core).
use cfm.Prelude.{
  ℕ, zero, suc, ◌≡◌, refl, ◌⊎◌, inl, inr, String, Bool, true, false, str_eq, Option, none, some,
  List, [], ◌∷◌, All, arith, Map, Bool-cases, Option-cases,
}
use cfm.Json.{Value}
use cfm.Errors.{Error, Result, ok, err, err_not_found, is_not_found, Result-cases, bind-ok}
use cfm.Store.{lock_exclusive}
use cfm.Tenant.{disposed, Tenant, Cell, ParticipantProfile, DataspaceProfile}
use cfm.Tenant.References.Unused.{participant_unused, dataspace_profile_unused}
use cfm.Tenant.Access.{TenantAccess, tenant_access_from_context, allows, check_access}
use cfm.Tenant.References.{participant_uses_cell, dataspace_profile_uses_cell}
use cfm.Tenant.Stores.{Stores, IsSound}
use cfm.Tenant.Services.{
  find_tenant, of_tenant, unless_counted, delete_tenant_in, delete_tenant, patch_in, in_cell,
  deployed_in, unless_used, uses, check_cell_unused, delete_if, delete_cell, written,
}

All-map {ℓ ℓ' ℓ''} :
    {A : Type ℓ} {P : A → Type ℓ'} {Q : A → Type ℓ''} (f : (x : A) → P x → Q x) (xs : List A)
    → All P xs
    → All Q xs
All-map f [] h = tt
All-map f (x ∷ xs) h = (f x h.0, All-map f xs h.1)

module _ (s : Stores) (sound : IsSound s) where
  open s use {World}

  unless_used-ok {ℓ} :
      {A : Type ℓ} (f : A → Bool) (xs : List A) (text : String)
      → unless_used s (uses s f xs) text ≡ ok tt
      → All (λ x. f x ≡ false) xs
  unless_used-ok f [] text h = tt
  unless_used-ok f (x ∷ xs) text h = elim (Bool-cases (f x)) [
    | inl y ↦ absurd (ground (arith, rw y at h))
    | inr n ↦ (n, unless_used-ok f xs text (rw n at h))
  ]

  delete_if-ok :
      (w w' : World) (r : Result (Unit {0})) (x : World × Option Error)
      → delete_if s w r x ≡ (w', ok tt)
      → (r ≡ ok tt) × (x ≡ (w', none))
  delete_if-ok w w' (err e) x h = absurd (ground arith)
  delete_if-ok w w' (ok tt) (w1, none) h = (refl, ground arith)
  delete_if-ok w w' (ok tt) (w1, some e) h = absurd (ground arith)

  -- A deletion of a cell that was there. Of the participant and dataspace profiles that the stores know to
  -- refer to it, each VPA and each deployment is in another cell or disposed.
  pub record CellUnused (w : World) (id : String) (w' : World) : Type 0 where
    pub cell : Cell
    pub participants : List ParticipantProfile
    pub dataspaces : List DataspaceProfile
    pub found : s.cells.find_by_id_and_lock w id lock_exclusive ≡ ok cell
    pub all_participants : s.profiles.find_by_predicate w (in_cell s id) ≡ ok participants
    pub all_dataspaces : s.dataspaces.find_by_predicate w (deployed_in s id) ≡ ok dataspaces
    pub no_vpa :
        All
          (λ p. All (λ v. (str_eq v.cell_id id ≡ false) ⊎ (v.state ≡ disposed)) p.vpas)
          participants
    pub no_deployment :
        All
          (λ d. All (λ x. (str_eq x.cell_id id ≡ false) ⊎ (x.state ≡ disposed)) d.deployments)
          dataspaces
    pub deleted : s.cells.delete w id ≡ (w', none)

  -- A cell is deleted only if it exists, and every VPA and every deployment of the profiles that the stores'
  -- queries for the cell give is in another cell or is disposed.
  pub delete_cell-CellUnused :
      (w w' : World) (id : String) → delete_cell s w id ≡ (w', ok tt) → CellUnused w id w'
  unfolding delete_cell check_cell_unused
  delete_cell-CellUnused w w' id h =
      let done =
        sound.committed w (delete_if s w (check_cell_unused s w id) (s.cells.delete w id)) w' tt
          h in
      let (passed, gone) =
        delete_if-ok w w' (check_cell_unused s w id) (s.cells.delete w id) done in
      let (cell, found, h1) = bind-ok (s.cells.find_by_id_and_lock w id lock_exclusive) _ passed in
      let (ps, all_ps, h2) = bind-ok (s.profiles.find_by_predicate w (in_cell s id)) _ h1 in
      let (u, unused, h3) =
        bind-ok (unless_used s (uses s (λ p. participant_uses_cell p id) ps) _) _ h2 in
      let (ds, all_ds, h4) = bind-ok (s.dataspaces.find_by_predicate w (deployed_in s id)) _ h3 in
      record {
        cell = cell;
        participants = ps;
        dataspaces = ds;
        found = found;
        all_participants = all_ps;
        all_dataspaces = all_ds;
        no_vpa =
            All-map (λ p. participant_unused p id) ps
              (unless_used-ok (λ p. participant_uses_cell p id) ps _ unused);
        no_deployment =
            All-map (λ d. dataspace_profile_unused d id) ds
              (unless_used-ok (λ d. dataspace_profile_uses_cell d id) ds _ h4);
        deleted = gone;
      }

  written-ok : (x : World × Option Error) (w' : World) → written s x ≡ (w', ok tt) → x ≡ (w', none)
  written-ok (w1, none) w' h = ground arith
  written-ok (w1, some e) w' h = absurd (ground arith)

  unless_counted-ok :
      (w w' : World) (t : Tenant) (n : Result ℕ)
      → unless_counted s w t n ≡ (w', ok tt)
      → (n ≡ ok 0) × (s.tenants.delete w t.id ≡ (w', none))
  unless_counted-ok w w' t (err e) h = absurd (ground arith)
  unless_counted-ok w w' t (ok zero) h = (refl, written-ok (s.tenants.delete w t.id) w' h)
  unless_counted-ok w w' t (ok (suc n)) h = absurd (ground arith)

  -- A tenant is deleted only if the caller may access it and no profile of it is counted.
  delete_tenant-ok :
      (w w' : World) (ctx : Option TenantAccess) (id : String)
      → delete_tenant s w ctx id ≡ (w', ok tt)
      → (t : Tenant) × (s.tenants.find_by_id_and_lock w id lock_exclusive ≡ ok t)
        × (check_access ctx t.owner ≡ none)
        × (s.profiles.count_by_predicate w (of_tenant s t) ≡ ok 0)
        × (s.tenants.delete w t.id ≡ (w', none))
  unfolding delete_tenant delete_tenant_in
  delete_tenant-ok w w' ctx id h =
      let done = sound.committed w (delete_tenant_in s w ctx id) w' tt h in
      elim (Result-cases (s.tenants.find_by_id_and_lock w id lock_exclusive)) [
        | inl (e, q) ↦ absurd (ground (arith, rw (q, delete_tenant_in) at done))
        | inr (t, q) ↦
            let done2 = rw (q, delete_tenant_in) at done in
            elim (Option-cases (check_access ctx t.owner)) [
              | inl free ↦
                  let (empty, gone) =
                    unless_counted-ok w w' t (s.profiles.count_by_predicate w (of_tenant s t))
                      (rw free at done2) in
                  (t, q, free, empty, gone)
              | inr (e, held) ↦ absurd (ground (arith, rw held at done2))
            ]
      ]

module _ (s : Stores) where
  open s use {World}

  -- To this caller the tenant is not there: getting, patching and deleting it fail alike, write nothing,
  -- and tell nothing about it.
  pub record IsHidden (w : World) (a : TenantAccess) (id : String) (p : Map Value) (r : List String)
      : Type 0 where
    pub get : find_tenant s w (some a) id ≡ err err_not_found
    pub patch : patch_in s w (some a) id p r ≡ (w, err err_not_found)
    pub delete : delete_tenant_in s w (some a) id ≡ (w, err err_not_found)

  missing-IsHidden :
      (w : World) (a : TenantAccess) (id : String) (p : Map Value) (r : List String)
      → s.tenants.find_by_id w id ≡ err err_not_found
      → s.tenants.find_by_id_and_lock w id lock_exclusive ≡ err err_not_found
      → IsHidden w a id p r
  unfolding find_tenant patch_in delete_tenant_in is_not_found
  missing-IsHidden w a id p r absent kept = record {
    get = rw (absent, find_tenant) refl;
    patch = rw (absent, patch_in) refl;
    delete = rw (kept, delete_tenant_in) refl;
  }

  foreign-refused :
      (a : TenantAccess) (owner : String)
      → a.all ≡ false
      → (str_eq a.subject "" ≡ true) ⊎ (str_eq owner a.subject ≡ false)
      → check_access (some a) owner ≡ some err_not_found
  unfolding check_access allows tenant_access_from_context
  foreign-refused a owner restricted other = ground arith

  foreign-IsHidden :
      (w : World) (a : TenantAccess) (id : String) (t : Tenant) (p : Map Value) (r : List String)
      → s.tenants.find_by_id w id ≡ ok t
      → s.tenants.find_by_id_and_lock w id lock_exclusive ≡ ok t
      → a.all ≡ false
      → (str_eq a.subject "" ≡ true) ⊎ (str_eq t.owner a.subject ≡ false)
      → IsHidden w a id p r
  unfolding find_tenant patch_in delete_tenant_in
  foreign-IsHidden w a id t p r found kept restricted other =
      let refused = foreign-refused a t.owner restricted other in
      record {
        get = rw (found, find_tenant, refused) refl;
        patch = rw (found, patch_in, refused) refl;
        delete = rw (kept, delete_tenant_in, refused) refl;
      }

  -- A caller without access to all tenants that has no subject, or not the owner's, cannot tell a tenant
  -- from one that the store does not find: getting, patching and deleting either gives the same error, not
  -- found, and before the commit nothing is written.
  pub foreign_tenant-IsHidden :
      (w : World) (a : TenantAccess) (foreign missing : String) (t : Tenant) (p : Map Value)
      (r : List String)
      → s.tenants.find_by_id w foreign ≡ ok t
      → s.tenants.find_by_id_and_lock w foreign lock_exclusive ≡ ok t
      → s.tenants.find_by_id w missing ≡ err err_not_found
      → s.tenants.find_by_id_and_lock w missing lock_exclusive ≡ err err_not_found
      → a.all ≡ false
      → (str_eq a.subject "" ≡ true) ⊎ (str_eq t.owner a.subject ≡ false)
      → IsHidden w a foreign p r × IsHidden w a missing p r
  foreign_tenant-IsHidden w a foreign missing t p r found kept absent absent_too restricted other =
      (
        foreign-IsHidden w a foreign t p r found kept restricted other,
        missing-IsHidden w a missing p r absent absent_too,
      )
