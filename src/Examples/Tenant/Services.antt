-- ===== src/Examples/Tenant/Services.antt =====
-- Selecting cells, access, pages, updates and deletions, on the samples.
use cfm.Prelude.{
  ℕ, ◌≡◌, refl, inr, if◌then◌else◌, str_eq, none, List, [], ◌∷◌, Map, pos, lookup, arith,
}
use cfm.Errors.{ok, err, err_not_found}
use cfm.Store.{IsLawful}
use cfm.Store.Memory.{count_by_predicate, find_by_predicate, copies, in_memory_store, update}
use cfm.Store.Memory.Laws.{in_memory_store-IsLawful}
use cfm.Store.Paging.{paginate, paginate_overflow}
use cfm.Tenant.{disposed, ParticipantProfile, next_version}
use cfm.Tenant.Access.{owned_tenants_access}
use cfm.Tenant.Stores.{Stores}
use cfm.Tenant.References.{participant_uses_cell, dataspace_profile_uses_cell}
use cfm.Tenant.Services.{delete_tenant, delete_cell}
use cfm.Tenant.Services.Guards.{
  CellUnused, IsHidden, delete_cell-CellUnused, foreign_tenant-IsHidden,
}
use cfm.Examples.Tenant.{
  id_of, exact, fixed, vpa as profile_vpa, profile_store, tenant, stores, stores-IsSound, profile,
  alice, deployed_db,
}

in_memory_store-IsLawful_example :
    IsLawful id_of next_version (in_memory_store id_of next_version exact)
in_memory_store-IsLawful_example =
    in_memory_store-IsLawful id_of next_version exact (λ e. refl) (λ e. refl)

abbrev updated_db : Map ParticipantProfile
updated_db = (profile_store.update deployed_db profile).0

update_done : update id_of next_version exact deployed_db profile ≡ (updated_db, none)
unfolding update lookup
update_done = refl

abbrev numbers : List ℕ
numbers = 1 ∷ 2 ∷ 3 ∷ []

paginate_overflow_example : paginate numbers (pos 1) (pos 9_223_372_036_854_775_807) ≡ []
paginate_overflow_example =
    paginate_overflow numbers 1 9_223_372_036_854_775_807 (omega arith) (omega arith) (omega arith)

tenant_deleted : delete_tenant (stores none) [] alice "t-1" ≡ ([], ok tt)
unfolding delete_tenant count_by_predicate
tenant_deleted = refl

-- A profile that had a VPA in the cell `c-2` and has one in `c-1`.
abbrev moved : ParticipantProfile
moved = record profile {
  vpas = (record profile_vpa { cell_id = "c-2"; state = disposed }) ∷ (profile_vpa ∷ []);
}

abbrev moved_db : Map ParticipantProfile
moved_db = ("p-1", moved) ∷ []

cell_deleted : delete_cell (stores none) moved_db "c-2" ≡ (moved_db, ok tt)
unfolding delete_cell find_by_predicate copies participant_uses_cell dataspace_profile_uses_cell
cell_deleted = refl

delete_cell-CellUnused_example :
    CellUnused (stores none) (stores-IsSound none) moved_db "c-2" moved_db
delete_cell-CellUnused_example =
    delete_cell-CellUnused (stores none) (stores-IsSound none) moved_db moved_db "c-2" cell_deleted

-- The store of the one tenant.
abbrev single : Stores
single = record (stores none) {
  tenants = record (fixed tenant) {
    find_by_id = λ w k. if str_eq k "t-1" then ok tenant else err err_not_found;
    find_by_id_and_lock = λ w k m. if str_eq k "t-1" then ok tenant else err err_not_found;
  };
}

foreign_tenant-IsHidden_example :
    IsHidden single [] (owned_tenants_access "bob") "t-1" [] []
    × IsHidden single [] (owned_tenants_access "bob") "t-2" [] []
foreign_tenant-IsHidden_example =
    foreign_tenant-IsHidden single [] (owned_tenants_access "bob") "t-1" "t-2" tenant [] [] refl
      refl refl refl refl (inr refl)
