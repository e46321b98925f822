-- ===== src/Tenant/Stores.antt =====
-- What the Tenant Manager's services stand on: the stores, their transactions, and the client that sends
-- orchestration manifests (common/store/store.go, tmanager/api/service.go).
use cfm.Prelude.{◌≡◌, refl, String, Option, none, some}
use cfm.Errors.{Error, Result, ok, err}
use cfm.Store.{EntityStore, IsLawful}
use cfm.Tenant.{
  Tenant, Cell, ParticipantProfile, DataspaceProfile, OrchestrationManifest, next_version,
}

pub record Stores : Type 1 where
  pub World : Type 0
  pub profiles : EntityStore World ParticipantProfile
  pub tenants : EntityStore World Tenant
  pub cells : EntityStore World Cell
  pub dataspaces : EntityStore World DataspaceProfile
  -- TransactionContext.Execute, given the world before and what the callback made of it
  pub commit : {A : Type 0} → World → World × Result A → World × Result A
  -- ProvisionClient.Send
  pub send : World → OrchestrationManifest → World × Option Error

-- What the services rely on: the store of profiles is lawful, a transaction that succeeds has committed
-- what its callback did, and sending a manifest leaves the profiles as they are.
pub record IsSound (s : Stores) : Type 1 where
  pub profiles-IsLawful : IsLawful {World = s.World} (λ p. p.id) next_version s.profiles
  pub committed :
      {A : Type 0} (w : s.World) (x : s.World × Result A) (w' : s.World) (a : A)
      → s.commit w x ≡ (w', ok a)
      → x ≡ (w', ok a)
  pub sending :
      (w : s.World) (m : OrchestrationManifest) (k : String)
      → s.profiles.find_by_id (s.send w m).0 k ≡ s.profiles.find_by_id w k

-- An error or nil, as the result of a callback.
abbrev pub unless_error : Option Error → Result (Unit {0})
unless_error none = ok tt
unless_error (some e) = err e

pub unless_error-ok : {u : Unit {0}} (e : Option Error) → unless_error e ≡ ok u → e ≡ none
unless_error-ok none h = refl
unless_error-ok (some e) h = cc
