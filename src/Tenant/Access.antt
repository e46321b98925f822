-- ===== src/Tenant/Access.antt =====
-- Which tenants a caller may see and change (tmanager/api/access.go, and the checks of
-- tmanager/core/service_tenant.go and service_participant.go). The context is what it carries.
use cfm.Prelude.{
  ◌≡◌, refl, ◌⊎◌, inl, inr, String, Bool, true, false, not, ◌&&◌, ◌||◌, Option, none, some, str_eq,
  if◌then◌else◌, arith,
}
use cfm.Errors.{Error, system_error, Result, ok, err, err_not_found}

pub record TenantAccess : Type 0 where
  pub subject : String
  pub all : Bool

abbrev pub all_tenants_access : String → TenantAccess
all_tenants_access subject = record { subject = subject; all = true }

abbrev pub owned_tenants_access : String → TenantAccess
owned_tenants_access subject = record { subject = subject; all = false }

unfoldable pub allows : TenantAccess → String → Bool
allows a owner = a.all || (not (str_eq a.subject "") && str_eq owner a.subject)

unfoldable pub is_restricted : TenantAccess → Bool
is_restricted a = not a.all

-- Restrict, on the tests that the predicates stand for; `none` is the nil predicate.
unfoldable pub restrict {ℓ} :
    {A : Type ℓ} → TenantAccess → (A → String) → Option (A → Bool) → Option (A → Bool)
restrict a owner_of predicate = if a.all then predicate else elim predicate [
  | none ↦ some (λ x. str_eq (owner_of x) a.subject)
  | some p ↦ some (λ x. p x && str_eq (owner_of x) a.subject)
]

unfoldable pub tenant_access_from_context : Option TenantAccess → Result TenantAccess
tenant_access_from_context none = err (system_error "no tenant access in context")
tenant_access_from_context (some a) = ok a

-- checkTenantAccess and checkProfileAccess, given the owner
unfoldable pub check_access : Option TenantAccess → String → Option Error
unfolding tenant_access_from_context allows
check_access ctx owner = elim (tenant_access_from_context ctx) [
  | err e ↦ some e
  | ok a ↦ if allows a owner then none else some err_not_found
]

-- The test of a predicate that may be nil: nil selects everything.
abbrev pub selects {ℓ} : {A : Type ℓ} → Option (A → Bool) → A → Bool
selects none x = true
selects (some p) x = p x

-- What a restricted query selects is what the given one selects and the caller may access. The subject of
-- a caller that is not restricted to its own tenants may be empty; that of another may not.
restrict-allows {ℓ} :
    {A : Type ℓ} (a : TenantAccess) (owner_of : A → String) (predicate : Option (A → Bool)) (x : A)
    → (a.all ≡ true) ⊎ (str_eq a.subject "" ≡ false)
    → selects (restrict a owner_of predicate) x ≡ (selects predicate x && allows a (owner_of x))
unfolding restrict allows
restrict-allows a owner_of none x h = ground arith
restrict-allows a owner_of (some p) x h = ground arith

-- Access is refused without a word about the tenant: the error is the one of a tenant that does not exist,
-- unless the context carries no access at all.
check_access-refused :
    (ctx : Option TenantAccess) (owner : String) (e : Error)
    → check_access ctx owner ≡ some e
    → ((ctx ≡ none) × (e ≡ system_error "no tenant access in context"))
      ⊎ ((a : TenantAccess) × (ctx ≡ some a) × (allows a owner ≡ false) × (e ≡ err_not_found))
unfolding check_access
check_access-refused none owner e h = inl (refl, ground arith)
check_access-refused (some a) owner e h = inr (a, refl, ground arith, ground arith)
