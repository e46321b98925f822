-- ===== src/Tenant/References/Unused.antt =====
-- What is left in a cell that no profile uses (tmanager/core/references.go).
use cfm.Prelude.{
  ◌≡◌, refl, ◌⊎◌, inl, inr, String, true, false, not, ◌&&◌, List, [], ◌∷◌, All, some_of, str_eq,
  arith, Bool-cases,
}
use cfm.Tenant.{
  DeploymentState, unset, initial, pending, active, disposing, disposed, locked, offline, error,
  is_disposed, ParticipantProfile, DataspaceProfile,
}
use cfm.Tenant.References.{participant_uses_cell, dataspace_profile_uses_cell}

is_disposed-eq : (d : DeploymentState) → is_disposed d ≡ true → d ≡ disposed
is_disposed-eq disposed h = refl
is_disposed-eq unset h = cc
is_disposed-eq initial h = cc
is_disposed-eq pending h = cc
is_disposed-eq active h = cc
is_disposed-eq disposing h = cc
is_disposed-eq locked h = cc
is_disposed-eq offline h = cc
is_disposed-eq error h = cc

-- What is not in use is elsewhere or disposed.
unused {ℓ} :
    {A : Type ℓ} (cell_of : A → String) (state_of : A → DeploymentState) (id : String) (xs : List A)
    → some_of (λ x. str_eq (cell_of x) id && not (is_disposed (state_of x))) xs ≡ false
    → All (λ x. (str_eq (cell_of x) id ≡ false) ⊎ (state_of x ≡ disposed)) xs
unused cell_of state_of id [] h = tt
unused cell_of state_of id (x ∷ xs) h =
    let rest = unused cell_of state_of id xs (ground arith) in
    elim (Bool-cases (str_eq (cell_of x) id)) [
      | inl y ↦ (inr (is_disposed-eq (state_of x) (ground arith)), rest)
      | inr n ↦ (inl n, rest)
    ]

pub participant_unused :
    (p : ParticipantProfile) (id : String)
    → participant_uses_cell p id ≡ false
    → All (λ v. (str_eq v.cell_id id ≡ false) ⊎ (v.state ≡ disposed)) p.vpas
unfolding participant_uses_cell
participant_unused p id h = unused (λ v. v.cell_id) (λ v. v.state) id p.vpas h

pub dataspace_profile_unused :
    (d : DataspaceProfile) (id : String)
    → dataspace_profile_uses_cell d id ≡ false
    → All (λ x. (str_eq x.cell_id id ≡ false) ⊎ (x.state ≡ disposed)) d.deployments
unfolding dataspace_profile_uses_cell
dataspace_profile_unused d id h = unused (λ x. x.cell_id) (λ x. x.state) id d.deployments h
