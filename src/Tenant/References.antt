-- ===== src/Tenant/References.antt =====
-- Which profiles still use a cell or a dataspace profile (tmanager/core/references.go).
pub mod Unused
use cfm.Prelude.{String, Bool, false, not, ◌&&◌, [], ◌∷◌, some_of, every, str_eq}
use cfm.Tenant.{ParticipantProfile, DataspaceProfile, is_disposed}

unfoldable pub participant_uses_cell : ParticipantProfile → String → Bool
participant_uses_cell profile cell_id =
    some_of (λ v. str_eq v.cell_id cell_id && not (is_disposed v.state)) profile.vpas

abbrev all_disposed : ParticipantProfile → Bool
all_disposed profile = every (λ v. is_disposed v.state) profile.vpas

unfoldable pub participant_is_disposed : ParticipantProfile → Bool
participant_is_disposed profile = elim profile.vpas [ [] ↦ false | _ ∷ _ ↦ all_disposed profile ]

unfoldable pub dataspace_profile_uses_cell : DataspaceProfile → String → Bool
dataspace_profile_uses_cell profile cell_id =
    some_of (λ d. str_eq d.cell_id cell_id && not (is_disposed d.state)) profile.deployments
