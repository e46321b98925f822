-- ===== src/Tenant/Generation/Laws.antt =====
-- Which cell is selected (tmanager/core/generation.go).
use cfm.Prelude.{
  ◌≡◌, ap, sym, ◌∙◌, ◌↔◌, inl, inr, String, Bool, true, false, ◌&&◌, List, [], ◌∷◌, ◌++◌, All,
  arith, Bool-cases,
}
use cfm.Errors.{ok}
use cfm.Tenant.{is_active, Cell, DataspaceProfile}
use cfm.Tenant.Generation.{serves, default_cell_selector}

-- An active cell to which one of the profiles is actively deployed.
abbrev pub usable : List DataspaceProfile → Cell → Bool
usable profiles cell = is_active cell.state && serves profiles cell

-- `cell` is the first usable one.
pub record IsFirst (profiles : List DataspaceProfile) (cells : List Cell) (cell : Cell)
    : Type 0 where
  pub before : List Cell
  pub behind : List Cell
  pub place : cells ≡ before ++ cell ∷ behind
  pub skipped : All (λ c. usable profiles c ≡ false) before
  pub selected : usable profiles cell ≡ true

default_cell_selector-IsFirst :
    (t : String) (cells : List Cell) (profiles : List DataspaceProfile) (cell : Cell)
    → default_cell_selector t cells profiles ≡ ok cell
    → IsFirst profiles cells cell
unfolding default_cell_selector
default_cell_selector-IsFirst t [] profiles cell h = absurd (ground arith)
default_cell_selector-IsFirst t (c ∷ cs) profiles cell h = elim (Bool-cases (usable profiles c)) [
  | inl y ↦
      let same : c ≡ cell = ground (arith, rw (y, default_cell_selector) at h) in
      record {
        before = [];
        behind = cs;
        place = ap (λ x. x ∷ cs) same;
        skipped = tt;
        selected = ap (usable profiles) (sym same) ∙ y;
      }
  | inr n ↦
      let x =
        default_cell_selector-IsFirst t cs profiles cell (rw (n, default_cell_selector) at h) in
      record {
        before = c ∷ x.before;
        behind = x.behind;
        place = ap (λ y. c ∷ y) x.place;
        skipped = (n, x.skipped);
        selected = x.selected;
      }
]

first-selected :
    (t : String) (before behind : List Cell) (profiles : List DataspaceProfile) (cell : Cell)
    → All (λ c. usable profiles c ≡ false) before
    → usable profiles cell ≡ true
    → default_cell_selector t (before ++ cell ∷ behind) profiles ≡ ok cell
unfolding default_cell_selector
first-selected t [] behind profiles cell n y = rw (y, default_cell_selector)
first-selected t (b ∷ bs) behind profiles cell n y =
    rw (n.0, default_cell_selector) (first-selected t bs behind profiles cell n.1 y)

-- The default selector gives a cell exactly if it is the first active cell to which one of the dataspace
-- profiles is actively deployed.
default_cell_selector_iff :
    (t : String) (cells : List Cell) (profiles : List DataspaceProfile) (cell : Cell)
    → (default_cell_selector t cells profiles ≡ ok cell) ↔ IsFirst profiles cells cell
default_cell_selector_iff t cells profiles cell = (
  default_cell_selector-IsFirst t cells profiles cell,
  λ x.
      ap (λ cs. default_cell_selector t cs profiles) x.place
      ∙ first-selected t x.before x.behind profiles cell x.skipped x.selected,
)
