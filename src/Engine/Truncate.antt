-- ===== src/Engine/Truncate.antt =====
-- truncateError (pmanager/natsorchestration/activity.go), over the bytes of a text.
pub mod Bounds
use cfm.Prelude.{
  ℕ, zero, suc, ◌+◌, ◌-◌, ◌≤◌, ◌<◌, ◌≡◌, Bool, true, false, not, ◌&&◌, ◌||◌, Option, none, some,
  List, [], ◌∷◌, ◌++◌, length, take, get_elem?, from_option, if◌then◌else◌, ltb, leb, arith,
}

abbrev pub max_persisted_error_bytes : ℕ
max_persisted_error_bytes = 2048

-- The bytes of " (truncated)".
abbrev pub marker : List ℕ
marker = b' ' ∷ b'(' ∷ b't' ∷ b'r' ∷ b'u' ∷ b'n' ∷ b'c' ∷ b'a' ∷ b't' ∷ b'e' ∷ b'd' ∷ b')' ∷ []

-- utf8.RuneStart: not a continuation byte, b & 0xC0 != 0x80
abbrev pub rune_start : ℕ → Bool
rune_start b = ltb b 128 || leb 192 b

-- for cut > 0 && !utf8.RuneStart(message[cut]) { cut-- }
unfoldable pub cut_back : List ℕ → ℕ → ℕ
cut_back message zero = zero
cut_back message (suc cut) =
    let back = cut_back message cut in
    if rune_start (from_option 0 (get_elem? message (suc cut))) then suc cut else back

unfoldable pub truncate_error : List ℕ → List ℕ
unfolding cut_back
truncate_error message =
    if leb (length message) max_persisted_error_bytes
    then message
    else take (cut_back message (max_persisted_error_bytes - length marker)) message ++ marker
