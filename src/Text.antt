-- ===== src/Text.antt =====
-- strings.ToLower and strings.ToUpper, on ASCII letters, and strings.Split at a dot.
use Prim.Native.Char.{Char, code}
use Prim.Native.String.{char_at}
use cfm.Prelude.{◌-◌, String, Bool, ◌&&◌, leb, if◌then◌else◌, List, [], ◌∷◌}

-- strings.ToLower of the ASCII letters
abbrev lower_char : Char → Char
lower_char c =
    if leb b'A' (code c) && leb (code c) b'Z'
    then char_at "abcdefghijklmnopqrstuvwxyz" (code c - b'A')
    else c

unfoldable pub to_lower : String → String
to_lower String.[] = String.[]
to_lower (String.◌∷◌ c s) = String.◌∷◌ (lower_char c) (to_lower s)

abbrev upper_char : Char → Char
upper_char c =
    if leb b'a' (code c) && leb (code c) b'z'
    then char_at "ABCDEFGHIJKLMNOPQRSTUVWXYZ" (code c - b'a')
    else c

-- strings.ToUpper
unfoldable pub to_upper : String → String
to_upper String.[] = String.[]
to_upper (String.◌∷◌ c s) = String.◌∷◌ (upper_char c) (to_upper s)

abbrev is_dot : Char → Bool
is_dot c = leb (code c) b'.' && leb b'.' (code c)

abbrev onto_first : Char → String × List String → String × List String
onto_first c (s, rest) = (String.◌∷◌ c s, rest)

-- strings.Split at ".": the first part, and the others.
unfoldable pub split_dots : String → String × List String
split_dots String.[] = (String.[], [])
split_dots (String.◌∷◌ c s) =
    let rest = split_dots s in if is_dot c then (String.[], rest.0 ∷ rest.1) else onto_first c rest
