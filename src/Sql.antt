-- ===== src/Sql.antt =====
-- The SQL that a predicate becomes (common/sqlstore/query.go). A query is the list of its pieces, so that its
-- placeholders can be told from its text: `param n` is $n.
pub mod Jsonb
pub mod Builder
pub mod Numbered
use Prim.Native.Char.{Char, code}
use Prim.Native.String.{◌++◌ as str_append, char_at}
use cfm.Prelude.{
  ℕ, suc, ◌-◌, String, Bool, true, false, ◌&&◌, Option, none, some, List, [], ◌∷◌, ◌++◌, Map,
  lookup, leb, if◌then◌else◌,
}

pub data Piece : Type 0 where
  text : String → Piece
  param : ℕ → Piece

-- strings.Join
unfoldable pub join : String → List (List Piece) → List Piece
join sep [] = []
join sep (p ∷ []) = p
join sep (p ∷ q ∷ ps) = p ++ text sep ∷ join sep (q ∷ ps)

pub data FieldType : Type 0 where
  unknown scalar array_of_objects array_of_scalars map_of_arrays : FieldType

-- PostgresJSONBBuilder. A Boolean of jsonb_fields is only ever set.
pub record JsonbBuilder : Type 0 where
  pub jsonb_fields : Map Bool
  pub jsonb_field_types : Map FieldType
  pub field_mappings : Map String

-- The path, each part but the last behind ->, and the last behind `arrow`.
unfoldable pub access : String → List String → String → String
access field [] arrow = field
access field (p ∷ []) arrow =
    str_append (str_append field (str_append arrow (str_append "'" p))) "'"
access field (p ∷ q ∷ path) arrow =
    access (str_append field (str_append "->'" (str_append p "'"))) (q ∷ path) arrow

abbrev arrow : Bool → String
arrow true = "->>"
arrow false = "->"

-- buildJSONBPath
abbrev pub jsonb_path : String → List String → String
jsonb_path field path = access field path "->"

-- buildJSONBAccessor
abbrev pub jsonb_accessor : String → List String → Bool → String
jsonb_accessor field path text_cast = access field path (arrow text_cast)

-- buildArrayElementAccessor
abbrev pub array_element_accessor : List String → Bool → String
array_element_accessor [] true = "elem::text"
array_element_accessor [] false = "elem"
array_element_accessor (p ∷ path) text_cast = access "elem" (p ∷ path) (arrow text_cast)

-- "EXISTS (SELECT 1 FROM jsonb_array_elements(%s) elem WHERE "
abbrev pub exists : String → List Piece → List Piece
exists field condition =
    text "EXISTS (SELECT 1 FROM jsonb_array_elements("
    ∷ text field
    ∷ text ") elem WHERE "
    ∷ (condition ++ text ")" ∷ [])
