-- ===== src/Nats/Subjects.antt =====
-- mergeStreamSubjects (common/natsclient/stream.go): adding subjects to a stream, whose subjects may not overlap.
pub mod Carried
use cfm.Prelude.{
  String, Bool, true, false, not, ◌&&◌, ◌||◌, Option, none, some, List, [], ◌∷◌, ◌++◌, some_of,
  if◌then◌else◌, str_eq,
}
use cfm.Text.{split_dots}
use cfm.Errors.{Error, plain, Result, ok, err}

-- strings.Split at "."
abbrev pub tokens : String → List String
tokens s = let (first, rest) = split_dots s in first ∷ rest

abbrev pub no_tokens : List String → Bool
no_tokens [] = true
no_tokens (_ ∷ _) = false

-- The loop of subjectCovers over the tokens of both subjects.
unfoldable pub covers : List String → List String → Bool
covers [] sub = no_tokens sub
covers (s ∷ ss) [] = false
covers (s ∷ ss) (f ∷ fs) =
    let rest = covers ss fs in
    if str_eq s ">"
    then true
    else if str_eq s "*"
    then (if str_eq f ">" then false else rest)
    else if str_eq s f
    then rest
    else false

-- The loop of subjectsCollide.
unfoldable pub collide : List String → List String → Bool
collide [] [] = true
collide [] (b ∷ bs) = false
collide (a ∷ as') [] = false
collide (a ∷ as') (b ∷ bs) =
    let rest = collide as' bs in
    if str_eq a ">" || str_eq b ">"
    then true
    else if not (str_eq a "*") && (not (str_eq b "*") && not (str_eq a b))
    then false
    else rest

abbrev pub subject_covers : String → String → Bool
subject_covers super sub = covers (tokens super) (tokens sub)

abbrev pub subjects_collide : String → String → Bool
subjects_collide a b = collide (tokens a) (tokens b)

-- anySubjectCovers
abbrev pub any_subject_covers : List String → String → Bool
any_subject_covers subjects subject = some_of (λ s. subject_covers s subject) subjects

abbrev keep_subject : String → Result (List String) → Result (List String)
keep_subject e (err x) = err x
keep_subject e (ok kept) = ok (e ∷ kept)

-- The subjects that stay beside a new one.
unfoldable pub kept_beside : String → List String → Result (List String)
unfolding covers collide
kept_beside a [] = ok []
kept_beside a (e ∷ es) =
    let rest = kept_beside a es in
    if subject_covers a e
    then rest
    else if subjects_collide a e
    then err (plain "subject partially overlaps existing stream subject and cannot be merged")
    else keep_subject e rest

abbrev pub with_subject : String → Result (List String) → Result (List String)
with_subject a (err x) = err x
with_subject a (ok kept) = ok (kept ++ a ∷ [])

-- mergeStreamSubjects: the subjects, and whether they differ from the existing ones.
unfoldable pub merge_subjects : List String → Bool → List String → Result (List String × Bool)
unfolding covers kept_beside
merge_subjects result changed [] = ok (result, changed)
merge_subjects result changed (a ∷ rest) =
    let covered = merge_subjects result changed rest in
    if any_subject_covers result a then covered else elim (with_subject a (kept_beside a result)) [
      | err x ↦ err x
      | ok merged ↦ merge_subjects merged true rest
    ]

abbrev pub merge_stream_subjects : List String → List String → Result (List String × Bool)
merge_stream_subjects existing additional = merge_subjects existing false additional
