-- ===== src/Nats/Subjects/Carried.antt =====
-- What a stream carries with merged subjects (common/natsclient/stream.go).
use cfm.Prelude.{
  ◌≡◌, refl, subst, String, Bool, true, false, ◌||◌, List, [], ◌∷◌, ◌++◌, some_of, if◌then◌else◌,
  str_eq, eq_iff, arith, Bool-cases, inl, inr,
}
use cfm.Errors.{ok, Result-cases}
use cfm.Nats.Subjects.{
  tokens, no_tokens, covers, subject_covers, subjects_collide, any_subject_covers, kept_beside,
  merge_subjects, merge_stream_subjects,
}

-- Does a subject match the tokens of a message's subject? "*" matches one token, ">" one or more.
unfoldable pub token_matches : List String → List String → Bool
token_matches [] message = no_tokens message
token_matches (p ∷ ps) [] = false
token_matches (p ∷ ps) (x ∷ xs) =
    let rest = token_matches ps xs in
    if str_eq p ">" then true else if str_eq p "*" || str_eq p x then rest else false

abbrev pub carries : List String → List String → Bool
carries subjects message = some_of (λ s. token_matches (tokens s) message) subjects

covers_matches :
    (p q message : List String)
    → covers p q ≡ true
    → token_matches q message ≡ true
    → token_matches p message ≡ true
unfolding covers token_matches
covers_matches [] [] message c h = h
covers_matches [] (f ∷ fs) message c h = absurd (ground arith)
covers_matches (s ∷ ss) [] message c h = absurd (ground arith)
covers_matches (s ∷ ss) (f ∷ fs) [] c h = absurd (ground arith)
covers_matches (s ∷ ss) (f ∷ fs) (x ∷ xs) c h =
    ground (arith, eq_iff s f, eq_iff s x, eq_iff f x, covers_matches ss fs xs)

some_of_append :
    (p : String → Bool) (xs ys : List String)
    → some_of p (xs ++ ys) ≡ (some_of p xs || some_of p ys)
some_of_append p [] ys = refl
some_of_append p (x ∷ xs) ys = ground (arith, some_of_append p xs ys)

any_carries :
    (subjects : List String) (a : String) (message : List String)
    → any_subject_covers subjects a ≡ true
    → token_matches (tokens a) message ≡ true
    → carries subjects message ≡ true
any_carries [] a message c h = absurd (ground arith)
any_carries (s ∷ ss) a message c h =
    ground (arith, covers_matches (tokens s) (tokens a) message, any_carries ss a message)

kept_carries :
    (a : String) (es kept message : List String)
    → kept_beside a es ≡ ok kept
    → (carries kept message || token_matches (tokens a) message)
      ≡ (carries es message || token_matches (tokens a) message)
unfolding kept_beside
kept_carries a [] kept message h = let same : [] ≡ kept = ground arith in ground (arith, same)
kept_carries a (e ∷ es) kept message h = elim (Bool-cases (subject_covers a e)) [
  | inl wider ↦
      let rest = kept_carries a es kept message (rw (kept_beside, wider) at h) in
      ground (arith, rest, covers_matches (tokens a) (tokens e) message wider)
  | inr other ↦ elim (Bool-cases (subjects_collide a e)) [
    | inl overlap ↦ absurd (ground (arith, rw (kept_beside, other, overlap) at h))
    | inr apart ↦ elim (Result-cases (kept_beside a es)) [
      | inl (x, failed) ↦ absurd (ground (arith, rw (kept_beside, other, apart, failed) at h))
      | inr (kept', keeps) ↦
          let same : e ∷ kept' ≡ kept =
            ground (arith, rw (kept_beside, other, apart, keeps) at h) in
          subst
            (λ ks.
              (carries ks message || token_matches (tokens a) message)
              ≡ (carries (e ∷ es) message || token_matches (tokens a) message))
            same (ground (arith, kept_carries a es kept' message keeps))
    ]
  ]
]

merge_carries :
    (result : List String) (changed : Bool) (additional merged : List String) (differs : Bool)
    (message : List String)
    → merge_subjects result changed additional ≡ ok (merged, differs)
    → carries merged message ≡ (carries result message || carries additional message)
unfolding merge_subjects
merge_carries result changed [] merged differs message h =
    let same : result ≡ merged = ground arith in ground (arith, same)
merge_carries result changed (a ∷ rest) merged differs message h =
    elim (Bool-cases (any_subject_covers result a)) [
      | inl covered ↦
          let later =
            merge_carries result changed rest merged differs message
              (rw (merge_subjects, covered) at h) in
          ground (arith, later, any_carries result a message covered)
      | inr new ↦ elim (Result-cases (kept_beside a result)) [
        | inl (x, failed) ↦ absurd (ground (arith, rw (merge_subjects, new, failed) at h))
        | inr (kept, keeps) ↦
            let later =
              merge_carries (kept ++ a ∷ []) true rest merged differs message
                (rw (merge_subjects, new, keeps) at h) in
            ground (
              arith,
              later,
              some_of_append (λ s. token_matches (tokens s) message) kept (a ∷ []),
              kept_carries a result kept message keeps,
            )
      ]
    ]

-- Merged subjects carry a message if, and only if, the existing or the additional subjects carry it.
pub merge_stream_subjects-carries :
    (existing additional merged : List String) (changed : Bool)
    → merge_stream_subjects existing additional ≡ ok (merged, changed)
    → (message : List String)
    → carries merged message ≡ (carries existing message || carries additional message)
merge_stream_subjects-carries existing additional merged changed h message =
    merge_carries existing false additional merged changed message h
