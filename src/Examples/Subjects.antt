-- ===== src/Examples/Subjects.antt =====
-- Samples for the subjects of a stream.
use cfm.Prelude.{◌≡◌, refl, String, true, ◌||◌, List, [], ◌∷◌}
use cfm.Errors.{ok, err, plain}
use cfm.Text.{split_dots}
use cfm.Nats.Subjects.{merge_stream_subjects, merge_subjects}
use cfm.Nats.Subjects.Carried.{carries, merge_stream_subjects-carries}

abbrev existing : List String
existing = "events.a" ∷ "events.b.c" ∷ "other" ∷ []

abbrev additional : List String
additional = "other" ∷ "events.>" ∷ "new.*" ∷ []

abbrev merged : List String
merged = "other" ∷ "events.>" ∷ "new.*" ∷ []

merges : merge_stream_subjects existing additional ≡ ok (merged, true)
unfolding merge_subjects split_dots
merges = refl

overlap_refused :
    merge_stream_subjects ("*.b" ∷ []) ("a.*" ∷ [])
    ≡ err (plain "subject partially overlaps existing stream subject and cannot be merged")
unfolding merge_subjects split_dots
overlap_refused = refl

merge_stream_subjects-carries_example :
    carries merged ("events" ∷ "a" ∷ [])
    ≡ (carries existing ("events" ∷ "a" ∷ []) || carries additional ("events" ∷ "a" ∷ []))
merge_stream_subjects-carries_example =
    merge_stream_subjects-carries existing additional merged true merges ("events" ∷ "a" ∷ [])
