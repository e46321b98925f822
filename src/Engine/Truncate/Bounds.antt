-- ===== src/Engine/Truncate/Bounds.antt =====
-- What truncateError keeps of a message (pmanager/natsorchestration/activity.go).
use cfm.Prelude.{
  ℕ, zero, suc, ◌-◌, ◌≤◌, ◌<◌, ◌≡◌, refl, ◌⊎◌, inl, inr, Bool, true, false, List, ◌++◌, length,
  take, get_elem?, from_option, leb, arith, Bool-cases, leb→le, length-append, length-take-le,
}
use cfm.Engine.Truncate.{max_persisted_error_bytes, marker, rune_start, cut_back, truncate_error}

-- Does a character start at this position?
abbrev pub StartsAt : List ℕ → ℕ → Bool → Type 0
StartsAt message n b = rune_start (from_option 0 (get_elem? message n)) ≡ b

-- The longest cut of at most `limit` bytes that splits no character.
pub record IsCut (message : List ℕ) (limit cut : ℕ) : Type 0 where
  pub within : cut ≤ limit
  pub whole : (cut ≡ 0) ⊎ StartsAt message cut true
  pub longest : (n : ℕ) → cut < n → n ≤ limit → StartsAt message n false

le-suc_cases : (m n : ℕ) → m ≤ suc n → (m ≤ n) ⊎ (m ≡ suc n)
le-suc_cases m n h = grind arith

cut_back-IsCut : (message : List ℕ) (limit : ℕ) → IsCut message limit (cut_back message limit)
unfolding cut_back
cut_back-IsCut message zero = record {
  within = omega arith;
  whole = inl refl;
  longest = λ n a b. absurd (omega arith);
}
cut_back-IsCut message (suc limit) =
    let b = rune_start (from_option 0 (get_elem? message (suc limit))) in
    elim (Bool-cases b) [
      | inl y ↦
          rw (y, cut_back)
            (record {
              within = omega arith;
              whole = inr y;
              longest = λ n a b. absurd (omega arith);
            })
      | inr n ↦
          rw (n, cut_back)
            (let ih = cut_back-IsCut message limit in
              record {
                within = omega (arith, ih.within);
                whole = ih.whole;
                longest = λ m a le. elim (le-suc_cases m limit le) [
                  | inl below ↦ ih.longest m a below
                  | inr last ↦ rw last n
                ];
              })
    ]

-- The persisted text is the message, if it has at most 2048 bytes. Otherwise it is the longest prefix
-- that splits no character and leaves room for the marker, then the marker; and it never has more than
-- 2048 bytes.
pub truncate_error_lem :
    (message : List ℕ)
    → (length (truncate_error message) ≤ max_persisted_error_bytes)
      × (((length message ≤ max_persisted_error_bytes) × (truncate_error message ≡ message))
          ⊎ ((cut : ℕ) × (truncate_error message ≡ take cut message ++ marker)
              × IsCut message (max_persisted_error_bytes - length marker) cut))
unfolding truncate_error
truncate_error_lem message = elim (Bool-cases (leb (length message) max_persisted_error_bytes)) [
  | inl y ↦ rw y (leb→le _ _ y, inl (leb→le _ _ y, refl))
  | inr n ↦
      let cut = cut_back message (max_persisted_error_bytes - length marker) in
      let is_cut = cut_back-IsCut message (max_persisted_error_bytes - length marker) in
      rw n (
        omega (
          arith,
          length-append (take cut message) marker,
          length-take-le cut message,
          is_cut.within,
        ),
        inr (cut, refl, is_cut),
      )
]
