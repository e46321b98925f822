-- ===== src/Examples/Token.antt =====
-- Samples for the token cache.
use cfm.Prelude.{ℕ, ◌≡◌, refl, String, none, some, [], ◌∷◌, arith}
use cfm.Errors.{ok}
use cfm.Token.{CacheEntry, default_refresh_margin, get_token}
use cfm.Token.Freshness.{IsSafe, AllSafe, IsGood, get_token-IsGood}

-- Every token of the delegate expires at 100.
abbrev Issued : String → String → String → ℕ → Type 0
Issued scope participant_id value expires = expires ≡ 100

abbrev entry : CacheEntry
entry = record { scope = "s"; participant_id = "p"; value = "t-1"; refresh_at = 90 }

entry-IsSafe : IsSafe Issued entry
entry-IsSafe = record { expires = 100; issued = refl; early = omega arith }

get_token-IsGood_example :
    AllSafe Issued
      (get_token default_refresh_margin
        (entry ∷ [])
        (entry ∷ [])
        "s"
        "p"
        80
        81
        (ok (some (record { value = "t-2"; expires_at = some 100 })))).0
    × IsGood Issued "s" "p" 80
        (ok (some (record { value = "t-2"; expires_at = some 100 })))
        (get_token default_refresh_margin
          (entry ∷ [])
          (entry ∷ [])
          "s"
          "p"
          80
          81
          (ok (some (record { value = "t-2"; expires_at = some 100 })))).1
get_token-IsGood_example =
    get_token-IsGood Issued default_refresh_margin (entry ∷ []) (entry ∷ []) "s" "p" 80 81
      (ok (some (record { value = "t-2"; expires_at = some 100 }))) (entry-IsSafe, tt)
      (entry-IsSafe, tt) (λ expires q. ground (arith, q))

-- An entry that is fresh is given out, and not fetched.
given_from_cache :
    (get_token default_refresh_margin (entry ∷ []) (entry ∷ []) "s" "p" 80 81 (ok none)).1
    ≡ ok "t-1"
unfolding get_token
given_from_cache = refl
