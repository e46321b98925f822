-- ===== src/Token/Freshness.antt =====
-- Which tokens the cache gives out (common/token/cache.go).
use cfm.Prelude.{
  ℕ, ◌≤◌, ◌<◌, ◌≡◌, refl, ap, sym, subst, ltb→lt, ◌∙◌, ◌⊎◌, inl, inr, String, Bool, not, Option,
  none, some, [], ◌∷◌, keep, All, ltb, arith, Bool-cases, Option-cases, eq_iff,
}
use cfm.Errors.{Result, ok, err}
use cfm.Token.{
  ExpiringToken, CacheEntry, Cache, has_key, find_entry, refresh_time, store_token, fresh_entry,
  after_fetch, get_token,
}

refresh_time-le :
    (margin now expires : ℕ)
    → now < refresh_time margin now expires
    → refresh_time margin now expires ≤ expires
unfolding refresh_time
refresh_time-le margin now expires h = ground arith

module _ (Issued : String → String → String → ℕ → Type 0) where
  -- An entry holds a token that was issued for its key, and is refreshed before the token expires.
  pub record IsSafe (e : CacheEntry) : Type 0 where
    pub expires : ℕ
    pub issued : Issued e.scope e.participant_id e.value expires
    pub early : e.refresh_at ≤ expires

  abbrev pub AllSafe : Cache → Type 0
  AllSafe = All IsSafe

  AllSafe-keep : (f : CacheEntry → Bool) (cache : Cache) → AllSafe cache → AllSafe (keep f cache)
  AllSafe-keep f [] h = tt
  AllSafe-keep f (x ∷ xs) h = elim (Bool-cases (f x)) [
    | inl y ↦ rw (y, keep) (h.0, AllSafe-keep f xs h.1)
    | inr n ↦ rw (n, keep) (AllSafe-keep f xs h.1)
  ]

  -- A token that a lookup finds: issued for the key, and of a later expiry.
  abbrev pub Valid : String → String → ℕ → String → Type 0
  Valid scope participant_id now v =
      (expires : ℕ) × Issued scope participant_id v expires × (now < expires)

  found-Valid :
      (cache : Cache) (scope participant_id : String) (now : ℕ) (e : CacheEntry)
      → AllSafe cache
      → find_entry cache scope participant_id ≡ some e
      → now < e.refresh_at
      → Valid scope participant_id now e.value
  unfolding find_entry
  found-Valid [] scope participant_id now e safe h early = absurd (ground arith)
  found-Valid (x ∷ xs) scope participant_id now e safe h early =
      elim (Bool-cases (has_key scope participant_id x)) [
        | inl y ↦
            let same : x ≡ e = ground (arith, rw (y, find_entry) at h) in
            let s : x.scope ≡ scope = ground (arith, y, eq_iff x.scope scope) in
            let p : x.participant_id ≡ participant_id =
              ground (arith, y, eq_iff x.participant_id participant_id) in
            let before : now < x.refresh_at =
              subst (λ (z : CacheEntry). now < z.refresh_at) (sym same) early in
            subst (λ (z : CacheEntry). Valid scope participant_id now z.value) same
              (
                safe.0.expires,
                subst (λ k. Issued k participant_id x.value safe.0.expires) s
                    (subst (λ k. Issued x.scope k x.value safe.0.expires) p safe.0.issued),
                omega (arith, safe.0.early, before),
              )
        | inr n ↦ found-Valid xs scope participant_id now e safe.1 (rw (n, find_entry) at h) early
      ]

  -- The token of an answer of the delegate was issued for the key.
  abbrev pub IsIssued : String → String → Result (Option ExpiringToken) → Type 0
  IsIssued scope participant_id (err e) = Unit
  IsIssued scope participant_id (ok none) = Unit
  IsIssued scope participant_id (ok (some token)) =
      (expires : ℕ)
      → token.expires_at ≡ some expires
      → Issued scope participant_id token.value expires

  store_token-AllSafe :
      (margin : ℕ) (cache : Cache) (scope participant_id : String) (token : ExpiringToken) (now : ℕ)
      → IsIssued scope participant_id (ok (some token))
      → AllSafe cache
      → AllSafe (store_token margin cache scope participant_id token now)
  unfolding store_token
  store_token-AllSafe margin cache scope participant_id token now issued safe =
      let live = AllSafe-keep (λ e. ltb now e.refresh_at) cache safe in
      elim (Option-cases token.expires_at) [
        | inl unknown ↦ rw (unknown, store_token) live
        | inr (expires, q) ↦
            let time = refresh_time margin now expires in
            elim (Bool-cases (ltb now time)) [
              | inl y ↦
                  rw (q, store_token, y)
                    (
                      record {
                        expires = expires;
                        issued = issued expires q;
                        early = refresh_time-le margin now expires (ltb→lt now time y);
                      },
                      AllSafe-keep (λ x. not (has_key scope participant_id x)) _ live,
                    )
              | inr n ↦ rw (q, store_token, n) live
            ]
      ]

  -- What a call may return: a token that expires after the lookup, or the one just fetched.
  abbrev pub IsGood : String → String → ℕ → Result (Option ExpiringToken) → Result String → Type 0
  IsGood scope participant_id now fetched (err e) = Unit
  IsGood scope participant_id now fetched (ok v) =
      Valid scope participant_id now v
      ⊎ ((token : ExpiringToken) × (fetched ≡ ok (some token)) × (v ≡ token.value))

  after_fetch-IsGood :
      (margin : ℕ) (cache : Cache) (scope participant_id : String) (now later : ℕ)
      (fetched : Result (Option ExpiringToken))
      → AllSafe cache
      → IsIssued scope participant_id fetched
      → AllSafe (after_fetch margin cache scope participant_id later fetched).0
        × IsGood scope participant_id now fetched
            (after_fetch margin cache scope participant_id later fetched).1
  after_fetch-IsGood margin cache scope participant_id now later (err e) safe issued = (safe, tt)
  after_fetch-IsGood margin cache scope participant_id now later (ok none) safe issued = (safe, tt)
  after_fetch-IsGood margin cache scope participant_id now later (ok (some token)) safe issued = (
    store_token-AllSafe margin cache scope participant_id token later issued safe,
    inr (token, refl, refl),
  )

  fresh_entry-some :
      (cache : Cache) (scope participant_id : String) (now : ℕ) (e : CacheEntry)
      → fresh_entry cache scope participant_id now ≡ some e
      → (find_entry cache scope participant_id ≡ some e) × (now < e.refresh_at)
  fresh_entry-some cache scope participant_id now e h =
      go (find_entry cache scope participant_id) refl
    where
      go :
          (o : Option CacheEntry)
          → find_entry cache scope participant_id ≡ o
          → (find_entry cache scope participant_id ≡ some e) × (now < e.refresh_at)
      go none q = absurd (ground (arith, rw (q, fresh_entry) at h))
      go (some x) q = elim (Bool-cases (ltb now x.refresh_at)) [
        | inl y ↦
            let same : x ≡ e = ground (arith, rw (q, fresh_entry, y) at h) in
            (
              q ∙ ap (λ z. some z) same,
              subst (λ (z : CacheEntry). now < z.refresh_at) same (ltb→lt _ _ y),
            )
        | inr n ↦ absurd (ground (arith, rw (q, fresh_entry, n) at h))
      ]

  -- The cache gives out no expired token, and stays that way: if every entry was issued for its key and is
  -- refreshed before its expiry, at the lookup and when the token is stored, and the delegate's answer was
  -- issued for the key, then a call leaves such entries, and a token that it returns either was just
  -- fetched or expires after the lookup.
  pub get_token-IsGood :
      (margin : ℕ) (cache cache' : Cache) (scope participant_id : String) (now later : ℕ)
      (fetched : Result (Option ExpiringToken))
      → AllSafe cache
      → AllSafe cache'
      → IsIssued scope participant_id fetched
      → AllSafe (get_token margin cache cache' scope participant_id now later fetched).0
        × IsGood scope participant_id now fetched
            (get_token margin cache cache' scope participant_id now later fetched).1
  unfolding get_token
  get_token-IsGood margin cache cache' scope participant_id now later fetched safe safe' issued =
      elim (Option-cases (fresh_entry cache scope participant_id now)) [
        | inl miss ↦
            rw (get_token, miss)
              (after_fetch-IsGood margin cache' scope participant_id now later fetched safe' issued)
        | inr (e, hit) ↦
            let (found, early) = fresh_entry-some cache scope participant_id now e hit in
            rw (get_token, hit)
              (safe', inl (found-Valid cache scope participant_id now e safe found early))
      ]
