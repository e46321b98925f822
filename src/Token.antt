-- ===== src/Token.antt =====
-- CachingTokenProvider (common/token/cache.go). Times and durations are numbers of nanoseconds; the
-- refresh margin is not negative. The delegate that
-- fetches tokens is an interface: its answer is an argument.
pub mod Freshness
use cfm.Prelude.{
  ℕ, suc, ◌+◌, ◌-◌, ◌*◌, ◌/◌, min, String, Bool, true, false, not, ◌&&◌, Option, none, some, List,
  [], ◌∷◌, keep, ltb, leb, str_eq, if◌then◌else◌,
}
use cfm.Errors.{Error, plain, Result, ok, err}
use cfm.Nats.Retry.{second}

pub record ExpiringToken : Type 0 where
  pub value : String
  pub expires_at : Option ℕ

-- An entry of the map, with its key.
pub record CacheEntry : Type 0 where
  pub scope : String
  pub participant_id : String
  pub value : String
  pub refresh_at : ℕ

abbrev pub Cache : Type 0
Cache = List CacheEntry

abbrev pub default_refresh_margin : ℕ
default_refresh_margin = 30 * second

abbrev pub has_key : String → String → CacheEntry → Bool
has_key scope participant_id e = str_eq e.scope scope && str_eq e.participant_id participant_id

-- c.entries[key]
unfoldable pub find_entry : Cache → String → String → Option CacheEntry
find_entry [] scope participant_id = none
find_entry (e ∷ es) scope participant_id =
    if has_key scope participant_id e then some e else find_entry es scope participant_id

-- The time from which on a token is fetched again. The quotient of a negative lifetime is rounded
-- towards zero, and is then the smaller margin.
unfoldable pub refresh_time : ℕ → ℕ → ℕ → ℕ
refresh_time margin now expires =
    if leb now expires
    then expires - min margin ((expires - now) / 10)
    else expires + (now - expires) / 10

abbrev pub put_entry : Cache → CacheEntry → Cache
put_entry cache e = e ∷ keep (λ x. not (has_key e.scope e.participant_id x)) cache

-- store: stale entries are dropped, whether or not the token is kept.
unfoldable pub store_token : ℕ → Cache → String → String → ExpiringToken → ℕ → Cache
unfolding refresh_time
store_token margin cache scope participant_id token now =
    let live = keep (λ e. ltb now e.refresh_at) cache in
    elim token.expires_at [
      | none ↦ live
      | some expires ↦
          let time = refresh_time margin now expires in
          if ltb now time
          then put_entry live (record {
            scope = scope;
            participant_id = participant_id;
            value = token.value;
            refresh_at = time;
          })
          else live
    ]

abbrev pub fresh_entry : Cache → String → String → ℕ → Option CacheEntry
fresh_entry cache scope participant_id now = elim (find_entry cache scope participant_id) [
  | none ↦ none
  | some e ↦ if ltb now e.refresh_at then some e else none
]

-- What follows a miss, given what the delegate answered and the time at which the token is stored.
abbrev pub after_fetch :
    ℕ → Cache → String → String → ℕ → Result (Option ExpiringToken) → Cache × Result String
after_fetch margin cache scope participant_id later (err e) = (cache, err e)
after_fetch margin cache scope participant_id later (ok none) =
    (cache, err (plain "token provider returned no token"))
after_fetch margin cache scope participant_id later (ok (some token)) =
    (store_token margin cache scope participant_id token later, ok token.value)

-- GetToken, at the time of its lookup and the time at which it stores. The delegate's answer matters
-- only on a miss. Another call may change the map between the two: `cache'` is the map at the second.
unfoldable pub get_token :
    ℕ
    → Cache
    → Cache
    → String
    → String
    → ℕ
    → ℕ
    → Result (Option ExpiringToken)
    → Cache × Result String
unfolding find_entry store_token
get_token margin cache cache' scope participant_id now later fetched =
    elim (fresh_entry cache scope participant_id now) [
      | some e ↦ (cache', ok e.value)
      | none ↦ after_fetch margin cache' scope participant_id later fetched
    ]
