-- ===== src/Nats/Processor/Settlement.antt =====
-- What a processed message ends as (common/natsclient/processor.go, retry.go).
use cfm.Prelude.{
  ℕ, String, zero, suc, ◌≤◌, ◌*◌, ◌≡◌, refl, ◌⊎◌, Bool, true, false, Option, none, some, [], ◌∷◌, ℤ,
  pos, is_positive, magnitude, length, arith,
}
use cfm.Errors.{
  Error, Result, ok, err, general_recoverable_by, is_recoverable, is_client_error, is_fatal,
}
use cfm.Nats.Retry.{
  Msg, acked, nak_delayed, termed, second, retry_delay, delivery_count, is_final_delivery,
  ack_message,
}
use cfm.Nats.Processor.{
  Dispatched, panicked, finished, should_retry, dispatch_error, max_deliver_or_default,
  term_on_panic, settle_error, settle_dispatched, settle_result, process_message,
}

-- The retry delay lies between a second and a minute.
pub retry_delay_bounds : (n : ℕ) → (second ≤ retry_delay n) × (retry_delay n ≤ 60 * second)
unfolding retry_delay
retry_delay_bounds zero = omega arith
retry_delay_bounds (suc zero) = omega arith
retry_delay_bounds (suc (suc zero)) = omega arith
retry_delay_bounds (suc (suc (suc zero))) = omega arith
retry_delay_bounds (suc (suc (suc (suc zero)))) = omega arith
retry_delay_bounds (suc (suc (suc (suc (suc zero))))) = omega arith
retry_delay_bounds (suc (suc (suc (suc (suc (suc n)))))) = ground arith

-- A retry never waits less than the retry before it.
pub retry_delay_mono : (a b : ℕ) → a ≤ b → retry_delay a ≤ retry_delay b
unfolding retry_delay
retry_delay_mono a b h = ground arith

deadline-IsRecoverable :
    (m : String) (e : Error) → is_recoverable (general_recoverable_by m e) ≡ true
unfolding is_recoverable
deadline-IsRecoverable m e = refl

-- The only errors on which a message is acknowledged are permanent, and not explained by a deadline.
settle_result-acked :
    (max : ℤ) (msg : Msg) (e : Error) (deadline parent : Bool)
    → (settle_result max msg (dispatch_error (some e) deadline parent)).settled ≡ acked ∷ []
    → (is_recoverable e ≡ false)
      × ((is_client_error e ≡ true) ⊎ (is_fatal e ≡ true))
      × ((deadline ≡ false) ⊎ (parent ≡ true))
unfolding settle_error dispatch_error
settle_result-acked max msg e deadline parent h =
    ground (arith, deadline-IsRecoverable "dispatching message did not finish in time" e)

settle_result-nak :
    (max : ℤ) (msg : Msg) (e : Option Error) (d : ℤ)
    → (settle_result max msg e).settled ≡ nak_delayed d ∷ []
    → (is_final_delivery msg max ≡ false) × (d ≡ pos (retry_delay (delivery_count msg)))
unfolding settle_error ack_message
settle_result-nak max msg none d h = cc
settle_result-nak max msg (some e) d h = ground arith

-- Not the last delivery, and a delay between a second and a minute.
abbrev pub IsRetry : ℤ → Msg → ℤ → Type 0
IsRetry max msg d =
    (is_final_delivery msg max ≡ false)
    × (is_positive d ≡ true)
    × (second ≤ magnitude d)
    × (magnitude d ≤ 60 * second)

settle_dispatched-nak :
    (max : ℤ) (msg : Msg) (x : Dispatched) (d : ℤ)
    → (settle_dispatched max msg x).settled ≡ nak_delayed d ∷ []
    → IsRetry max msg d
unfolding term_on_panic
settle_dispatched-nak max msg panicked d h = absurd (ground arith)
settle_dispatched-nak max msg (finished e dl par) d h = ground (
  arith,
  settle_result-nak max msg (dispatch_error e dl par) d,
  retry_delay_bounds (delivery_count msg),
)

-- Why a message is given up on.
pub data IsGivenUp (max : ℤ) (msg : Msg) : Dispatched → Type 0 where
  after_panic : IsGivenUp max msg panicked
  exhausted :
      (e f : Error) (deadline parent : Bool)
      → dispatch_error (some e) deadline parent ≡ some f
      → should_retry f ≡ true
      → is_final_delivery msg max ≡ true
      → IsGivenUp max msg (finished (some e) deadline parent)

settle_error-termed :
    (max : ℤ) (msg : Msg) (f : Error)
    → (settle_error max msg f).settled ≡ termed ∷ []
    → (should_retry f ≡ true) × (is_final_delivery msg max ≡ true)
unfolding settle_error
settle_error-termed max msg f h = ground arith

dispatch_error-some :
    (e : Error) (deadline parent : Bool)
    → (f : Error) × (dispatch_error (some e) deadline parent ≡ some f)
unfolding dispatch_error
dispatch_error-some e true true = (e, refl)
dispatch_error-some e true false = (_, refl)
dispatch_error-some e false parent = (e, refl)

settle_dispatched-termed :
    (max : ℤ) (msg : Msg) (x : Dispatched)
    → (settle_dispatched max msg x).settled ≡ termed ∷ []
    → IsGivenUp max msg x
unfolding ack_message dispatch_error
settle_dispatched-termed max msg panicked h = after_panic
settle_dispatched-termed max msg (finished none dl par) h = absurd (ground arith)
settle_dispatched-termed max msg (finished (some e) dl par) h =
    let (f, q) = dispatch_error-some e dl par in
    let (r, final) = settle_error-termed max msg f (rw (q, settle_result) at h) in
    exhausted e f dl par q r final

module _ {P : Type 0} (unmarshal : Msg → Result P) (dispatcher : P → Msg → Dispatched) where
  process_message-eq :
      (max : ℤ) (msg : Msg) (p : P) (d : Dispatched)
      → unmarshal msg ≡ ok p
      → dispatcher p msg ≡ d
      → process_message unmarshal dispatcher max msg
        ≡ settle_dispatched (max_deliver_or_default max) msg d
  unfolding process_message
  process_message-eq max msg p d u q = ground arith

  -- Whatever happens while a message is processed, a panic included, it is settled exactly once.
  pub process_message_settles_once :
      (max : ℤ) (msg : Msg) → length (process_message unmarshal dispatcher max msg).settled ≡ 1
  unfolding process_message
  process_message_settles_once max msg = ground arith

  -- The reasons for which a message may be acknowledged: nothing is left to do.
  pub data IsDone (msg : Msg) : Type 0 where
    undecodable : (e : Error) → unmarshal msg ≡ err e → IsDone msg
    succeeded :
        (p : P) (deadline parent : Bool)
        → unmarshal msg ≡ ok p
        → dispatcher p msg ≡ finished none deadline parent
        → IsDone msg
    permanent :
        (p : P) (e : Error) (deadline parent : Bool)
        → unmarshal msg ≡ ok p
        → dispatcher p msg ≡ finished (some e) deadline parent
        → is_recoverable e ≡ false
        → (is_client_error e ≡ true) ⊎ (is_fatal e ≡ true)
        → (deadline ≡ false) ⊎ (parent ≡ true)
        → IsDone msg

  -- A message is acknowledged only if it does not decode, was dispatched without error, or failed with
  -- a permanent error that no expired deadline explains.
  pub process_message-acked :
      (max : ℤ) (msg : Msg)
      → (process_message unmarshal dispatcher max msg).settled ≡ acked ∷ []
      → IsDone msg
  unfolding process_message
  process_message-acked max msg h = go (unmarshal msg) refl
    where
      on : (p : P) → unmarshal msg ≡ ok p → (d : Dispatched) → dispatcher p msg ≡ d → IsDone msg
      on p u panicked q = ground (arith, process_message-eq max msg p panicked)
      on p u (finished none dl par) q = succeeded p dl par u q
      on p u (finished (some e) dl par) q =
          let (r, c, t) =
            settle_result-acked (max_deliver_or_default max) msg e dl par
              (rw (process_message-eq max msg p (finished (some e) dl par) u q) at h) in
          permanent p e dl par u q r c t

      go : (r : Result P) → unmarshal msg ≡ r → IsDone msg
      go (err e) u = undecodable e u
      go (ok p) u = on p u (dispatcher p msg) refl

  -- A message that is delayed was not on its last delivery, and waits between a second and a minute.
  process_message-nak :
      (max : ℤ) (msg : Msg) (d : ℤ)
      → (process_message unmarshal dispatcher max msg).settled ≡ nak_delayed d ∷ []
      → IsRetry (max_deliver_or_default max) msg d
  unfolding process_message
  process_message-nak max msg d h = go (unmarshal msg) refl
    where
      go : (r : Result P) → unmarshal msg ≡ r → IsRetry (max_deliver_or_default max) msg d
      go (err e) u = absurd (ground arith)
      go (ok p) u =
          settle_dispatched-nak (max_deliver_or_default max) msg (dispatcher p msg) d
            (rw (process_message-eq max msg p (dispatcher p msg) u refl) at h)

  -- A message is given up on only if its dispatcher panicked, or if it is on its last delivery and its
  -- error is one to be retried.
  pub process_message-termed :
      (max : ℤ) (msg : Msg)
      → (process_message unmarshal dispatcher max msg).settled ≡ termed ∷ []
      → (p : P) × (unmarshal msg ≡ ok p)
        × IsGivenUp (max_deliver_or_default max) msg (dispatcher p msg)
  unfolding process_message
  process_message-termed max msg h = go (unmarshal msg) refl
    where
      go :
          (r : Result P)
          → unmarshal msg ≡ r
          → (p : P) × (unmarshal msg ≡ ok p)
            × IsGivenUp (max_deliver_or_default max) msg (dispatcher p msg)
      go (err e) u = absurd (ground arith)
      go (ok p) u = (
        p,
        u,
        settle_dispatched-termed (max_deliver_or_default max) msg (dispatcher p msg)
            (rw (process_message-eq max msg p (dispatcher p msg) u refl) at h),
      )
