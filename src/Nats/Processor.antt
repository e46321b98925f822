-- ===== src/Nats/Processor.antt =====
-- RetriableMessageProcessor (common/natsclient/processor.go): how one message is decoded, dispatched
-- under a deadline and settled. The dispatcher and the decoder are the caller's: parameters.
pub mod Settlement
use cfm.Prelude.{
  ℕ, Bool, true, false, not, ◌&&◌, ◌||◌, Option, none, some, List, [], ◌∷◌, if◌then◌else◌, ℤ, pos,
  is_zero,
}
use cfm.Errors.{
  Error, plain, wrapped, joined, Result, ok, err, is_recoverable, is_client_error, is_fatal,
  new_recoverable_wrapped_error,
}
use cfm.Nats.Retry.{
  Msg, Settle, acked, termed, Handled, default_max_deliver, is_final_delivery, ack_message,
  nak_backoff,
}

-- What the dispatcher did: it panicked, or it returned an error (or nil), and whether at that time
-- its own deadline had passed and the caller's context was done.
pub data Dispatched : Type 0 where
  panicked : Dispatched
  finished : (error : Option Error) (deadline_exceeded parent_done : Bool) → Dispatched

unfoldable pub should_retry : Error → Bool
should_retry e = is_recoverable e || (not (is_client_error e) && not (is_fatal e))

-- The error of dispatch: running out of time makes it recoverable.
unfoldable pub dispatch_error : Option Error → Bool → Bool → Option Error
unfolding new_recoverable_wrapped_error
dispatch_error none deadline parent = none
dispatch_error (some e) deadline parent =
    if deadline && not parent
    then some (new_recoverable_wrapped_error (some e) "dispatching message did not finish in time")
    else some e

-- maxDeliver
unfoldable pub max_deliver_or_default : ℤ → ℤ
max_deliver_or_default n = if is_zero n then pos default_max_deliver else n

-- TermOnPanic after a panic
unfoldable pub term_on_panic : Msg → Handled
term_on_panic msg = record {
  settled = termed ∷ [];
  returned = elim msg.term_error [
    | none ↦ some (plain "panic while processing message")
    | some t ↦
        some (joined (plain "panic while processing message") (wrapped "failed to TERM message" t))
  ];
}

-- The three cases of the `switch` on a dispatcher's error.
unfoldable pub settle_error : ℤ → Msg → Error → Handled
unfolding should_retry
settle_error max_deliver msg e =
    if should_retry e && is_final_delivery msg max_deliver
    then record {
      settled = termed ∷ [];
      returned = elim msg.term_error [
        | none ↦ some (wrapped "retriable failure on final delivery, message dead-lettered" e)
        | some _ ↦ some (wrapped "retriable failure on final delivery and TERM response" e)
      ];
    }
    else if should_retry e
    then record {
      settled = nak_backoff msg ∷ [];
      returned = elim msg.nak_error [
        | none ↦ some (wrapped "retriable failure when dispatching message" e)
        | some _ ↦ some (wrapped "retriable failure when dispatching message and NAK response" e)
      ];
    }
    else record {
      settled = acked ∷ [];
      returned = elim msg.ack_error [
        | none ↦ some (wrapped "fatal failure when dispatching message" e)
        | some _ ↦ some (wrapped "fatal failure when dispatching message" e)
      ];
    }

abbrev settle_result : ℤ → Msg → Option Error → Handled
settle_result max_deliver msg none = ack_message msg
settle_result max_deliver msg (some e) = settle_error max_deliver msg e

abbrev settle_dispatched : ℤ → Msg → Dispatched → Handled
settle_dispatched max_deliver msg panicked = term_on_panic msg
settle_dispatched max_deliver msg (finished e deadline parent) =
    settle_result max_deliver msg (dispatch_error e deadline parent)

-- ProcessMessage. The payload that does not decode is acknowledged and reported.
module _ {P : Type 0} (unmarshal : Msg → Result P) (dispatcher : P → Msg → Dispatched) where
  unfoldable pub process_message : ℤ → Msg → Handled
  unfolding ack_message settle_error dispatch_error term_on_panic max_deliver_or_default
  process_message max_deliver msg = elim (unmarshal msg) [
    | err e ↦ record {
      settled = acked ∷ [];
      returned = some (wrapped "failed to unmarshal message" e);
    }
    | ok payload ↦
        settle_dispatched (max_deliver_or_default max_deliver) msg (dispatcher payload msg)
  ]
