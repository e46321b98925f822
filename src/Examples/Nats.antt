-- ===== src/Examples/Nats.antt =====
-- Samples for the message processor and the error classes (common/natsclient, common/types).
use cfm.Prelude.{ℕ, ◌*◌, ◌≡◌, refl, false, Option, none, some, [], ◌∷◌, pos, length}
use cfm.Errors.{plain, bad_request, Result, ok, is_recoverable, is_client_error, is_fatal}
use cfm.Nats.Retry.{
  Msg, acked, nak_delayed, termed, second, retry_delay, delivery_count, is_final_delivery,
}
use cfm.Nats.Processor.{Dispatched, finished, process_message, max_deliver_or_default}
use cfm.Nats.Processor.Settlement.{
  IsDone, IsGivenUp, process_message_settles_once, process_message-acked, process_message-termed,
}

abbrev message : Option ℕ → Msg
message n = record { num_delivered = n; ack_error = none; nak_error = none; term_error = none }

-- Every payload decodes to a number of the dispatcher's choosing.
abbrev decode : Msg → Result ℕ
decode msg = ok 5

abbrev failing : ℕ → Msg → Dispatched
failing p msg = finished (some (plain "database is down")) false false

abbrev rejecting : ℕ → Msg → Dispatched
rejecting p msg = finished (some (bad_request "no such profile")) false false

settles_once_example :
    length (process_message decode failing (pos 0) (message (some 3))).settled ≡ 1
settles_once_example = process_message_settles_once decode failing (pos 0) (message (some 3))

rejected_acked : (process_message decode rejecting (pos 0) (message (some 3))).settled ≡ acked ∷ []
unfolding process_message is_recoverable is_client_error
rejected_acked = refl

process_message-acked_example : IsDone decode rejecting (message (some 3))
process_message-acked_example =
    process_message-acked decode rejecting (pos 0) (message (some 3)) rejected_acked

failing_delayed :
    (process_message decode failing (pos 0) (message (some 3))).settled
    ≡ nak_delayed (pos (5 * second)) ∷ []
unfolding process_message is_recoverable is_client_error is_fatal is_final_delivery delivery_count
    retry_delay
failing_delayed = refl

failing_given_up :
    (process_message decode failing (pos 0) (message (some 10))).settled ≡ termed ∷ []
unfolding process_message is_recoverable is_client_error is_fatal is_final_delivery delivery_count
failing_given_up = refl

process_message-termed_example :
    (p : ℕ) × (decode (message (some 10)) ≡ ok p)
    × IsGivenUp (max_deliver_or_default (pos 0)) (message (some 10)) (failing p (message (some 10)))
process_message-termed_example =
    process_message-termed decode failing (pos 0) (message (some 10)) failing_given_up
