-- ===== src/Nats/Retry.antt =====
-- common/natsclient/retry.go, and the parts of a JetStream message that the handlers use. A message
-- is external: how often it was delivered and what its calls return are its fields.
use cfm.Prelude.{
  ℕ, zero, suc, ◌-◌, ◌*◌, Bool, Option, none, some, List, [], ◌∷◌, ◌&&◌, leb, length, get_elem?,
  from_option, if◌then◌else◌, ℤ, pos, is_positive, magnitude,
}
use cfm.Errors.{Error, joined, wrapped}

pub record Msg : Type 0 where
  -- Metadata().NumDelivered; none if the message carries no JetStream metadata
  pub num_delivered : Option ℕ
  -- what Ack, NakWithDelay and Term return: none is a nil error
  pub ack_error : Option Error
  pub nak_error : Option Error
  pub term_error : Option Error

-- The calls made on a message that settle it.
pub data Settle : Type 0 where
  acked : Settle
  nak_delayed : ℤ → Settle
  termed : Settle

-- What a handler did to its message, and the error it returned.
pub record Handled : Type 0 where
  pub settled : List Settle
  pub returned : Option Error

abbrev pub default_max_deliver : ℕ
default_max_deliver = 10

abbrev pub activity_max_deliver : ℤ
activity_max_deliver = pos 1000

-- Durations are numbers of nanoseconds.
abbrev pub second : ℕ
second = 1_000_000_000

abbrev pub retry_delays : List ℕ
retry_delays = second ∷ 2 * second ∷ 5 * second ∷ 10 * second ∷ 30 * second ∷ 60 * second ∷ []

-- The attempt is at least 0 here, so the truncated `attempt - 1` is the source's index 0 below 1.
unfoldable pub retry_delay : ℕ → ℕ
retry_delay attempt =
    let idx = attempt - 1 in
    let last = length retry_delays - 1 in
    from_option 0 (get_elem? retry_delays (if leb (length retry_delays) idx then last else idx))

unfoldable pub delivery_count : Msg → ℕ
delivery_count msg = elim msg.num_delivered [
  | none ↦ 1
  | some n ↦ elim n [ zero ↦ 1 | suc k ↦ suc k ]
]

unfoldable pub is_final_delivery : Msg → ℤ → Bool
is_final_delivery msg max_deliver =
    is_positive max_deliver && leb (magnitude max_deliver) (delivery_count msg)

-- NakWithBackoff: the settlement that is asked for, and the error of the call.
abbrev pub nak_backoff : Msg → Settle
nak_backoff msg = nak_delayed (pos (retry_delay (delivery_count msg)))

-- AckMessage
unfoldable pub ack_message : Msg → Handled
ack_message msg = record {
  settled = acked ∷ [];
  returned = elim msg.ack_error [ none ↦ none | some e ↦ some (wrapped "failed to ACK message" e) ];
}

-- NakError
unfoldable pub nak_error_with : Msg → Error → Handled
nak_error_with msg e = record {
  settled = nak_backoff msg ∷ [];
  returned = elim msg.nak_error [ none ↦ some e | some e2 ↦ some (joined e e2) ];
}
