-- ===== src/Engine/Client.antt =====
-- The engine's access to JetStream (pmanager/natsorchestration/client.go). The message client is an
-- interface (common/natsclient/nats.go): its calls act on a world that other parties change as well.
pub mod Update
use cfm.Prelude.{
  ℕ, zero, suc, String, Bool, true, false, Option, none, some, List, [], ◌∷◌, if◌then◌else◌, nat_eq,
}
use Prim.Native.Char.{Char, code}
use Prim.Native.String.{◌++◌ as str_append}
use cfm.Json.{Value}
use cfm.Errors.{Error, plain, wrapped, api_error, Result, ok, err, in_chain}
use cfm.Prelude.{Map}
use cfm.Orchestration.{State, Activity, ActivityMessage, Orchestration}

-- model.OrchestrationResponse
pub record OrchestrationResponse : Type 0 where
  pub id : String
  pub manifest_id : String
  pub correlation_id : String
  pub success : Bool
  pub error_detail : String
  pub orchestration_type : String
  pub properties : Map Value
  pub compensated_manifest_id : String

-- MsgClient and the libraries it stands on. Each call gives the world after it.
pub record MsgClient : Type 1 where
  pub World : Type 0
  pub Bytes : Type 0
  pub marshal : Orchestration → Result Bytes
  pub unmarshal : Bytes → Result Orchestration
  -- Get: the value and its revision
  pub get : World → String → World × Result (Bytes × ℕ)
  -- Update: succeeds only if the revision is the current one, 0 for a missing key
  pub update : World → String → Bytes → ℕ → World × Result ℕ
  -- PublishMsg on a subject with a message ID; json.Marshal of the payload is part of the call
  pub publish_activity : World → String → String → ActivityMessage → World × Option Error
  -- Publish on the response subject
  pub publish_response : World → OrchestrationResponse → World × Option Error
  -- time.Now() and uuid.New()
  pub now : World → ℕ
  pub new_id : World → String
  -- the traceparent that the propagator injects
  pub traceparent : World → String
  -- err.Error(), in bytes
  pub error_text : Error → List ℕ

-- jetstream.JSErrCodeStreamWrongLastSequence
abbrev pub wrong_last_sequence : ℕ
wrong_last_sequence = 10071

-- isRevisionConflict. errors.As finds the first APIError of the chain; no chain here holds two.
abbrev pub has_conflict_code : Error → Bool
has_conflict_code (api_error code) = nat_eq code wrong_last_sequence
has_conflict_code _ = false

unfoldable pub is_revision_conflict : Error → Bool
unfolding in_chain
is_revision_conflict e = in_chain has_conflict_code e

-- strings.ReplaceAll(s, ".", "-")
unfoldable pub replace_dots : String → String
replace_dots String.[] = ""
replace_dots (String.◌∷◌ c s) =
    String.◌∷◌ (if nat_eq (code c) b'.' then "-" else c) (replace_dots s)

unfoldable pub activity_message_id : String → String → String
activity_message_id orchestration_id activity_id =
    str_append orchestration_id (str_append "." activity_id)

-- The subject that an activity's messages are routed to.
unfoldable pub activity_subject : Activity → String
unfolding replace_dots
activity_subject a = str_append "event." (replace_dots a.type)

abbrev pub max_update_conflicts : ℕ
max_update_conflicts = 50

module _ (c : MsgClient) where
  open c use {World}

  -- EnqueueActivityMessages: one message for each activity, in order, up to the first failure.
  unfoldable pub enqueue_activity_messages : World → String → List Activity → World × Option Error
  enqueue_activity_messages w id [] = (w, none)
  enqueue_activity_messages w id (a ∷ rest) =
      let (w', e) =
        c.publish_activity w (activity_subject a) (activity_message_id id a.id)
          (record { orchestration_id = id; activity = a }) in
      elim e [
        | none ↦ enqueue_activity_messages w' id rest
        | some x ↦ (w', some (wrapped "error publishing to stream" x))
      ]

  abbrev decode_entry : Result (c.Bytes × ℕ) → Result (Orchestration × ℕ)
  decode_entry (err e) = err (wrapped "failed to get orchestration state" e)
  decode_entry (ok (bytes, revision)) = elim (c.unmarshal bytes) [
    | err e ↦ err (wrapped "failed to unmarshal orchestration" e)
    | ok o ↦ ok (o, revision)
  ]

  unfoldable pub read_orchestration : World → String → World × Result (Orchestration × ℕ)
  read_orchestration w id = let (w', r) = c.get w id in (w', decode_entry r)

  -- One round of UpdateOrchestration up to its write: accepted, refused by a conflict, or failed.
  pub data Tried : Type 0 where
    won : World → Orchestration → ℕ → Tried
    lost : World → String → Error → Tried
    failed : World → Error → Tried

  abbrev pub tried_write : Orchestration → World × Result ℕ → Tried
  tried_write o' (w', ok revision') = won w' o' revision'
  tried_write o' (w', err e) =
      if is_revision_conflict e
      then lost w' o'.id e
      else failed w' (wrapped "failed to update orchestration" e)

  -- The update function is given the time at which it runs.
  unfoldable pub try_update :
      World → Orchestration → ℕ → (ℕ → Orchestration → Orchestration) → Tried
  try_update w o revision f =
      let o' = f (c.now w) o in
      elim (c.marshal o') [
        | err e ↦ failed w (wrapped "failed to marshal orchestration" e)
        | ok bytes ↦ tried_write o' (c.update w o'.id bytes revision)
      ]

  -- What follows a lost race: read again, and go on with what is read.
  abbrev pub after_read :
      (World → Orchestration → ℕ → World × Result (Orchestration × ℕ))
      → World × Result (Orchestration × ℕ)
      → World × Result (Orchestration × ℕ)
  after_read retry (w', err e) =
      (w', err (wrapped "failed to read orchestration data for update" e))
  after_read retry (w', ok (o', revision')) = retry w' o' revision'

  abbrev pub after_try :
      (World → String → Error → World × Result (Orchestration × ℕ))
      → Tried
      → World × Result (Orchestration × ℕ)
  after_try on_lost (won w' o' revision') = (w', ok (o', revision'))
  after_try on_lost (lost w' id e) = on_lost w' id e
  after_try on_lost (failed w' e) = (w', err e)

  -- The loop of UpdateOrchestration, with the number of rounds left.
  unfoldable pub update_loop :
      ℕ
      → World
      → Orchestration
      → ℕ
      → (ℕ → Orchestration → Orchestration)
      → World × Result (Orchestration × ℕ)
  unfolding read_orchestration
  update_loop zero w o revision f = (w, err (plain "no round left"))
  update_loop (suc zero) w o revision f =
      after_try
        (λ w' id e.
          (w', err (wrapped "failed to update orchestration after conflicting updates" e)))
        (try_update w o revision f)
  update_loop (suc (suc left)) w o revision f =
      after_try
        (λ w' id e.
          after_read (λ w2 o2 revision2. update_loop (suc left) w2 o2 revision2 f)
            (read_orchestration w' id))
        (try_update w o revision f)

  unfoldable pub update_orchestration :
      World
      → Orchestration
      → ℕ
      → (ℕ → Orchestration → Orchestration)
      → World × Result (Orchestration × ℕ)
  unfolding update_loop try_update
  update_orchestration = update_loop max_update_conflicts

  -- The orchestration that the update function was applied to last, whether or not it was written.
  unfoldable pub last_tried :
      ℕ → World → Orchestration → ℕ → (ℕ → Orchestration → Orchestration) → Orchestration
  last_tried zero w o revision f = o
  last_tried (suc left) w o revision f = elim (try_update w o revision f) [
    | won w' o' revision' ↦ o'
    | failed w' e ↦ f (c.now w) o
    | lost w' id e ↦
        let (w2, again) = read_orchestration w' id in
        elim left [
          | zero ↦ f (c.now w) o
          | suc _ ↦ elim again [
            | err e2 ↦ f (c.now w) o
            | ok (o2, revision2) ↦ last_tried left w2 o2 revision2 f
          ]
        ]
  ]
