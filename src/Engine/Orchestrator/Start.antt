-- ===== src/Engine/Orchestrator/Start.antt =====
-- What starting an orchestration guarantees (pmanager/natsorchestration/orchestration.go).
use cfm.Prelude.{
  ℕ, ◌≡◌, refl, ap, ◌∙◌, String, true, false, Option, none, some, List, ◌∷◌, Map, if◌then◌else◌,
  arith,
}
use cfm.Errors.{Error, wrapped, Result, ok, err, is_recoverable, new_recoverable_wrapped_error}
use cfm.Orchestration.{running, is_initialized, Activity, Orchestration, set_state}
use cfm.Engine.Client.{
  MsgClient, enqueue_activity_messages, read_orchestration, update_orchestration,
  is_revision_conflict,
}
use cfm.Engine.Client.Update.{Held}
use cfm.Engine.Orchestrator.{
  get_initial_activities, with_origin, mark_running, after_running, after_enqueue, start, resume,
  after_store, store_new, execute,
}

-- The stored state goes from initialized to running, and from no other state anywhere.
pub data Moves (now : ℕ) (stored o' : Orchestration) : Type 0 where
  started :
      is_initialized stored.state ≡ true → o' ≡ set_state stored running now → Moves now stored o'
  left_alone : is_initialized stored.state ≡ false → o' ≡ stored → Moves now stored o'

module _ (c : MsgClient) where
  open c use {World}

  -- What a start that succeeds has done: published the first messages, and then had a write accepted.
  pub record Started (w : World) (o : Orchestration) (r : ℕ) (w' : World) : Type 0 where
    pub published : World
    pub enqueued : enqueue_activity_messages c w o.id (get_initial_activities o) ≡ (published, none)
    pub before : World
    pub stored : Orchestration
    pub o' : Orchestration
    pub bytes : c.Bytes
    pub revision : ℕ
    pub revision' : ℕ
    pub held : Held c mark_running published o r before stored revision
    pub encoded : c.marshal o' ≡ ok bytes
    pub written : c.update before o'.id bytes revision ≡ (w', ok revision')
    pub moves : Moves (c.now before) stored o'

  recoverable :
      (e : Error) (m : String) → is_recoverable (new_recoverable_wrapped_error (some e) m) ≡ true
  unfolding is_recoverable new_recoverable_wrapped_error
  recoverable e m = refl

  -- An error of start can be retried.
  start-IsRecoverable :
      (w w' : World) (o : Orchestration) (r : ℕ) (e : Error)
      → start c w o r ≡ (w', some e)
      → is_recoverable e ≡ true
  unfolding start
  start-IsRecoverable w w' o r e h =
      go (enqueue_activity_messages c w o.id (get_initial_activities o)) h
    where
      ran :
          (y : World × Result (Orchestration × ℕ))
          → after_running c y ≡ (w', some e)
          → is_recoverable e ≡ true
      ran (w2, ok _) q = absurd (ground arith)
      ran (w2, err x) q = ground (arith, recoverable x "error marking orchestration as running")

      go :
          (x : World × Option Error)
          → after_enqueue c o r x ≡ (w', some e)
          → is_recoverable e ≡ true
      go (w1, none) q = ran (update_orchestration c w1 o r mark_running) q
      go (w1, some x) q =
          ground (arith, recoverable x "error enqueueing activities of orchestration")

  store_new-eq :
      (w : World) (o : Orchestration) (bytes : c.Bytes)
      → c.marshal o ≡ ok bytes
      → store_new c w o ≡ after_store c o (c.update w o.id bytes 0)
  store_new-eq w o bytes m = rw (m, store_new)

  after_store-conflict :
      (o : Orchestration) (w : World) (e : Error)
      → is_revision_conflict e ≡ true
      → after_store c o (w, err e) ≡ resume c (read_orchestration c w o.id)
  after_store-conflict o w e y =
      ap
        (λ b.
          if b
          then resume c (read_orchestration c w o.id)
          else (w, some (wrapped "error storing orchestration" e)))
        y

  -- Executing an orchestration again whose ID is taken publishes and writes nothing of its own: what is
  -- stored is started, at the revision read, if its start was not completed, and is left alone otherwise.
  execute_again :
      (carrier : Map String) (w w1 w2 : World) (o : Orchestration) (a : Activity)
      (rest : List Activity) (bytes : c.Bytes) (e : Error) (existing : Orchestration) (r : ℕ)
      → get_initial_activities o ≡ a ∷ rest
      → c.marshal (with_origin carrier o) ≡ ok bytes
      → c.update w (with_origin carrier o).id bytes 0 ≡ (w1, err e)
      → is_revision_conflict e ≡ true
      → read_orchestration c w1 (with_origin carrier o).id ≡ (w2, ok (existing, r))
      → execute c carrier w o
        ≡ (if is_initialized existing.state then start c w2 existing r else (w2, none))
  unfolding execute
  execute_again carrier w w1 w2 o a rest bytes e existing r h m u conflict read =
      rw (h, execute)
        (store_new-eq w (with_origin carrier o) bytes m
          ∙ (ap (after_store c (with_origin carrier o)) u
              ∙ (after_store-conflict (with_origin carrier o) w1 e conflict ∙ ap (resume c) read)))
