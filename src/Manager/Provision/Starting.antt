-- ===== src/Manager/Provision/Starting.antt =====
-- What submitting a manifest guarantees (pmanager/core/provision.go, pmanager/natsprovision/handler.go).
use cfm.Prelude.{
  ◌≡◌, refl, ap, ◌∙◌, ◌⊎◌, inl, inr, String, true, false, Option, none, some, arith, Bool-cases,
  Option-cases, if◌then◌else◌,
}
use Prim.Native.String.{◌++◌ as str_append}
use cfm.Errors.{Error, general_recoverable, in_chain, is_recoverable, is_fatal, Result, ok, err}
use cfm.Orchestration.{is_initialized, Orchestration}
use cfm.Engine.Client.{OrchestrationResponse}
use cfm.Manager.{OrchestrationDefinition, Manifest}
use cfm.Manager.Provision.{
  Parts, same_request, conflict, resume_existing, after_lookup, start_in, start, execution_error,
  client_message, start_error_detail, start_response, after_answer, after_start, dispatch_manifest,
}

-- Executing fails with a recoverable error exactly if its cause is one, and with a fatal error otherwise:
-- the class of the error decides whether the start is tried again.
pub execution_error_classes :
    (e : Error)
    → (is_recoverable (execution_error e) ≡ is_recoverable e)
      × ((is_recoverable e ≡ true) ⊎ (is_fatal (execution_error e) ≡ true))
unfolding execution_error is_recoverable is_fatal in_chain
execution_error_classes e = ground arith

module _ (p : Parts) where
  open p use {World}

  resume_begun :
      (w : World) (m : Manifest) (o : Orchestration)
      → is_initialized o.state ≡ false
      → resume_existing p w m o ≡ (w, if same_request o m then ok o else err (conflict p))
  unfolding resume_existing
  resume_begun w m o begun = elim (Bool-cases (same_request o m)) [
    | inl y ↦ ground arith
    | inr n ↦ ground arith
  ]

  -- A manifest whose ID is taken: the same request gets what is stored, and nothing is done if that was
  -- started before; a request of another type or for another correlation ID is refused.
  start_duplicate :
      (w w1 : World) (m : Manifest) (d : OrchestrationDefinition) (o : Orchestration)
      → p.find_definition w m.orchestration_type ≡ ok d
      → p.get_orchestration w m.id ≡ (w1, ok (some o))
      → is_initialized o.state ≡ false
      → start_in p w m ≡ (w1, if same_request o m then ok o else err (conflict p))
  unfolding start_in resume_existing
  start_duplicate w w1 m d o defined found begun =
      rw (defined, start_in) (ap (after_lookup p m d) found ∙ resume_begun w1 m o begun)

  module _ (publish : World → OrchestrationResponse → World × Option Error)
      (new_id : World → String) (detail_id : World → String) where
    -- The response names the manifest and says that it failed and why: the message of a client error, or
    -- else only an ID of the failure.
    pub record IsRefusal (w : World) (m : Manifest) (e : Error) (r : OrchestrationResponse)
        : Type 0 where
      pub manifest : r.manifest_id ≡ m.id
      pub correlation : r.correlation_id ≡ m.correlation_id
      pub type : r.orchestration_type ≡ m.orchestration_type
      pub failure : r.success ≡ false
      pub detail :
          (client_message e ≡ some r.error_detail)
          ⊎ ((client_message e ≡ none)
              × (r.error_detail
                  ≡ str_append "orchestration could not be started ["
                      (str_append (detail_id w) "]")))

    start_response-IsRefusal :
        (w : World) (m : Manifest) (e : Error)
        → IsRefusal w m e (start_response p publish new_id detail_id w m e)
    unfolding start_response start_error_detail
    start_response-IsRefusal w m e = record {
      manifest = refl;
      correlation = refl;
      type = refl;
      failure = refl;
      detail = elim (Option-cases (client_message e)) [
        | inl n ↦ inr (n, rw (n, start_error_detail) refl)
        | inr (text, y) ↦ inl (rw (y, start_error_detail) refl)
      ];
    }

    -- What becomes of a manifest: the world after it and the error that the dispatcher returns.
    pub data Outcome (w : World) (m : Manifest) : World × Option Error → Type 0 where
      begun : (w' : World) (o : Orchestration) → start p w m ≡ (w', ok o) → Outcome w m (w', none)
      returned :
          (w' : World) (e : Error)
          → start p w m ≡ (w', err e)
          → is_recoverable e ≡ true
          → Outcome w m (w', some e)
      refused :
          (w1 w' : World) (e : Error) (r : OrchestrationResponse)
          → start p w m ≡ (w1, err e)
          → is_recoverable e ≡ false
          → IsRefusal w1 m e r
          → publish w1 r ≡ (w', none)
          → Outcome w m (w', none)
      unanswered :
          (w1 w' : World) (e x y : Error) (r : OrchestrationResponse)
          → start p w m ≡ (w1, err e)
          → is_recoverable e ≡ false
          → IsRefusal w1 m e r
          → publish w1 r ≡ (w', some x)
          → is_recoverable y ≡ true
          → Outcome w m (w', some y)

    -- Dispatching a manifest has one of four outcomes. The orchestration was started, and no error is
    -- returned. The start failed with a recoverable error, and that is returned. It failed with another
    -- error, and a response with the manifest's ID, correlation ID and type, no success and the failure's
    -- detail was published, and no error is returned. Or that publication failed, and a recoverable error
    -- is returned.
    pub dispatch_manifest-Outcome :
        (w : World) (m : Manifest) → Outcome w m (dispatch_manifest p publish new_id detail_id w m)
    unfolding dispatch_manifest is_recoverable
    dispatch_manifest-Outcome w m = go (start p w m) refl
      where
        response : World → Error → OrchestrationResponse
        response w1 e = start_response p publish new_id detail_id w1 m e

        answered :
            (w1 : World) (e : Error) (x : World × Option Error)
            → publish w1 (response w1 e) ≡ x
            → start p w m ≡ (w1, err e)
            → is_recoverable e ≡ false
            → Outcome w m (after_answer p publish new_id detail_id x)
        answered w1 e (w2, none) sent s n =
            refused w1 w2 e (response w1 e) s n (start_response-IsRefusal w1 m e) sent
        answered w1 e (w2, some x) sent s n =
            unanswered w1 w2 e x (general_recoverable "failed to publish response") (response w1 e)
              s n (start_response-IsRefusal w1 m e) sent refl

        go :
            (x : World × Result Orchestration)
            → start p w m ≡ x
            → Outcome w m (after_start p publish new_id detail_id m x)
        go (w1, ok o) s = begun w1 o s
        go (w1, err e) s = elim (Bool-cases (is_recoverable e)) [
          | inl y ↦ rw y (returned w1 e s y)
          | inr n ↦ rw n (answered w1 e (publish w1 (response w1 e)) refl s n)
        ]
