-- ===== src/Manager/Watcher/Indexed.antt =====
-- What the index takes, and when a compensation is started (pmanager/natsorchestration/watcher.go).
use cfm.Prelude.{
  ◌≡◌, refl, ap, sym, ◌∙◌, inl, inr, String, Bool, true, false, ◌||◌, Option, none, some, [], ◌∷◌,
  arith, Bool-cases, if◌then◌else◌,
}
use cfm.Errors.{Error, is_not_found, Result, ok, err, Result-cases}
use cfm.Nats.Retry.{acked}
use cfm.Orchestration.{
  State, initialized, running, completed, errored, is_completed, is_errored, Orchestration,
}
use cfm.Manager.Watcher.{
  OrchestrationEntry, next_version, exists_compensation, dispose_type, after_start, Parts, IsSound,
  is_stale, same_state, must_compensate, convert_to_entry, start_compensation, compensated,
  after_update, after_create, create_entry, index_in, settle, on_message, compensation_manifest,
}

abbrev pub IsTerminal : State → Type 0
IsTerminal s = (is_completed s || is_errored s) ≡ true

same_state-IsTerminal :
    (a b : State)
    → IsTerminal b
    → (same_state a b || (is_completed a || is_errored a)) ≡ true
    → IsTerminal a
same_state-IsTerminal completed b f q = refl
same_state-IsTerminal errored b f q = refl
same_state-IsTerminal initialized initialized f q = f
same_state-IsTerminal initialized running f q = cc
same_state-IsTerminal initialized completed f q = cc
same_state-IsTerminal initialized errored f q = cc
same_state-IsTerminal running running f q = f
same_state-IsTerminal running initialized f q = cc
same_state-IsTerminal running completed f q = cc
same_state-IsTerminal running errored f q = cc

module _ (p : Parts) (sound : IsSound p) where
  open p use {World}

  -- A message of the orchestration does nothing but commit a transaction that does nothing, and is
  -- settled by how that goes: if it is acknowledged, the world is what it was.
  pub record IsFinal (w : World) (k : String) : Type 0 where
    pub ignored :
        (o : Orchestration) → o.id ≡ k → on_message p w (ok o) ≡ settle p (p.commit w (w, ok tt))
    pub unchanged :
        (o : Orchestration) (w' : World)
        → o.id ≡ k
        → on_message p w (ok o) ≡ (w', acked ∷ [])
        → w' ≡ w

  settle-acked :
      (x : World × Result (Unit {0})) (w' : World) → settle p x ≡ (w', acked ∷ []) → x ≡ (w', ok tt)
  settle-acked (w1, ok _) w' h = ground arith
  settle-acked (w1, err e) w' h = absurd (ground arith)

  IsFinal-of_ignored :
      (w : World) (k : String)
      → ((o : Orchestration) → o.id ≡ k → on_message p w (ok o) ≡ settle p (p.commit w (w, ok tt)))
      → IsFinal w k
  IsFinal-of_ignored w k h = record {
    ignored = h;
    unchanged = λ o w' same acknowledged.
        let done =
          sound.committed w (w, ok tt) w' tt
            (settle-acked (p.commit w (w, ok tt)) w' (sym (h o same) ∙ acknowledged)) in
        sym (ap (λ (x : World × Result (Unit {0})). x.0) done);
  }

  terminal-IsFinal :
      (w : World) (k : String) (entry : OrchestrationEntry)
      → p.index.find_by_id w k ≡ ok entry
      → IsTerminal entry.state
      → IsFinal w k
  unfolding on_message index_in is_stale
  terminal-IsFinal w k entry found final = IsFinal-of_ignored w k (λ o same.
      let here : p.index.find_by_id w o.id ≡ ok entry = ap (p.index.find_by_id w) same ∙ found in
      ap (λ x. settle p (p.commit w x)) (rw (here, index_in) (ground arith)))

  exists_compensation-kept :
      (w w' : World) (o : Orchestration) (k : String)
      → start_compensation p w o ≡ (w', none)
      → p.index.find_by_id w' k ≡ p.index.find_by_id w k
  unfolding start_compensation
  exists_compensation-kept w w' o k h =
      go (exists_compensation p w dispose_type o.definition_id) refl
    where
      launched :
          (x : World × Result Orchestration)
          → after_start p x ≡ (w', none)
          → p.index.find_by_id w' k ≡ p.index.find_by_id x.0 k
      launched (w1, ok _) q = ap (λ (y : World × Option Error). p.index.find_by_id y.0 k) (sym q)
      launched (w1, err e) q = absurd (ground arith)

      go :
          (x : Result Bool)
          → exists_compensation p w dispose_type o.definition_id ≡ x
          → p.index.find_by_id w' k ≡ p.index.find_by_id w k
      go (err e) q = absurd (ground (arith, rw (q, start_compensation) at h))
      go (ok false) q =
          ap (λ (y : World × Option Error). p.index.find_by_id y.0 k)
            (sym (rw (q, start_compensation) at h))
      go (ok true) q =
          launched (p.start w (compensation_manifest o)) (rw (q, start_compensation) at h)
          ∙ sound.starting w (compensation_manifest o) k

  -- What the index holds after an update was committed.
  abbrev Holds : World → Orchestration → Type 0
  Holds w o =
      (entry : OrchestrationEntry) × (p.index.find_by_id w o.id ≡ ok entry) × IsTerminal entry.state

  created-Holds :
      (w w' : World) (o : Orchestration)
      → IsTerminal o.state
      → create_entry p w o ≡ (w', ok tt)
      → ((e : OrchestrationEntry) × (p.index.create w (convert_to_entry o) ≡ (w', ok e)))
        × Holds w' o
  unfolding convert_to_entry
  created-Holds w w' o final h = go (p.index.create w (convert_to_entry o)) refl h
    where
      go :
          (x : World × Result OrchestrationEntry)
          → p.index.create w (convert_to_entry o) ≡ x
          → after_create p x ≡ (w', ok tt)
          → ((e : OrchestrationEntry) × (p.index.create w (convert_to_entry o) ≡ (w', ok e)))
            × Holds w' o
      go (w1, err e) q r = absurd (ground arith)
      go (w1, ok e) q r =
          let here : w1 ≡ w' = ap (λ (y : World × Result (Unit {0})). y.0) r in
          let q' : p.index.create w (convert_to_entry o) ≡ (w', ok e) =
            q ∙ ap (λ x. (x, ok e)) here in
          (
            (e, q'),
            (
              convert_to_entry o,
              (sound.index-IsLawful.find-create w (convert_to_entry o) w' e q').0,
              final,
            ),
          )

  compensated-ok :
      (x : World × Option Error) (w' : World) → compensated p x ≡ (w', ok tt) → x ≡ (w', none)
  compensated-ok (w1, none) w' h = ground arith
  compensated-ok (w1, some e) w' h = absurd (ground arith)

  updated-Holds :
      (w w' : World) (o : Orchestration)
      → IsTerminal o.state
      → after_update p o (p.index.update w (convert_to_entry o)) ≡ (w', ok tt)
      → Holds w' o
  unfolding convert_to_entry
  updated-Holds w w' o final h = go (p.index.update w (convert_to_entry o)) refl h
    where
      entry : OrchestrationEntry
      entry = next_version (convert_to_entry o)

      settled :
          (w1 : World)
          → p.index.find_by_id w1 o.id ≡ ok entry
          → (if must_compensate o then compensated p (start_compensation p w1 o) else (w1, ok tt))
            ≡ (w', ok tt)
          → p.index.find_by_id w' o.id ≡ ok entry
      settled w1 found q = elim (Bool-cases (must_compensate o)) [
        | inl y ↦
            let done = compensated-ok (start_compensation p w1 o) w' (rw y at q) in
            exists_compensation-kept w1 w' o o.id done ∙ found
        | inr n ↦
            let same : w1 ≡ w' = ap (λ (y : World × Result (Unit {0})). y.0) (rw n at q) in
            ap (λ x. p.index.find_by_id x o.id) (sym same) ∙ found
      ]

      go :
          (x : World × Option Error)
          → p.index.update w (convert_to_entry o) ≡ x
          → after_update p o x ≡ (w', ok tt)
          → Holds w' o
      go (w1, some e) q r = absurd (ground arith)
      go (w1, none) q r = (
        entry,
        settled w1 (sound.index-IsLawful.find-update w (convert_to_entry o) w1 q) r,
        final,
      )

  stale-IsTerminal :
      (entry : OrchestrationEntry) (o : Orchestration)
      → IsTerminal o.state
      → is_stale entry o ≡ true
      → IsTerminal entry.state
  unfolding is_stale
  stale-IsTerminal entry o final h = same_state-IsTerminal entry.state o.state final (ground arith)

  -- An update of a terminal orchestration that is committed leaves a terminal entry.
  index_in-Holds :
      (w w' : World) (o : Orchestration)
      → IsTerminal o.state
      → index_in p w o ≡ (w', ok tt)
      → Holds w' o
  unfolding index_in
  index_in-Holds w w' o final h = elim (Result-cases (p.index.find_by_id w o.id)) [
    | inl (e, q) ↦ elim (Bool-cases (is_not_found e)) [
      | inl y ↦ (created-Holds w w' o final (rw (q, index_in, y) at h)).1
      | inr n ↦ absurd (ground (arith, rw (q, index_in, n) at h))
    ]
    | inr (entry, q) ↦ elim (Bool-cases (is_stale entry o)) [
      | inl y ↦
          let same : w ≡ w' =
            ap (λ (x : World × Result (Unit {0})). x.0) (rw (q, index_in, y) at h) in
          (
            entry,
            ap (λ x. p.index.find_by_id x o.id) (sym same) ∙ q,
            stale-IsTerminal entry o final y,
          )
      | inr n ↦ updated-Holds w w' o final (rw (q, index_in, n) at h)
    ]
  ]

  -- Once a message of an ended orchestration is acknowledged, a further message of that orchestration that
  -- is handled in the world this left does nothing but commit a transaction that does nothing: it writes
  -- nothing to the index and starts no compensation. How that commit goes decides its settlement, and when
  -- it is acknowledged, the world is as it was.
  pub ended-IsFinal :
      (w w' : World) (o : Orchestration)
      → IsTerminal o.state
      → on_message p w (ok o) ≡ (w', acked ∷ [])
      → IsFinal w' o.id
  unfolding on_message
  ended-IsFinal w w' o final h =
      let done =
        sound.committed w (index_in p w o) w' tt
          (settle-acked (p.commit w (index_in p w o)) w' h) in
      let (entry, found, ended) = index_in-Holds w w' o final done in
      terminal-IsFinal w' o.id entry found ended

  -- When the message of a failed orchestration that the index has not seen before is acknowledged, the
  -- entry has been created and the world is as that left it: no compensation was started. A further
  -- message of it that is handled in this world only commits a transaction that does nothing.
  pub failure_missed :
      (w w' : World) (o : Orchestration) (e : Error)
      → p.index.find_by_id w o.id ≡ err e
      → is_not_found e ≡ true
      → must_compensate o ≡ true
      → on_message p w (ok o) ≡ (w', acked ∷ [])
      → ((created : OrchestrationEntry) × (p.index.create w (convert_to_entry o)
            ≡ (w', ok created)))
        × IsFinal w' o.id
  unfolding on_message index_in
  failure_missed w w' o e missing y must h =
      let done =
        sound.committed w (index_in p w o) w' tt
          (settle-acked (p.commit w (index_in p w o)) w' h) in
      let made : create_entry p w o ≡ (w', ok tt) = rw (missing, index_in, y) at done in
      let final : IsTerminal o.state = ground arith in
      ((created-Holds w w' o final made).0, ended-IsFinal w w' o final h)
