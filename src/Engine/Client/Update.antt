-- ===== src/Engine/Client/Update.antt =====
-- What UpdateOrchestration guarantees (pmanager/natsorchestration/client.go).
use cfm.Prelude.{
  ℕ, zero, suc, ◌<◌, ◌≡◌, refl, ap, ◌∙◌, ◌⊎◌, inl, inr, ◌↔◌, String, true, Bool-cases, arith,
}
use cfm.Errors.{Error, wrapped, Result, ok, err, Result-cases}
use cfm.Orchestration.{Orchestration}
use cfm.Engine.Client.{
  MsgClient, Tried, won, lost, failed, try_update, after_read, after_try, tried_write,
  is_revision_conflict, read_orchestration, update_loop, update_orchestration, max_update_conflicts,
}

module _ (c : MsgClient) (f : ℕ → Orchestration → Orchestration) where
  open c use {World, Bytes}

  -- The update is applied to what is held, written at its revision, and the write is accepted.
  pub record Wins (w : World) (o : Orchestration) (revision : ℕ) (w' : World) (o' : Orchestration)
      (revision' : ℕ) : Type 0 where
    pub bytes : Bytes
    pub applied : o' ≡ f (c.now w) o
    pub encoded : c.marshal o' ≡ ok bytes
    pub written : c.update w o'.id bytes revision ≡ (w', ok revision')

  -- The write is refused because another one came first, and what that one left is read.
  pub record Loses (w : World) (o : Orchestration) (revision : ℕ) (w' : World) (o' : Orchestration)
      (revision' : ℕ) : Type 0 where
    pub bytes : Bytes
    pub between : World
    pub error : Error
    pub encoded : c.marshal (f (c.now w) o) ≡ ok bytes
    pub refused : c.update w (f (c.now w) o).id bytes revision ≡ (between, err error)
    pub conflict : is_revision_conflict error ≡ true
    pub read : read_orchestration c between (f (c.now w) o).id ≡ (w', ok (o', revision'))

  -- `k` lost races, and then a write that wins.
  abbrev pub Race : ℕ → World → Orchestration → ℕ → World → Orchestration → ℕ → Type 0
  Race zero w o r w' o' r' = Wins w o r w' o' r'
  Race (suc k) w o r w' o' r' =
      (w1 : World) × (o1 : Orchestration) × (r1 : ℕ) × Loses w o r w1 o1 r1
      × Race k w1 o1 r1 w' o' r'

  -- What the update holds when it writes: what the caller gave it, or what was read after a lost race.
  pub data Held : World → Orchestration → ℕ → World → Orchestration → ℕ → Type 0 where
    given : {w : World} {o : Orchestration} {r : ℕ} → Held w o r w o r
    reread :
        {w w1 w0 : World} {o o1 stored : Orchestration} {r r1 r0 : ℕ}
        → Loses w o r w1 o1 r1
        → Held w1 o1 r1 w0 stored r0
        → Held w o r w0 stored r0

  -- What a round's outcome says of the calls it made.
  data Outcome (w : World) (o : Orchestration) (r : ℕ) : Tried c → Type 0 where
    won_by :
        {w' : World} {o' : Orchestration} {r' : ℕ}
        → Wins w o r w' o' r'
        → Outcome w o r (won w' o' r')
    lost_to :
        (bytes : Bytes) {w' : World} {e : Error}
        → c.marshal (f (c.now w) o) ≡ ok bytes
        → c.update w (f (c.now w) o).id bytes r ≡ (w', err e)
        → is_revision_conflict e ≡ true
        → Outcome w o r (lost w' (f (c.now w) o).id e)
    failed_by : {w' : World} {e : Error} → Outcome w o r (failed w' e)

  try_update-Outcome :
      (w : World) (o : Orchestration) (r : ℕ) → Outcome w o r (try_update c w o r f)
  unfolding try_update
  try_update-Outcome w o r = elim (Result-cases (c.marshal (f (c.now w) o))) [
    | inl (e, m) ↦ rw (m, try_update) failed_by
    | inr (bytes, m) ↦ rw (m, try_update) (go bytes m (c.update w (f (c.now w) o).id bytes r) refl)
  ]
    where
      go :
          (bytes : Bytes)
          → c.marshal (f (c.now w) o) ≡ ok bytes
          → (p : World × Result ℕ) → c.update w (f (c.now w) o).id bytes r ≡ p
          → Outcome w o r (tried_write c (f (c.now w) o) p)
      go bytes m (w', ok r') u =
          won_by (record { bytes = bytes; applied = refl; encoded = m; written = u })
      go bytes m (w', err e) u = elim (Bool-cases (is_revision_conflict e)) [
        | inl y ↦ rw y (lost_to bytes m u y)
        | inr n ↦ rw n failed_by
      ]

  won_of_Wins :
      (w : World) (o : Orchestration) (r : ℕ) (w' : World) (o' : Orchestration) (r' : ℕ)
      → Wins w o r w' o' r'
      → try_update c w o r f ≡ won w' o' r'
  unfolding try_update
  won_of_Wins w o r w' o' r' x =
      let m : c.marshal (f (c.now w) o) ≡ ok x.bytes = rw (← x.applied) x.encoded in
      let u : c.update w (f (c.now w) o).id x.bytes r ≡ (w', ok r') = rw (← x.applied) x.written in
      rw (m, try_update, x.applied) (ap (tried_write c (f (c.now w) o)) u)

  lost_of_Loses :
      (w : World) (o : Orchestration) (r : ℕ) (w' : World) (o' : Orchestration) (r' : ℕ)
      (x : Loses w o r w' o' r')
      → try_update c w o r f ≡ lost x.between (f (c.now w) o).id x.error
  unfolding try_update
  lost_of_Loses w o r w' o' r' x =
      rw (x.encoded, try_update) (ap (tried_write c (f (c.now w) o)) x.refused ∙ rw x.conflict)

  Race-update_loop :
      (k n : ℕ) (w : World) (o : Orchestration) (r : ℕ) (w' : World) (o' : Orchestration) (r' : ℕ)
      → k < n
      → Race k w o r w' o' r'
      → update_loop c n w o r f ≡ (w', ok (o', r'))
  unfolding update_loop
  Race-update_loop k zero w o r w' o' r' h x = absurd (omega arith)
  Race-update_loop zero (suc zero) w o r w' o' r' h x =
      rw (won_of_Wins w o r w' o' r' x, update_loop)
  Race-update_loop zero (suc (suc n)) w o r w' o' r' h x =
      rw (won_of_Wins w o r w' o' r' x, update_loop)
  Race-update_loop (suc k) (suc zero) w o r w' o' r' h x = absurd (omega arith)
  Race-update_loop (suc k) (suc (suc n)) w o r w' o' r' h (w1, o1, r1, x, rest) =
      rw (lost_of_Loses w o r w1 o1 r1 x, update_loop)
        (ap (after_read c (λ w2 o2 r2. update_loop c (suc n) w2 o2 r2 f)) x.read
          ∙ Race-update_loop k (suc n) w1 o1 r1 w' o' r' (omega arith) rest)

  Wins-eq :
      {w : World} {o : Orchestration} {r : ℕ} {w1 w' : World} {o1 o' : Orchestration} {r1 r' : ℕ}
      → Wins w o r w1 o1 r1
      → ◌≡◌ {A = World × Result (Orchestration × ℕ)} (w1, ok (o1, r1)) (w', ok (o', r'))
      → Wins w o r w' o' r'
  Wins-eq x h = record {
    bytes = x.bytes;
    applied = cc x.applied;
    encoded = cc x.encoded;
    written = cc x.written;
  }

  -- A round that ends well has won, or has lost and been followed up.
  after_try-eq-ok :
      (k : World → String → Error → World × Result (Orchestration × ℕ)) (w : World)
      (o : Orchestration) (r : ℕ) (t : Tried c) {w' : World} {o' : Orchestration} {r' : ℕ}
      → Outcome w o r t
      → after_try c k t ≡ (w', ok (o', r'))
      → Wins w o r w' o' r'
        ⊎ ((w1 : World) × (e : Error) × Outcome w o r (lost w1 (f (c.now w) o).id e)
            × (k w1 (f (c.now w) o).id e ≡ (w', ok (o', r'))))
  after_try-eq-ok k w o r t (won_by x) h = inl (Wins-eq x h)
  after_try-eq-ok k w o r t (lost_to b m u y) h = inr (_, _, lost_to b m u y, h)
  after_try-eq-ok k w o r t failed_by h = absurd (ground arith)

  after_read-eq-ok :
      (k : World → Orchestration → ℕ → World × Result (Orchestration × ℕ))
      (p : World × Result (Orchestration × ℕ)) {w' : World} {o' : Orchestration} {r' : ℕ}
      → after_read c k p ≡ (w', ok (o', r'))
      → (w2 : World) × (o2 : Orchestration) × (r2 : ℕ) × (p ≡ (w2, ok (o2, r2)))
        × (k w2 o2 r2 ≡ (w', ok (o', r')))
  after_read-eq-ok k (w2, err e) h = absurd (ground arith)
  after_read-eq-ok k (w2, ok (o2, r2)) h = (w2, o2, r2, refl, h)

  Loses-of_Outcome :
      {w : World} {o : Orchestration} {r : ℕ} {w1 : World} {id : String} {e : Error} {w2 : World}
      {o2 : Orchestration} {r2 : ℕ}
      → Outcome w o r (lost w1 id e)
      → read_orchestration c w1 id ≡ (w2, ok (o2, r2))
      → Loses w o r w2 o2 r2
  Loses-of_Outcome (lost_to b m u y) q = record {
    bytes = b;
    between = _;
    error = _;
    encoded = m;
    refused = u;
    conflict = y;
    read = q;
  }

  abbrev give_up : World → String → Error → World × Result (Orchestration × ℕ)
  give_up w' id e = (w', err (wrapped "failed to update orchestration after conflicting updates" e))

  abbrev loop_on : ℕ → World → Orchestration → ℕ → World × Result (Orchestration × ℕ)
  loop_on n w2 o2 r2 = update_loop c n w2 o2 r2 f

  abbrev go_on : ℕ → World → String → Error → World × Result (Orchestration × ℕ)
  go_on n w' id e = after_read c (loop_on (suc n)) (read_orchestration c w' id)

  -- A successful update has run such a race.
  update_loop-Race :
      (n : ℕ) (w : World) (o : Orchestration) (r : ℕ) (w' : World) (o' : Orchestration) (r' : ℕ)
      → update_loop c n w o r f ≡ (w', ok (o', r'))
      → (k : ℕ) × (k < n) × Race k w o r w' o' r'
  unfolding update_loop
  update_loop-Race zero w o r w' o' r' h = absurd (ground arith)
  update_loop-Race (suc zero) w o r w' o' r' h =
      elim (after_try-eq-ok give_up w o r (try_update c w o r f) (try_update-Outcome w o r) h) [
        | inl x ↦ (0, omega arith, x)
        | inr (w1, e, x, q) ↦ absurd (ground arith)
      ]
  update_loop-Race (suc (suc n)) w o r w' o' r' h =
      elim (after_try-eq-ok (go_on n) w o r (try_update c w o r f) (try_update-Outcome w o r) h) [
        | inl x ↦ (0, omega arith, x)
        | inr (w1, e, x, q) ↦
            let (w2, o2, r2, read, again) =
              after_read-eq-ok (loop_on (suc n)) (read_orchestration c w1 _) q in
            let (k, lt, rest) = update_loop-Race (suc n) w2 o2 r2 w' o' r' again in
            (suc k, omega arith, (w2, o2, r2, Loses-of_Outcome x read, rest))
      ]

  -- UpdateOrchestration succeeds exactly if its write is accepted after fewer than fifty lost races: each
  -- time the update function is applied to what was read last, and written at the revision of that.
  pub update_orchestration_iff :
      (w : World) (o : Orchestration) (r : ℕ) (w' : World) (o' : Orchestration) (r' : ℕ)
      → (update_orchestration c w o r f ≡ (w', ok (o', r')))
        ↔ ((k : ℕ) × (k < max_update_conflicts) × Race k w o r w' o' r')
  unfolding update_orchestration
  update_orchestration_iff w o r w' o' r' = (
    update_loop-Race 50 w o r w' o' r',
    λ (k, lt, race). Race-update_loop k 50 w o r w' o' r' lt race,
  )

  -- The write that ends a race, of an orchestration that was held in it.
  Race-Wins :
      (k : ℕ) (w : World) (o : Orchestration) (r : ℕ) (w' : World) (o' : Orchestration) (r' : ℕ)
      → Race k w o r w' o' r'
      → (w0 : World) × (stored : Orchestration) × (r0 : ℕ) × Held w o r w0 stored r0
        × Wins w0 stored r0 w' o' r'
  Race-Wins zero w o r w' o' r' x = (w, o, r, given, x)
  Race-Wins (suc k) w o r w' o' r' (w1, o1, r1, x, rest) =
      let (w0, stored, r0, held, y) = Race-Wins k w1 o1 r1 w' o' r' rest in
      (w0, stored, r0, reread x held, y)

  -- A successful update wrote what the update function makes of an orchestration it held.
  pub update-Wins :
      (w : World) (o : Orchestration) (r : ℕ) (w' : World) (o' : Orchestration) (r' : ℕ)
      → update_orchestration c w o r f ≡ (w', ok (o', r'))
      → (w0 : World) × (stored : Orchestration) × (r0 : ℕ) × Held w o r w0 stored r0
        × Wins w0 stored r0 w' o' r'
  update-Wins w o r w' o' r' h =
      let (k, lt, race) = (update_orchestration_iff w o r w' o' r').0 h in
      Race-Wins k w o r w' o' r' race
