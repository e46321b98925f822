-- ===== src/Dag/Walks.antt =====
-- Walks and cycles of a graph, and the path that detectCycle reports (common/dag/dag.go).
use mathlib.Core.List.{reverse-cons, reverse-append, append-nil, append_assoc}
use cfm.Prelude.{
  ℕ, zero, suc, ◌≤◌, ◌<◌, ◌≡◌, refl, String, true, false, List, [], ◌∷◌, ◌++◌, Map, arith, occ,
  length, contains, some, eq_iff, inl, inr, Bool-cases, str_eq, reverse, sym, ap, ◌∙◌,
}
use cfm.Dag.{Graph, edges_of}
use cfm.Dag.Cycles.{parent_of, trace, cycle_path, cycle}

module _ {ℓ} {T : Type ℓ} (g : Graph T) where
  abbrev pub Edge : String → String → Type 0
  Edge u v = contains v (edges_of g u) ≡ true

  -- Each vertex has an edge to the next one.
  abbrev pub Walk : List String → Type 0
  Walk [] = Unit
  Walk (u ∷ []) = Unit
  Walk (u ∷ v ∷ vs) = Edge u v × Walk (v ∷ vs)

  -- A walk that ends where it starts.
  pub record IsCycle (path : List String) : Type 0 where
    pub start : String
    pub inner : List String
    pub closed : path ≡ start ∷ (inner ++ start ∷ [])
    pub walk : Walk path

  -- Each vertex has an edge from the next one.
  abbrev Back : List String → Type 0
  Back [] = Unit
  Back (v ∷ []) = Unit
  Back (v ∷ u ∷ us) = Edge u v × Back (u ∷ us)

  Walk-snoc :
      (xs : List String) (u v : String)
      → Walk (xs ++ u ∷ [])
      → Edge u v
      → Walk ((xs ++ u ∷ []) ++ v ∷ [])
  Walk-snoc [] u v h edge = (edge, tt)
  Walk-snoc (x ∷ []) u v h edge = (h.0, (edge, tt))
  Walk-snoc (x ∷ y ∷ xs) u v h edge = (h.0, Walk-snoc (y ∷ xs) u v h.1 edge)

  reverse-Walk : (xs : List String) → Back xs → Walk (reverse xs)
  reverse-Walk [] h = tt
  reverse-Walk (v ∷ []) h = tt
  reverse-Walk (v ∷ u ∷ us) h =
      rw (reverse-cons v (u ∷ us), reverse-cons u us)
        (Walk-snoc (reverse us) u v (rw (← reverse-cons u us) (reverse-Walk (u ∷ us) h.1)) h.0)

  -- The vertices being visited, innermost first: each has an edge from its parent, the next one.
  abbrev pub Chain : Map String → List String → Type 0
  Chain parents [] = Unit
  Chain parents (v ∷ []) = Unit
  Chain parents (v ∷ u ∷ us) = (parent_of parents v ≡ u) × Edge u v × Chain parents (u ∷ us)

  trace-start :
      (fuel : ℕ) (parents : Map String) (start current : String) (path : List String)
      → str_eq current start ≡ true
      → trace fuel parents start current path ≡ some path
  unfolding trace
  trace-start zero parents start current path same = rw same refl
  trace-start (suc fuel) parents start current path same = rw same refl

  trace-parent :
      (fuel : ℕ) (parents : Map String) (start current u : String) (path : List String)
      → str_eq current start ≡ false
      → parent_of parents current ≡ u
      → trace (suc fuel) parents start current path
        ≡ trace fuel parents start u (path ++ current ∷ [])
  unfolding trace
  trace-parent fuel parents start current u path other parent = rw (other, parent) refl

  -- What is appended to the path leads back to the start.
  abbrev Traced : ℕ → Map String → String → String → List String → Type 0
  Traced fuel parents start current path =
      (pre : List String) × (trace fuel parents start current path ≡ some (path ++ pre))
      × ((v : String) → Edge current v → Back (v ∷ (pre ++ start ∷ [])))

  start-Traced :
      (fuel : ℕ) (parents : Map String) (start current : String) (path : List String)
      → str_eq current start ≡ true
      → Traced fuel parents start current path
  start-Traced fuel parents start current path same =
      let eq : current ≡ start = (eq_iff current start).0 same in
      (
        [],
        trace-start fuel parents start current path same ∙ ap some (sym (append-nil path)),
        λ v edge. (rw (← eq) edge, tt),
      )

  trace-Traced :
      (fuel : ℕ) (parents : Map String) (start current : String) (stack path : List String)
      → Chain parents (current ∷ stack)
      → 0 < occ start (current ∷ stack)
      → length stack ≤ fuel
      → Traced fuel parents start current path
  trace-Traced fuel parents start current [] path chain there short =
      start-Traced fuel parents start current path (ground arith)
  trace-Traced zero parents start current (u ∷ us) path chain there short = absurd (omega arith)
  trace-Traced (suc fuel) parents start current (u ∷ us) path chain there short =
      elim (Bool-cases (str_eq current start)) [
        | inl same ↦ start-Traced (suc fuel) parents start current path same
        | inr other ↦
            let (pre, eq, back) =
              trace-Traced fuel parents start u us (path ++ current ∷ []) chain.2 (ground arith)
                (omega arith) in
            (
              current ∷ pre,
              trace-parent fuel parents start current u path other chain.0
                  ∙ eq
                  ∙ ap some (append_assoc path (current ∷ []) pre),
              λ v edge. (edge, back current chain.1),
            )
      ]

  pub cycle_path-IsCycle :
      (fuel : ℕ) (parents : Map String) (id n : String) (stack : List String)
      → Chain parents (id ∷ stack)
      → 0 < occ n (id ∷ stack)
      → Edge id n
      → length stack ≤ fuel
      → (path : List String) × (cycle_path fuel parents id n ≡ cycle path) × IsCycle path
  unfolding cycle_path
  cycle_path-IsCycle fuel parents id n stack chain there edge short =
      let (pre, eq, back) = trace-Traced fuel parents n id stack (n ∷ []) chain there short in
      (
        reverse (n ∷ (pre ++ n ∷ [])),
        rw (cycle_path, eq) refl,
        record {
          start = n;
          inner = reverse pre;
          closed = rw (reverse-cons n (pre ++ n ∷ []), reverse-append pre (n ∷ [])) refl;
          walk = reverse-Walk (n ∷ (pre ++ n ∷ [])) (back n edge);
        },
      )
