-- ===== src/Orchestration/Instantiate/Outcome.antt =====
-- What InstantiateOrchestration gives (pmanager/api/types.go).
use cfm.Prelude.{
  ℕ, ◌≡◌, refl, String, true, false, List, [], ◌∷◌, ◌++◌, Map, arith, occ, contains, has, str_eq,
  map, occ-contains, contains-occ, occ-once, ◌∙◌, sym, ap, subst, reverse, ◌↔◌,
}
use cfm.Json.{Value}
use cfm.Errors.{Result, ok, err, bind-ok, unless-ok}
use cfm.Dag.{Graph, keys, edges_of}
use cfm.Dag.WellFormed.{IsWellFormed, has-occ}
use cfm.Dag.Walks.{Walk, IsCycle}
use cfm.Dag.Levels.{flat, IsLayering}
use cfm.Dag.Reversed.{IsLayering-Ready, occ-flat-reverse}
use cfm.Dag.Sort.{ParallelSortResult, leveled, stopped, parallel_topological_sort}
use cfm.Dag.Correct.{Sorts, parallel_topological_sort-Sorts}
use cfm.Dag.Acyclic.{IsLayering-acyclic}
use cfm.Orchestration.{Activity, OrchestrationStep, Orchestration}
use cfm.Orchestration.Instantiate.{
  connect, steps_of, to_step, new_orchestration, instantiate_steps, instantiate_orchestration,
}
use cfm.Dag.Edges.{Connected}
use cfm.Orchestration.Instantiate.Graphs.{depends, all_known, connect-Connected}
use cfm.Orchestration.Instantiate.Graphs.Known.{
  Represents, Represents-has, vertices_of, vertices_of-Represents, edges_of-vertices_of,
  connect-known, known-connect,
}
use cfm.Orchestration.Instantiate.Staged.{Staged, Ready-StepsReady, step_ids-steps}

-- A walk along dependencies that ends where it starts.
abbrev pub DependsWalk : List Activity → List String → Type 0
DependsWalk given [] = Unit
DependsWalk given (u ∷ []) = Unit
DependsWalk given (u ∷ v ∷ vs) = (depends given u v ≡ true) × DependsWalk given (v ∷ vs)

pub record IsDependencyCycle (given : List Activity) (path : List String) : Type 0 where
  pub start : String
  pub inner : List String
  pub closed : path ≡ start ∷ (inner ++ start ∷ [])
  pub walk : DependsWalk given path

-- The graph that an instantiation sorts.
record Built (given : List Activity) (g : Graph Activity) : Type 0 where
  pub represents : Represents given g
  pub edges : (u v : String) → contains v (edges_of g u) ≡ depends given u v

connect-Built :
    (given : List Activity) (g : Graph Activity)
    → connect (vertices_of given) given ≡ ok g
    → Built given g
connect-Built given g eq =
    let r : Represents given (vertices_of given) = vertices_of-Represents given in
    let c : Connected (vertices_of given) g (depends given) =
      connect-Connected (vertices_of given) g given r.well_formed
        (λ k found. Represents-has given (vertices_of given) r k ∙ found) eq in
    record {
      represents = record { well_formed = c.well_formed; same = λ k. c.kept k ∙ r.same k };
      edges = λ u v. ground (arith, c.edges u v, edges_of-vertices_of given u v);
    }

module _ (given : List Activity) (g : Graph Activity) (b : Built given g) where
  Walk-DependsWalk : (path : List String) → DependsWalk given path → Walk g path
  Walk-DependsWalk [] h = tt
  Walk-DependsWalk (u ∷ []) h = tt
  Walk-DependsWalk (u ∷ v ∷ vs) h = (b.edges u v ∙ h.0, Walk-DependsWalk (v ∷ vs) h.1)

  DependsWalk-Walk : (path : List String) → Walk g path → DependsWalk given path
  DependsWalk-Walk [] h = tt
  DependsWalk-Walk (u ∷ []) h = tt
  DependsWalk-Walk (u ∷ v ∷ vs) h = (sym (b.edges u v) ∙ h.0, DependsWalk-Walk (v ∷ vs) h.1)

  IsCycle-IsDependencyCycle : (path : List String) → IsDependencyCycle given path → IsCycle g path
  IsCycle-IsDependencyCycle path c = record {
    start = c.start;
    inner = c.inner;
    closed = c.closed;
    walk = Walk-DependsWalk path c.walk;
  }

  IsDependencyCycle-IsCycle : (path : List String) → IsCycle g path → IsDependencyCycle given path
  IsDependencyCycle-IsCycle path c = record {
    start = c.start;
    inner = c.inner;
    closed = c.closed;
    walk = DependsWalk-Walk path c.walk;
  }

  levels-Staged :
      (levels : List (List String))
      → IsLayering g levels
      → Staged given (map (to_step g) (reverse levels))
  levels-Staged levels l =
      let wf : IsWellFormed g = b.represents.well_formed in
      let vertex : (k : String)
          → contains k (flat (reverse levels)) ≡ true
          → has g.vertices k ≡ true =
        λ k there. ground (
          arith,
          contains-occ k (flat (reverse levels)),
          occ-flat-reverse g k levels,
          l.partition k,
          has-occ g.vertices k,
          occ-contains k (keys g.vertices),
        ) in
      record {
        once = λ k.
            ap (occ k) (step_ids-steps g given b.represents.same (reverse levels) vertex)
            ∙ ground (
              arith,
              occ-flat-reverse g k levels,
              l.partition k,
              occ-once k (keys g.vertices) (wf.once k),
              has-occ g.vertices k,
              Represents-has given g b.represents k,
            );
        ready =
            Ready-StepsReady g given b.represents.same [] (reverse levels)
              (IsLayering-Ready g levels wf l) (λ u v dep. b.edges u v ∙ dep) vertex;
      }

  -- What the steps of a sorted graph are, and why there may be none.
  abbrev Stepped : Result (List OrchestrationStep) → Type 0
  Stepped (ok steps) = Staged given steps × ((path : List String) → ¬ IsDependencyCycle given path)
  Stepped (err e) = (path : List String) × IsDependencyCycle given path

  result-Stepped :
      (r : ParallelSortResult) → parallel_topological_sort g ≡ r → Sorts g r → Stepped (steps_of g)
  unfolding steps_of
  result-Stepped (leveled order levels) eq h =
      rw (steps_of, eq)
        (
          levels-Staged levels h.1,
          λ path c.
              IsLayering-acyclic g levels h.1 b.represents.well_formed path
                (IsCycle-IsDependencyCycle path c),
        )
  result-Stepped (ParallelSortResult.cyclic path) eq h =
      rw (steps_of, eq) (path, IsDependencyCycle-IsCycle path h)
  result-Stepped (stopped order levels) eq h = absurd h
  result-Stepped ParallelSortResult.out_of_fuel eq h = absurd h

  steps_of-Stepped : Stepped (steps_of g)
  steps_of-Stepped =
      result-Stepped (parallel_topological_sort g) refl
        (parallel_topological_sort-Sorts g b.represents.well_formed)

instantiate_steps-Staged :
    (given : List Activity) (steps : List OrchestrationStep)
    → instantiate_steps given ≡ ok steps
    → Staged given steps
      × (all_known given given ≡ true)
      × ((path : List String) → ¬ IsDependencyCycle given path)
unfolding instantiate_steps
instantiate_steps-Staged given steps h =
    let (g, built, made) = bind-ok (connect (vertices_of given) given) _ h in
    let b : Built given g = connect-Built given g built in
    let outcome : Staged given steps × ((path : List String) → ¬ IsDependencyCycle given path) =
      subst (Stepped given g b) made (steps_of-Stepped given g b) in
    (
      outcome.0,
      known-connect given (vertices_of given) g given (vertices_of-Represents given)
          (λ k found. found) built,
      outcome.1,
    )

-- Without a cycle the steps are made.
acyclic-ok :
    (given : List Activity) (g : Graph Activity) (b : Built given g)
    (r : Result (List OrchestrationStep))
    → Stepped given g b r
    → ((path : List String) → ¬ IsDependencyCycle given path)
    → (steps : List OrchestrationStep) × (r ≡ ok steps)
acyclic-ok given g b (ok steps) h none_of = (steps, refl)
acyclic-ok given g b (err e) h none_of = absurd (none_of h.0 h.1)

acyclic-steps :
    (given : List Activity)
    → all_known given given ≡ true
    → ((path : List String) → ¬ IsDependencyCycle given path)
    → (steps : List OrchestrationStep) × (instantiate_steps given ≡ ok steps)
unfolding instantiate_steps
acyclic-steps given known none_of =
    let (g, built) =
      connect-known given (vertices_of given) given (vertices_of-Represents given)
        (λ k found. found) known in
    let b : Built given g = connect-Built given g built in
    let (steps, made) = acyclic-ok given g b (steps_of g) (steps_of-Stepped given g b) none_of in
    (steps, rw (instantiate_steps, built) made)

module _ (now : ℕ) (id correlation_id type definition_id : String) (given : List Activity)
    (payload : Map Value) where
  -- An instantiated orchestration is initialized and carries what it was made from. Its steps hold an activity for
  -- each ID that was given, once, which is the first one given with this ID; no step is empty; and whatever an
  -- activity with an ID depends on stands in a step before the one of this ID.
  pub instantiate_orchestration-Staged :
      (o : Orchestration)
      → instantiate_orchestration now id correlation_id type definition_id given payload ≡ ok o
      → Staged given o.steps
        × (o ≡ new_orchestration now id correlation_id type definition_id payload o.steps)
  unfolding instantiate_orchestration
  instantiate_orchestration-Staged o h =
      let (steps, made, done) =
        bind-ok (instantiate_steps given) _ (unless-ok (str_eq definition_id "") _ _ h).1 in
      let same : new_orchestration now id correlation_id type definition_id payload steps ≡ o =
        cc in
      subst
        (λ o'.
          Staged given o'.steps
          × (o' ≡ new_orchestration now id correlation_id type definition_id payload o'.steps))
        same ((instantiate_steps-Staged given steps made).0, refl)

  -- An orchestration is instantiated exactly if its definition has an ID, every dependency is the ID of a given
  -- activity, and no dependencies form a cycle.
  pub instantiate_orchestration_iff :
      ((o : Orchestration) × (instantiate_orchestration now id correlation_id type definition_id
            given payload
          ≡ ok o))
      ↔ ((str_eq definition_id "" ≡ false)
          × (all_known given given ≡ true)
          × ((path : List String) → ¬ IsDependencyCycle given path))
  unfolding instantiate_orchestration
  instantiate_orchestration_iff = (
    λ (o, h).
        let (named, rest) = unless-ok (str_eq definition_id "") _ _ h in
        let (steps, made, done) = bind-ok (instantiate_steps given) _ rest in
        let (staged, known, acyclic) = instantiate_steps-Staged given steps made in
        (named, known, acyclic),
    λ (named, known, acyclic).
        let (steps, made) = acyclic-steps given known acyclic in
        (
          new_orchestration now id correlation_id type definition_id payload steps,
          rw (instantiate_orchestration, named, made) refl,
        ),
  )
