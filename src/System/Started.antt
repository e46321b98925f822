-- ===== src/System/Started.antt =====
-- The order in which Assemble calls the assemblies (common/system/assembler.go).
use mathlib.Core.List.{reverse-cons}
use cfm.Prelude.{
  ◌≡◌, ◌<◌, refl, sym, ap, ◌∙◌, subst, String, Bool, true, false, none, some, List, [], ◌∷◌, ◌++◌,
  Map, lookup, has, some_of, every, contains, eq_iff, eq_refl, arith, occ, occ-append, occ-contains,
  contains-occ, reverse, Option-cases, inl, inr,
}
use cfm.Errors.{ok, bind-ok}
use cfm.Dag.{Graph, Vertex, new_graph, keys}
use cfm.Dag.WellFormed.{new_graph-IsWellFormed, has-occ}
use cfm.Dag.Edges.{value_of, has-kept}
use cfm.Dag.Walks.{Edge}
use cfm.Dag.Kahn.{IsOrder}
use cfm.Dag.Topological.{InOrder, IsOrder-InOrder, topological_sort-IsOrder}
use cfm.Dag.Sort.{SortResult, sorted, topological_sort}
use cfm.System.{Assembly, register, require_all, to_assemblies, sorted_order, init_order}
use cfm.System.Wired.{
  names, all_values, Registered, register-has, register-Registered, provides_it, requires_it,
  require_all-Connected,
}

-- What provides each service: the last of the assemblies that say so.
abbrev pub providers : List Assembly → Map Assembly
providers as' = (register new_graph [] as').1

-- Is the provider of a service one of these?
abbrev pub provided_in : Map Assembly → List String → String → Bool
provided_in m before r = elim (lookup m r) [ none ↦ false | some p ↦ contains p.name before ]

-- Each assembly stands behind the providers of all that it requires.
abbrev pub Provided : Map Assembly → List String → List Assembly → Type 0
Provided m before [] = Unit
Provided m before (a ∷ rest) =
    (every (provided_in m before) a.requires ≡ true) × Provided m (before ++ a.name ∷ []) rest

occ-reverse : (k : String) (xs : List String) → occ k (reverse xs) ≡ occ k xs
occ-reverse k [] = refl
occ-reverse k (x ∷ xs) =
    rw (reverse-cons x xs) (omega (arith, occ-append k (reverse xs) (x ∷ []), occ-reverse k xs))

module _ (m : Map Assembly) (given : List Assembly) where
  abbrev wired_to : String → String → Bool
  wired_to name r = elim (lookup m r) [ none ↦ false | some p ↦ requires_it m given name p.name ]

  -- Has the assembly an edge to each provider of what it requires?
  abbrev is_wired : Assembly → Bool
  is_wired a = every (wired_to a.name) a.requires

  every-wired_to :
      (name : String) (rs : List String)
      → every (has m) rs ≡ true
      → ((v : String) → some_of (provides_it m v) rs ≡ true → requires_it m given name v ≡ true)
      → every (wired_to name) rs ≡ true
  every-wired_to name [] known within = refl
  every-wired_to name (r ∷ rs) known within = elim (Option-cases (lookup m r)) [
    | inl n ↦ absurd (ground (arith, n))
    | inr (p, found) ↦
        let first : requires_it m given name p.name ≡ true =
          within p.name (ground (arith, found, eq_refl p.name)) in
        ground (
          arith,
          found,
          first,
          every-wired_to name rs (ground arith) (λ v h. within v (ground (arith, h))),
        )
  ]

  every-is_wired :
      (as' : List Assembly)
      → every (λ a. every (has m) a.requires) as' ≡ true
      → ((u v : String) → requires_it m as' u v ≡ true → requires_it m given u v ≡ true)
      → every is_wired as' ≡ true
  every-is_wired [] known within = refl
  every-is_wired (a ∷ rest) known within = ground (
    arith,
    every-wired_to a.name a.requires (ground arith)
        (λ v h. within a.name v (ground (arith, h, eq_refl a.name))),
    every-is_wired rest (ground arith) (λ u v h. within u v (ground (arith, h))),
  )

  module _ (g : Graph Assembly)
      (edges : (u v : String) → requires_it m given u v ≡ true → Edge g u v)
      (values : (k : String) → all_values is_wired (value_of g k) k ≡ true) where
    every-provided_in :
        (name : String) (before rs : List String)
        → ((v : String) → Edge g name v → 0 < occ v before)
        → every (wired_to name) rs ≡ true
        → every (provided_in m before) rs ≡ true
    every-provided_in name before [] ready h = refl
    every-provided_in name before (r ∷ rs) ready h = elim (Option-cases (lookup m r)) [
      | inl n ↦ absurd (ground (arith, n))
      | inr (p, found) ↦
          let there : contains p.name before ≡ true =
            occ-contains p.name before (ready p.name (edges name p.name (ground (arith, found)))) in
          ground (arith, found, there, every-provided_in name before rs ready)
    ]

    stands_under :
        (k : String) (u : Vertex Assembly)
        → lookup g.vertices k ≡ some u
        → (u.value.name ≡ k) × (is_wired u.value ≡ true)
    stands_under k u found =
        (ground (arith, values k, found, eq_iff u.value.name k), ground (arith, values k, found))

    ready-Provided :
        (before ids : List String)
        → InOrder g before ids
        → ((k : String) → contains k ids ≡ true → has g.vertices k ≡ true)
        → Provided m before (to_assemblies g ids) × (names (to_assemblies g ids) ≡ ids)
    unfolding to_assemblies
    ready-Provided before [] h there = (tt, refl)
    ready-Provided before (id ∷ ids) h there = elim (Option-cases (lookup g.vertices id)) [
      | inl n ↦ absurd (ground (arith, n, there id, eq_refl id))
      | inr (u, found) ↦
          let (same, wired) = stands_under id u found in
          let (rest, others) =
            ready-Provided (before ++ id ∷ []) ids h.1 (λ k f. there k (ground (arith, f))) in
          rw (to_assemblies, found, same, others)
            (
              (
                every-provided_in id before u.value.requires h.0
                    (subst (λ n. every (wired_to n) u.value.requires ≡ true) same wired),
                rest,
              ),
              refl,
            )
    ]

abbrev registered : List Assembly → Graph Assembly
registered as' = (register new_graph [] as').0

new-Registered : (p : Assembly → Bool) → Registered p new_graph []
unfolding lookup
new-Registered p = record {
  well_formed = new_graph-IsWellFormed;
  values = λ k. refl;
  providers = λ r a h. absurd (ground arith);
}

registered-has :
    (as' : List Assembly) (k : String) → has (registered as').vertices k ≡ contains k (names as')
unfolding lookup
registered-has as' k = register-has new_graph [] as' k

sorted-ok :
    (g : Graph Assembly) (r : SortResult) (order : List Assembly)
    → topological_sort g ≡ r
    → sorted_order g ≡ ok order
    → (ids : List String) × (topological_sort g ≡ sorted ids)
      × (to_assemblies g (reverse ids) ≡ order)
unfolding sorted_order
sorted-ok g (sorted ids) order eq h = (ids, eq, ground (arith, rw (sorted_order, eq) at h))
sorted-ok g (SortResult.cyclic path) order eq h =
    absurd (ground (arith, rw (sorted_order, eq) at h))
sorted-ok g SortResult.out_of_fuel order eq h = absurd (ground (arith, rw (sorted_order, eq) at h))

every-true : (as' : List Assembly) → every (λ _. true) as' ≡ true
every-true [] = refl
every-true (a ∷ rest) = every-true rest

connected-Provided :
    (as' order : List Assembly) (g : Graph Assembly)
    → require_all (providers as') (registered as') as' ≡ ok g
    → sorted_order g ≡ ok order
    → Provided (providers as') [] order
      × ((k : String) → contains k (names order) ≡ contains k (names as'))
connected-Provided as' order g eq h =
    let m : Map Assembly = providers as' in
    let plain : Registered (λ _. true) (registered as') m =
      register-Registered (λ _. true) new_graph [] as' (every-true as')
        (new-Registered (λ _. true)) in
    let (c, known) =
      require_all-Connected m (registered as') g as' plain.well_formed
        (λ k there. registered-has as' k ∙ there) plain.providers eq in
    let wired : Registered (is_wired m as') (registered as') m =
      register-Registered (is_wired m as') new_graph [] as'
        (every-is_wired m as' as' known (λ u v e. e)) (new-Registered (is_wired m as')) in
    let (ids, found, same) = sorted-ok g (topological_sort g) order refl h in
    let o : IsOrder g ids = topological_sort-IsOrder g ids c.well_formed found in
    let has_name : (k : String) → has g.vertices k ≡ contains k (names as') =
      λ k. has-kept (registered as') g k (c.kept k) ∙ registered-has as' k in
    let whole : (k : String) → contains k (reverse ids) ≡ has g.vertices k = λ k. ground (
      arith,
      has-occ g.vertices k,
      o.whole k,
      occ-reverse k ids,
      occ-contains k (reverse ids),
      contains-occ k (reverse ids),
      occ-contains k (keys g.vertices),
      contains-occ k (keys g.vertices),
    ) in
    let (ready, order_names) =
      ready-Provided m as' g (λ u v e. ground (arith, c.edges u v, e))
        (λ k. subst (λ x. all_values (is_wired m as') x k ≡ true) (sym (c.kept k)) (wired.values k))
        [] (reverse ids) (IsOrder-InOrder g ids c.well_formed o)
        (λ k there. sym (whole k) ∙ there) in
    (
      subst (λ x. Provided m [] x) same ready,
      λ k.
          ap (λ x. contains k (names x)) (sym same)
          ∙ ap (contains k) order_names
          ∙ whole k
          ∙ has_name k,
    )

-- If an order is found, it has exactly the names of the given assemblies, and each assembly stands in it behind
-- the providers of all services that it requires, where the last one registered provides a service.
pub init_order-Provided :
    (as' order : List Assembly)
    → init_order as' ≡ ok order
    → Provided (providers as') [] order
      × ((k : String) → contains k (names order) ≡ contains k (names as'))
unfolding init_order
init_order-Provided as' order h =
    let (g, eq, later) = bind-ok (require_all (providers as') (registered as') as') _ h in
    connected-Provided as' order g eq later
