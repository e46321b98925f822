-- ===== src/Dag/Levels.antt =====
-- The levels of ParallelTopologicalSort (common/dag/dag.go): the loop ends, its safety check never stops it, and
-- the levels hold every vertex once, behind its predecessors.
use cfm.Prelude.{
  ℕ, zero, suc, ◌+◌, ◌≤◌, ◌<◌, ◌≡◌, refl, String, true, List, [], ◌∷◌, ◌++◌, Map, arith, occ,
  length, ℤ, pos, is_zero, contains, occ-append, sum_of-le, length-lt, sum_of-zero, occ-keep,
  occ-once, occ-contains, contains-occ, eq_iff, eq_refl, inl, inr, Bool-cases, if◌then◌else◌,
  sum_of-remove, length-le, ap, ◌∙◌, occ-le-length,
}
use cfm.Dag.{Graph, keys, edges_of}
use cfm.Dag.WellFormed.{IsWellFormed, has-occ}
use cfm.Dag.Sort.{
  degree, in_degrees, without_incoming, release, sort_ids, build, collect, levels_of, unless_empty,
  Layers, layers,
}
use cfm.Dag.Degrees.{incoming, in_degrees-Counts}
use cfm.Dag.Kahn.{Follows, Ordered, IsOrder}
use cfm.Dag.Release.{occ-sort_ids, occ-collect, CountsOf, release-CountsOf, occ-release}

abbrev pub flat : List (List String) → List String
flat [] = []
flat (l ∷ ls) = l ++ flat ls

pub occ-flat_snoc :
    (k : String) (ls : List (List String)) (l : List String)
    → occ k (flat (ls ++ l ∷ [])) ≡ occ k (flat ls) + occ k l
occ-flat_snoc k [] l = omega (arith, occ-append k l [])
occ-flat_snoc k (m ∷ ls) l =
    omega
      (arith, occ-append k m (flat ls), occ-append k m (flat (ls ++ l ∷ [])), occ-flat_snoc k ls l)

unless_empty-nonempty :
    (l : List String) (failed rest : Layers) → 0 < length l → unless_empty l failed rest ≡ rest
unless_empty-nonempty [] failed rest h = absurd (omega arith)
unless_empty-nonempty (k ∷ l) failed rest h = refl

module _ {ℓ} {T : Type ℓ} (g : Graph T) where
  -- Each level has a vertex, and its vertices follow those of the levels before it.
  abbrev pub Layered : List String → List (List String) → Type 0
  Layered placed [] = Unit
  Layered placed (l ∷ ls) =
      (0 < length l)
      × ((k : String) → contains k l ≡ true → Follows g placed k)
      × Layered (placed ++ l) ls

  Layered-snoc :
      (placed : List String) (ls : List (List String)) (l : List String)
      → Layered placed ls
      → 0 < length l
      → ((k : String) → contains k l ≡ true → Follows g (placed ++ flat ls) k)
      → Layered placed (ls ++ l ∷ [])
  Layered-snoc placed [] l h some_in follows = (
    some_in,
    (λ k there w vertex edge. omega (arith, follows k there w vertex edge, occ-append w placed [])),
    tt,
  )
  Layered-snoc placed (m ∷ ls) l h some_in follows = (
    h.0,
    h.1,
    Layered-snoc (placed ++ m) ls l h.2 some_in (λ k there w vertex edge. omega (
      arith,
      follows k there w vertex edge,
      occ-append w placed (m ++ flat ls),
      occ-append w m (flat ls),
      occ-append w (placed ++ m) (flat ls),
      occ-append w placed m,
    )),
  )

  -- What the levels of a graph are.
  pub record IsLayering (ls : List (List String)) : Type 0 where
    pub partition : (k : String) → occ k (flat ls) ≡ occ k (keys g.vertices)
    pub layered : Layered [] ls

  module _ (wf : IsWellFormed g) where
    -- The state of the loop over the levels.
    record Building (deg : Map ℤ) (remaining : List String) (built : List (List String))
        : Type 0 where
      pub split : (k : String) → occ k remaining + occ k (flat built) ≡ occ k (keys g.vertices)
      pub counts : CountsOf remaining deg (incoming g remaining)
      pub layered : Layered [] built

    -- Where some vertex remains, the first one of the order that does has no edge left.
    first_free :
        (remaining placed order : List String)
        → ((k : String) → occ k remaining ≤ occ k (keys g.vertices))
        → Ordered g placed order
        → ((k : String) → 0 < occ k placed → occ k remaining ≡ 0)
        → (j : String) → contains j order ≡ true
        → contains j remaining ≡ true
        → (k : String) × (contains k remaining ≡ true) × (incoming g remaining k ≡ 0)
    first_free remaining placed [] part h gone j in_order there = cc
    first_free remaining placed (u ∷ order) part h gone j in_order there =
        elim (Bool-cases (contains u remaining)) [
          | inl here ↦ (
            u,
            here,
            sum_of-zero (λ w. occ u (edges_of g w)) remaining
                (λ w in_rest. ground (
                  arith,
                  h.0 w,
                  gone w,
                  part w,
                  has-occ g.vertices w,
                  occ-contains w (keys g.vertices),
                  occ-contains u (edges_of g w),
                )),
          )
          | inr not_here ↦
              first_free remaining (placed ++ u ∷ []) order part h.1
                (λ k before. ground (
                  arith,
                  occ-append k placed (u ∷ []),
                  gone k,
                  eq_iff u k,
                  occ-contains k remaining,
                ))
                j (ground (arith, eq_iff u j)) there
        ]

    module _ (deg : Map ℤ) (remaining : List String) (built : List (List String))
        (b : Building deg remaining built) where
      abbrev level : List String
      level = sort_ids (without_incoming deg remaining)

      occ-level :
          (k : String) → occ k level ≡ (if is_zero (degree deg k) then occ k remaining else 0)
      occ-level k = ground (
        arith,
        occ-sort_ids k (without_incoming deg remaining),
        occ-keep (λ id. is_zero (degree deg id)) k remaining,
      )

      part : (k : String) → occ k level ≤ occ k remaining
      part k = ground (arith, occ-level k)

      once : (k : String) → occ k remaining ≤ 1
      once k = omega (arith, b.split k, wf.once k)

      -- What is free has no edge from a remaining vertex.
      level-free : (k : String) → contains k level ≡ true → incoming g remaining k ≡ 0
      level-free k there =
          ground (arith, occ-level k, contains-occ k level, occ-contains k remaining, b.counts k)

      level-Follows : (k : String) → contains k level ≡ true → Follows g (flat built) k
      level-Follows k there w vertex edge = ground (
        arith,
        b.split w,
        wf.once w,
        has-occ g.vertices w,
        contains-occ w (keys g.vertices),
        contains-occ k (edges_of g w),
        level-free k there,
        sum_of-remove (λ v. occ k (edges_of g v)) w remaining,
      )

      step-Building :
          0 < length level
          → Building
              (release g deg remaining level).0
              (release g deg remaining level).1
              (built ++ level ∷ [])
      step-Building some_in = record {
        split = λ k. omega (
          arith,
          b.split k,
          part k,
          occ-release g k deg remaining level once,
          occ-flat_snoc k built level,
        );
        counts = release-CountsOf g deg remaining level b.counts once part;
        layered = Layered-snoc [] built level b.layered some_in level-Follows;
      }

      module _ (order : List String) (o : IsOrder g order) (j : String)
          (there : contains j remaining ≡ true) where
        some_free : (k : String) × (0 < occ k level)
        some_free =
            let (k, here, free) =
              first_free remaining [] order (λ i. omega (arith, b.split i)) o.ordered
                (λ i h. absurd (omega arith)) j
                (ground
                  (arith, b.split j, o.whole j, contains-occ j remaining, occ-contains j order))
                there in
            (k, ground (arith, occ-level k, b.counts k here, contains-occ k remaining))

        -- The level is not empty: the safety check never stops the loop.
        level-nonempty : 0 < length level
        level-nonempty = let (k, h) = some_free in omega (arith, occ-le-length k level)

        release-shorter : length (release g deg remaining level).1 < length remaining
        release-shorter =
            let (k, h) = some_free in
            length-lt (release g deg remaining level).1 remaining once
              (λ i. omega (arith, occ-release g i deg remaining level once)) k
              (omega (arith, occ-release g k deg remaining level once, part k))

    module _ (order : List String) (o : IsOrder g order) where
      build-IsLayering :
          (fuel : ℕ) (deg : Map ℤ) (remaining : List String) (built : List (List String))
          → Building deg remaining built
          → length remaining ≤ fuel
          → (ls : List (List String)) × (build g fuel deg remaining built ≡ layers ls)
            × IsLayering ls
      unfolding build
      build-IsLayering fuel deg [] built b h =
          (built, refl, record { partition = λ k. omega (arith, b.split k); layered = b.layered })
      build-IsLayering zero deg (j ∷ rest) built b h = absurd (omega arith)
      build-IsLayering (suc fuel) deg (j ∷ rest) built b h =
          let some_in : 0 < length (level deg (j ∷ rest) built b) =
            level-nonempty deg (j ∷ rest) built b order o j (ground (arith, eq_refl j)) in
          let (ls, eq, done) =
            build-IsLayering fuel _ _ _ (step-Building deg (j ∷ rest) built b some_in) (
              omega (
                arith,
                release-shorter deg (j ∷ rest) built b order o j (ground (arith, eq_refl j)),
              )) in
          (ls, unless_empty-nonempty (level deg (j ∷ rest) built b) _ _ some_in ∙ eq, done)

      collected : (k : String) → occ k (collect [] order) ≡ occ k order
      collected k =
          omega
            (arith, occ-collect k [] order, occ-once k order (omega (arith, o.whole k, wf.once k)))

      start-Building : Building (in_degrees g order) (collect [] order) []
      start-Building = record {
        split = λ k. omega (arith, collected k, o.whole k);
        counts = λ k there.
            in_degrees-Counts g order k
            ∙ ap pos (
                omega (
                  arith,
                  sum_of-le (λ w. occ k (edges_of g w)) order (collect [] order)
                      (λ i. omega (arith, collected i, o.whole i, wf.once i))
                      (λ i. omega (arith, collected i)),
                  sum_of-le (λ w. occ k (edges_of g w)) (collect [] order) order
                      (λ i. omega (arith, o.whole i, wf.once i)) (λ i. omega (arith, collected i)),
                ));
        layered = tt;
      }

      pub levels_of-IsLayering :
          (fuel : ℕ)
          → length (keys g.vertices) ≤ fuel
          → (ls : List (List String)) × (levels_of g fuel order ≡ layers ls) × IsLayering ls
      unfolding levels_of
      levels_of-IsLayering fuel h =
          build-IsLayering fuel (in_degrees g order) (collect [] order) [] start-Building (
            omega (
              arith,
              length-le (collect [] order) (keys g.vertices) wf.once
                  (λ k. omega (arith, collected k, o.whole k)),
            ))
