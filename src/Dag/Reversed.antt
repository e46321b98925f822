-- ===== src/Dag/Reversed.antt =====
-- The levels of ParallelTopologicalSort in reverse (common/dag/dag.go, pmanager/api/types.go): where an edge leads
-- from a vertex to one that it depends on, every vertex then stands behind what it depends on.
use mathlib.Core.List.{reverse-cons}
use cfm.Prelude.{
  ◌+◌, ◌<◌, ◌≡◌, refl, String, true, List, [], ◌∷◌, ◌++◌, arith, occ, contains, contains-occ,
  occ-contains, occ-append, reverse, length,
}
use cfm.Dag.{Graph, keys}
use cfm.Dag.WellFormed.{IsWellFormed, has-occ}
use cfm.Dag.Walks.{Edge}
use cfm.Dag.Levels.{IsLayering, Layered, flat, occ-flat_snoc}
use cfm.Dag.Acyclic.{has-Edge}

module _ {ℓ} {T : Type ℓ} (g : Graph T) where
  -- The edges of a list of vertices lead into another list.
  abbrev pub LeadsInto : List String → List String → Type 0
  LeadsInto before l = (u v : String) → contains u l ≡ true → Edge g u v → 0 < occ v before

  -- The edges of each level lead into the levels before it.
  abbrev pub Ready : List String → List (List String) → Type 0
  Ready before [] = Unit
  Ready before (l ∷ ls) = LeadsInto before l × (0 < length l) × Ready (before ++ l) ls

  Ready-snoc :
      (before : List String) (ls : List (List String)) (l : List String)
      → Ready before ls
      → LeadsInto (before ++ flat ls) l
      → 0 < length l
      → Ready before (ls ++ l ∷ [])
  Ready-snoc before [] l h leads some_in =
      ((λ u v there edge. omega (arith, leads u v there edge, occ-append v before [])), some_in, tt)
  Ready-snoc before (m ∷ ls) l h leads some_in = (
    h.0,
    h.1,
    Ready-snoc (before ++ m) ls l h.2
        (λ u v there edge. omega (
          arith,
          leads u v there edge,
          occ-append v before (m ++ flat ls),
          occ-append v m (flat ls),
          occ-append v (before ++ m) (flat ls),
          occ-append v before m,
        ))
        some_in,
  )

  pub occ-flat-reverse :
      (k : String) (ls : List (List String)) → occ k (flat (reverse ls)) ≡ occ k (flat ls)
  occ-flat-reverse k [] = refl
  occ-flat-reverse k (l ∷ ls) = rw (reverse-cons l ls) (
      omega
        (arith, occ-flat_snoc k (reverse ls) l, occ-flat-reverse k ls, occ-append k l (flat ls)))

  reverse-Ready :
      (wf : IsWellFormed g) (placed : List String) (ls : List (List String))
      → Layered g placed ls
      → ((k : String) → occ k placed + occ k (flat ls) ≡ occ k (keys g.vertices))
      → ((u v : String) → 0 < occ v placed → Edge g u v → 0 < occ u placed)
      → Ready [] (reverse ls)
  reverse-Ready wf placed [] h whole closed = tt
  reverse-Ready wf placed (l ∷ ls) h whole closed =
      let follows : (u v : String) → 0 < occ v l → Edge g u v → 0 < occ u placed =
        λ u v there edge. h.1 v (occ-contains v l there) u (has-Edge g u v edge) edge in
      rw (reverse-cons l ls) (
        Ready-snoc [] (reverse ls) l
          (reverse-Ready wf (placed ++ l) ls h.2
            (λ k. omega (arith, whole k, occ-append k l (flat ls), occ-append k placed l))
            (λ u v there edge.
              ground (
                arith,
                occ-append v placed l,
                occ-append u placed l,
                closed u v,
                edge,
                follows u v,
              )))
          (λ u v there edge. ground (
            arith,
            whole u,
            whole v,
            wf.once u,
            wf.once v,
            occ-append u l (flat ls),
            occ-append v l (flat ls),
            contains-occ u l,
            follows u v,
            closed u v,
            edge,
            there,
            occ-flat-reverse v ls,
            wf.closed u v,
            has-occ g.vertices v,
            contains-occ v (keys g.vertices),
          ))
          h.0)

  -- What the reversed levels are.
  pub IsLayering-Ready :
      (levels : List (List String))
      → IsWellFormed g
      → IsLayering g levels
      → Ready [] (reverse levels)
  IsLayering-Ready levels wf l =
      reverse-Ready wf [] levels l.layered (λ k. omega (arith, l.partition k))
        (λ u v there edge. absurd (omega arith))
