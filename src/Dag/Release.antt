-- ===== src/Dag/Release.antt =====
-- The inner loops of ParallelTopologicalSort (common/dag/dag.go): releasing a level keeps the in-degrees of the
-- remaining vertices.
use cfm.Prelude.{
  ℕ, ◌+◌, ◌-◌, ◌≤◌, ◌≡◌, refl, String, true, List, [], ◌∷◌, ◌++◌, Map, arith, occ, bit, ℤ, pos,
  contains, insert, decrement, if◌then◌else◌, str_eq, occ-remove, sum_of-remove, occ-contains,
  contains-occ, eq_iff, eq_refl, remove, occ-append, ap, ◌∙◌, inl, inr, Bool-cases,
}
use cfm.Dag.{Graph, edges_of}
use cfm.Dag.Sort.{degree, reduce_remaining, release, place, sort_ids, collect}
use cfm.Dag.Degrees.{incoming, degree-insert}

occ-place : (k j : String) (xs : List String) → occ k (place j xs) ≡ bit (str_eq j k) + occ k xs
unfolding place
occ-place k j [] = omega arith
occ-place k j (x ∷ xs) = ground (arith, occ-place k j xs)

pub occ-sort_ids : (k : String) (xs : List String) → occ k (sort_ids xs) ≡ occ k xs
unfolding sort_ids
occ-sort_ids k [] = refl
occ-sort_ids k (x ∷ xs) = omega (arith, occ-place k x (sort_ids xs), occ-sort_ids k xs)

pub occ-collect :
    (k : String) (remaining ids : List String)
    → occ k (collect remaining ids)
      ≡ occ k remaining + (if contains k remaining then 0 else bit (contains k ids))
unfolding collect
occ-collect k remaining [] = ground arith
occ-collect k remaining (id ∷ ids) = elim (Bool-cases (contains id remaining)) [
  | inl old ↦ rw old (ground (arith, occ-collect k remaining ids, eq_iff id k))
  | inr new ↦ rw new (
      ground (
        arith,
        occ-collect k (remaining ++ id ∷ []) ids,
        eq_iff id k,
        occ-append k remaining (id ∷ []),
        contains-occ k remaining,
        occ-contains k remaining,
        contains-occ k (remaining ++ id ∷ []),
        occ-contains k (remaining ++ id ∷ []),
        new,
      ))
]

-- The degrees of the remaining vertices are these counts.
abbrev pub CountsOf : List String → Map ℤ → (String → ℕ) → Type 0
CountsOf remaining deg d = (k : String) → contains k remaining ≡ true → degree deg k ≡ pos (d k)

reduce_one :
    (remaining : List String) (deg : Map ℤ) (d : String → ℕ) (v : String)
    → CountsOf remaining deg d
    → (contains v remaining ≡ true → 1 ≤ d v)
    → CountsOf remaining
        (if contains v remaining then insert deg v (decrement (degree deg v)) else deg)
        (λ k. d k - bit (str_eq v k))
reduce_one remaining deg d v h enough k there =
    ground
      (arith, degree-insert deg v k (decrement (degree deg v)), h k, h v, eq_iff v k, there, enough)

reduce_remaining-CountsOf :
    (remaining : List String) (deg : Map ℤ) (d : String → ℕ) (vs : List String)
    → CountsOf remaining deg d
    → ((k : String) → contains k remaining ≡ true → occ k vs ≤ d k)
    → CountsOf remaining (reduce_remaining deg remaining vs) (λ k. d k - occ k vs)
unfolding reduce_remaining
reduce_remaining-CountsOf remaining deg d [] h enough k there = ground (arith, h k there)
reduce_remaining-CountsOf remaining deg d (v ∷ vs) h enough k there =
    reduce_remaining-CountsOf remaining
      (if contains v remaining then insert deg v (decrement (degree deg v)) else deg)
      (λ j. d j - bit (str_eq v j)) vs
      (reduce_one remaining deg d v h (λ in_rest. ground (arith, enough v in_rest, eq_refl v)))
      (λ j in_rest. omega (arith, enough j in_rest)) k there
    ∙ ap pos (omega arith)

module _ {ℓ} {T : Type ℓ} (g : Graph T) where
  release_one :
      (deg : Map ℤ) (remaining : List String) (u : String)
      → CountsOf remaining deg (incoming g remaining)
      → occ u remaining ≡ 1
      → CountsOf
          (remove u remaining)
          (reduce_remaining deg (remove u remaining) (edges_of g u))
          (incoming g (remove u remaining))
  release_one deg remaining u h here k there =
      reduce_remaining-CountsOf (remove u remaining) deg (incoming g remaining) (edges_of g u)
        (λ j in_rest. h j (was_there j in_rest)) (λ j in_rest. omega (arith, removed j)) k there
      ∙ ap pos (omega (arith, removed k))
    where
      removed :
          (j : String)
          → incoming g remaining j ≡ occ j (edges_of g u) + incoming g (remove u remaining) j
      removed j = sum_of-remove (λ w. occ j (edges_of g w)) u remaining here

      was_there :
          (j : String) → contains j (remove u remaining) ≡ true → contains j remaining ≡ true
      was_there j h = ground (
        arith,
        occ-remove j u remaining,
        contains-occ j (remove u remaining),
        occ-contains j remaining,
      )

  pub release-CountsOf :
      (deg : Map ℤ) (remaining level : List String)
      → CountsOf remaining deg (incoming g remaining)
      → ((k : String) → occ k remaining ≤ 1)
      → ((k : String) → occ k level ≤ occ k remaining)
      → CountsOf
          (release g deg remaining level).1
          (release g deg remaining level).0
          (incoming g (release g deg remaining level).1)
  unfolding release
  release-CountsOf deg remaining [] h once part = h
  release-CountsOf deg remaining (u ∷ level) h once part =
      release-CountsOf (reduce_remaining deg (remove u remaining) (edges_of g u))
        (remove u remaining) level
        (release_one deg remaining u h (ground (arith, part u, once u, eq_refl u)))
        (λ k. ground (arith, occ-remove k u remaining, once k))
        (λ k. ground (arith, occ-remove k u remaining, part k, once k))

  pub occ-release :
      (k : String) (deg : Map ℤ) (remaining level : List String)
      → ((j : String) → occ j remaining ≤ 1)
      → occ k (release g deg remaining level).1 ≡ occ k remaining - occ k level
  unfolding release
  occ-release k deg remaining [] once = ground arith
  occ-release k deg remaining (u ∷ level) once =
      occ-release k (reduce_remaining deg (remove u remaining) (edges_of g u)) (remove u remaining)
        level (λ j. ground (arith, occ-remove j u remaining, once j))
      ∙ ground (arith, occ-remove k u remaining, once k)
