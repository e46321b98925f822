-- ===== src/Dag/Degrees.antt =====
-- The in-degrees that the sorts keep (common/dag/dag.go): their values are the counts of edges not yet released.
use cfm.Prelude.{
  ℕ, ◌+◌, ◌-◌, ◌≤◌, ◌≡◌, refl, String, List, [], ◌∷◌, ◌++◌, Map, lookup, insert, arith, occ, bit,
  sum_of, if◌then◌else◌, lookup-insert, eq_iff, eq_refl, ℤ, pos, is_zero, increment, decrement, ltb,
  nat_eq, ◌&&◌, occ-append, str_eq, ap, ◌∙◌,
}
use cfm.Dag.{Graph, edges_of}
use cfm.Dag.Sort.{degree, zeros, count_edges, count_all, in_degrees, reduce}

-- The degrees are these counts.
abbrev pub Counts : Map ℤ → (String → ℕ) → Type 0
Counts deg d = (k : String) → degree deg k ≡ pos (d k)

pub degree-insert :
    (deg : Map ℤ) (j k : String) (x : ℤ)
    → degree (insert deg j x) k ≡ (if str_eq j k then x else degree deg k)
degree-insert deg j k x = ground (arith, lookup-insert deg j k x)

increment-Counts :
    (deg : Map ℤ) (d : String → ℕ) (v : String)
    → Counts deg d
    → Counts (insert deg v (increment (degree deg v))) (λ k. d k + bit (str_eq v k))
increment-Counts deg d v h k =
    ground (arith, degree-insert deg v k (increment (degree deg v)), h k, h v, eq_iff v k)

zeros-Counts :
    (deg : Map ℤ) (ids : List String) → Counts deg (λ _. 0) → Counts (zeros deg ids) (λ _. 0)
unfolding zeros
zeros-Counts deg [] h = h
zeros-Counts deg (id ∷ ids) h =
    zeros-Counts (insert deg id (pos 0)) ids
      (λ k. ground (arith, degree-insert deg id k (pos 0), h k))

count_edges-Counts :
    (deg : Map ℤ) (d : String → ℕ) (vs : List String)
    → Counts deg d
    → Counts (count_edges deg vs) (λ k. d k + occ k vs)
unfolding count_edges
count_edges-Counts deg d [] h k = ground (arith, h k)
count_edges-Counts deg d (v ∷ vs) h k = ground (
  arith,
  count_edges-Counts (insert deg v (increment (degree deg v))) (λ j. d j + bit (str_eq v j)) vs
      (increment-Counts deg d v h) k,
)

decrement-Counts :
    (deg : Map ℤ) (d : String → ℕ) (v : String)
    → 1 ≤ d v
    → Counts deg d
    → Counts (insert deg v (decrement (degree deg v))) (λ k. d k - bit (str_eq v k))
decrement-Counts deg d v some_left h k =
    ground (arith, degree-insert deg v k (decrement (degree deg v)), h k, h v, eq_iff v k)

module _ {ℓ} {T : Type ℓ} (g : Graph T) where
  -- the edges from a list of vertices into `k`
  abbrev pub incoming : List String → String → ℕ
  incoming us k = sum_of (λ u. occ k (edges_of g u)) us

  count_all-Counts :
      (deg : Map ℤ) (d : String → ℕ) (us : List String)
      → Counts deg d
      → Counts (count_all g deg us) (λ k. d k + incoming us k)
  unfolding count_all
  count_all-Counts deg d [] h k = ground (arith, h k)
  count_all-Counts deg d (u ∷ us) h k = ground (
    arith,
    count_all-Counts (count_edges deg (edges_of g u)) (λ j. d j + occ j (edges_of g u)) us
        (count_edges-Counts deg d (edges_of g u) h) k,
  )

  pub in_degrees-Counts : (ids : List String) → Counts (in_degrees g ids) (incoming ids)
  unfolding in_degrees lookup
  in_degrees-Counts ids k =
      ground
        (arith, count_all-Counts (zeros [] ids) (λ _. 0) ids (zeros-Counts [] ids (λ j. refl)) k)

-- The vertices that become free when these edges are released.
abbrev pub freed : (String → ℕ) → List String → String → ℕ
freed d vs k = bit (ltb 0 (occ k vs) && nat_eq (d k) (occ k vs))

module _ (deg : Map ℤ) (d : String → ℕ) (v : String) (vs : List String) (h : Counts deg d)
    (enough : (k : String) → occ k (v ∷ vs) ≤ d k) where
  abbrev deg' : Map ℤ
  deg' = insert deg v (decrement (degree deg v))

  abbrev d' : String → ℕ
  d' k = d k - bit (str_eq v k)

  reduced : Counts deg' d'
  reduced = decrement-Counts deg d v (ground (arith, enough v, eq_refl v)) h

  still_enough : (k : String) → occ k vs ≤ d' k
  still_enough k = omega (arith, enough k)

  -- The vertex that was reduced is queued when its last edge is released.
  queued-freed :
      (queue : List String) (k : String)
      → occ k (if is_zero (degree deg' v) then queue ++ v ∷ [] else queue) + freed d' vs k
        ≡ occ k queue + freed d (v ∷ vs) k
  queued-freed queue k =
      ground
        (arith, reduced v, eq_refl v, eq_iff v k, occ-append k queue (v ∷ []), enough k, enough v)

pub reduce-Counts :
    (deg : Map ℤ) (d : String → ℕ) (vs queue : List String)
    → Counts deg d
    → ((k : String) → occ k vs ≤ d k)
    → Counts (reduce deg vs queue).0 (λ k. d k - occ k vs)
unfolding reduce
reduce-Counts deg d [] queue h enough k = ground (arith, h k)
reduce-Counts deg d (v ∷ vs) queue h enough k =
    reduce-Counts (deg' deg d v vs h enough) (d' deg d v vs h enough) vs _
      (reduced deg d v vs h enough) (still_enough deg d v vs h enough) k
    ∙ ap pos (omega arith)

pub reduce-freed :
    (deg : Map ℤ) (d : String → ℕ) (vs queue : List String)
    → Counts deg d
    → ((k : String) → occ k vs ≤ d k)
    → (k : String) → occ k (reduce deg vs queue).1 ≡ occ k queue + freed d vs k
unfolding reduce
reduce-freed deg d [] queue h enough k = ground arith
reduce-freed deg d (v ∷ vs) queue h enough k =
    reduce-freed (deg' deg d v vs h enough) (d' deg d v vs h enough) vs _
      (reduced deg d v vs h enough) (still_enough deg d v vs h enough) k
    ∙ queued-freed deg d v vs h enough queue k
