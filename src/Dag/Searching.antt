-- ===== src/Dag/Searching.antt =====
-- What the search for a cycle keeps (common/dag/dag.go: detectCycle): the vertices being visited are a chain of
-- parents, and the edges of a visited vertex lead to vertices that were visited before it.
use cfm.Prelude.{
  ℕ, ◌+◌, ◌≤◌, ◌<◌, ◌≡◌, String, Bool, true, false, List, [], ◌∷◌, Map, arith, occ, bit, sum_of,
  contains, has, eq_iff, if◌then◌else◌, str_eq, insert, lookup-insert, contains-occ,
}
use cfm.Dag.{Graph, keys}
use cfm.Dag.WellFormed.{has-occ}
use cfm.Dag.Cycles.{
  Mark, unvisited, visiting, visited, is_unvisited, Search, mark_of, parent_of, set_mark, Detected,
  clear, cycle, out_of_fuel, and_then,
}
use cfm.Dag.Walks.{Edge, IsCycle, Chain}

abbrev pub is_visiting : Mark → Bool
is_visiting visiting = true
is_visiting _ = false

abbrev pub is_visited : Mark → Bool
is_visited visited = true
is_visited _ = false

pub mark_of-set_mark :
    (s : Search) (id k : String) (m : Mark)
    → mark_of (set_mark id m s) k ≡ (if str_eq id k then m else mark_of s k)
mark_of-set_mark s id k m = ground (arith, lookup-insert s.marks id k m)

pub parent_of-insert :
    (parents : Map String) (id k p : String)
    → parent_of (insert parents id p) k ≡ (if str_eq id k then p else parent_of parents k)
parent_of-insert parents id k p = ground (arith, lookup-insert parents id k p)

module _ {ℓ} {T : Type ℓ} (g : Graph T) where
  -- The edges of a vertex lead to the vertices behind it.
  abbrev pub Closed : List String → Type 0
  Closed [] = Unit
  Closed (u ∷ us) = ((v : String) → Edge g u v → 0 < occ v us) × Closed us

  -- The vertices being visited, innermost first, and the visited ones, the last one first.
  pub record Searching (s : Search) (stack done : List String) : Type 0 where
    pub on_stack : (k : String) → occ k stack ≡ bit (is_visiting (mark_of s k))
    pub finished : (k : String) → occ k done ≡ bit (is_visited (mark_of s k))
    pub part : (k : String) → occ k stack + occ k done ≤ occ k (keys g.vertices)
    pub chain : Chain g s.parents stack
    pub closed : Closed done

  -- the number of unvisited vertices
  abbrev pub fresh : Search → ℕ
  fresh s = sum_of (λ k. bit (is_unvisited (mark_of s k))) (keys g.vertices)

  pub Chain-set_parent :
      (parents : Map String) (id p : String) (stack : List String)
      → occ id stack ≡ 0
      → Chain g parents stack
      → Chain g (insert parents id p) stack
  Chain-set_parent parents id p [] new h = tt
  Chain-set_parent parents id p (v ∷ []) new h = tt
  Chain-set_parent parents id p (v ∷ u ∷ us) new h = (
    ground (arith, parent_of-insert parents id v p, h.0, eq_iff id v, eq_iff v id, new),
    h.1,
    Chain-set_parent parents id p (u ∷ us) (omega arith) h.2,
  )

  -- Entering a vertex, whose parent is the innermost one.
  pub push-Searching :
      (s : Search) (id : String) (stack done : List String)
      → Searching s stack done
      → mark_of s id ≡ unvisited
      → has g.vertices id ≡ true
      → Chain g s.parents (id ∷ stack)
      → Searching (set_mark id visiting s) (id ∷ stack) done
  push-Searching s id stack done d new there chain = record {
    on_stack = λ k. ground (arith, d.on_stack k, mark_of-set_mark s id k visiting, eq_iff id k);
    finished = λ k. ground (arith, d.finished k, mark_of-set_mark s id k visiting, eq_iff id k);
    part = λ k. ground (
      arith,
      d.part k,
      eq_iff id k,
      d.on_stack k,
      d.finished k,
      new,
      has-occ g.vertices id,
      contains-occ id (keys g.vertices),
    );
    chain = chain;
    closed = d.closed;
  }

  Chain-tail :
      (parents : Map String) (v : String) (us : List String)
      → Chain g parents (v ∷ us)
      → Chain g parents us
  Chain-tail parents v [] h = tt
  Chain-tail parents v (u ∷ us) h = h.2

  -- Leaving a vertex all of whose edges lead to visited ones.
  pub pop-Searching :
      (s : Search) (id : String) (stack done : List String)
      → Searching s (id ∷ stack) done
      → ((v : String) → Edge g id v → 0 < occ v done)
      → Searching (set_mark id visited s) stack (id ∷ done)
  pop-Searching s id stack done d all_done = record {
    on_stack = λ k. ground (arith, d.on_stack k, mark_of-set_mark s id k visited, eq_iff id k);
    finished = λ k.
        ground (arith, d.on_stack k, d.finished k, mark_of-set_mark s id k visited, eq_iff id k);
    part = λ k. omega (arith, d.part k);
    chain = Chain-tail s.parents id stack d.chain;
    closed = (all_done, d.closed);
  }

  -- What a search started with these lists gives: progress that reaches these vertices, or a cycle.
  abbrev pub Searched : List String → List String → ℕ → List String → Detected → Type 0
  Searched stack done n reached (clear s) =
      (done' : List String) × Searching s stack done'
      × (fresh s ≤ n)
      × ((k : String) → 0 < occ k done → 0 < occ k done')
      × ((k : String) → contains k reached ≡ true → 0 < occ k done')
  Searched stack done n reached (cycle path) = IsCycle g path
  Searched stack done n reached out_of_fuel = ⊥

  pub and_then-Searched :
      (stack stack' done done' reached reached' : List String) (n n' : ℕ) (r : Detected)
      (rest : Search → Detected)
      → Searched stack done n reached r
      → ((s : Search) (more : List String)
          → Searching s stack more
          → fresh s ≤ n
          → ((k : String) → 0 < occ k done → 0 < occ k more)
          → ((k : String) → contains k reached ≡ true → 0 < occ k more)
          → Searched stack' done' n' reached' (rest s))
      → Searched stack' done' n' reached' (and_then r rest)
  and_then-Searched stack stack' done done' reached reached' n n' (clear s) rest
        (more, d, less, old, new) go =
      go s more d less old new
  and_then-Searched stack stack' done done' reached reached' n n' (cycle path) rest h go = h
  and_then-Searched stack stack' done done' reached reached' n n' out_of_fuel rest h go = absurd h

  -- The same, seen from an earlier state, with one more vertex that was reached.
  pub Searched-before :
      (stack done more vs : List String) (v : String) (m n : ℕ) (r : Detected)
      → Searched stack more m vs r
      → m ≤ n
      → ((k : String) → 0 < occ k done → 0 < occ k more)
      → 0 < occ v more
      → Searched stack done n (v ∷ vs) r
  Searched-before stack done more vs v m n (clear s) (last, d, less, old, new) le grown here = (
    last,
    d,
    omega arith,
    (λ k h. old k (grown k h)),
    λ k h. ground (arith, eq_iff v k, new k, old v here),
  )
  Searched-before stack done more vs v m n (cycle path) h le grown here = h
  Searched-before stack done more vs v m n out_of_fuel h le grown here = absurd h

  -- A recursive call with this much fuel searches from an unvisited vertex.
  abbrev pub Searches : (String → Search → Detected) → ℕ → Type 0
  Searches search n =
      (id : String) (s : Search) (stack done : List String)
      → Searching s stack done
      → mark_of s id ≡ unvisited
      → has g.vertices id ≡ true
      → Chain g s.parents (id ∷ stack)
      → fresh s ≤ n
      → Searched stack done (fresh s) (id ∷ []) (search id s)
