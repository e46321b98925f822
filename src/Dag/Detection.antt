-- ===== src/Dag/Detection.antt =====
-- The search for a cycle ends, and what it gives (common/dag/dag.go: detectCycleWithPath, detectCycle).
use cfm.Prelude.{
  ℕ, zero, suc, ◌≤◌, ◌<◌, ◌≡◌, refl, String, true, false, List, [], ◌∷◌, arith, bit, length,
  contains, has, eq_iff, eq_refl, inl, inr, if◌then◌else◌, insert, length-le, sum_of-lt,
  sum_of_mono, sym, subst, ◌⊎◌, ◌∙◌,
}
use cfm.Dag.{Graph, keys, edges_of}
use cfm.Dag.WellFormed.{IsWellFormed, has-occ}
use cfm.Dag.Cycles.{
  Mark, unvisited, visiting, visited, is_unvisited, Search, mark_of, set_mark, set_parent, Detected,
  clear, and_then, visit, detect_cycle, cycle_path, detect_all,
}
use cfm.Dag.Walks.{Edge, Chain, cycle_path-IsCycle}
use cfm.Dag.Searching.{
  Searching, Searched, Searches, Searched-before, fresh, push-Searching, pop-Searching,
  and_then-Searched, Chain-set_parent, mark_of-set_mark, parent_of-insert,
}

Mark-cases : (m : Mark) → (m ≡ unvisited) ⊎ ((m ≡ visiting) ⊎ (m ≡ visited))
Mark-cases unvisited = inl refl
Mark-cases visiting = inr (inl refl)
Mark-cases visited = inr (inr refl)

module _ {ℓ} {T : Type ℓ} (g : Graph T) (wf : IsWellFormed g) where
  -- The innermost vertex becomes the parent of an unvisited one.
  parent-Searching :
      (s : Search) (v id : String) (stack done : List String)
      → Searching g s (id ∷ stack) done
      → mark_of s v ≡ unvisited
      → Searching g (set_parent v id s) (id ∷ stack) done
  parent-Searching s v id stack done d new = record {
    on_stack = d.on_stack;
    finished = d.finished;
    part = d.part;
    chain =
        Chain-set_parent g s.parents v id (id ∷ stack) (ground (arith, d.on_stack v, new)) d.chain;
    closed = d.closed;
  }

  parent-Chain :
      (s : Search) (v id : String) (stack done : List String)
      → Searching g s (id ∷ stack) done
      → mark_of s v ≡ unvisited
      → Edge g id v
      → Chain g (insert s.parents v id) (v ∷ id ∷ stack)
  parent-Chain s v id stack done d new edge = (
    ground (arith, parent_of-insert s.parents v v id, eq_refl v),
    edge,
    (parent-Searching s v id stack done d new).chain,
  )

  stack-short :
      (s : Search) (id : String) (stack done : List String)
      → Searching g s (id ∷ stack) done
      → length stack ≤ length (keys g.vertices)
  stack-short s id stack done d =
      length-le stack (keys g.vertices) wf.once (λ k. omega (arith, d.part k))

  -- The cases of the loop's body.
  visit-cases :
      (search : String → Search → Detected) (id v : String) (vs : List String) (s : Search)
      (m : Mark)
      → mark_of s v ≡ m
      → visit g search id (v ∷ vs) s ≡ elim m [
        | visiting ↦ cycle_path (length (keys g.vertices)) s.parents id v
        | unvisited ↦ and_then (search v (set_parent v id s)) (visit g search id vs)
        | visited ↦ visit g search id vs s
      ]
  unfolding visit
  visit-cases search id v vs s m h = rw (visit, h) refl

  visit-Searched :
      (search : String → Search → Detected) (n : ℕ)
      → Searches g search n
      → (id : String) (ns : List String) (s : Search) (stack done : List String)
      → Searching g s (id ∷ stack) done
      → ((v : String) → contains v ns ≡ true → Edge g id v)
      → fresh g s ≤ n
      → Searched g (id ∷ stack) done (fresh g s) ns (visit g search id ns s)
  unfolding visit
  visit-Searched search n spec id [] s stack done d edges h =
      (done, d, omega arith, (λ k old. old), (λ k new. cc))
  visit-Searched search n spec id (v ∷ vs) s stack done d edges h =
      let edge : Edge g id v = edges v (ground (arith, eq_refl v)) in
      let later : (w : String) → contains w vs ≡ true → Edge g id w =
        λ w there. edges w (ground arith) in
      elim (Mark-cases (mark_of s v)) [
        | inl new ↦
            subst (Searched g (id ∷ stack) done (fresh g s) (v ∷ vs))
              (sym (visit-cases search id v vs s unvisited new))
              (and_then-Searched g (id ∷ stack) (id ∷ stack) done done (v ∷ []) (v ∷ vs) (fresh g s)
                (fresh g s) (search v (set_parent v id s)) (visit g search id vs)
                (spec v (set_parent v id s) (id ∷ stack) done
                  (parent-Searching s v id stack done d new) new (wf.closed id v edge)
                  (parent-Chain s v id stack done d new edge) h)
                (λ s' more d' less old reached.
                  Searched-before g (id ∷ stack) done more vs v (fresh g s') (fresh g s)
                    (visit g search id vs s')
                    (visit-Searched search n spec id vs s' stack more d' later (omega arith)) less
                    old (reached v (ground (arith, eq_refl v)))))
        | inr (inl on) ↦
            let (path, eq, closed) =
              cycle_path-IsCycle g (length (keys g.vertices)) s.parents id v stack d.chain
                (ground (arith, d.on_stack v, on)) edge (stack-short s id stack done d) in
            subst (Searched g (id ∷ stack) done (fresh g s) (v ∷ vs))
              (sym (visit-cases search id v vs s visiting on ∙ eq)) closed
        | inr (inr off) ↦
            subst (Searched g (id ∷ stack) done (fresh g s) (v ∷ vs))
              (sym (visit-cases search id v vs s visited off))
              (Searched-before g (id ∷ stack) done done vs v (fresh g s) (fresh g s)
                (visit g search id vs s) (visit-Searched search n spec id vs s stack done d later h)
                (omega arith) (λ k old. old) (ground (arith, d.finished v, off)))
      ]

  fresh_mono :
      (s : Search) (id : String) (m : Mark)
      → is_unvisited m ≡ false
      → fresh g (set_mark id m s) ≤ fresh g s
  fresh_mono s id m set =
      sum_of_mono (λ k. bit (is_unvisited (mark_of (set_mark id m s) k)))
        (λ k. bit (is_unvisited (mark_of s k)))
        (λ k. ground (arith, mark_of-set_mark s id k m, set)) (keys g.vertices)

  fresh-visiting :
      (s : Search) (id : String)
      → mark_of s id ≡ unvisited
      → has g.vertices id ≡ true
      → fresh g (set_mark id visiting s) < fresh g s
  fresh-visiting s id new there =
      sum_of-lt (λ k. bit (is_unvisited (mark_of (set_mark id visiting s) k)))
        (λ k. bit (is_unvisited (mark_of s k)))
        (λ k. ground (arith, mark_of-set_mark s id k visiting)) id (keys g.vertices)
        (ground (arith, has-occ g.vertices id))
        (ground (arith, mark_of-set_mark s id id visiting, eq_refl id, new))

  -- A unit of fuel for each unvisited vertex is enough.
  detect_cycle-Searches : (fuel : ℕ) → Searches g (detect_cycle g fuel) fuel
  unfolding detect_cycle
  detect_cycle-Searches zero id s stack done d new there chain h =
      absurd (omega (arith, fresh-visiting s id new there))
  detect_cycle-Searches (suc fuel) id s stack done d new there chain h =
      and_then-Searched g (id ∷ stack) stack done done (edges_of g id) (id ∷ [])
        (fresh g (set_mark id visiting s)) (fresh g s)
        (visit g (detect_cycle g fuel) id (edges_of g id) (set_mark id visiting s)) _
        (visit-Searched (detect_cycle g fuel) fuel (detect_cycle-Searches fuel) id (edges_of g id)
          (set_mark id visiting s) stack done (push-Searching g s id stack done d new there chain)
          (λ v edge. edge) (omega (arith, fresh-visiting s id new there)))
        (λ s' more d' less old reached. (
          id ∷ more,
          pop-Searching g s' id stack more d' reached,
          omega (arith, fresh_mono s' id visited refl, fresh-visiting s id new there),
          (λ k before. omega (arith, old k before)),
          (λ k there'. ground arith),
        ))

  first-Searched :
      (fuel : ℕ) (id : String) (s : Search) (done : List String)
      → Searching g s [] done
      → has g.vertices id ≡ true
      → fresh g s ≤ fuel
      → Searched g [] done
          (fresh g s)
          (id ∷ [])
          (if is_unvisited (mark_of s id) then detect_cycle g fuel id s else clear s)
  first-Searched fuel id s done d there h = elim (Mark-cases (mark_of s id)) [
    | inl new ↦ rw new (detect_cycle-Searches fuel id s [] done d new there tt h)
    | inr (inl on) ↦ absurd (ground (arith, d.on_stack id, on))
    | inr (inr off) ↦ rw off (
      done,
      d,
      omega arith,
      (λ k old. old),
      (λ k here. ground (arith, d.finished k, off, eq_iff id k)),
    )
  ]

  pub detect_all-Searched :
      (fuel : ℕ) (ids : List String) (s : Search) (done : List String)
      → Searching g s [] done
      → ((k : String) → contains k ids ≡ true → has g.vertices k ≡ true)
      → fresh g s ≤ fuel
      → Searched g [] done (fresh g s) ids (detect_all g fuel ids s)
  unfolding detect_all
  detect_all-Searched fuel [] s done d within h =
      (done, d, omega arith, (λ k old. old), (λ k new. cc))
  detect_all-Searched fuel (id ∷ ids) s done d within h =
      and_then-Searched g [] [] done done (id ∷ []) (id ∷ ids) (fresh g s) (fresh g s) _
        (detect_all g fuel ids)
        (first-Searched fuel id s done d (within id (ground (arith, eq_refl id))) h)
        (λ s' more d' less old reached.
          Searched-before g [] done more ids id (fresh g s') (fresh g s) (detect_all g fuel ids s')
            (detect_all-Searched fuel ids s' more d' (λ k there. within k (ground arith))
              (omega arith))
            less old (reached id (ground (arith, eq_refl id))))
