-- ===== src/System/Wired.antt =====
-- The graph that Assemble builds (common/system/assembler.go): each assembly has an edge to the one that provides what
-- it requires.
use cfm.Prelude.{
  ◌≡◌, refl, ◌∙◌, String, Bool, true, false, ◌&&◌, ◌||◌, Option, none, some, List, [], ◌∷◌, Map,
  lookup, insert, has, some_of, every, contains, str_eq, eq_refl, arith, lookup-insert,
  Option-cases, inl, inr, map,
}
use cfm.Errors.{ok, bind-ok}
use cfm.Dag.{Graph, add_vertex, add_edge}
use cfm.Dag.WellFormed.{IsWellFormed, add_vertex-IsWellFormed}
use cfm.Dag.Edges.{
  value_of, value_of-add_vertex, has-value_of, Connected, nothing-Connected, trans-Connected,
  add_edge-Connected, has-kept,
}
use cfm.System.{Assembly, provide, register, require, require_all}

abbrev pub names : List Assembly → List String
names = map (λ a. a.name)

-- A test holds of the values of the vertices, which stand under their names.
abbrev pub all_values : (Assembly → Bool) → Option Assembly → String → Bool
all_values p none k = true
all_values p (some a) k = str_eq a.name k && p a

pub record Registered (p : Assembly → Bool) (g : Graph Assembly) (m : Map Assembly) : Type 0 where
  pub well_formed : IsWellFormed g
  pub values : (k : String) → all_values p (value_of g k) k ≡ true
  pub providers : (r : String) (a : Assembly) → lookup m r ≡ some a → has g.vertices a.name ≡ true

provide-known :
    (g : Graph Assembly) (m : Map Assembly) (a : Assembly) (services : List String)
    → has g.vertices a.name ≡ true
    → ((r : String) (b : Assembly) → lookup m r ≡ some b → has g.vertices b.name ≡ true)
    → (r : String) (b : Assembly) → lookup (provide m a services) r ≡ some b
    → has g.vertices b.name ≡ true
unfolding provide
provide-known g m a [] here known r b found = known r b found
provide-known g m a (s ∷ rest) here known r b found =
    provide-known g (insert m s a) a rest here
      (λ r' b' f. ground (arith, lookup-insert m s r' a, known r' b')) r b found

has-add_vertex :
    (g : Graph Assembly) (a : Assembly) (k : String)
    → has (add_vertex g a.name a).vertices k ≡ (has g.vertices k || str_eq a.name k)
has-add_vertex g a k = ground (
  arith,
  has-value_of (add_vertex g a.name a) k,
  has-value_of g k,
  value_of-add_vertex g a.name a k,
)

pub register-has :
    (g : Graph Assembly) (m : Map Assembly) (as' : List Assembly) (k : String)
    → has (register g m as').0.vertices k ≡ (has g.vertices k || contains k (names as'))
unfolding register
register-has g m [] k = ground arith
register-has g m (a ∷ rest) k = ground (
  arith,
  has-add_vertex g a k,
  register-has (add_vertex g a.name a) (provide m a a.provides) rest k,
)

pub register-Registered :
    (p : Assembly → Bool) (g : Graph Assembly) (m : Map Assembly) (as' : List Assembly)
    → every p as' ≡ true
    → Registered p g m
    → Registered p (register g m as').0 (register g m as').1
unfolding register
register-Registered p g m [] h r = r
register-Registered p g m (a ∷ rest) h r =
    register-Registered p (add_vertex g a.name a) (provide m a a.provides) rest (ground arith)
      (record {
        well_formed = add_vertex-IsWellFormed g a.name a r.well_formed;
        values = λ k. ground (arith, value_of-add_vertex g a.name a k, r.values k, eq_refl a.name);
        providers =
            provide-known (add_vertex g a.name a) m a a.provides
              (ground (arith, has-add_vertex g a a.name, eq_refl a.name))
              (λ r' b f. ground (arith, has-add_vertex g a b.name, r.providers r' b f));
      })

-- Is this the provider of a service?
abbrev pub provides_it : Map Assembly → String → String → Bool
provides_it m v r = elim (lookup m r) [ none ↦ false | some p ↦ str_eq p.name v ]

require-Connected :
    (m : Map Assembly) (g g' : Graph Assembly) (name : String) (rs : List String)
    → IsWellFormed g
    → has g.vertices name ≡ true
    → ((r : String) (a : Assembly) → lookup m r ≡ some a → has g.vertices a.name ≡ true)
    → require m g name rs ≡ ok g'
    → Connected g g' (λ u v. str_eq name u && some_of (provides_it m v) rs)
      × (every (has m) rs ≡ true)
unfolding require
require-Connected m g g' name [] wf here known h =
    (nothing-Connected g g' _ wf h (λ u v. ground arith), refl)
require-Connected m g g' name (r ∷ rs) wf here known h = elim (Option-cases (lookup m r)) [
  | inl n ↦ absurd (ground (arith, rw (n, require) at h))
  | inr (p, found) ↦
      let first : Connected g (add_edge g name p.name) (λ u v. str_eq name u && str_eq p.name v) =
        add_edge-Connected g name p.name wf here (known r p found) in
      let (later, there) =
        require-Connected m (add_edge g name p.name) g' name rs first.well_formed
          (has-kept g (add_edge g name p.name) name (first.kept name) ∙ here)
          (λ r' a f. has-kept g (add_edge g name p.name) a.name (first.kept a.name) ∙ known r' a f)
          (rw (found, require) at h) in
      (
        trans-Connected g (add_edge g name p.name) g' _ _ _ first later
            (λ u v. ground (arith, found)),
        ground (arith, found, there),
      )
]

-- Does an assembly with this name require what the other one provides?
abbrev pub requires_it : Map Assembly → List Assembly → String → String → Bool
requires_it m as' u v = some_of (λ a. str_eq a.name u && some_of (provides_it m v) a.requires) as'

pub require_all-Connected :
    (m : Map Assembly) (g g' : Graph Assembly) (as' : List Assembly)
    → IsWellFormed g
    → ((k : String) → contains k (names as') ≡ true → has g.vertices k ≡ true)
    → ((r : String) (a : Assembly) → lookup m r ≡ some a → has g.vertices a.name ≡ true)
    → require_all m g as' ≡ ok g'
    → Connected g g' (requires_it m as') × (every (λ a. every (has m) a.requires) as' ≡ true)
unfolding require_all
require_all-Connected m g g' [] wf there known h =
    (nothing-Connected g g' _ wf h (λ u v. refl), refl)
require_all-Connected m g g' (a ∷ rest) wf there known h =
    let (g₁, eq, later) = bind-ok (require m g a.name a.requires) _ h in
    let (first, found) =
      require-Connected m g g₁ a.name a.requires wf (there a.name (ground (arith, eq_refl a.name)))
        known eq in
    let (second, others) =
      require_all-Connected m g₁ g' rest first.well_formed
        (λ k f. has-kept g g₁ k (first.kept k) ∙ there k (ground (arith, f)))
        (λ r b f. has-kept g g₁ b.name (first.kept b.name) ∙ known r b f) later in
    (trans-Connected g g₁ g' _ _ _ first second (λ u v. refl), ground (arith, found, others))
