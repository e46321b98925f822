-- ===== src/Prelude/Counts.antt =====
-- How often a string stands in a list, sums over lists, and the removal of a string: what loops over the
-- keys of a map are counted with.
use Prim.Native.Nat.{ℕ, ◌+◌, ◌≤◌, ◌<◌}
use Prim.Native.String.{String}
use mathlib.Core.Path.{◌≡◌, refl, ap}
use mathlib.Core.Logic.{inl, inr}
use mathlib.Core.Bool.{Bool, true, false, ◌||◌}
use mathlib.Core.List.{List, [], ◌∷◌, ◌++◌}
use native.Mathlib.Omega.{arith}
use text.Mathlib.Text.{◌==◌ as str_eq}
use text.Mathlib.TextEquality.{eq_iff}
use text.Mathlib.TextPositions.{eq_refl}
use cfm.Prelude.Tests.{if◌then◌else◌, Bool-cases}
use cfm.Prelude.Lists.{length, contains, keep}

abbrev pub bit : Bool → ℕ
bit true = 1
bit false = 0

abbrev pub occ : String → List String → ℕ
occ k [] = 0
occ k (j ∷ js) = bit (str_eq j k) + occ k js

abbrev pub sum_of : (String → ℕ) → List String → ℕ
sum_of f [] = 0
sum_of f (k ∷ ks) = f k + sum_of f ks

abbrev pub remove : String → List String → List String
remove k [] = []
remove k (j ∷ js) = let rest = remove k js in if str_eq j k then rest else j ∷ rest

pub occ-append : (k : String) (xs ys : List String) → occ k (xs ++ ys) ≡ occ k xs + occ k ys
occ-append k [] ys = omega arith
occ-append k (x ∷ xs) ys = omega (arith, occ-append k xs ys)

pub sum_of-append :
    (f : String → ℕ) (xs ys : List String) → sum_of f (xs ++ ys) ≡ sum_of f xs + sum_of f ys
sum_of-append f [] ys = omega arith
sum_of-append f (x ∷ xs) ys = omega (arith, sum_of-append f xs ys)

pub occ-remove :
    (k x : String) (xs : List String) → occ k (remove x xs) ≡ (if str_eq x k then 0 else occ k xs)
occ-remove k x [] = ground arith
occ-remove k x (j ∷ js) = ground (arith, eq_iff j x, eq_iff j k, eq_iff x k, occ-remove k x js)

pub contains-append :
    (k : String) (xs ys : List String) → contains k (xs ++ ys) ≡ contains k xs || contains k ys
contains-append k [] ys = refl
contains-append k (x ∷ xs) ys = ground (arith, contains-append k xs ys)

pub contains-occ : (k : String) (xs : List String) → contains k xs ≡ true → 0 < occ k xs
contains-occ k [] h = cc
contains-occ k (x ∷ xs) h = ground (arith, contains-occ k xs)

pub occ-contains : (k : String) (xs : List String) → 0 < occ k xs → contains k xs ≡ true
occ-contains k [] h = absurd (omega arith)
occ-contains k (x ∷ xs) h = ground (arith, occ-contains k xs)

module _ (f : String → ℕ) where
  sum_of-remove_absent :
      (x : String) (xs : List String) → occ x xs ≡ 0 → sum_of f (remove x xs) ≡ sum_of f xs
  sum_of-remove_absent x [] h = refl
  sum_of-remove_absent x (j ∷ js) h = ground (arith, sum_of-remove_absent x js)

  pub sum_of-remove :
      (x : String) (xs : List String) → occ x xs ≡ 1 → sum_of f xs ≡ f x + sum_of f (remove x xs)
  sum_of-remove x [] h = absurd (omega arith)
  sum_of-remove x (j ∷ js) h = elim (Bool-cases (str_eq j x)) [
    | inl same ↦
        let eq : j ≡ x = (eq_iff j x).0 same in
        let none_left : sum_of f (remove x js) ≡ sum_of f js =
          sum_of-remove_absent x js (ground arith) in
        let at_x : f j ≡ f x = ap f eq in rw same (omega arith)
    | inr other ↦ rw other (ground (arith, sum_of-remove x js))
  ]

  -- A part of a list without duplicates has at most its sum.
  pub sum_of-le :
      (xs ys : List String)
      → ((k : String) → occ k ys ≤ 1)
      → ((k : String) → occ k xs ≤ occ k ys)
      → sum_of f xs ≤ sum_of f ys
  sum_of-le [] ys once part = omega arith
  sum_of-le (x ∷ xs) ys once part =
      let here : occ x ys ≡ 1 = ground (arith, once x, part x, eq_refl x) in
      let rest : sum_of f xs ≤ sum_of f (remove x ys) =
        sum_of-le xs (remove x ys) (λ k. ground (arith, occ-remove k x ys, once k))
          (λ k. ground (arith, occ-remove k x ys, part k, once k)) in
      omega (arith, sum_of-remove x ys here)

  -- A part with the whole sum has every element that adds to it.
  pub sum_of-whole :
      (xs ys : List String)
      → ((k : String) → occ k ys ≤ 1)
      → ((k : String) → occ k xs ≤ occ k ys)
      → sum_of f xs ≡ sum_of f ys
      → (w : String) → occ w ys ≡ 1
      → 1 ≤ f w
      → 0 < occ w xs
  sum_of-whole xs ys once part same w here adds = grind (
    arith,
    sum_of-remove w ys here,
    λ (missing : occ w xs ≡ 0).
        sum_of-le xs (remove w ys) (λ k. ground (arith, occ-remove k w ys, once k))
          (λ k. ground (arith, occ-remove k w ys, part k, eq_iff w k, missing)),
  )

  pub sum_of-zero : (xs : List String) → ((w : String) → 0 < occ w xs → f w ≡ 0) → sum_of f xs ≡ 0
  sum_of-zero [] h = refl
  sum_of-zero (x ∷ xs) h =
      omega
        (arith, h x (ground (arith, eq_refl x)), sum_of-zero xs (λ w some_in. h w (omega arith)))

  -- A list with all elements that add to the sum of another has at least its sum.
  pub sum_of-support :
      (ys xs : List String)
      → ((k : String) → occ k ys ≤ 1)
      → ((k : String) → occ k xs ≤ 1)
      → ((k : String) → 0 < occ k ys → 1 ≤ f k → 0 < occ k xs)
      → sum_of f ys ≤ sum_of f xs
  sum_of-support [] xs once_ys once_xs within = omega arith
  sum_of-support (y ∷ ys) xs once_ys once_xs within =
      let tail_once : (k : String) → occ k ys ≤ 1 = λ k. omega (arith, once_ys k) in
      let tail_within : (k : String) → 0 < occ k ys → 1 ≤ f k → 0 < occ k xs =
        λ k h adds. within k (omega arith) adds in
      let here : 1 ≤ f y → occ y xs ≡ 1 =
        λ adds. ground (arith, within y (ground (arith, eq_refl y)) adds, once_xs y) in
      let rest : sum_of f ys ≤ sum_of f (remove y xs) =
        sum_of-support ys (remove y xs) tail_once
          (λ k. ground (arith, occ-remove k y xs, once_xs k))
          (λ k h adds.
            ground (arith, occ-remove k y xs, tail_within k h adds, eq_iff y k, once_ys k)) in
      grind (
        arith,
        sum_of-support ys xs tail_once once_xs tail_within,
        λ (adds : 1 ≤ f y). sum_of-remove y xs (here adds),
      )

pub length-sum_of : (xs : List String) → length xs ≡ sum_of (λ _. 1) xs
length-sum_of [] = refl
length-sum_of (x ∷ xs) = omega (arith, length-sum_of xs)

pub length-le :
    (xs ys : List String)
    → ((k : String) → occ k ys ≤ 1)
    → ((k : String) → occ k xs ≤ occ k ys)
    → length xs ≤ length ys
length-le xs ys once part =
    omega (arith, length-sum_of xs, length-sum_of ys, sum_of-le (λ _. 1) xs ys once part)

-- A part that misses an element is shorter.
pub length-lt :
    (xs ys : List String)
    → ((k : String) → occ k ys ≤ 1)
    → ((k : String) → occ k xs ≤ occ k ys)
    → (k : String) → occ k xs < occ k ys
    → length xs < length ys
length-lt xs ys once part k less = omega (arith, length-le (k ∷ xs) ys once longer)
  where
    longer : (j : String) → occ j (k ∷ xs) ≤ occ j ys
    longer j = elim (Bool-cases (str_eq k j)) [
      | inl same ↦
          let eq : k ≡ j = (eq_iff k j).0 same in
          let in_xs : occ k xs ≡ occ j xs = ap (λ i. occ i xs) eq in
          let in_ys : occ k ys ≡ occ j ys = ap (λ i. occ i ys) eq in rw same (omega arith)
      | inr other ↦ rw other (omega (arith, part j))
    ]

-- A part that is as long as the whole is the whole.
pub occ-whole :
    (xs ys : List String)
    → ((k : String) → occ k ys ≤ 1)
    → ((k : String) → occ k xs ≤ occ k ys)
    → length xs ≡ length ys
    → (k : String) → occ k xs ≡ occ k ys
occ-whole xs ys once part same k =
    grind (arith, part k, λ (less : occ k xs < occ k ys). length-lt xs ys once part k less)

pub occ-keep :
    (p : String → Bool) (k : String) (xs : List String)
    → occ k (keep p xs) ≡ (if p k then occ k xs else 0)
occ-keep p k [] = ground arith
occ-keep p k (x ∷ xs) = ground (arith, eq_iff x k, occ-keep p k xs)

pub occ-once : (k : String) (xs : List String) → occ k xs ≤ 1 → occ k xs ≡ bit (contains k xs)
occ-once k xs once = ground (arith, contains-occ k xs, occ-contains k xs)

pub occ-le-length : (k : String) (xs : List String) → occ k xs ≤ length xs
occ-le-length k [] = omega arith
occ-le-length k (x ∷ xs) = ground (arith, occ-le-length k xs)

module _ (f f' : String → ℕ) (below : (k : String) → f k ≤ f' k) where
  pub sum_of_mono : (xs : List String) → sum_of f xs ≤ sum_of f' xs
  sum_of_mono [] = omega arith
  sum_of_mono (x ∷ xs) = omega (arith, below x, sum_of_mono xs)

  pub sum_of-lt :
      (k : String) (xs : List String)
      → contains k xs ≡ true
      → f k < f' k
      → sum_of f xs < sum_of f' xs
  sum_of-lt k [] there less = cc
  sum_of-lt k (x ∷ xs) there less =
      ground (arith, eq_iff x k, below x, sum_of_mono xs, sum_of-lt k xs)
