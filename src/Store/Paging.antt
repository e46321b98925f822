-- ===== src/Store/Paging.antt =====
-- The pages of the in-memory store (common/memorystore/memorystore.go: paginateEntities), over the
-- filtered entities in the order in which the map's range gave them. An int64 that is negative or not is
-- a ℤ; the sum of two that are not wraps at 2 ^ 63.
use cfm.Prelude.{
  ℕ, zero, suc, ◌+◌, ◌-◌, ◌≤◌, ◌<◌, ◌≡◌, refl, ap, inl, inr, Bool, true, List, [], ◌∷◌, ◌++◌, ℤ,
  pos, negsuc, is_positive, magnitude, sym, ◌∙◌, length, take, drop, if◌then◌else◌, ltb, leb, arith,
  Bool-cases, leb→le,
}

abbrev pub two_63 : ℕ
two_63 = 9_223_372_036_854_775_808

abbrev pub two_64 : ℕ
two_64 = 18_446_744_073_709_551_616

-- a + b for a and b between 0 and 2 ^ 63 - 1
unfoldable pub add_int64 : ℕ → ℕ → ℤ
add_int64 a b = if ltb (a + b) two_63 then pos (a + b) else negsuc (two_64 - (a + b) - 1)

-- x < n
abbrev pub below : ℤ → ℕ → Bool
below (pos m) n = ltb m n
below (negsuc m) n = true

-- start, with a negative offset read as 0
abbrev pub start_of : ℤ → ℕ
start_of (pos n) = n
start_of (negsuc n) = 0

unfoldable pub end_of : ℕ → ℤ → ℕ → ℤ
unfolding add_int64
end_of start limit len =
    if is_positive limit
    then (let requested = add_int64 start (magnitude limit) in
        if below requested len then requested else pos len)
    else pos len

abbrev window {ℓ} : {A : Type ℓ} → List A → ℕ → ℤ → List A
window xs start (pos end) = take (end - start) (drop start xs)
window xs start (negsuc end) = []

-- The filtered entities that are yielded.
unfoldable pub paginate {ℓ} : {A : Type ℓ} → List A → ℤ → ℤ → List A
unfolding end_of
paginate xs offset limit =
    let start = start_of offset in
    if leb (length xs) start then [] else window xs start (end_of start limit (length xs))

length-drop {ℓ} : {A : Type ℓ} (n : ℕ) (xs : List A) → length (drop n xs) ≡ length xs - n
length-drop zero xs = omega arith
length-drop (suc n) [] = omega arith
length-drop (suc n) (x ∷ xs) = omega (arith, length-drop n xs)

take-all {ℓ} : {A : Type ℓ} (n : ℕ) (xs : List A) → length xs ≤ n → take n xs ≡ xs
take-all zero [] h = refl
take-all zero (x ∷ xs) h = absurd (omega arith)
take-all (suc n) [] h = refl
take-all (suc n) (x ∷ xs) h = ap (λ ys. x ∷ ys) (take-all n xs (omega arith))

drop-all {ℓ} : {A : Type ℓ} (n : ℕ) (xs : List A) → length xs ≤ n → drop n xs ≡ []
drop-all zero [] h = refl
drop-all zero (x ∷ xs) h = absurd (omega arith)
drop-all (suc n) [] h = refl
drop-all (suc n) (x ∷ xs) h = drop-all n xs (omega arith)

take-nil {ℓ} : {A : Type ℓ} (n : ℕ) → take {A = A} n [] ≡ []
take-nil zero = refl
take-nil (suc n) = refl

drop-drop {ℓ} : {A : Type ℓ} (a b : ℕ) (xs : List A) → drop (a + b) xs ≡ drop b (drop a xs)
drop-drop zero b xs = ap (λ n. drop n xs) (omega arith)
drop-drop {A = A} (suc a) b [] =
    drop-all (suc a + b) [] (omega arith) ∙ sym (drop-all b [] (omega arith))
drop-drop (suc a) b (x ∷ xs) =
    let shift : suc a + b ≡ suc (a + b) = omega arith in
    ap (λ n. drop n (x ∷ xs)) shift ∙ drop-drop a b xs

take-drop {ℓ} :
    {A : Type ℓ} (n m : ℕ) (xs : List A) → take n xs ++ take m (drop n xs) ≡ take (n + m) xs
take-drop zero m xs = ap (λ k. take k xs) (omega arith)
take-drop (suc n) m [] = take-nil m ∙ sym (take-nil (suc n + m))
take-drop (suc n) m (x ∷ xs) =
    let shift : suc (n + m) ≡ suc n + m = omega arith in
    ap (λ ys. x ∷ ys) (take-drop n m xs) ∙ ap (λ k. take k (x ∷ xs)) shift

-- What a page is meant to be.
abbrev pub page {ℓ} : {A : Type ℓ} → List A → ℤ → ℤ → List A
page xs offset limit =
    let rest = drop (start_of offset) xs in
    if is_positive limit then take (magnitude limit) rest else rest

-- A page that starts within the entities and does not wrap.
limited-page {ℓ} :
    {A : Type ℓ} (xs : List A) (start limit : ℕ)
    → window xs start
        (if ltb (start + limit) (length xs) then pos (start + limit) else pos (length xs))
      ≡ take limit (drop start xs)
limited-page xs start limit = elim (Bool-cases (ltb (start + limit) (length xs))) [
  | inl y ↦ rw y (ap (λ n. take n (drop start xs)) (omega arith))
  | inr n ↦
      let rest = drop start xs in
      let len = length-drop start xs in
      rw n (
        take-all (length xs - start) rest (omega (arith, len))
        ∙ sym (take-all limit rest (ground (arith, len))))
]

add_int64-exact : (a b : ℕ) → a + b < two_63 → add_int64 a b ≡ pos (a + b)
unfolding add_int64
add_int64-exact a b h = ground arith

-- A page is the entities from the offset on, at most as many as the limit, where a negative offset is none
-- and a limit that is not positive is no limit: as long as offset plus limit is an int64.
paginate_lem {ℓ} :
    {A : Type ℓ} (xs : List A) (offset limit : ℤ)
    → start_of offset + (if is_positive limit then magnitude limit else 0) < two_63
    → paginate xs offset limit ≡ page xs offset limit
unfolding paginate
paginate_lem xs offset limit s =
    let start = start_of offset in
    elim (Bool-cases (leb (length xs) start)) [
      | inl y ↦
          let ended = drop-all start xs (leb→le _ _ y) in
          elim (Bool-cases (is_positive limit)) [
            | inl p ↦ rw (y, p, ended) (sym (take-nil _))
            | inr p ↦ rw (y, p) (sym ended)
          ]
      | inr n ↦ elim (Bool-cases (is_positive limit)) [
        | inl p ↦
            let fits : start + magnitude limit < two_63 = (rw p at s) in
            rw (n, p, end_of, add_int64-exact start (magnitude limit) fits)
              (limited-page xs start (magnitude limit))
        | inr p ↦
            rw (n, p, end_of)
              (take-all (length xs - start) (drop start xs) (omega (arith, length-drop start xs)))
      ]
    ]

page-eq {ℓ} :
    {A : Type ℓ} (xs : List A) (start n : ℕ)
    → 0 < n
    → start + n < two_63
    → paginate xs (pos start) (pos n) ≡ take n (drop start xs)
page-eq xs start zero h s = absurd (omega arith)
page-eq xs start (suc n) h s = paginate_lem xs (pos start) (pos (suc n)) s

-- If offset plus limit is no int64, the page is empty, however many entities there are.
pub paginate_overflow {ℓ} :
    {A : Type ℓ} (xs : List A) (start limit : ℕ)
    → start < two_63
    → limit < two_63
    → two_63 ≤ start + limit
    → paginate xs (pos start) (pos limit) ≡ []
unfolding paginate add_int64
paginate_overflow xs start limit a b s = ground arith

-- The page behind another one of `n` entities goes on where it ended.
paginate-append {ℓ} :
    {A : Type ℓ} (xs : List A) (start n m : ℕ)
    → 0 < n
    → 0 < m
    → start + n + m < two_63
    → paginate xs (pos start) (pos n) ++ paginate xs (pos (start + n)) (pos m)
      ≡ paginate xs (pos start) (pos (n + m))
paginate-append xs start n m hn hm s =
    rw
      (
        page-eq xs start n hn (omega arith),
        page-eq xs (start + n) m hm (omega arith),
        page-eq xs start (n + m) (omega arith) (omega arith),
        drop-drop start n xs,
      )
      (take-drop n m (drop start xs))
