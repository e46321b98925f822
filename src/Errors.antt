-- ===== src/Errors.antt =====
-- Error values and their classes (common/types/errors.go). A value is the tree that errors.Is and
-- errors.As walk. Messages keep their fixed text; the arguments formatted into them are left out.
pub mod Classes
use cfm.Prelude.{
  arith, if◌then◌else◌, ◌≡◌, refl, ◌⊎◌, inl, inr, ℕ, String, Bool, true, false, Option, none, some,
  ◌||◌, List, [], ◌∷◌, str_eq, Option-cases,
}

pub data Error : Type 0 where
  -- errors.New and fmt.Errorf without %w
  plain : String → Error
  -- fmt.Errorf with %w
  wrapped : String → Error → Error
  -- errors.Join
  joined : Error → Error → Error
  -- GeneralRecoverableError, without and with a Cause
  general_recoverable : String → Error
  general_recoverable_by : String → Error → Error
  -- BadRequestError, without and with a Cause
  bad_request : String → Error
  bad_request_by : String → Error → Error
  -- SystemError, without and with a Cause
  system_error : String → Error
  system_error_by : String → Error → Error
  -- a *jetstream.APIError with its error code
  api_error : ℕ → Error
  -- jetstream.ErrKeyNotFound, context.DeadlineExceeded, context.Canceled
  key_not_found : Error
  deadline_exceeded : Error
  canceled : Error

pub data Result {ℓ} (A : Type ℓ) : Type ℓ where
  ok : A → Result A
  err : Error → Result A

infixl 5 ◌>>=◌
abbrev pub ◌>>=◌ {ℓ κ} : {A : Type ℓ} {B : Type κ} → Result A → (A → Result B) → Result B
ok a >>= f = f a
err e >>= f = err e

-- The depth-first walk over Unwrap that errors.Is and errors.As make.
unfoldable pub in_chain : (Error → Bool) → Error → Bool
in_chain p (wrapped m e) = p (wrapped m e) || in_chain p e
in_chain p (joined a b) = p (joined a b) || (in_chain p a || in_chain p b)
in_chain p (general_recoverable_by m e) = p (general_recoverable_by m e) || in_chain p e
in_chain p (bad_request_by m e) = p (bad_request_by m e) || in_chain p e
in_chain p (system_error_by m e) = p (system_error_by m e) || in_chain p e
in_chain p e = p e

-- Which concrete types implement RecoverableError, ClientError and FatalError.
abbrev pub implements_recoverable : Error → Bool
implements_recoverable (general_recoverable _) = true
implements_recoverable (general_recoverable_by _ _) = true
implements_recoverable _ = false

abbrev pub implements_client_error : Error → Bool
implements_client_error (bad_request _) = true
implements_client_error (bad_request_by _ _) = true
implements_client_error _ = false

abbrev pub implements_fatal : Error → Bool
implements_fatal (system_error _) = true
implements_fatal (system_error_by _ _) = true
implements_fatal _ = false

unfoldable pub is_recoverable : Error → Bool
unfolding in_chain
is_recoverable e = in_chain implements_recoverable e

unfoldable pub is_client_error : Error → Bool
unfolding in_chain
is_client_error e = in_chain implements_client_error e

unfoldable pub is_fatal : Error → Bool
unfolding in_chain
is_fatal e = in_chain implements_fatal e

-- The sentinels.
abbrev pub err_conflict : Error
err_conflict = bad_request "conflict"

abbrev pub err_not_found : Error
err_not_found = bad_request "not found"

abbrev pub err_invalid_input : Error
err_invalid_input = bad_request "invalid input"

-- errors.Is(err, ErrNotFound): a BadRequestError equals the sentinel if its message does and it has
-- no cause.
abbrev pub equals_not_found : Error → Bool
equals_not_found (bad_request m) = str_eq m "not found"
equals_not_found _ = false

unfoldable pub is_not_found : Error → Bool
unfolding in_chain
is_not_found e = in_chain equals_not_found e

-- A constructor of the source with a cause that may be nil.
abbrev with_cause : (String → Error) → (String → Error → Error) → Option Error → String → Error
with_cause bare by none m = bare m
with_cause bare by (some c) m = by m c

unfoldable pub new_recoverable_wrapped_error : Option Error → String → Error
new_recoverable_wrapped_error = with_cause general_recoverable general_recoverable_by

unfoldable pub new_client_wrapped_error : Option Error → String → Error
new_client_wrapped_error = with_cause bad_request bad_request_by

unfoldable pub new_fatal_wrapped_error : Option Error → String → Error
new_fatal_wrapped_error = with_cause system_error system_error_by

abbrev pub new_validation_error : String → Error
new_validation_error m = bad_request m

-- errors.Join of a slice: nil for none
abbrev pub join_onto : Error → Option Error → Option Error
join_onto e none = some e
join_onto e (some rest) = some (joined e rest)

unfoldable pub join_all : List Error → Option Error
join_all [] = none
join_all (e ∷ es) = join_onto e (join_all es)

pub join_all-none : (es : List Error) → join_all es ≡ none → es ≡ []
unfolding join_all
join_all-none [] h = refl
join_all-none (e ∷ es) h = elim (Option-cases (join_all es)) [
  | inl n ↦ absurd (ground (arith, rw (n, join_all) at h))
  | inr (x, y) ↦ absurd (ground (arith, rw (y, join_all) at h))
]

pub Result-cases {ℓ} :
    {A : Type ℓ} (r : Result A) → ((e : Error) × (r ≡ err e)) ⊎ ((a : A) × (r ≡ ok a))
Result-cases (ok a) = inr (a, refl)
Result-cases (err e) = inl (e, refl)

-- A chain that ends well went through its first step.
pub bind-ok {ℓ κ} :
    {A : Type ℓ} {B : Type κ} (r : Result A) (f : A → Result B) {b : B}
    → r >>= f ≡ ok b
    → (a : A) × (r ≡ ok a) × (f a ≡ ok b)
bind-ok (ok a) f h = (a, refl, h)
bind-ok (err e) f h = absurd (ground arith)

-- A guard that was passed.
pub if-ok {ℓ} :
    {A : Type ℓ} (b : Bool) (x : Result A) (e : Error) {a : A}
    → (if b then x else err e) ≡ ok a
    → (b ≡ true) × (x ≡ ok a)
if-ok true x e h = (refl, h)
if-ok false x e h = absurd (ground arith)

pub unless-ok {ℓ} :
    {A : Type ℓ} (b : Bool) (x : Result A) (e : Error) {a : A}
    → (if b then err e else x) ≡ ok a
    → (b ≡ false) × (x ≡ ok a)
unless-ok false x e h = (refl, h)
unless-ok true x e h = absurd (ground arith)
