-- ===== src/Go/Error.antt =====
-- Errors as values, panics, and the state-passing monad in which the stateful code is written.
use maxwell_go_spine.Prelude.{String, Bool, true, false, ◌≡◌, refl}
use Prim.Native.String.{◌++◌}

-- core.ErrNotFound, core.ErrConflict, core.ErrValidation; `plain` is any other `errors.New`, and
-- `wrapped` is `fmt.Errorf("text: %w", err)`.
pub data Err : Type 0 where
  not_found conflict validation : Err
  plain : String → Err
  wrapped : String → Err → Err

-- err.Error()
unfoldable pub message : Err → String
message not_found = "not found"
message conflict = "conflict"
message validation = "validation error"
message (plain text) = text
message (wrapped text e) = text ++ ": " ++ message e

-- errors.Is(err, …) for each of the three
unfoldable pub is_not_found : Err → Bool
is_not_found not_found = true
is_not_found (wrapped text e) = is_not_found e
is_not_found _ = false

unfoldable pub is_conflict : Err → Bool
is_conflict conflict = true
is_conflict (wrapped text e) = is_conflict e
is_conflict _ = false

unfoldable pub is_validation : Err → Bool
is_validation validation = true
is_validation (wrapped text e) = is_validation e
is_validation _ = false

-- A call returns a value, returns an error, or panics.
pub data Result {ℓ} (A : Type ℓ) : Type ℓ where
  ok : A → Result A
  err : Err → Result A
  panic : Result A

-- A call that reads and writes a state of type `S`; what it wrote before an error or a panic stays.
abbrev pub M : Type 0 → Type 0 → Type 0
M S A = S → Result A × S

abbrev pub pure : {S A : Type 0} → A → M S A
pure a s = (ok a, s)

abbrev pub fail : {S A : Type 0} → Err → M S A
fail e s = (err e, s)

abbrev pub then_call : {S A B : Type 0} → Result A × S → (A → M S B) → Result B × S
then_call (ok a, s) f = f a s
then_call (err e, s) f = (err e, s)
then_call (panic, s) f = (panic, s)

-- The same with no state.
abbrev pub and_then {ℓ κ} : {A : Type ℓ} {B : Type κ} → Result A → (A → Result B) → Result B
and_then (ok a) f = f a
and_then (err e) f = err e
and_then panic f = panic

pub and_then-eq-ok {ℓ κ} :
    {A : Type ℓ} {B : Type κ} (r : Result A) (f : A → Result B) {b : B}
    → and_then r f ≡ ok b
    → (a : A) × (r ≡ ok a) × (f a ≡ ok b)
and_then-eq-ok (ok a) f h = (a, refl, h)
and_then-eq-ok (err e) f h = cc
and_then-eq-ok panic f h = cc

-- `return v, nil` behind a call that returns only an error.
abbrev pub returning : {S A : Type 0} → A → Result (Unit {0}) × S → Result A × S
returning a (ok u, s) = (ok a, s)
returning a (err e, s) = (err e, s)
returning a (panic, s) = (panic, s)

infixl 5 ◌>>=◌ ◌>>◌
abbrev pub ◌>>=◌ : {S A B : Type 0} → M S A → (A → M S B) → M S B
◌>>=◌ m f s = then_call (m s) f

abbrev pub ◌>>◌ : {S B : Type 0} → M S (Unit {0}) → M S B → M S B
m >> k = m >>= λ _. k

-- A pure fallible step inside a stateful call.
abbrev pub lift : {S A : Type 0} → Result A → M S A
lift r s = (r, s)

abbrev pub get_state : {S : Type 0} → M S S
get_state s = (ok s, s)

abbrev pub put_state : {S : Type 0} → S → M S (Unit {0})
put_state s' s = (ok tt, s')
