-- ===== src/Postgres/Statuses.antt =====
-- The errors of the PostgreSQL repository, and the statuses that they become.
use maxwell_go_spine.Prelude.{
  ℕ, ◌≤◌, ◌≡◌, ◌⊎◌, inl, inr, refl, false, String, Option, none, some, List, [], ◌∷◌, arith,
  Bool-cases, ◌||◌,
}
use maxwell_go_spine.Go.Int.{ℤ, pos, negsuc, eqb_ℤ, leb_ℤ, ltb_ℤ}
use maxwell_go_spine.Go.Error.{
  Err, wrapped, is_not_found, is_conflict, is_validation, Result, ok, err, panic, M, and_then,
}
use maxwell_go_spine.Core.User.{User, Uuid, Env}
use maxwell_go_spine.Api.Render.{http_status}
use maxwell_go_spine.Postgres.{
  Arg, Row, no_rows, scanned, scan_failed, Conn, inserted, got_row, changed, size_from, scan_all,
  counted, after_scan, after_rows, create, get, update, delete, list, user_repository,
}
use maxwell_go_spine.Postgres.Transaction
use maxwell_go_spine.Postgres.Transaction.{tx_user_repository}

-- An error that wraps none of the three of package core.
abbrev pub IsForeign : Err → Type 0
IsForeign e = (is_not_found e ≡ false) × (is_conflict e ≡ false) × (is_validation e ≡ false)

abbrev pub ErrorIs : {A S : Type 0} → (Err → Type 0) → Result A × S → Type 0
ErrorIs P (ok a, s) = Unit
ErrorIs P (err e, s) = P e
ErrorIs P (panic, s) = Unit

abbrev pub RowErrorIs : {S : Type 0} → (Err → Type 0) → Row × S → Type 0
RowErrorIs P (no_rows, s) = Unit
RowErrorIs P (scanned u, s) = Unit
RowErrorIs P (scan_failed e, s) = P e

abbrev pub RowsErrorIs : (Err → Type 0) → List (Result User) → Type 0
RowsErrorIs P [] = Unit
RowsErrorIs P (ok u ∷ rows) = RowsErrorIs P rows
RowsErrorIs P (err e ∷ rows) = P e × RowsErrorIs P rows
RowsErrorIs P (panic ∷ rows) = RowsErrorIs P rows

abbrev pub FailureIs : (Err → Type 0) → Option Err → Type 0
FailureIs P none = Unit
FailureIs P (some e) = P e

abbrev pub QueryErrorIs :
    {S : Type 0} → (Err → Type 0) → Result (List (Result User) × Option Err) × S → Type 0
QueryErrorIs P (ok (rows, failure), s) = RowsErrorIs P rows × FailureIs P failure
QueryErrorIs P (err e, s) = P e
QueryErrorIs P (panic, s) = Unit

-- The driver knows nothing of package core.
pub record IsDriver {S : Type 0} (conn : Conn S) : Type 0 where
  pub execs : (sql : String) (args : List Arg) (s : S) → ErrorIs IsForeign (conn.exec sql args s)
  pub rows :
      (sql : String) (args : List Arg) (s : S) → RowErrorIs IsForeign (conn.query_row sql args s)
  pub queries :
      (sql : String) (args : List Arg) (s : S) → QueryErrorIs IsForeign (conn.query sql args s)
  pub counts : (sql : String) (s : S) → ErrorIs IsForeign (conn.query_count sql s)

abbrev pub IsServerError : Err → Type 0
IsServerError e = http_status e ≡ 500

abbrev pub IsMissingOrServerError : Err → Type 0
IsMissingOrServerError e = (http_status e ≡ 404) ⊎ (http_status e ≡ 500)

foreign_500 : (e : Err) → IsForeign e → IsServerError e
unfolding http_status
foreign_500 e (n, c, v) = rw (n, c, v) refl

wrapped_500 : (text : String) (e : Err) → IsForeign e → IsServerError (wrapped text e)
wrapped_500 text e f =
    foreign_500 (wrapped text e) (unfold is_not_found is_conflict is_validation in f)

module _ {S : Type 0} where
  inserted_500 : (x : Result ℤ × S) → ErrorIs IsForeign x → ErrorIs IsServerError (inserted x)
  unfolding inserted
  inserted_500 (ok n, s) f = tt
  inserted_500 (err e, s) f = wrapped_500 "insert user" e f
  inserted_500 (panic, s) f = tt

  got_row_404 : (x : Row × S) → RowErrorIs IsForeign x → ErrorIs IsMissingOrServerError (got_row x)
  unfolding got_row http_status
  got_row_404 (no_rows, s) f = inl refl
  got_row_404 (scanned u, s) f = tt
  got_row_404 (scan_failed e, s) f = inr (wrapped_500 "get user" e f)

  changed_404 :
      (text : String) (x : Result ℤ × S)
      → ErrorIs IsForeign x
      → ErrorIs IsMissingOrServerError (changed text x)
  unfolding changed http_status
  changed_404 text (ok n, s) f = elim (Bool-cases (eqb_ℤ n (pos 0))) [
    | inl e ↦ rw e (inl refl)
    | inr e ↦ rw e tt
  ]
  changed_404 text (err e, s) f = inr (wrapped_500 text e f)
  changed_404 text (panic, s) f = tt

  scan_all_500 :
      (rows : List (Result User)) (s : S)
      → RowsErrorIs IsForeign rows
      → ErrorIs IsServerError (scan_all rows, s)
  unfolding scan_all
  scan_all_500 [] s f = tt
  scan_all_500 (ok u ∷ rows) s f = cons_500 u (scan_all rows) s (scan_all_500 rows s f)
    where
      cons_500 :
          (u : User) (r : Result (List User)) (s : S)
          → ErrorIs IsServerError (r, s)
          → ErrorIs IsServerError ((and_then r λ us. ok (u ∷ us)), s)
      cons_500 u (ok us) s g = tt
      cons_500 u (err e) s g = g
      cons_500 u panic s g = tt
  scan_all_500 (err e ∷ rows) s f = wrapped_500 "scan user" e f.0
  scan_all_500 (panic ∷ rows) s f = tt

  counted_500 :
      (us : List User) (x : Result ℤ × S)
      → ErrorIs IsForeign x
      → ErrorIs IsServerError (counted us x)
  unfolding counted
  counted_500 us (ok n, s) f = tt
  counted_500 us (err e, s) f = foreign_500 e f
  counted_500 us (panic, s) f = tt

  after_scan_500 :
      (count : String → M S ℤ) (r : Result (List User)) (failure : Option Err) (s : S)
      → ((sql : String) (t : S) → ErrorIs IsForeign (count sql t))
      → ErrorIs IsServerError (r, s)
      → FailureIs IsForeign failure
      → ErrorIs IsServerError (after_scan count r failure s)
  unfolding after_scan
  after_scan_500 count (ok us) none s c f g = counted_500 us _ (c _ s)
  after_scan_500 count (ok us) (some e) s c f g = foreign_500 e g
  after_scan_500 count (err e) failure s c f g = f
  after_scan_500 count panic failure s c f g = tt

  after_rows_500 :
      (count : String → M S ℤ) (x : Result (List (Result User) × Option Err) × S)
      → ((sql : String) (t : S) → ErrorIs IsForeign (count sql t))
      → QueryErrorIs IsForeign x
      → ErrorIs IsServerError (after_rows count x)
  unfolding after_rows
  after_rows_500 count (ok (rows, failure), s) c (f, g) =
      after_scan_500 count (scan_all rows) failure s c (scan_all_500 rows s f) g
  after_rows_500 count (err e, s) c f = wrapped_500 "list users" e f
  after_rows_500 count (panic, s) c f = tt

-- With a driver whose errors wrap none of package core's, an error of `Create` or `List` becomes
-- status 500, and one of `Get`, `Update` or `Delete` 404 or 500: never 409 or 400, so a user whose
-- e-mail address violates the table's unique constraint is an internal error.
pub repository_statuses :
    {S : Type 0} (conn : Conn S)
    → IsDriver conn
    → (env : Env) (u : User) (id : Uuid) (page page_size : ℤ) (s : S)
    → ErrorIs IsServerError (create conn u s)
      × ErrorIs IsServerError (list conn page page_size s)
      × ErrorIs IsMissingOrServerError (get conn id s)
      × ErrorIs IsMissingOrServerError (update conn u s)
      × ErrorIs IsMissingOrServerError (delete conn env id s)
unfolding create list get update delete
repository_statuses conn driver env u id page page_size s = (
  inserted_500 _ (driver.execs _ _ s),
  after_rows_500 _ _ driver.counts (driver.queries _ _ s),
  got_row_404 _ (driver.rows _ _ s),
  changed_404 _ _ (driver.execs _ _ s),
  changed_404 _ _ (driver.execs _ _ s),
)

-- The page size that `List` sends to the database is between 1 and 100, whatever it is asked for.
pub size_from_bounds : (n : ℤ) → (m : ℕ) × (size_from n ≡ pos m) × (1 ≤ m) × (m ≤ 100)
unfolding size_from
size_from_bounds (pos n) = elim (Bool-cases (leb_ℤ (pos n) (pos 0) || ltb_ℤ (pos 100) (pos n))) [
  | inl e ↦ rw e (20, refl, omega arith, omega arith)
  | inr e ↦ rw e (n, refl, ground arith, ground arith)
]
size_from_bounds (negsuc n) = (20, ground arith, omega arith, omega arith)

-- The repository inside a transaction does on `*sql.Tx` what `UserRepo` does on `*sql.DB`.
pub tx_user_repository_agrees :
    {S : Type 0} (conn : Conn S) → tx_user_repository conn ≡ user_repository conn
unfolding tx_user_repository user_repository create list get update delete Transaction.create
    Transaction.list Transaction.get Transaction.update Transaction.delete
tx_user_repository_agrees conn = refl
