-- ===== src/Postgres.antt =====
-- internal/storage/postgres/user_repo.go: `UserRepo`, and what its methods share with those of
-- `txUserRepo`.
pub mod Pool
pub mod Transaction
pub mod Statuses
use maxwell_go_spine.Prelude.{
  String, Bool, true, false, ◌||◌, Option, none, some, List, [], ◌∷◌, if◌then◌else◌,
}
use maxwell_go_spine.Go.Int.{ℤ, pos, ltb_ℤ, leb_ℤ, eqb_ℤ, sub64, mul64}
use maxwell_go_spine.Go.Error.{Err, not_found, wrapped, Result, ok, err, panic, M, and_then}
use maxwell_go_spine.Core.User.{Uuid, Time, User, Env, UserRepository}

-- A statement's argument.
pub data Arg : Type 0 where
  uuid_arg : Uuid → Arg
  text_arg : String → Arg
  time_arg : Time → Arg
  int_arg : ℤ → Arg

-- `row.Scan` into the fields of a user; `no_rows` is an error that is `sql.ErrNoRows`.
pub data Row : Type 0 where
  no_rows : Row
  scanned : User → Row
  scan_failed : Err → Row

-- What `*sql.DB` and `*sql.Tx` both do with a statement. `exec` gives the number of rows affected;
-- `query` the outcome of `Scan` on each row, and the error of `rows.Err()`.
pub record Conn (S : Type 0) : Type 0 where
  pub exec : String → List Arg → M S ℤ
  pub query_row : String → List Arg → S → Row × S
  pub query : String → List Arg → M S (List (Result User) × Option Err)
  pub query_count : String → M S ℤ

abbrev pub insert_sql : String
insert_sql = "INSERT INTO users (id, name, email, created_at, updated_at) VALUES ($1,$2,$3,$4,$5)"

abbrev pub select_sql : String
select_sql =
    "SELECT id, name, email, created_at, updated_at, deleted_at FROM users WHERE id=$1 AND deleted_at IS NULL"

abbrev pub update_sql : String
update_sql = "UPDATE users SET name=$2, email=$3, updated_at=$4 WHERE id=$1 AND deleted_at IS NULL"

abbrev pub delete_sql : String
delete_sql = "UPDATE users SET deleted_at=$2 WHERE id=$1 AND deleted_at IS NULL"

abbrev pub list_sql : String
list_sql =
    "SELECT id, name, email, created_at, updated_at, deleted_at FROM users WHERE deleted_at IS NULL ORDER BY created_at DESC LIMIT $1 OFFSET $2"

abbrev pub count_sql : String
count_sql = "SELECT count(*) FROM users WHERE deleted_at IS NULL"

-- `Create` behind `ExecContext`.
unfoldable pub inserted : {S : Type 0} → Result ℤ × S → Result (Unit {0}) × S
inserted (ok n, s) = (ok tt, s)
inserted (err e, s) = (err (wrapped "insert user" e), s)
inserted (panic, s) = (panic, s)

-- `Get` behind `QueryRowContext`.
unfoldable pub got_row : {S : Type 0} → Row × S → Result User × S
got_row (no_rows, s) = (err not_found, s)
got_row (scanned u, s) = (ok u, s)
got_row (scan_failed e, s) = (err (wrapped "get user" e), s)

-- `Update` and `Delete` behind `ExecContext`.
unfoldable pub changed : {S : Type 0} → String → Result ℤ × S → Result (Unit {0}) × S
changed text (ok n, s) = (if eqb_ℤ n (pos 0) then err not_found else ok tt, s)
changed text (err e, s) = (err (wrapped text e), s)
changed text (panic, s) = (panic, s)

-- `if page < 1 { page = 1 }`
unfoldable pub page_from : ℤ → ℤ
page_from page = if ltb_ℤ page (pos 1) then pos 1 else page

-- `if pageSize <= 0 || pageSize > 100 { pageSize = 20 }`
unfoldable pub size_from : ℤ → ℤ
size_from size = if leb_ℤ size (pos 0) || ltb_ℤ (pos 100) size then pos 20 else size

unfoldable pub offset_from : ℤ → ℤ → ℤ
offset_from page size = mul64 (sub64 page (pos 1)) size

-- The loop over the rows; it stops at the first row that does not scan.
unfoldable pub scan_all : List (Result User) → Result (List User)
scan_all [] = ok []
scan_all (ok u ∷ rows) = and_then (scan_all rows) λ us. ok (u ∷ us)
scan_all (err e ∷ rows) = err (wrapped "scan user" e)
scan_all (panic ∷ rows) = panic

-- `List` behind the count.
unfoldable pub counted : {S : Type 0} → List User → Result ℤ × S → Result (List User × ℤ) × S
counted us (ok total, s) = (ok (us, total), s)
counted us (err e, s) = (err e, s)
counted us (panic, s) = (panic, s)

-- `List` behind the loop.
unfoldable pub after_scan :
    {S : Type 0} → (String → M S ℤ) → Result (List User) → Option Err → M S (List User × ℤ)
unfolding counted
after_scan count (ok us) none s = counted us (count count_sql s)
after_scan count (ok us) (some e) s = (err e, s)
after_scan count (err e) failure s = (err e, s)
after_scan count panic failure s = (panic, s)

-- `List` behind `QueryContext`.
unfoldable pub after_rows :
    {S : Type 0}
    → (String → M S ℤ)
    → Result (List (Result User) × Option Err) × S
    → Result (List User × ℤ) × S
unfolding scan_all after_scan
after_rows count (ok (rows, failure), s) = after_scan count (scan_all rows) failure s
after_rows count (err e, s) = (err (wrapped "list users" e), s)
after_rows count (panic, s) = (panic, s)

module _ {S : Type 0} (db : Conn S) where
  open db use {exec, query_row, query, query_count}

  unfoldable pub create : User → M S (Unit {0})
  unfolding inserted
  create u s = inserted (
      exec insert_sql
        (uuid_arg u.id
          ∷ text_arg u.name
          ∷ text_arg u.email
          ∷ time_arg u.created_at
          ∷ time_arg u.updated_at
          ∷ [])
        s)

  unfoldable pub get : Uuid → M S User
  unfolding got_row
  get id s = got_row (query_row select_sql (uuid_arg id ∷ []) s)

  unfoldable pub update : User → M S (Unit {0})
  unfolding changed
  update u s = changed "update user" (
      exec update_sql
        (uuid_arg u.id ∷ text_arg u.name ∷ text_arg u.email ∷ time_arg u.updated_at ∷ []) s)

  unfoldable pub delete : Env → Uuid → M S (Unit {0})
  unfolding changed
  delete env id s =
      changed "soft delete user" (exec delete_sql (uuid_arg id ∷ time_arg env.now ∷ []) s)

  unfoldable pub list : ℤ → ℤ → M S (List User × ℤ)
  unfolding page_from size_from offset_from after_rows
  list page page_size s =
      let size = size_from page_size in
      after_rows query_count
        (query list_sql (int_arg size ∷ int_arg (offset_from (page_from page) size) ∷ []) s)

  unfoldable pub user_repository : UserRepository S
  user_repository = record {
    create = create;
    get = get;
    update = update;
    delete = delete;
    list = λ env page page_size. list page page_size;
  }
