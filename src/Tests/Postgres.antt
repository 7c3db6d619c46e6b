-- ===== src/Tests/Postgres.antt =====
-- The PostgreSQL repository on a database that refuses a second user with the same address.
use maxwell_go_spine.Prelude.{refl, none, []}
use maxwell_go_spine.Go.Int.{pos}
use maxwell_go_spine.Go.Error.{plain, ok, err, is_not_found, is_conflict, is_validation}
use maxwell_go_spine.Core.User.{User, Env}
use maxwell_go_spine.Postgres
use maxwell_go_spine.Postgres.{Conn, no_rows, size_from, user_repository}
use maxwell_go_spine.Postgres.Statuses.{
  IsDriver, ErrorIs, IsServerError, IsMissingOrServerError, repository_statuses,
}

abbrev conn : Conn (Unit {0})
conn = record {
  exec = λ sql args s. (err (plain "duplicate key value violates unique constraint"), s);
  query_row = λ sql args s. (no_rows, s);
  query = λ sql args s. (ok ([], none), s);
  query_count = λ sql s. (ok (pos 1), s);
}

conn-IsDriver : IsDriver conn
unfolding is_not_found is_conflict is_validation
conn-IsDriver = record {
  execs = λ sql args s. (refl, refl, refl);
  rows = λ sql args s. tt;
  queries = λ sql args s. (tt, tt);
  counts = λ sql s. tt;
}

abbrev env : Env
env = record { now = 9; new_id = 7; range_order = 0 }

abbrev ann : User
ann = record {
  id = 1;
  name = "ann";
  email = "a@b.c";
  created_at = 1;
  updated_at = 1;
  deleted_at = none;
}

repository_statuses_example :
    ErrorIs IsServerError (Postgres.create conn ann tt)
    × ErrorIs IsServerError (Postgres.list conn (pos 1) (pos 20) tt)
    × ErrorIs IsMissingOrServerError (Postgres.get conn 1 tt)
    × ErrorIs IsMissingOrServerError (Postgres.update conn ann tt)
    × ErrorIs IsMissingOrServerError (Postgres.delete conn env 1 tt)
repository_statuses_example = repository_statuses conn conn-IsDriver env ann 1 (pos 1) (pos 20) tt
