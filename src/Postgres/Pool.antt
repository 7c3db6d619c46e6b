-- ===== src/Postgres/Pool.antt =====
-- internal/storage/postgres/db.go.
use maxwell_go_spine.Prelude.{ℕ, String}
use maxwell_go_spine.Go.Error.{Result, ok, and_then}

-- `sql.Open` with the driver pgx, the setters of a pool, and `PingContext` within some nanoseconds.
pub record Driver (Db : Type 0) : Type 0 where
  pub open_pool : String → Result Db
  pub set_max_open_conns : ℕ → Db → Db
  pub set_max_idle_conns : ℕ → Db → Db
  pub set_conn_max_lifetime : ℕ → Db → Db
  pub ping : ℕ → Db → Result (Unit {0})

module _ {Db : Type 0} (driver : Driver Db) where
  open driver use {open_pool, set_max_open_conns, set_max_idle_conns, set_conn_max_lifetime, ping}

  unfoldable pub limited : Db → Db
  limited db =
      set_conn_max_lifetime 1800000000000 (set_max_idle_conns 25 (set_max_open_conns 25 db))

  unfoldable pub open_db : String → Result Db
  unfolding limited
  open_db dsn =
      and_then (open_pool dsn) λ db. and_then (ping 5000000000 (limited db)) λ u. ok (limited db)
