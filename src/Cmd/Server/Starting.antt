-- ===== src/Cmd/Server/Starting.antt =====
-- When the server starts, and with what.
use maxwell_go_spine.Prelude.{◌≡◌, refl, true, false, Option, none, some, ◌⊎◌, inl, inr}
use maxwell_go_spine.Go.Error.{ok}
use maxwell_go_spine.Config.{Config, load}
use maxwell_go_spine.Log
use maxwell_go_spine.Core.User.{UserRepository}
use maxwell_go_spine.Postgres.{user_repository}
use maxwell_go_spine.Postgres.Pool.{open_db}
use maxwell_go_spine.Middleware.Wrappers.{Gzipper}
use maxwell_go_spine.Cmd.Server.{Machine, running, repository, deps, server, start}

module _ {S L R Db Level Logger : Type 0} (m : Machine S L R Db Level Logger) (gz : Gzipper) where
  -- The repository that the configuration asks for, and its pool.
  abbrev pub Chosen : Config → UserRepository S × Option Db → Type 0
  Chosen cfg made =
      ((cfg.in_memory ≡ true) × (made ≡ (m.in_memory, none)))
      ⊎ ((db : Db) × (cfg.in_memory ≡ false)
          × (open_db m.driver cfg.db_dsn ≡ ok db)
          × (made ≡ (user_repository (m.conn db), some db)))

  Chosen-runs :
      (cfg : Config) (made : UserRepository S × Option Db)
      → Chosen cfg made
      → repository m cfg ≡ running made
  unfolding repository
  Chosen-runs cfg made (inl (mode, e)) = rw (mode, e) refl
  Chosen-runs cfg made (inr (db, mode, opened, e)) = rw (mode, opened, e) refl

  -- With a configuration, a logger and the repository that the configuration asks for, the server
  -- starts on them: neither a Redis nor a local cache that fails keeps it from starting. In the
  -- in-memory mode it starts without a pool.
  pub start_runs :
      (cfg : Config) (logger : Logger) (made : UserRepository S × Option Db)
      → load m.platform ≡ ok cfg
      → Log.new m.zap cfg.env cfg.log_level ≡ ok logger
      → Chosen cfg made
      → (start m gz ≡ running (server m gz cfg (deps m cfg made)))
        × (cfg.in_memory ≡ true → (deps m cfg made).db ≡ none)
  unfolding start deps
  start_runs cfg logger made loaded logs chosen =
      (rw (loaded, logs, Chosen-runs cfg made chosen) refl, no_pool chosen)
    where
      no_pool : Chosen cfg made → cfg.in_memory ≡ true → (deps m cfg made).db ≡ none
      no_pool (inl (mode, e)) t = rw (e, deps) refl
      no_pool (inr (db, mode, opened, e)) t = cc
