-- ===== src/Cmd/Server.antt =====
-- cmd/server/main.go up to the server that listens.
pub mod Starting
use Prim.Native.String.{◌++◌}
use maxwell_go_spine.Prelude.{
  ℕ, String, Bool, true, false, Option, none, some, List, [], ◌∷◌, ◌==◌, if◌then◌else◌,
}
use maxwell_go_spine.Go.Int.{ℤ, pos}
use maxwell_go_spine.Go.Error.{Err, Result, ok, err, panic}
use maxwell_go_spine.Go.Text.Number.{print_int}
use maxwell_go_spine.Config.{Platform, Config, load}
use maxwell_go_spine.Log
use maxwell_go_spine.Log.{Zap}
use maxwell_go_spine.Cache
use maxwell_go_spine.Cache.{LocalCache, Redis, Layered}
use maxwell_go_spine.Core.User.{UserRepository, UserService}
use maxwell_go_spine.Core.Service.{Mail, new_user_service}
use maxwell_go_spine.Core.Cached.{Codec, Cached, on_base, new_cached_user_service}
use maxwell_go_spine.Postgres.{Conn, user_repository}
use maxwell_go_spine.Postgres.Pool.{Driver, open_db}
use maxwell_go_spine.Http.{Handler}
use maxwell_go_spine.Middleware.Wrappers.{Gzipper}
use maxwell_go_spine.Router
use maxwell_go_spine.Router.{handle, mount, Parts, Deps, Draws}

-- What the program starts from. `in_memory` is the repository of `NewInMemoryUserRepo` and `conn` a
-- pool, each as a part of the program's state; `redis_ping` is the answer to the first ping.
pub record Machine (S L R Db Level Logger : Type 0) : Type 0 where
  pub platform : Platform
  pub zap : Zap Level Logger
  pub driver : Driver Db
  pub in_memory : UserRepository S
  pub conn : Db → Conn S
  pub ping : Db → S → Result (Unit {0}) × S
  pub new_local : ℤ → ℤ → ℤ → Result (LocalCache L)
  pub new_redis : String → String → ℤ → Redis R
  pub redis_ping : String → String → ℤ → Result (Unit {0})
  pub mail : Mail
  pub codec : Codec
  pub parts : Parts (Cached S L R)
  pub prometheus : Handler (Cached S L R)
  pub version : String
  pub commit : String
  pub date : String

-- `http.Server`; times in nanoseconds.
pub record HttpServer (S : Type 0) : Type 0 where
  pub addr : String
  pub handler : Draws → Handler S
  pub read_timeout : ℤ
  pub read_header_timeout : ℤ
  pub write_timeout : ℤ
  pub idle_timeout : ℤ

-- `log.Fatalf` and `logger.Fatal` end the program with status 1.
pub data Started {ℓ} (A : Type ℓ) : Type ℓ where
  running : A → Started A
  fatal : String → Err → Started A
  crashed : Started A

abbrev pub or_fatal {ℓ} : {A : Type ℓ} → String → Result A → Started A
or_fatal text (ok a) = running a
or_fatal text (err e) = fatal text e
or_fatal text panic = crashed

abbrev pub and_start {ℓ κ} : {A : Type ℓ} {B : Type κ} → Started A → (A → Started B) → Started B
and_start (running a) f = f a
and_start (fatal text e) f = fatal text e
and_start crashed f = crashed

abbrev if_ok : {A : Type 0} → Result (Unit {0}) → A → Option A
if_ok (ok u) a = some a
if_ok (err e) a = none
if_ok panic a = none

abbrev if_made : {A : Type 0} → Result A → Option A
if_made (ok a) = some a
if_made (err e) = none
if_made panic = none

module _ {S L R Db Level Logger : Type 0} (m : Machine S L R Db Level Logger) where
  open m use {
    platform, zap, driver, in_memory, conn, ping, new_local, new_redis, redis_ping, mail, codec,
    parts, prometheus,
  }

  -- `if cfg.InMemory { … } else { … }`: the repository and the pool, nil in memory.
  unfoldable pub repository : Config → Started (UserRepository S × Option Db)
  repository cfg =
      if cfg.in_memory
      then running (in_memory, none)
      else and_start (or_fatal "db open" (open_db driver cfg.db_dsn))
          λ db. running (user_repository (conn db), some db)

  -- Redis is dropped if it is not configured or does not answer.
  unfoldable pub redis_client : Config → Option (Redis R)
  redis_client cfg =
      if cfg.redis_addr == ""
      then none
      else if_ok (redis_ping cfg.redis_addr cfg.redis_password cfg.redis_db)
          (new_redis cfg.redis_addr cfg.redis_password cfg.redis_db)

  -- A cache that cannot be made is a nil pointer.
  unfoldable pub layered_cache : Config → Option (Layered L R)
  unfolding redis_client
  layered_cache cfg = if_made (
      Cache.new (new_local cfg.cache_max_cost cfg.cache_num_counters cfg.cache_buffer_items)
        (redis_client cfg) (pos 300000000000))

  unfoldable pub user_svc : Config → UserRepository S → UserService (Cached S L R)
  unfolding layered_cache
  user_svc cfg repo = new_cached_user_service codec (new_user_service mail repo) (layered_cache cfg)

  abbrev pool_ping : Option Db → Option (Cached S L R → Result (Unit {0}) × Cached S L R)
  pool_ping none = none
  pool_ping (some db) = some (on_base (ping db))

  unfoldable pub deps : Config → UserRepository S × Option Db → Deps (Cached S L R)
  unfolding user_svc
  deps cfg (repo, db) = record {
    user_svc = user_svc cfg repo;
    cfg = cfg;
    has_registry = true;
    version = m.version;
    commit = m.commit;
    build_date = m.date;
    db = pool_ping db;
  }

  module _ (gz : Gzipper) where
    unfoldable pub server : Config → Deps (Cached S L R) → HttpServer (Cached S L R)
    server cfg d = record {
      addr = ":" ++ print_int cfg.http_port;
      handler = λ draws.
          parts.mux (mount "/" (Router.new parts d draws gz) ∷ handle "/metrics" prometheus ∷ []);
      read_timeout = cfg.read_timeout;
      read_header_timeout = pos 5000000000;
      write_timeout = cfg.write_timeout;
      idle_timeout = pos 60000000000;
    }

    -- `main` up to `srv.ListenAndServe`.
    unfoldable pub start : Started (HttpServer (Cached S L R))
    unfolding repository deps server
    start = and_start (or_fatal "config error" (load platform)) λ cfg.
        and_start (or_fatal "logger init error" (Log.new zap cfg.env cfg.log_level))
          λ logger. and_start (repository cfg) λ made. running (server cfg (deps cfg made))
