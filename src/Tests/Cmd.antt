-- ===== src/Tests/Cmd.antt =====
-- The start and the end of the server.
use maxwell_go_spine.Prelude.{◌≡◌, refl, inl, true, false, none, some, [], arith}
use maxwell_go_spine.Go.Int.{pos}
use maxwell_go_spine.Go.Error.{plain, ok, err}
use maxwell_go_spine.Core.User.{UserRepository}
use maxwell_go_spine.Core.Memory.{InMemoryUserRepo, in_memory_repository}
use maxwell_go_spine.Core.Cached.{Cached}
use maxwell_go_spine.Config.{load}
use maxwell_go_spine.Http.{Handler, respond}
use maxwell_go_spine.Config.{fill, is_in_memory, get_env_default}
use maxwell_go_spine.Config.Loaded.{load_filled}
use maxwell_go_spine.Go.Text.Number.{atoi}
use maxwell_go_spine.Postgres
use maxwell_go_spine.Router.{Parts}
use maxwell_go_spine.Cmd.Server.{Machine}
use maxwell_go_spine.Cmd.Life.{
  Proc, stopping, closing, releasing, returned, begun, receive, shut_down, release, finish, own,
  signal, Reach, here, next, Exits,
}
use maxwell_go_spine.Cmd.Life.Ends.{signalled-Exits, exit_0-signalled}
use maxwell_go_spine.Tests.Codec
use maxwell_go_spine.Tests.Api
use maxwell_go_spine.Tests.Config.{platform, config}

abbrev State : Type 0
State = Cached InMemoryUserRepo (Unit {0}) (Unit {0})

abbrev nothing : Handler State
nothing req h s = respond [] s

abbrev parts : Parts State
parts = record {
  mux = λ es. nothing;
  heartbeat = λ path next. next;
  serve_file = λ name. nothing;
  pprof = λ name. nothing;
  playground = λ title endpoint. nothing;
  default_server = λ schema. nothing;
  sha_hex = λ b. "00";
  unicode_lower = λ c. c;
  codec = Api.codec;
}

abbrev repo : UserRepository InMemoryUserRepo
repo = in_memory_repository (λ n l. l)

-- Neither the cache nor Redis can be had.
abbrev machine : Machine InMemoryUserRepo (Unit {0}) (Unit {0}) (Unit {0}) (Unit {0}) (Unit {0})
machine = record {
  platform = platform;
  zap = record { parse_level = λ l. ok tt; build = λ c. ok tt };
  driver = record {
    open_pool = λ dsn. err (plain "refused");
    set_max_open_conns = λ n db. db;
    set_max_idle_conns = λ n db. db;
    set_conn_max_lifetime = λ n db. db;
    ping = λ t db. ok tt;
  };
  in_memory = repo;
  conn = λ db. record {
    exec = λ sql args s. (err (plain "refused"), s);
    query_row = λ sql args s. (Postgres.no_rows, s);
    query = λ sql args s. (err (plain "refused"), s);
    query_count = λ sql s. (err (plain "refused"), s);
  };
  ping = λ db s. (err (plain "refused"), s);
  new_local = λ cost counters items. err (plain "NumCounters can't be zero");
  new_redis = λ addr password db. record {
    get = λ k r. (none, r);
    set = λ k b ttl r. (none, r);
    del = λ k r. (none, r);
  };
  redis_ping = λ addr password db. err (plain "refused");
  mail = Api.mail;
  codec = Codec.codec;
  parts = parts;
  prometheus = nothing;
  version = "dev";
  commit = "none";
  date = "unknown";
}

loaded : load platform ≡ ok config
unfolding atoi get_env_default fill is_in_memory
loaded = load_filled platform (pos 8080) (pos 10) (pos 15) refl refl refl (inl refl) (inl refl)

-- Two requests that do not end.
abbrev told : Proc
told = record begun { signalled = true; busy = 2; expired = true; main = stopping }

signalled-Exits_example : Exits closing told
signalled-Exits_example = signalled-Exits closing (omega arith) told refl refl refl

-- Signal, shutdown, end.
abbrev ended : Proc
ended = record begun { main = returned; serving = false; signalled = true; exit = some 0 }

abbrev signalled : Proc
signalled = record begun { signalled = true }

abbrev stopped : Proc
stopped = record begun { main = releasing; serving = false; signalled = true }

last : Reach releasing begun ended
last =
    next
      (next
        (next (next (next here (signal begun refl)) (own (receive signalled refl refl refl)))
          (own (shut_down (record signalled { main = stopping }) refl refl refl)))
        (own (release stopped refl refl refl)))
      (own (finish (record stopped { main = returned }) refl refl))

exit_0-signalled_example : ended.signalled ≡ true
exit_0-signalled_example = exit_0-signalled ended last refl
