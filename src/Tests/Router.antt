-- ===== src/Tests/Router.antt =====
-- The router over the in-memory service, with a mux that takes the first entry whose pattern is in
-- the path.
use maxwell_go_spine.Prelude.{
  ◌≡◌, refl, sym, ◌∙◌, inl, inr, String, Bool, true, ◌&&◌, ◌==◌, Option, none, some, List, [], ◌∷◌,
  Bool-cases, Option-cases, if◌then◌else◌,
}
use maxwell_go_spine.Go.Int.{pos}
use maxwell_go_spine.Go.Error.{plain, Result, err}
use maxwell_go_spine.Go.Text.Split.{contains_text, to_lower}
use maxwell_go_spine.Config.{Config}
use maxwell_go_spine.Core.Memory.{InMemoryUserRepo, new_in_memory}
use maxwell_go_spine.Http.{Header, Request, Handler, respond, http_error}
use maxwell_go_spine.Http.{status_after}
use maxwell_go_spine.Http.Response.{serve}
use maxwell_go_spine.Middleware.ApiKey.{candidate}
use maxwell_go_spine.Router.{
  Entry, on, handle, mount, Parts, Deps, Draws, readyz, routes, stack, new,
}
use maxwell_go_spine.Router.Quiet.{handler_of, Among, IsChi, IsPassive}
use maxwell_go_spine.Router.Guarded.{new-keeps_state}
use maxwell_go_spine.Router.Bodies.{stack-drops_body}
use maxwell_go_spine.Router.Ready.{readyz_in_memory}
use maxwell_go_spine.Tests.Api.{codec, svc, env}
use maxwell_go_spine.Tests.Http.{copier}

abbrev S : Type 0
S = InMemoryUserRepo

abbrev fits : Entry S → Request → Bool
fits (on m p hd) req = req.method == m && contains_text req.path p
fits (handle p hd) req = contains_text req.path p
fits (mount p hd) req = contains_text req.path p

abbrev pick : List (Entry S) → Request → Option (Entry S)
pick [] req = none
pick (e ∷ es) req = let rest = pick es req in if fits e req then some e else rest

abbrev nothing : Handler S
nothing req h s = respond [] s

abbrev run_entry : Option (Entry S) → Handler S
run_entry none req h s = respond (http_error "404 page not found" 404) s
run_entry (some e) req h s = handler_of e (record req { url_params = [] }) h s

abbrev parts : Parts S
parts = record {
  mux = λ es req h s. run_entry (pick es req) req h s;
  heartbeat = λ path next. next;
  serve_file = λ name. nothing;
  pprof = λ name. nothing;
  playground = λ title endpoint. nothing;
  default_server = λ schema. nothing;
  sha_hex = λ b. "00";
  unicode_lower = λ c. c;
  codec = codec;
}

pick-Among : (es : List (Entry S)) (req : Request) (e : Entry S) → pick es req ≡ some e → Among e es
pick-Among [] req e h = cc
pick-Among (x ∷ es) req e h = elim (Bool-cases (fits x req)) [
  | inl f ↦ inl (let same : some x ≡ some e = sym (rw f refl) ∙ h in cc)
  | inr f ↦ inr (pick-Among es req e (sym (rw f refl) ∙ h))
]

parts-IsChi : IsChi parts
parts-IsChi = record {
  picks = λ es req h s. elim (Option-cases (pick es req)) [
    | inl e ↦ inr (rw e refl)
    | inr (x, e) ↦ inl (x, [], pick-Among es req x e, rw e refl)
  ];
  beats = λ path next req h s. inl refl;
}

abbrev config : Config
config = record {
  app_name = "maxwell-api";
  env = "prod";
  http_port = pos 8080;
  db_dsn = "";
  in_memory = true;
  read_timeout = pos 10;
  write_timeout = pos 15;
  cors_origins = [];
  log_level = "info";
  pprof_enabled = true;
  api_keys = "key" ∷ [];
  old_api_keys = [];
  api_key_expiries = [];
  cache_max_cost = pos 1;
  cache_num_counters = pos 1;
  cache_buffer_items = pos 1;
  redis_addr = "";
  redis_password = "";
  redis_db = pos 0;
}

abbrev deps : Option (S → Result (Unit {0}) × S) → Deps S
deps db = record {
  user_svc = svc;
  cfg = config;
  has_registry = true;
  version = "1";
  commit = "c";
  build_date = "d";
  db = db;
}

abbrev draws : Draws
draws = record { env = env; new_id = "id"; clock = 5; unix = pos 5 }

deps-IsPassive : IsPassive parts (deps none)
deps-IsPassive = record {
  files = λ name req h s. refl;
  profiles = λ name req h s. refl;
  play = λ a b req h s. refl;
  pings = λ ping s e. cc;
}

abbrev request : String → String → Request
request method path = record {
  method = method;
  path = path;
  query = [];
  url_params = [];
  header = [];
  body = "{}";
  request_id = none;
  deadline = none;
  remote_addr = "";
}

-- A delete without a key.
new-keeps_state_example :
    (new parts (deps none) draws copier (request "DELETE" "/v1/users/7") [] new_in_memory).state
    ≡ new_in_memory
unfolding candidate to_lower
new-keeps_state_example =
    new-keeps_state parts (deps none) draws parts-IsChi deps-IsPassive copier refl
      (request "DELETE" "/v1/users/7") [] new_in_memory (λ a. a.presented refl)

abbrev down : Deps S
down = deps (some (λ s. (err (plain "refused"), s)))

-- The 503 of the readiness probe loses its text.
stack-drops_body_example :
    (serve
      (stack parts down draws copier
        (readyz parts down draws)
        (request "GET" "/readyz")
        []
        new_in_memory).commands
      []).body
    ≡ ""
unfolding readyz status_after
stack-drops_body_example =
    stack-drops_body parts down draws copier (readyz parts down draws) (request "GET" "/readyz") []
      new_in_memory refl (λ id deadline h. (refl, refl))

readyz_in_memory_example :
    (x : Header) × ((serve
        (new parts (deps none) draws copier (request "GET" "/readyz") [] new_in_memory).commands
        []).sent
      ≡ some (500, x))
unfolding routes
readyz_in_memory_example =
    readyz_in_memory parts (deps none) draws copier (request "GET" "/readyz") [] new_in_memory []
      refl refl refl (λ id deadline h. refl)
