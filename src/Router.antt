-- ===== src/Router.antt =====
-- internal/http/router/router.go: the middleware stack and the routes.
pub mod Quiet
pub mod Guarded
pub mod Bodies
pub mod Ready
mod Page
use Page.{redoc_html}
use maxwell_go_spine.Prelude.{
  ℕ, suc, ◌+◌, ◌-◌, ◌*◌, ◌/◌, ◌%◌, Char, String, Bool, true, false, Option, none, some, List, [],
  ◌∷◌, ◌++◌, map, ◌==◌, if◌then◌else◌,
}
use maxwell_go_spine.Go.Int.{ℤ, pos, negsuc}
use maxwell_go_spine.Go.Error.{Result, ok, err, panic}
use maxwell_go_spine.Core.User.{Env, UserService}
use maxwell_go_spine.Config.{Config}
use maxwell_go_spine.Http
use maxwell_go_spine.Http.{
  Request, Command, set_header, write, Outcome, Handler, respond, http_error,
}
use maxwell_go_spine.Middleware.ApiKey.{ApiKeyOptions, api_key_auth_with_opts}
use maxwell_go_spine.Middleware.Cors.{cors}
use maxwell_go_spine.Middleware.Etag.{etag}
use maxwell_go_spine.Middleware.Wrappers.{Gzipper, request_id, recovery, logging, timeout, gzip}
use maxwell_go_spine.Graph.Executor.Complexity.{ExecutableSchema}
use maxwell_go_spine.Graph.Server.{new_server, playground_handler}
use maxwell_go_spine.Api.Render.{Json, str, obj, Fields, end, field, json}
use maxwell_go_spine.Api.Users
use maxwell_go_spine.Api.Users.{Codec}

-- What a router is told: `Get` and its kin, `Handle`, and `Mount` or `Route`.
pub data Entry (S : Type 0) : Type 0 where
  on : String → String → Handler S → Entry S
  handle : String → Handler S → Entry S
  mount : String → Handler S → Entry S

-- What comes from other packages. `mux` is a chi router with its entries; a handler that it picks
-- gets the request with the URL's parameters.
pub record Parts (S : Type 0) : Type 0 where
  pub mux : List (Entry S) → Handler S
  pub heartbeat : String → Handler S → Handler S
  pub serve_file : String → Handler S
  pub pprof : String → Handler S
  pub playground : String → String → Handler S
  pub default_server : ExecutableSchema S → Handler S
  pub sha_hex : String → String
  pub unicode_lower : Char → Char
  pub codec : Codec

-- `Deps`: `db` is none for the nil pool of the in-memory mode, else what `PingContext` does.
pub record Deps (S : Type 0) : Type 0 where
  pub user_svc : UserService S
  pub cfg : Config
  pub has_registry : Bool
  pub version : String
  pub commit : String
  pub build_date : String
  pub db : Option (S → Result (Unit {0}) × S)

-- What one request draws from outside; `clock` is in nanoseconds, `unix` in seconds.
pub record Draws : Type 0 where
  pub env : Env
  pub new_id : String
  pub clock : ℕ
  pub unix : ℤ

-- `time.Date(t.Year(), t.Month(), t.Day(), 0, 0, 0, 0, time.UTC)`, in seconds from 1970.
unfoldable pub floor_day : ℤ → ℤ
floor_day (pos n) = pos (n - n % 86400)
floor_day (negsuc n) = negsuc (n + (86399 - n % 86400))

unfoldable pub exp_unix : List (String × ℤ) → List (String × ℤ)
unfolding floor_day
exp_unix = map (λ (e : String × ℤ). (e.0, floor_day e.1))

unfoldable pub api_key_options : Config → ApiKeyOptions
unfolding exp_unix
api_key_options cfg = record {
  current = cfg.api_keys;
  old = cfg.old_api_keys;
  expiries = exp_unix cfg.api_key_expiries;
}

-- 30 * time.Second
abbrev pub request_timeout : ℕ
request_timeout = 30000000000

module _ {S : Type 0} where
  -- A panic that leaves a handler.
  abbrev pub panics : S → Outcome S
  panics s = record { commands = []; events = []; panicked = true; state = s }

  module _ (parts : Parts S) (d : Deps S) (draws : Draws) where
    abbrev one_field : String → String → Json
    one_field k v = obj (field k (str v) end)

    unfoldable pub healthz : Handler S
    healthz req h s = respond (json parts.codec.json_text 200 (one_field "status" "ok")) s

    -- Behind `d.DB.PingContext(r.Context())`.
    unfoldable pub pinged : Result (Unit {0}) × S → Outcome S
    pinged (ok u, s) = respond (json parts.codec.json_text 200 (one_field "status" "ready")) s
    pinged (err e, s) = respond (http_error "db not ready" 503) s
    pinged (panic, s) = panics s

    -- `PingContext` on a nil pool dereferences it.
    unfoldable pub readyz : Handler S
    unfolding pinged
    readyz req h s = elim d.db [ none ↦ panics s | some ping ↦ pinged (ping s) ]

    -- A map is written with its keys in order.
    unfoldable pub version : Handler S
    version req h s =
        respond
          (json parts.codec.json_text 200 (
            obj (
              field "commit" (str d.commit)
                (field "date" (str d.build_date) (field "version" (str d.version) end)))))
          s

    unfoldable pub openapi : Handler S
    openapi req h s = Http.before (set_header "Content-Type" "application/yaml" ∷ []) (
        parts.serve_file "openapi.yaml" req (Http.header_set "Content-Type" "application/yaml" h) s)

    unfoldable pub docs : Handler S
    docs req h s =
        respond (set_header "Content-Type" "text/html; charset=utf-8" ∷ write redoc_html ∷ []) s

    unfoldable pub playground : Handler S
    playground = playground_handler parts.playground

    unfoldable pub pprof_handler : Handler S
    pprof_handler = parts.mux (
        handle "/" (parts.pprof "index")
        ∷ handle "/cmdline" (parts.pprof "cmdline")
        ∷ handle "/profile" (parts.pprof "profile")
        ∷ handle "/symbol" (parts.pprof "symbol")
        ∷ handle "/trace" (parts.pprof "trace")
        ∷ [])

    -- `UserHandler.Register`.
    unfoldable pub register : List (Entry S)
    register =
        on "GET" "/users" (Users.list parts.codec d.user_svc draws.env)
        ∷ on "POST" "/users" (Users.create parts.codec d.user_svc draws.env)
        ∷ on "GET" "/users/{id}" (Users.get parts.codec d.user_svc draws.env)
        ∷ on "PATCH" "/users/{id}" (Users.update parts.codec d.user_svc draws.env)
        ∷ on "DELETE" "/users/{id}" (Users.delete parts.codec d.user_svc draws.env)
        ∷ []

    -- `api.Use` wraps the whole of the router below /v1.
    unfoldable pub api : Handler S
    unfolding register api_key_options
    api =
        api_key_auth_with_opts parts.unicode_lower (api_key_options d.cfg) draws.unix
          (parts.mux (register ++ handle "/graphql" (new_server S parts.default_server) ∷ []))

    unfoldable pub routes : List (Entry S)
    unfolding healthz readyz version openapi docs playground pprof_handler api
    routes =
        on "GET" "/healthz" healthz
        ∷ on "GET" "/readyz" readyz
        ∷ on "GET" "/version" version
        ∷ ((if d.cfg.pprof_enabled then mount "/debug/pprof" pprof_handler ∷ [] else [])
            ++ on "GET" "/openapi.yaml" openapi
              ∷ on "GET" "/docs" docs
              ∷ ((if d.cfg.env == "dev" then on "GET" "/playground" playground ∷ [] else [])
                  ++ mount "/v1" api ∷ []))

    module _ (gz : Gzipper) where
      -- The stack above the router.
      unfoldable pub stack : Handler S → Handler S
      stack inner = request_id draws.new_id (
          recovery (
            logging d.has_registry (
              timeout request_timeout draws.clock (
                cors d.cfg.cors_origins
                  (gzip gz (negsuc 0) (etag parts.sha_hex (parts.heartbeat "/ping" inner)))))))

      unfoldable pub new : Handler S
      unfolding routes stack
      new = stack (parts.mux routes)
