-- ===== src/Router/Guarded.antt =====
-- Who can change the program's state through the router.
use maxwell_go_spine.Prelude.{
  ◌≡◌, refl, ap, Bool, true, false, ◌&&◌, ◌==◌, List, [], ◌∷◌, ◌++◌, All, Option-cases, inl, inr,
  ◌∙◌, if◌then◌else◌, String,
}
use maxwell_go_spine.Go.Error.{Result, ok, err, panic}
use maxwell_go_spine.Http.{Header, Request, Outcome, Handler}
use maxwell_go_spine.Middleware.ApiKey.{has_none, candidate}
use maxwell_go_spine.Middleware.ApiKey.Access.{Admits, refuses}
use maxwell_go_spine.Middleware.Wrappers.{Gzipper}
use maxwell_go_spine.Graph.Server.{playground_handler}
use maxwell_go_spine.Router.{
  Entry, on, mount, Parts, Deps, Draws, api_key_options, healthz, pinged, readyz, version, openapi,
  docs, playground, pprof_handler, api, routes, stack, new,
}
use maxwell_go_spine.Router.Quiet.{
  handler_of, IsQuiet, IsChi, IsPassive, mux-IsQuiet, heartbeat-IsQuiet, request_id-IsQuiet,
  recovery-IsQuiet, logging-IsQuiet, timeout-IsQuiet, cors-IsQuiet, gzip-IsQuiet, etag-IsQuiet,
}

module _ {S : Type 0} (parts : Parts S) (d : Deps S) (draws : Draws) (chi : IsChi parts)
    (passive : IsPassive parts d) where
  module _ (P : Header → Type 0) where
    pinged-state : (x : Result (Unit {0}) × S) → (pinged parts d draws x).state ≡ x.1
    unfolding pinged
    pinged-state (ok u, s) = refl
    pinged-state (err e, s) = refl
    pinged-state (panic, s) = refl

    readyz-IsQuiet : IsQuiet P (readyz parts d draws)
    unfolding readyz
    readyz-IsQuiet req h s p = elim (Option-cases d.db) [
      | inl e ↦ rw (e, readyz) refl
      | inr (ping, e) ↦ rw (e, readyz) (pinged-state (ping s) ∙ passive.pings ping s e)
    ]

    pprof_handler-IsQuiet : IsQuiet P (pprof_handler parts d draws)
    unfolding pprof_handler
    pprof_handler-IsQuiet =
        let quiet = λ (name : String) (req : Request) (h : Header) (s : S) (p : P req.header).
          passive.profiles name req h s in
        mux-IsQuiet P parts chi _ (
          quiet "index",
          (quiet "cmdline", (quiet "profile", (quiet "symbol", (quiet "trace", tt)))),
        )

    optional :
        (b : Bool) (e : Entry S) (rest : List (Entry S))
        → IsQuiet P (handler_of e)
        → All (λ (x : Entry S). IsQuiet P (handler_of x)) rest
        → All (λ (x : Entry S). IsQuiet P (handler_of x)) ((if b then e ∷ [] else []) ++ rest)
    optional true e rest q all = (q, all)
    optional false e rest q all = all

    routes-IsQuiet :
        IsQuiet P (api parts d draws)
        → All (λ (x : Entry S). IsQuiet P (handler_of x)) (routes parts d draws)
    unfolding routes healthz version docs openapi playground playground_handler
    routes-IsQuiet guarded = (
      (λ req h s p. refl),
      (
        readyz-IsQuiet,
        (
          (λ req h s p. refl),
          optional d.cfg.pprof_enabled (mount "/debug/pprof" (pprof_handler parts d draws)) _
              pprof_handler-IsQuiet
              (
                (λ req h s p. passive.files "openapi.yaml" req _ s),
                (
                  (λ req h s p. refl),
                  optional (d.cfg.env == "dev") (on "GET" "/playground" (playground parts d draws))
                      _ (λ req h s p. passive.play "GraphQL" "/v1/graphql" req h s) (guarded, tt),
                ),
              ),
        ),
      ),
    )

    stack-IsQuiet :
        (gz : Gzipper) (inner : Handler S)
        → IsQuiet P inner
        → IsQuiet P (stack parts d draws gz inner)
    unfolding stack
    stack-IsQuiet gz inner q = request_id-IsQuiet P _ _ (
        recovery-IsQuiet P _ (
          logging-IsQuiet P _ _ (
            timeout-IsQuiet P _ _ _ (
              cors-IsQuiet P _ _ (
                gzip-IsQuiet P gz _ _
                  (etag-IsQuiet P _ _ (heartbeat-IsQuiet P parts chi _ _ q)))))))

  -- The header's key is not admitted.
  abbrev pub Refused : Header → Type 0
  Refused header =
      ¬ Admits (api_key_options d.cfg) draws.unix (candidate parts.unicode_lower header)

  -- If keys are configured, no request that comes without an admitted key changes the program's
  -- state, whatever its method and path: it is as it was.
  pub new-keeps_state :
      (gz : Gzipper)
      → (has_none d.cfg.api_keys && has_none d.cfg.old_api_keys) ≡ false
      → (req : Request) (h : Header) (s : S) → Refused req.header
      → (new parts d draws gz req h s).state ≡ s
  unfolding new
  new-keeps_state gz some_key = stack-IsQuiet Refused gz _ (
      mux-IsQuiet Refused parts chi _ (
        routes-IsQuiet Refused (λ req h s refused.
          unfold api api_key_options in
          ap (λ (o : Outcome S). o.state)
            (refuses parts.unicode_lower (api_key_options d.cfg) draws.unix _ req h s some_key
              refused))))
