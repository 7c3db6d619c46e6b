-- ===== src/Router/Ready.antt =====
-- What a client gets when a handler panics below the whole stack, and the readiness probe of the
-- in-memory mode.
use mathlib.Core.List.{append-nil}
use maxwell_go_spine.Prelude.{
  ◌≡◌, refl, ℕ, String, Bool, true, false, ◌==◌, Option, none, some, List, [], ◌∷◌, ◌++◌,
  if◌then◌else◌,
}
use maxwell_go_spine.Go.Int.{ℤ}
use maxwell_go_spine.Http.{
  Header, header_get, header_set, Request, Command, set_header, add_header, write_header, write,
  Outcome, Handler,
}
use maxwell_go_spine.Http.Response.{serve, apply, apply_all}
use maxwell_go_spine.Middleware.Cors.{cors, grant, origin_allowed}
use maxwell_go_spine.Middleware.Etag.{recorded, etag}
use maxwell_go_spine.Middleware.Wrappers.{Gzipper, request_id, logging, timeout, gzip}
use maxwell_go_spine.Middleware.Wrappers.Panics.{is_silent, recovery-500}
use maxwell_go_spine.Router.{Parts, Deps, Draws, request_timeout, readyz, routes, stack, new}
use maxwell_go_spine.Router.Bodies.{RefusesGzip, passed}

recorded-silent : (cs : List Command) → is_silent cs ≡ true → is_silent (recorded cs) ≡ true
unfolding recorded
recorded-silent [] q = refl
recorded-silent (write b ∷ cs) q = cc
recorded-silent (write_header n ∷ cs) q = cc
recorded-silent (set_header k v ∷ cs) q = recorded-silent cs q
recorded-silent (add_header k v ∷ cs) q = recorded-silent cs q

granted-silent :
    (b : Bool) (origin : String) (cs : List Command)
    → is_silent cs ≡ true
    → is_silent ((if b then grant origin else []) ++ cs) ≡ true
granted-silent true origin cs q = q
granted-silent false origin cs q = q

module _ {S : Type 0} where
  -- A panic before anything is sent.
  abbrev pub IsCrash : Outcome S → Type 0
  IsCrash o = (o.panicked ≡ true) × (is_silent o.commands ≡ true)

  module _ (req : Request) (s : S) where
    abbrev pub Crashes : Handler S → Type 0
    Crashes next =
        (id : Option String) (deadline : Option ℕ) (h : Header)
        → IsCrash (next (passed req id deadline) h s)

    etag-Crashes :
        (sha : String → String) (next : Handler S) → Crashes next → Crashes (etag sha next)
    unfolding etag
    etag-Crashes sha next crashes id deadline h =
        let (panicked, silent) = crashes id deadline h in
        (
          panicked,
          rw (panicked, append-nil)
              (recorded-silent (next (passed req id deadline) h s).commands silent),
        )

    gzip-Crashes :
        (gz : Gzipper) (level : ℤ) (next : Handler S)
        → RefusesGzip req
        → Crashes next
        → Crashes (gzip gz level next)
    unfolding gzip
    gzip-Crashes gz level next refuses crashes id deadline h = rw refuses (crashes id deadline h)

    cors-Crashes :
        (origins : List String) (next : Handler S)
        → (req.method == "OPTIONS") ≡ false
        → Crashes next
        → Crashes (cors origins next)
    unfolding cors
    cors-Crashes origins next method crashes id deadline h =
        let granted = origin_allowed origins (header_get "Origin" req.header) in
        rw method ((crashes id deadline _).0, granted-silent granted _ _ (crashes id deadline _).1)

    timeout-Crashes : (d now : ℕ) (next : Handler S) → Crashes next → Crashes (timeout d now next)
    unfolding timeout
    timeout-Crashes d now next crashes id deadline h = crashes id _ h

    logging-Crashes : (m : Bool) (next : Handler S) → Crashes next → Crashes (logging m next)
    unfolding logging
    logging-Crashes m next crashes id deadline h =
        let (panicked, silent) = crashes id deadline h in rw panicked (refl, silent)

  module _ (parts : Parts S) (d : Deps S) (draws : Draws) (gz : Gzipper) where
    -- A panic below the stack, before anything is sent and with no gzip: the client gets status 500.
    stack-500 :
        (inner : Handler S) (req : Request) (h : Header) (s : S)
        → RefusesGzip req
        → (req.method == "OPTIONS") ≡ false
        → Crashes req s (parts.heartbeat "/ping" inner)
        → (x : Header) × ((serve (stack parts d draws gz inner req h s).commands h).sent
            ≡ some (500, x))
    unfolding stack request_id serve apply_all apply
    stack-500 inner req h s refuses method crashes =
        let tagged = etag parts.sha_hex (parts.heartbeat "/ping" inner) in
        let packed = gzip gz (ℤ.negsuc 0) tagged in
        let crossed = cors d.cfg.cors_origins packed in
        let timed = timeout request_timeout draws.clock crossed in
        let tagged_crash =
          etag-Crashes req s parts.sha_hex (parts.heartbeat "/ping" inner) crashes in
        let packed_crash = gzip-Crashes req s gz (ℤ.negsuc 0) tagged refuses tagged_crash in
        let crossed_crash = cors-Crashes req s d.cfg.cors_origins packed method packed_crash in
        let timed_crash = timeout-Crashes req s request_timeout draws.clock crossed crossed_crash in
        let crash = logging-Crashes req s d.has_registry timed timed_crash in
        (recovery-500 (logging d.has_registry timed) (passed req _ req.deadline)
          (header_set "X-Request-ID" _ h) s (crash _ req.deadline _).0 (crash _ req.deadline _).1).1

    -- In the in-memory mode there is no pool, and the readiness probe panics on the nil pointer: a
    -- client that does not accept gzip gets status 500, where an answer would be 200 or 503. The
    -- last hypothesis says that chi routes the request to the probe.
    pub readyz_in_memory :
        (req : Request) (h : Header) (s : S) (ps : List (String × String))
        → d.db ≡ none
        → RefusesGzip req
        → (req.method == "OPTIONS") ≡ false
        → ((id : Option String) (deadline : Option ℕ) (h' : Header)
            → parts.heartbeat "/ping"
                (parts.mux (routes parts d draws))
                (passed req id deadline)
                h'
                s
              ≡ readyz parts d draws (record (passed req id deadline) { url_params = ps }) h' s)
        → (x : Header) × ((serve (new parts d draws gz req h s).commands h).sent ≡ some (500, x))
    unfolding new readyz
    readyz_in_memory req h s ps no_pool refuses method routed =
        stack-500 (parts.mux (routes parts d draws)) req h s refuses method
          (λ id deadline h'. rw (routed id deadline h', no_pool, readyz) (refl, refl))
