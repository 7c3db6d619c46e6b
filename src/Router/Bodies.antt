-- ===== src/Router/Bodies.antt =====
-- What the stack of middleware lets through of a response's body.
use mathlib.Core.List.{append-nil}
use maxwell_go_spine.Prelude.{
  ◌≡◌, refl, ◌∙◌, ℕ, String, Bool, true, false, ◌==◌, Option, List, [], ◌∷◌, ◌++◌, Bool-cases, inl,
  inr, if◌then◌else◌,
}
use maxwell_go_spine.Go.Int.{ℤ}
use maxwell_go_spine.Go.Text.Split.{contains_text}
use maxwell_go_spine.Http.{
  Header, header_get, Request, Command, set_header, add_header, write_header, write, Outcome,
  Handler,
}
use maxwell_go_spine.Http.Response.{Response, fresh, send, apply, apply_all, serve, send-body}
use maxwell_go_spine.Middleware.Cors.{cors, grant, origin_allowed}
use maxwell_go_spine.Middleware.Etag.{recorded, etag, conclude}
use maxwell_go_spine.Middleware.Etag.Bodies.{is_tagged, conclude_plain}
use maxwell_go_spine.Middleware.Wrappers.{Gzipper, request_id, recovery, logging, timeout, gzip}
use maxwell_go_spine.Router.{Parts, Deps, Draws, request_timeout, stack}

abbrev pub no_writes : List Command → Bool
no_writes [] = true
no_writes (write b ∷ cs) = false
no_writes (write_header n ∷ cs) = no_writes cs
no_writes (set_header k v ∷ cs) = no_writes cs
no_writes (add_header k v ∷ cs) = no_writes cs

recorded-no_writes : (cs : List Command) → no_writes (recorded cs) ≡ true
unfolding recorded
recorded-no_writes [] = refl
recorded-no_writes (write b ∷ cs) = recorded-no_writes cs
recorded-no_writes (write_header n ∷ cs) = recorded-no_writes cs
recorded-no_writes (set_header k v ∷ cs) = recorded-no_writes cs
recorded-no_writes (add_header k v ∷ cs) = recorded-no_writes cs

no_writes-body :
    (cs : List Command) (r : Response) → no_writes cs ≡ true → (apply_all cs r).body ≡ r.body
unfolding apply_all apply
no_writes-body [] r q = refl
no_writes-body (write b ∷ cs) r q = cc
no_writes-body (write_header n ∷ cs) r q = no_writes-body cs (send n r) q ∙ send-body n r
no_writes-body (set_header k v ∷ cs) r q = no_writes-body cs (apply (set_header k v) r) q
no_writes-body (add_header k v ∷ cs) r q = no_writes-body cs (apply (add_header k v) r) q

no_writes-served : (cs : List Command) (h : Header) → no_writes cs ≡ true → (serve cs h).body ≡ ""
unfolding serve
no_writes-served cs h q = send-body 200 (apply_all cs (fresh h)) ∙ no_writes-body cs (fresh h) q

-- The request with another identifier and deadline, which the stack gives it.
abbrev pub passed : Request → Option String → Option ℕ → Request
passed req id deadline = record req { request_id = id; deadline = deadline }

abbrev pub RefusesGzip : Request → Type 0
RefusesGzip req = contains_text (header_get "Accept-Encoding" req.header) "gzip" ≡ false

module _ {S : Type 0} where
  -- No panic, and no 200 JSON response with a body.
  abbrev pub IsPlain : Header → Outcome S → Type 0
  IsPlain h o = (o.panicked ≡ false) × (is_tagged h o.commands ≡ false)

  abbrev HasNoBody : Outcome S → Type 0
  HasNoBody o = (o.panicked ≡ false) × (no_writes o.commands ≡ true)

  module _ (req : Request) (s : S) where
    abbrev IsBare : Handler S → Type 0
    IsBare next =
        (id : Option String) (deadline : Option ℕ) (h : Header)
        → HasNoBody (next (passed req id deadline) h s)

    etag-IsBare :
        (sha : String → String) (next : Handler S)
        → ((id : Option String) (deadline : Option ℕ) (h : Header)
            → IsPlain h (next (passed req id deadline) h s))
        → IsBare (etag sha next)
    unfolding etag
    etag-IsBare sha next plain id deadline h =
        let (calm, untagged) = plain id deadline h in
        let cs = (next (passed req id deadline) h s).commands in
        let nothing : conclude sha (passed req id deadline) h cs ≡ [] =
          conclude_plain sha (passed req id deadline) h cs untagged in
        (calm, rw (calm, nothing, append-nil) (recorded-no_writes cs))

    gzip-IsBare :
        (gz : Gzipper) (level : ℤ) (next : Handler S)
        → RefusesGzip req
        → IsBare next
        → IsBare (gzip gz level next)
    unfolding gzip
    gzip-IsBare gz level next refuses bare id deadline h = rw refuses (bare id deadline h)

    granted-no_writes :
        (b : Bool) (origin : String) (cs : List Command)
        → no_writes cs ≡ true
        → no_writes ((if b then grant origin else []) ++ cs) ≡ true
    granted-no_writes true origin cs q = q
    granted-no_writes false origin cs q = q

    cors-IsBare :
        (origins : List String) (next : Handler S) → IsBare next → IsBare (cors origins next)
    unfolding cors
    cors-IsBare origins next bare id deadline h =
        let granted = origin_allowed origins (header_get "Origin" req.header) in
        elim (Bool-cases (req.method == "OPTIONS")) [
          | inl e ↦ rw e (refl, granted-no_writes granted _ _ refl)
          | inr e ↦
              rw e ((bare id deadline _).0, granted-no_writes granted _ _ (bare id deadline _).1)
        ]

    timeout-IsBare : (d now : ℕ) (next : Handler S) → IsBare next → IsBare (timeout d now next)
    unfolding timeout
    timeout-IsBare d now next bare id deadline h = bare id _ h

    logging-IsBare : (m : Bool) (next : Handler S) → IsBare next → IsBare (logging m next)
    unfolding logging
    logging-IsBare m next bare id deadline h =
        let (calm, empty) = bare id deadline h in rw calm (refl, empty)

    recovery-IsBare : (next : Handler S) → IsBare next → IsBare (recovery next)
    unfolding recovery
    recovery-IsBare next bare id deadline h =
        let (calm, empty) = bare id deadline h in rw calm (refl, empty)

    request_id-IsBare :
        (new_id : String) (next : Handler S) → IsBare next → IsBare (request_id new_id next)
    unfolding request_id
    request_id-IsBare new_id next bare id deadline h = bare _ deadline _

  -- To a client that does not accept gzip, a response that is neither a panic nor a 200 JSON
  -- response with a body leaves the whole stack without its body: whatever the handler wrote.
  pub stack-drops_body :
      (parts : Parts S) (d : Deps S) (draws : Draws) (gz : Gzipper) (inner : Handler S)
      (req : Request) (h : Header) (s : S)
      → RefusesGzip req
      → ((id : Option String) (deadline : Option ℕ) (h' : Header)
          → IsPlain h' (parts.heartbeat "/ping" inner (passed req id deadline) h' s))
      → (serve (stack parts d draws gz inner req h s).commands h).body ≡ ""
  unfolding stack
  stack-drops_body parts d draws gz inner req h s refuses plain =
      let tagged = etag parts.sha_hex (parts.heartbeat "/ping" inner) in
      let packed = gzip gz (ℤ.negsuc 0) tagged in
      let crossed = cors d.cfg.cors_origins packed in
      let timed = timeout request_timeout draws.clock crossed in
      let noted = logging d.has_registry timed in
      let tagged_bare = etag-IsBare req s parts.sha_hex (parts.heartbeat "/ping" inner) plain in
      let packed_bare = gzip-IsBare req s gz (ℤ.negsuc 0) tagged refuses tagged_bare in
      let crossed_bare = cors-IsBare req s d.cfg.cors_origins packed packed_bare in
      let timed_bare = timeout-IsBare req s request_timeout draws.clock crossed crossed_bare in
      let noted_bare = logging-IsBare req s d.has_registry timed timed_bare in
      let bare =
        request_id-IsBare req s draws.new_id (recovery noted)
          (recovery-IsBare req s noted noted_bare) req.request_id req.deadline h in
      no_writes-served (stack parts d draws gz inner req h s).commands h bare.1
