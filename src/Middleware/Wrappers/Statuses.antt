-- ===== src/Middleware/Wrappers/Statuses.antt =====
-- The status that `Logging` records against the one that the client gets.
use maxwell_go_spine.Prelude.{
  ◌≡◌, refl, ap, ◌∙◌, ℕ, Bool, true, false, none, some, List, [], ◌∷◌, ◌++◌, if◌then◌else◌, arith,
}
use maxwell_go_spine.Http.{
  Header, Request, Command, set_header, add_header, write_header, write, Event, logged, counted,
  observed, Handler, status_after,
}
use maxwell_go_spine.Http.Response.{
  Response, fresh, send, apply, apply_all, serve, apply_all-sent, send-sent,
}
use maxwell_go_spine.Middleware.Wrappers.{logging, get_request_id}

-- No `WriteHeader` in what follows.
abbrev no_status : List Command → Bool
no_status [] = true
no_status (write_header n ∷ cs) = false
no_status (write b ∷ cs) = no_status cs
no_status (set_header k v ∷ cs) = no_status cs
no_status (add_header k v ∷ cs) = no_status cs

-- `WriteHeader` at most once, and not behind a write.
abbrev pub sends_once : List Command → Bool
sends_once [] = true
sends_once (write_header n ∷ cs) = no_status cs
sends_once (write b ∷ cs) = no_status cs
sends_once (set_header k v ∷ cs) = sends_once cs
sends_once (add_header k v ∷ cs) = sends_once cs

status-no_status : (cs : List Command) (n : ℕ) → no_status cs ≡ true → status_after cs n ≡ n
unfolding status_after
status-no_status [] n q = refl
status-no_status (write_header m ∷ cs) n q = cc
status-no_status (write b ∷ cs) n q = status-no_status cs n q
status-no_status (set_header k v ∷ cs) n q = status-no_status cs n q
status-no_status (add_header k v ∷ cs) n q = status-no_status cs n q

-- The client gets the status of the only `WriteHeader`, or 200.
serve-status :
    (cs : List Command) (r : Response)
    → sends_once cs ≡ true
    → r.sent ≡ none
    → (x : Header) × ((send 200 (apply_all cs r)).sent ≡ some (status_after cs 200, x))
unfolding apply_all apply status_after
serve-status [] r q e = (r.header, unfold send in ground arith)
serve-status (set_header k v ∷ cs) r q e = serve-status cs (apply (set_header k v) r) q e
serve-status (add_header k v ∷ cs) r q e = serve-status cs (apply (add_header k v) r) q e
serve-status (write_header n ∷ cs) r q e =
    let x : ℕ × Header = (n, r.header) in
    let sent : (send n r).sent ≡ some x = unfold send in ground arith in
    let kept = apply_all-sent cs (send n r) x sent in
    (
      r.header,
      rw (status-no_status cs n q) (ap (λ (t : Response). t.sent) (send-sent 200 _ x kept) ∙ kept),
    )
serve-status (write b ∷ cs) r q e =
    let x : ℕ × Header = (200, r.header) in
    let sent : (apply (write b) r).sent ≡ some x = unfold send in ground arith in
    let kept = apply_all-sent cs (apply (write b) r) x sent in
    (
      r.header,
      rw (status-no_status cs 200 q)
          (ap (λ (t : Response). t.sent) (send-sent 200 _ x kept) ∙ kept),
    )

-- Of a handler that does not panic and calls `WriteHeader` at most once, before it writes,
-- `Logging` passes the response on unchanged and its last event is the request with the status
-- that the client gets.
pub logging-status :
    {S : Type 0} (has_metrics : Bool) (next : Handler S) (req : Request) (h : Header) (s : S)
    → (next req h s).panicked ≡ false
    → sends_once (next req h s).commands ≡ true
    → ((logging has_metrics next req h s).commands ≡ (next req h s).commands)
      × ((logging has_metrics next req h s).state ≡ (next req h s).state)
      × ((es : List Event) × (x : Header) × (code : ℕ) × ((logging has_metrics next req h s).events
            ≡ es ++ logged (get_request_id req) req.method req.path code ∷ [])
          × ((serve (next req h s).commands h).sent ≡ some (code, x)))
unfolding logging serve
logging-status has_metrics next req h s calm once =
    let o = next req h s in
    let (x, sent) = serve-status o.commands (fresh h) once refl in
    let code = status_after o.commands 200 in
    let middle =
      if has_metrics
      then counted req.method req.path code ∷ observed req.method req.path ∷ []
      else [] in
    rw calm (refl, refl, (o.events ++ middle, x, code, refl, sent))
