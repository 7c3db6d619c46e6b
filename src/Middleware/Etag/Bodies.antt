-- ===== src/Middleware/Etag/Bodies.antt =====
-- What a client gets through the ETag middleware.
use mathlib.Core.List.{append-nil}
use maxwell_go_spine.Prelude.{
  ℕ, ◌≡◌, refl, sym, ap, ◌∙◌, String, Bool, true, false, not, ◌&&◌, none, some, List, [], ◌∷◌, ◌++◌,
  ◌==◌, nat_eq, if◌then◌else◌, arith, eq_iff, ◌≢◌,
}
use maxwell_go_spine.Http.{
  Header, header_get, Request, Command, set_header, add_header, write_header, write, Outcome,
  Handler, header_after, status_after, written,
}
use maxwell_go_spine.Http.Response.{
  Response, fresh, send, apply, apply_all, serve, apply_all-append, send-body, send-sent,
  apply_all-sent,
}
use maxwell_go_spine.Middleware.Etag.{recorded, hdr_content_type_json, etag_of, conclude, etag}

-- The response that the middleware rewrites with a validator.
abbrev pub is_tagged : Header → List Command → Bool
is_tagged h cs =
    nat_eq (status_after cs 200) 200
    && hdr_content_type_json (header_after cs h)
    && not (written cs == "")

-- `WriteHeader` is called, and before any write: so do `render.JSON`, `render.Problem` and
-- `http.Error`.
abbrev pub opens_with_header : List Command → Bool
opens_with_header [] = false
opens_with_header (write_header n ∷ cs) = true
opens_with_header (write b ∷ cs) = false
opens_with_header (set_header k v ∷ cs) = opens_with_header cs
opens_with_header (add_header k v ∷ cs) = opens_with_header cs

recorded-body : (cs : List Command) (r : Response) → (apply_all (recorded cs) r).body ≡ r.body
unfolding recorded apply_all
recorded-body [] r = refl
recorded-body (write b ∷ cs) r = recorded-body cs r
recorded-body (set_header k v ∷ cs) r = recorded-body cs (apply (set_header k v) r)
recorded-body (add_header k v ∷ cs) r = recorded-body cs (apply (add_header k v) r)
recorded-body (write_header n ∷ cs) r = recorded-body cs (send n r) ∙ send-body n r

recorded-sent :
    (cs : List Command) (r : Response)
    → opens_with_header cs ≡ true
    → r.sent ≡ none
    → (x : ℕ × Header) × ((apply_all (recorded cs) r).sent ≡ some x)
      × ((apply_all cs r).sent ≡ some x)
unfolding recorded apply_all
recorded-sent [] r o e = cc
recorded-sent (write b ∷ cs) r o e = cc
recorded-sent (set_header k v ∷ cs) r o e =
    recorded-sent cs (apply (set_header k v) r) o (unfold apply in e)
recorded-sent (add_header k v ∷ cs) r o e =
    recorded-sent cs (apply (add_header k v) r) o (unfold apply in e)
recorded-sent (write_header n ∷ cs) r o e =
    let x : ℕ × Header = (n, r.header) in
    let sent : (apply (write_header n) r).sent ≡ some x = unfold apply send in ground arith in
    (x, apply_all-sent (recorded cs) _ x sent, apply_all-sent cs _ x sent)

module _ (sha_hex : String → String) where
  pub conclude_plain :
      (req : Request) (h : Header) (cs : List Command)
      → is_tagged h cs ≡ false
      → conclude sha_hex req h cs ≡ []
  unfolding conclude
  conclude_plain req h cs plain = rw plain

  conclude_matched :
      (req : Request) (h : Header) (cs : List Command)
      → is_tagged h cs ≡ true
      → header_get "If-None-Match" req.header ≢ ""
      → header_get "If-None-Match" req.header ≡ etag_of sha_hex (written cs)
      → conclude sha_hex req h cs
        ≡ set_header "ETag" (etag_of sha_hex (written cs)) ∷ write_header 304 ∷ []
  unfolding conclude
  conclude_matched req h cs tagged some_tag same = rw tagged (
      ground (
        arith,
        eq_iff (header_get "If-None-Match" req.header) "",
        eq_iff (header_get "If-None-Match" req.header) (etag_of sha_hex (written cs)),
      ))

  module _ {S : Type 0} (next : Handler S) (req : Request) (h : Header) (s : S) where
    abbrev o : Outcome S
    o = next req h s

    -- A response that is not a 200 JSON response with a body reaches the client with no body at
    -- all, whatever `next` wrote.
    pub etag-drops_body :
        is_tagged h o.commands ≡ false → (serve (etag sha_hex next req h s).commands h).body ≡ ""
    unfolding etag serve
    etag-drops_body plain =
        let quiet : (if o.panicked then [] else conclude sha_hex req h o.commands) ≡ [] =
          ground (arith, conclude_plain req h o.commands plain) in
        rw (quiet, append-nil)
          (send-body 200 (apply_all (recorded o.commands) (fresh h))
            ∙ recorded-body o.commands (fresh h))

    -- If `next` calls `WriteHeader` before it writes, the client gets the status and the header map
    -- of `next` as they were then: neither a 304 nor an `ETag` of the middleware.
    pub etag_sent :
        opens_with_header o.commands ≡ true
        → (serve (etag sha_hex next req h s).commands h).sent ≡ (serve o.commands h).sent
    unfolding etag serve
    etag_sent opens =
        let (x, kept, own) = recorded-sent o.commands (fresh h) opens refl in
        let rest = if o.panicked then [] else conclude sha_hex req h o.commands in
        let split = apply_all-append (recorded o.commands) rest (fresh h) in
        let all : (apply_all (recorded o.commands ++ rest) (fresh h)).sent ≡ some x =
          rw split (apply_all-sent rest _ x kept) in
        ap (λ (r : Response). r.sent) (send-sent 200 _ x all)
        ∙ all
        ∙ sym own
        ∙ sym (ap (λ (r : Response). r.sent) (send-sent 200 _ x own))

    -- A client that sends back the validator of a tagged response gets no body.
    pub etag-empty_match :
        is_tagged h o.commands ≡ true
        → o.panicked ≡ false
        → header_get "If-None-Match" req.header ≢ ""
        → header_get "If-None-Match" req.header ≡ etag_of sha_hex (written o.commands)
        → (serve (etag sha_hex next req h s).commands h).body ≡ ""
    unfolding etag serve apply_all apply
    etag-empty_match tagged calm some_tag same =
        rw
          (
            calm,
            conclude_matched req h o.commands tagged some_tag same,
            apply_all-append (recorded o.commands) _ (fresh h),
            send-body,
            send-body,
          )
          (recorded-body o.commands (fresh h))
