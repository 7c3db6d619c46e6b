-- ===== src/Middleware/Wrappers/Panics.antt =====
-- What a client gets when a handler panics.
use maxwell_go_spine.Prelude.{
  ◌≡◌, refl, ap, ◌∙◌, ℕ, String, Bool, true, false, none, some, List, [], ◌∷◌, ◌++◌, arith,
}
use maxwell_go_spine.Go.Int.{ℤ}
use maxwell_go_spine.Go.Text.Split.{contains_text}
use maxwell_go_spine.Http.{
  Header, header_get, header_set, Request, Command, set_header, add_header, write_header, write,
  Outcome, Handler, http_error,
}
use maxwell_go_spine.Http.Response.{
  Response, fresh, send, apply, apply_all, serve, apply_all-append, apply_all-sent, send-sent,
}
use maxwell_go_spine.Middleware.Wrappers.{
  Gzipper, recovery, zipped, gzip, effective_level, is_bad_level,
}

-- Header writes alone: nothing is sent yet.
abbrev pub is_silent : List Command → Bool
is_silent [] = true
is_silent (write b ∷ cs) = false
is_silent (write_header n ∷ cs) = false
is_silent (set_header k v ∷ cs) = is_silent cs
is_silent (add_header k v ∷ cs) = is_silent cs

silent-keeps :
    (cs : List Command) (r : Response)
    → is_silent cs ≡ true
    → ((apply_all cs r).sent ≡ r.sent) × ((apply_all cs r).body ≡ r.body)
unfolding apply_all apply
silent-keeps [] r q = (refl, refl)
silent-keeps (write b ∷ cs) r q = cc
silent-keeps (write_header n ∷ cs) r q = cc
silent-keeps (set_header k v ∷ cs) r q = silent-keeps cs (apply (set_header k v) r) q
silent-keeps (add_header k v ∷ cs) r q = silent-keeps cs (apply (add_header k v) r) q

-- What `http.Error` sends through a writer that has sent nothing.
error-sent :
    (text : String) (code : ℕ) (r : Response)
    → r.sent ≡ none
    → (x : Header) × ((apply_all (http_error text code) r).sent ≡ some (code, x))
unfolding apply_all apply send
error-sent text code r e = (
  header_set "X-Content-Type-Options" "nosniff"
      (header_set "Content-Type" "text/plain; charset=utf-8" r.header),
  ground arith,
)

write-sent :
    (b : String) (r : Response)
    → r.sent ≡ none
    → (apply_all (write b ∷ []) r).sent ≡ some (200, r.header)
unfolding apply_all apply send
write-sent b r e = ground arith

module _ {S : Type 0} (next : Handler S) (req : Request) (h : Header) (s : S) where
  abbrev o : Outcome S
  o = next req h s

  -- A panic before anything is sent: `Recovery` stops it, and the client gets status 500.
  pub recovery-500 :
      o.panicked ≡ true
      → is_silent o.commands ≡ true
      → ((recovery next req h s).panicked ≡ false)
        × ((x : Header) × ((serve (recovery next req h s).commands h).sent ≡ some (500, x)))
  unfolding recovery serve
  recovery-500 p q =
      let (quiet, _) = silent-keeps o.commands (fresh h) q in
      let (x, sent) =
        error-sent "Internal Server Error" 500 (apply_all o.commands (fresh h)) quiet in
      rw (p, apply_all-append o.commands (http_error "Internal Server Error" 500) (fresh h))
        (refl, (x, unfold send in ground arith))

  -- Without a panic `Recovery` changes nothing.
  pub recovery-calm : o.panicked ≡ false → recovery next req h s ≡ o
  unfolding recovery
  recovery-calm p = rw p

module _ (gz : Gzipper) where
  zipped-silent :
      (cs : List Command) (st : gz.Stream)
      → is_silent cs ≡ true
      → is_silent (zipped gz cs st).0 ≡ true
  unfolding zipped
  zipped-silent [] st q = refl
  zipped-silent (write b ∷ cs) st q = cc
  zipped-silent (write_header n ∷ cs) st q = cc
  zipped-silent (set_header k v ∷ cs) st q = zipped-silent cs st q
  zipped-silent (add_header k v ∷ cs) st q = zipped-silent cs st q

  module _ {S : Type 0} (level : ℤ) (next : Handler S) (req : Request) (h : Header) (s : S) where
    abbrev inner : Outcome S
    inner = next req (header_set "Content-Encoding" "gzip" h) s

    -- A panic before anything is sent, to a client that accepts gzip: the deferred `Close` writes
    -- first, so the client gets status 200 and not the 500 that `Recovery` sends behind it.
    pub gzip-hides_panic :
        contains_text (header_get "Accept-Encoding" req.header) "gzip" ≡ true
        → is_bad_level gz (effective_level gz level) ≡ false
        → inner.panicked ≡ true
        → is_silent inner.commands ≡ true
        → (x : Header) × ((serve (recovery (gzip gz level next) req h s).commands h).sent
            ≡ some (200, x))
    unfolding recovery gzip serve
    gzip-hides_panic accepts good p q =
        let open_ = gz.open_stream (effective_level gz level) in
        let cs = (zipped gz inner.commands open_).0 in
        let tail = write (gz.close (zipped gz inner.commands open_).1) ∷ [] in
        let error = http_error "Internal Server Error" 500 in
        let r0 = apply (set_header "Content-Encoding" "gzip") (fresh h) in
        let r1 = apply_all cs r0 in
        let quiet : r1.sent ≡ none =
          (silent-keeps cs r0 (zipped-silent inner.commands open_ q)).0 ∙ (unfold apply in refl) in
        let r2 = apply_all tail r1 in
        let wrote : r2.sent ≡ some (200, r1.header) = write-sent _ r1 quiet in
        let kept : (apply_all error r2).sent ≡ some (200, r1.header) =
          apply_all-sent error r2 (200, r1.header) wrote in
        (
          r1.header,
          rw (accepts, good, p)
              (rw (apply_all-append (cs ++ tail) error r0, apply_all-append cs tail r0)
                (ap (λ (r : Response). r.sent) (send-sent 200 _ (200, r1.header) kept) ∙ kept)),
        )
