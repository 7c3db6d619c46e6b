-- ===== src/Router/Quiet.antt =====
-- Handlers that leave the state alone, and how the router and the middleware keep that.
use maxwell_go_spine.Prelude.{
  ◌≡◌, refl, sym, ap, ◌∙◌, ◌⊎◌, inl, inr, ℕ, String, Bool, not, ◌==◌, some, List, [], ◌∷◌, All,
  Bool-cases,
}
use maxwell_go_spine.Go.Int.{ℤ}
use maxwell_go_spine.Go.Error.{Result}
use maxwell_go_spine.Go.Text.Split.{contains_text}
use maxwell_go_spine.Http.{Header, header_get, Request, Outcome, Handler}
use maxwell_go_spine.Middleware.Cors.{cors}
use maxwell_go_spine.Middleware.Etag.{etag}
use maxwell_go_spine.Middleware.Wrappers.{
  Gzipper, request_id, recovery, logging, timeout, gzip, effective_level, is_bad_level,
}
use maxwell_go_spine.Router.{Entry, on, handle, mount, Parts, Deps}

module _ {S : Type 0} where
  abbrev pub handler_of : Entry S → Handler S
  handler_of (on m p hd) = hd
  handler_of (handle p hd) = hd
  handler_of (mount p hd) = hd

  abbrev pub Among : Entry S → List (Entry S) → Type 0
  Among e [] = ⊥
  Among e (x ∷ xs) = (x ≡ e) ⊎ Among e xs

  -- A handler that leaves the state as it was, for requests whose header meets `P`.
  abbrev pub IsQuiet : (Header → Type 0) → Handler S → Type 0
  IsQuiet P hd = (req : Request) (h : Header) (s : S) → P req.header → (hd req h s).state ≡ s

  -- A chi router runs one of its entries, or answers 404 or 405 by itself; the heartbeat answers or
  -- passes the request on.
  pub record IsChi (parts : Parts S) : Type 0 where
    pub picks :
        (es : List (Entry S)) (req : Request) (h : Header) (s : S)
        → ((e : Entry S) × (ps : List (String × String)) × Among e es
            × (parts.mux es req h s ≡ handler_of e (record req { url_params = ps }) h s))
          ⊎ ((parts.mux es req h s).state ≡ s)
    pub beats :
        (path : String) (next : Handler S) (req : Request) (h : Header) (s : S)
        → (parts.heartbeat path next req h s ≡ next req h s)
          ⊎ ((parts.heartbeat path next req h s).state ≡ s)

  -- The handlers of other packages, and the ping, do not reach the users.
  pub record IsPassive (parts : Parts S) (d : Deps S) : Type 0 where
    pub files :
        (name : String) (req : Request) (h : Header) (s : S)
        → (parts.serve_file name req h s).state ≡ s
    pub profiles :
        (name : String) (req : Request) (h : Header) (s : S) → (parts.pprof name req h s).state ≡ s
    pub play :
        (a b : String) (req : Request) (h : Header) (s : S)
        → (parts.playground a b req h s).state ≡ s
    pub pings : (ping : S → Result (Unit {0}) × S) (s : S) → d.db ≡ some ping → (ping s).1 ≡ s

  module _ (P : Header → Type 0) where
    All-IsQuiet :
        (es : List (Entry S)) (e : Entry S)
        → All (λ (x : Entry S). IsQuiet P (handler_of x)) es
        → Among e es
        → IsQuiet P (handler_of e)
    All-IsQuiet [] e all a = absurd a
    All-IsQuiet (x ∷ es) e all (inl same) = rw (sym same) all.0
    All-IsQuiet (x ∷ es) e all (inr a) = All-IsQuiet es e all.1 a

    module _ (parts : Parts S) (chi : IsChi parts) where
      pub mux-IsQuiet :
          (es : List (Entry S))
          → All (λ (x : Entry S). IsQuiet P (handler_of x)) es
          → IsQuiet P (parts.mux es)
      mux-IsQuiet es all req h s p = elim (chi.picks es req h s) [
        | inl (e, ps, a, same) ↦
            ap (λ (o : Outcome S). o.state) same
            ∙ All-IsQuiet es e all a (record req { url_params = ps }) h s p
        | inr own ↦ own
      ]

      pub heartbeat-IsQuiet :
          (path : String) (next : Handler S)
          → IsQuiet P next
          → IsQuiet P (parts.heartbeat path next)
      heartbeat-IsQuiet path next q req h s p = elim (chi.beats path next req h s) [
        | inl same ↦ ap (λ (o : Outcome S). o.state) same ∙ q req h s p
        | inr own ↦ own
      ]

    pub request_id-IsQuiet :
        (id : String) (next : Handler S) → IsQuiet P next → IsQuiet P (request_id id next)
    unfolding request_id
    request_id-IsQuiet id next q req h s p = q _ _ s p

    pub recovery-IsQuiet : (next : Handler S) → IsQuiet P next → IsQuiet P (recovery next)
    unfolding recovery
    recovery-IsQuiet next q req h s p = elim (Bool-cases (next req h s).panicked) [
      | inl e ↦ rw e (q req h s p)
      | inr e ↦ rw e (q req h s p)
    ]

    pub logging-IsQuiet :
        (m : Bool) (next : Handler S) → IsQuiet P next → IsQuiet P (logging m next)
    unfolding logging
    logging-IsQuiet m next q req h s p = elim (Bool-cases (next req h s).panicked) [
      | inl e ↦ rw e (q req h s p)
      | inr e ↦ rw e (q req h s p)
    ]

    pub timeout-IsQuiet :
        (d now : ℕ) (next : Handler S) → IsQuiet P next → IsQuiet P (timeout d now next)
    unfolding timeout
    timeout-IsQuiet d now next q req h s p = q _ h s p

    pub cors-IsQuiet :
        (origins : List String) (next : Handler S) → IsQuiet P next → IsQuiet P (cors origins next)
    unfolding cors
    cors-IsQuiet origins next q req h s p = elim (Bool-cases (req.method == "OPTIONS")) [
      | inl e ↦ rw e refl
      | inr e ↦ rw e (q req _ s p)
    ]

    pub gzip-IsQuiet :
        (gz : Gzipper) (level : ℤ) (next : Handler S)
        → IsQuiet P next
        → IsQuiet P (gzip gz level next)
    unfolding gzip
    gzip-IsQuiet gz level next q req h s p =
        elim (Bool-cases (not (contains_text (header_get "Accept-Encoding" req.header) "gzip"))) [
          | inl e ↦ rw e (q req h s p)
          | inr e ↦ elim (Bool-cases (is_bad_level gz (effective_level gz level))) [
            | inl f ↦ rw (e, f) (q req h s p)
            | inr f ↦ rw (e, f) (q req _ s p)
          ]
        ]

    pub etag-IsQuiet :
        (sha : String → String) (next : Handler S) → IsQuiet P next → IsQuiet P (etag sha next)
    unfolding etag
    etag-IsQuiet sha next q req h s p = q req h s p
