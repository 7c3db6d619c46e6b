-- ===== src/Tests/Http.antt =====
-- The middleware on small requests.
use maxwell_go_spine.Prelude.{
  ℕ, List, ◌≡◌, ◌≢◌, ◌⊎◌, inl, inr, refl, Char, String, true, false, none, some, [], ◌∷◌, eq_iff,
  arith,
}
use maxwell_go_spine.Go.Int.{pos, negsuc}
use maxwell_go_spine.Go.Text.Trim.{trim_space}
use maxwell_go_spine.Http.{
  Header, header_add, Request, Command, set_header, add_header, write_header, write, Handler,
  before, respond, header_after, written, status_after,
}
use maxwell_go_spine.Http.Response.{serve}
use maxwell_go_spine.Middleware.ApiKey.{
  ApiKeyOptions, unauthorized, deprecation, candidate, api_key_auth_with_opts,
}
use maxwell_go_spine.Middleware.KeySet.{Has}
use maxwell_go_spine.Middleware.ApiKey.Access.{refuses, lets_through}
use maxwell_go_spine.Middleware.Cors.{cors}
use maxwell_go_spine.Middleware.Cors.Origins.{IsCors, cors-refused, cors-Granted}
use maxwell_go_spine.Middleware.Etag.{etag, etag_of, hdr_content_type_json}
use maxwell_go_spine.Middleware.Etag.Bodies.{etag-drops_body, etag_sent, etag-empty_match}
use maxwell_go_spine.Middleware.Wrappers.{Gzipper, recovery, gzip}
use maxwell_go_spine.Middleware.Wrappers.Panics.{recovery-500, gzip-hides_panic}

abbrev request : Header → Request
request h = record {
  method = "GET";
  path = "/v1/users";
  query = [];
  url_params = [];
  header = h;
  body = "";
  request_id = none;
  deadline = none;
  remote_addr = "";
}

-- A handler without a state that answers as `render.JSON` does.
abbrev json_handler : ℕ → Handler (Unit {0})
json_handler status req h s =
    respond (set_header "Content-Type" "application/json" ∷ write_header status ∷ write "{}" ∷ []) s

abbrev panicking : Handler (Unit {0})
panicking req h s = record { commands = []; events = []; panicked = true; state = s }

abbrev sha : String → String
sha body = "0123456789abcdef"

etag-drops_body_example :
    (serve (etag sha (json_handler 404) (request []) [] tt).commands []).body ≡ ""
unfolding header_after written status_after
etag-drops_body_example = etag-drops_body sha (json_handler 404) (request []) [] tt refl

etag_sent_example :
    (serve (etag sha (json_handler 200) (request []) [] tt).commands []).sent
    ≡ (serve (json_handler 200 (request []) [] tt).commands []).sent
etag_sent_example = etag_sent sha (json_handler 200) (request []) [] tt refl

abbrev revalidating : Request
revalidating = request (("If-None-Match", "\"0123456789abcdef\"" ∷ []) ∷ [])

etag-empty_match_example :
    (serve (etag sha (json_handler 200) revalidating [] tt).commands []).body ≡ ""
unfolding header_after written status_after hdr_content_type_json etag_of
etag-empty_match_example =
    etag-empty_match sha (json_handler 200) revalidating [] tt refl refl
      (ground (arith, eq_iff "\"0123456789abcdef\"" "")) refl

abbrev keys : ApiKeyOptions
keys = record { current = "new" ∷ []; old = "old" ∷ []; expiries = ("old", pos 100) ∷ [] }

abbrev ascii : Char → Char
ascii c = c

abbrev with_key : String → Request
with_key k = request (("X-API-Key", k ∷ []) ∷ [])

-- The old key after its expiry.
refuses_example :
    api_key_auth_with_opts ascii keys (pos 100) (json_handler 200) (with_key "old") [] tt
    ≡ respond unauthorized tt
unfolding candidate
refuses_example =
    refuses ascii keys (pos 100) (json_handler 200) (with_key "old") [] tt refl
      (λ a. cc (a.unexpired (pos 100) refl))

-- The old key before its expiry.
lets_through_example :
    (Has "old" keys.current
      × (api_key_auth_with_opts ascii keys (pos 99) (json_handler 200) (with_key "old") [] tt
          ≡ json_handler 200 (with_key "old") [] tt))
    ⊎ ((¬ Has "old" keys.current)
        × (api_key_auth_with_opts ascii keys (pos 99) (json_handler 200) (with_key "old") [] tt
            ≡ before
                (add_header "Warning" deprecation ∷ [])
                (json_handler 200 (with_key "old") (header_add "Warning" deprecation []) tt)))
unfolding candidate
lets_through_example =
    lets_through ascii keys (pos 99) (json_handler 200) (with_key "old") [] tt refl (record {
      presented = ground (arith, eq_iff "old" "");
      configured = inr (inl refl);
      unexpired = λ ts e. let same : pos 100 ≡ ts = cc in rw (← same) refl;
    })

abbrev from_origin : String → Request
from_origin o = request (("Origin", o ∷ []) ∷ [])

cors-refused_example :
    cors ("https://a.org" ∷ []) (json_handler 200) (from_origin "https://b.org") [] tt
    ≡ json_handler 200 (from_origin "https://b.org") [] tt
unfolding trim_space
cors-refused_example =
    cors-refused ("https://a.org" ∷ []) (json_handler 200) (from_origin "https://b.org") [] tt (λ g.
      elim g.1 [
        | inl e ↦ cc
        | inr has ↦ elim has [
          | inl e ↦ ground (arith, eq_iff "https://a.org" "https://b.org")
          | inr never ↦ never
        ]
      ])

cors-Granted_example :
    ((from_origin "https://a.org").method ≡ "OPTIONS"
      → (sent : Header) × ((serve
            (cors
              (" https://a.org" ∷ [])
              (json_handler 200)
              (from_origin "https://a.org")
              []
              tt).commands
            []).sent
          ≡ some (204, sent))
        × IsCors "https://a.org" sent)
    × ((from_origin "https://a.org").method ≢ "OPTIONS"
        → (cs : List Command) × (cors
              (" https://a.org" ∷ [])
              (json_handler 200)
              (from_origin "https://a.org")
              []
              tt
            ≡ before cs (json_handler 200 (from_origin "https://a.org") (header_after cs []) tt))
          × IsCors "https://a.org" (header_after cs []))
unfolding trim_space
cors-Granted_example =
    cors-Granted (" https://a.org" ∷ []) (json_handler 200) (from_origin "https://a.org") [] tt
      (ground (arith, eq_iff "https://a.org" ""), inr (inl refl))

recovery-500_example :
    ((recovery panicking (request []) [] tt).panicked ≡ false)
    × ((x : Header) × ((serve (recovery panicking (request []) [] tt).commands []).sent
          ≡ some (500, x)))
recovery-500_example = recovery-500 panicking (request []) [] tt refl refl

-- A compressor that copies what it is given and ends with a footer.
abbrev pub copier : Gzipper
copier = record {
  Stream = Unit {0};
  open_stream = λ level. tt;
  push = λ b st. (b, tt);
  close = λ st. "footer";
}

abbrev accepts_gzip : Request
accepts_gzip = request (("Accept-Encoding", "gzip, br" ∷ []) ∷ [])

gzip-hides_panic_example :
    (x : Header) × ((serve
        (recovery (gzip copier (negsuc 0) panicking) accepts_gzip [] tt).commands
        []).sent
      ≡ some (200, x))
gzip-hides_panic_example =
    gzip-hides_panic copier (negsuc 0) panicking accepts_gzip [] tt refl refl refl refl
