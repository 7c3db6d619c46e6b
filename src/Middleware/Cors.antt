-- ===== src/Middleware/Cors.antt =====
-- internal/middleware/cors.go.
pub mod Origins
use maxwell_go_spine.Prelude.{
  String, Bool, true, false, not, ◌&&◌, ◌||◌, List, [], ◌∷◌, ◌++◌, map, ◌==◌, if◌then◌else◌,
}
use maxwell_go_spine.Prelude.Maps.Str.{contains}
use maxwell_go_spine.Go.Text.Trim.{trim_space}
use maxwell_go_spine.Middleware.KeySet.{add_keys}
use maxwell_go_spine.Http.{
  Header, header_get, header_set, Request, Command, set_header, write_header, Outcome, Handler,
  before, respond, header_after,
}

abbrev pub is_empty : List String → Bool
is_empty [] = true
is_empty (o ∷ os) = false

-- `allowedSet[strings.TrimSpace(o)] = struct{}{}` for each origin.
unfoldable pub origin_allowed : List String → String → Bool
origin_allowed allowed origin =
    not (origin == "")
    && (is_empty allowed || contains origin (add_keys (map trim_space allowed) []))

abbrev pub grant : String → List Command
grant origin =
    set_header "Access-Control-Allow-Origin" origin
    ∷ set_header "Vary" "Origin"
    ∷ set_header "Access-Control-Allow-Headers" "Content-Type,Authorization,X-Request-ID,X-API-Key"
    ∷ set_header "Access-Control-Allow-Methods" "GET,POST,PATCH,DELETE,OPTIONS"
    ∷ set_header "Access-Control-Allow-Credentials" "true"
    ∷ set_header "Access-Control-Expose-Headers" "ETag,Warning"
    ∷ []

unfoldable pub cors : {S : Type 0} → List String → Handler S → Handler S
cors allowed next req h s =
    let origin = header_get "Origin" req.header in
    let headers = if origin_allowed allowed origin then grant origin else [] in
    before headers (
      if req.method == "OPTIONS"
      then respond (write_header 204 ∷ []) s
      else next req (header_after headers h) s)
