-- ===== src/Middleware/Cors/Origins.antt =====
-- Which origins are granted access, and what a preflight request gets.
use maxwell_go_spine.Prelude.{
  ◌≡◌, ◌≢◌, ◌↔◌, ◌⊎◌, inl, inr, refl, String, true, false, List, [], ◌∷◌, map, ◌==◌, eq_iff,
  if◌then◌else◌, arith, Bool-cases, some,
}
use maxwell_go_spine.Prelude.Maps.Str.{lookup-insert}
use maxwell_go_spine.Go.Text.Trim.{trim_space}
use maxwell_go_spine.Middleware.KeySet.{Has, contains-add_keys, Has-add_keys}
use maxwell_go_spine.Http.{
  Header, header_get, header_set, Request, Command, write_header, Handler, before, respond,
  header_after,
}
use maxwell_go_spine.Http.Response.{serve, apply_all, apply, send}
use maxwell_go_spine.Middleware.Cors.{origin_allowed, grant, cors}

-- The origin is not empty, and the list is empty or names it up to spaces around it.
abbrev pub Granted : List String → String → Type 0
Granted allowed origin = (origin ≢ "") × ((allowed ≡ []) ⊎ Has origin (map trim_space allowed))

origin_allowed_iff :
    (allowed : List String) (origin : String)
    → (origin_allowed allowed origin ≡ true) ↔ Granted allowed origin
unfolding origin_allowed
origin_allowed_iff [] origin = (
  λ h. (ground (arith, eq_iff origin ""), inl refl),
  λ g. let full : (origin == "") ≡ false = ground (arith, eq_iff origin "", g.0) in ground arith,
)
origin_allowed_iff (o ∷ os) origin = (
  λ h. (
    ground (arith, eq_iff origin ""),
    inr (Has-add_keys origin (map trim_space (o ∷ os)) (ground arith)),
  ),
  λ g. elim g.1 [
    | inl e ↦ cc
    | inr has ↦
        let listed = (contains-add_keys origin (map trim_space (o ∷ os)) []).1 (inl has) in
        let full : (origin == "") ≡ false = ground (arith, eq_iff origin "", g.0) in ground arith
  ],
)

not-Granted :
    (allowed : List String) (origin : String)
    → ¬ Granted allowed origin
    → origin_allowed allowed origin ≡ false
not-Granted allowed origin refused = elim (Bool-cases (origin_allowed allowed origin)) [
  | inl e ↦ absurd (refused ((origin_allowed_iff allowed origin).0 e))
  | inr e ↦ e
]

-- The six CORS headers for an origin.
pub record IsCors (origin : String) (h : Header) : Type 0 where
  pub allow_origin : header_get "Access-Control-Allow-Origin" h ≡ origin
  pub vary : header_get "Vary" h ≡ "Origin"
  pub allow_headers :
      header_get "Access-Control-Allow-Headers" h
      ≡ "Content-Type,Authorization,X-Request-ID,X-API-Key"
  pub allow_methods : header_get "Access-Control-Allow-Methods" h ≡ "GET,POST,PATCH,DELETE,OPTIONS"
  pub allow_credentials : header_get "Access-Control-Allow-Credentials" h ≡ "true"
  pub expose_headers : header_get "Access-Control-Expose-Headers" h ≡ "ETag,Warning"

header_get-set :
    (k j v : String) (h : Header)
    → header_get j (header_set k v h) ≡ (if k == j then v else header_get j h)
header_get-set k j v h = rw (lookup-insert k j (v ∷ []) h) (ground arith)

grant-IsCors : (origin : String) (h : Header) → IsCors origin (header_after (grant origin) h)
unfolding header_after
grant-IsCors origin h = record {
  allow_origin = simp (header_get-set);
  vary = simp (header_get-set);
  allow_headers = simp (header_get-set);
  allow_methods = simp (header_get-set);
  allow_credentials = simp (header_get-set);
  expose_headers = simp (header_get-set);
}

module _ {S : Type 0} (allowed : List String) (next : Handler S) (req : Request) (h : Header)
    (s : S) where
  abbrev origin : String
  origin = header_get "Origin" req.header

  -- Without a grant the middleware adds no header; it answers OPTIONS by 204 itself and leaves
  -- every other request to the next handler as it is.
  pub cors-refused :
      ¬ Granted allowed origin
      → cors allowed next req h s
        ≡ (if req.method == "OPTIONS" then respond (write_header 204 ∷ []) s else next req h s)
  unfolding cors header_after
  cors-refused refused = rw (not-Granted allowed origin refused)

  -- With a grant, an OPTIONS request is answered by 204 with the six CORS headers, of which the
  -- first is the request's origin, and any other request goes on to the next handler, which finds
  -- them in the header map and whose commands come behind those that set them.
  pub cors-Granted :
      Granted allowed origin
      → (req.method ≡ "OPTIONS"
          → (sent : Header) × ((serve (cors allowed next req h s).commands h).sent
              ≡ some (204, sent))
            × IsCors origin sent)
        × (req.method ≢ "OPTIONS"
            → (cs : List Command) × (cors allowed next req h s
                ≡ before cs (next req (header_after cs h) s))
              × IsCors origin (header_after cs h))
  unfolding cors serve apply_all apply send header_after
  cors-Granted g = (
    λ e.
        let asked : (req.method == "OPTIONS") ≡ true = (eq_iff req.method "OPTIONS").1 e in
        (
          header_after (grant origin) h,
          rw ((origin_allowed_iff allowed origin).1 g, asked) refl,
          grant-IsCors origin h,
        ),
    λ e.
        let other : (req.method == "OPTIONS") ≡ false =
          ground (arith, eq_iff req.method "OPTIONS") in
        (
          grant origin,
          rw ((origin_allowed_iff allowed origin).1 g, other) refl,
          grant-IsCors origin h,
        ),
  )
