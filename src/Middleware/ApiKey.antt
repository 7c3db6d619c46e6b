-- ===== src/Middleware/ApiKey.antt =====
-- internal/middleware/apikey.go.
pub mod Access
use Prim.Native.String.{len, slice}
use maxwell_go_spine.Prelude.{
  Char, String, Bool, true, false, ◌&&◌, Option, none, some, List, [], ◌∷◌, ◌==◌, if◌then◌else◌,
}
use maxwell_go_spine.Prelude.Maps.Str.{lookup, insert, contains}
use maxwell_go_spine.Go.Int.{ℤ, leb_ℤ}
use maxwell_go_spine.Go.Text.Trim.{trim_space}
use maxwell_go_spine.Go.Text.Split.{to_lower, has_prefix}
use maxwell_go_spine.Middleware.KeySet.{add_keys}
use maxwell_go_spine.Http.{
  Header, header_get, header_add, Request, Command, set_header, add_header, write_header, write,
  Outcome, Handler, before, respond, http_error,
}

pub record ApiKeyOptions : Type 0 where
  pub current : List String
  pub old : List String
  pub expiries : List (String × ℤ)

abbrev expired_at : Option ℤ → ℤ → Bool
expired_at none now = false
expired_at (some ts) now = leb_ℤ ts now

-- `now` is `time.Now().UTC().Unix()`.
unfoldable pub is_expired : String → List (String × ℤ) → ℤ → Bool
is_expired key [] now = false
is_expired key (e ∷ es) now = expired_at (lookup key (e ∷ es)) now

abbrev pub unauthorized : List Command
unauthorized = set_header "WWW-Authenticate" "ApiKey realm=api" ∷ http_error "Unauthorized" 401

abbrev pub deprecation : String
deprecation = "299 - \"Deprecated API key in use; rotate to a current key\""

abbrev pub has_none : List String → Bool
has_none [] = true
has_none (k ∷ ks) = false

module _ {S : Type 0} where
  unfoldable pub check_key : ApiKeyOptions → ℤ → String → Handler S → Handler S
  unfolding is_expired
  check_key opts now key next req h s =
      if key == ""
      then respond unauthorized s
      else if contains key (add_keys opts.current [])
      then (if is_expired key opts.expiries now then respond unauthorized s else next req h s)
      else if contains key (add_keys opts.old [])
      then (if is_expired key opts.expiries now
          then respond unauthorized s
          else before (add_header "Warning" deprecation ∷ [])
              (next req (header_add "Warning" deprecation h) s))
      else respond unauthorized s

module _ (unicode_lower : Char → Char) where
  -- The key that a request presents; empty for none. `auth[7:]` counts bytes and this counts
  -- characters, which differ only if a letter beyond ASCII lowers to one of "apikey".
  unfoldable pub candidate : Header → String
  candidate h =
      let v = header_get "X-API-Key" h in
      if v == ""
      then (let auth = header_get "Authorization" h in
          if has_prefix (to_lower unicode_lower auth) "apikey "
          then trim_space (slice auth 7 (len auth))
          else "")
      else v

  module _ {S : Type 0} where
    unfoldable pub api_key_auth_with_opts : ApiKeyOptions → ℤ → Handler S → Handler S
    api_key_auth_with_opts opts now next req h s =
        if has_none opts.current && has_none opts.old
        then next req h s
        else check_key opts now (candidate req.header) next req h s

    unfoldable pub api_key_auth : List String → ℤ → Handler S → Handler S
    unfolding api_key_auth_with_opts
    api_key_auth keys = api_key_auth_with_opts (record { current = keys; old = []; expiries = [] })
