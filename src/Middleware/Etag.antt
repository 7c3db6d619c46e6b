-- ===== src/Middleware/Etag.antt =====
-- internal/middleware/etag.go.
pub mod Bodies
use maxwell_go_spine.Prelude.{
  ℕ, String, Bool, true, false, not, ◌&&◌, ◌||◌, List, [], ◌∷◌, ◌++◌, ◌==◌, nat_eq, if◌then◌else◌,
}
use maxwell_go_spine.Http.{
  Header, header_get, Request, Command, set_header, add_header, write_header, write, Outcome,
  Handler, header_after, status_after, written, calls_write_header,
}
use Prim.Native.String

-- `respRecorder` passes header writes and `WriteHeader` on at once and keeps the body back.
unfoldable pub recorded : List Command → List Command
recorded [] = []
recorded (write b ∷ cs) = recorded cs
recorded (set_header k v ∷ cs) = set_header k v ∷ recorded cs
recorded (add_header k v ∷ cs) = add_header k v ∷ recorded cs
recorded (write_header n ∷ cs) = write_header n ∷ recorded cs

unfoldable pub hdr_content_type_json : Header → Bool
hdr_content_type_json h =
    let ct = header_get "Content-Type" h in
    ct == "application/json" || ct == "application/json; charset=utf-8"

-- `sha_hex` is the hexadecimal text of the first eight bytes of `sha256.Sum256`.
module _ (sha_hex : String → String) where
  unfoldable pub etag_of : String → String
  etag_of body = String.◌++◌ "\"" (String.◌++◌ (sha_hex body) "\"")

  -- What follows `next.ServeHTTP(rr, r)`, from the recorder's status, header map and body.
  unfoldable pub conclude : Request → Header → List Command → List Command
  unfolding hdr_content_type_json etag_of
  conclude req h cs =
      let body = written cs in
      let etag = etag_of body in
      let inm = header_get "If-None-Match" req.header in
      if nat_eq (status_after cs 200) 200
        && hdr_content_type_json (header_after cs h)
        && not (body == "")
      then (if not (inm == "") && inm == etag
          then set_header "ETag" etag ∷ write_header 304 ∷ []
          else set_header "ETag" etag
            ∷ ((if calls_write_header cs then [] else write_header (status_after cs 200) ∷ [])
                ++ write body ∷ []))
      else []

  -- A panic in `next` skips all that follows it.
  unfoldable pub etag : {S : Type 0} → Handler S → Handler S
  unfolding recorded conclude
  etag next req h s =
      let o = next req h s in
      record o {
        commands = recorded o.commands ++ (if o.panicked then [] else conclude req h o.commands);
      }
