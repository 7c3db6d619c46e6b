-- ===== src/Middleware/Wrappers.antt =====
-- internal/middleware: requestid.go, recover.go, logging.go, metrics.go, timeout.go, compress.go.
pub mod Panics
pub mod Statuses
use Prim.Native.Nat.{min}
use maxwell_go_spine.Prelude.{
  ℕ, ◌+◌, String, Bool, true, false, not, ◌||◌, Option, none, some, List, [], ◌∷◌, ◌++◌, ◌==◌,
  if◌then◌else◌,
}
use maxwell_go_spine.Go.Int.{ℤ, pos, negsuc, ltb_ℤ}
use maxwell_go_spine.Go.Text.Split.{contains_text}
use maxwell_go_spine.Http.{
  Header, header_get, header_set, Request, Command, set_header, add_header, write_header, write,
  Event, logged, counted, observed, panic_logged, Outcome, Handler, before, after, http_error,
  status_after,
}

abbrev pub request_id_header : String
request_id_header = "X-Request-ID"

-- `new_id` is `uuid.New().String()`.
unfoldable pub request_id : {S : Type 0} → String → Handler S → Handler S
request_id new_id next req h s =
    let given = header_get request_id_header req.header in
    let id = if given == "" then new_id else given in
    before (set_header request_id_header id ∷ [])
      (next (record req { request_id = some id }) (header_set request_id_header id h) s)

unfoldable pub get_request_id : Request → String
get_request_id req = elim req.request_id [ none ↦ "" | some id ↦ id ]

unfoldable pub recovery : {S : Type 0} → Handler S → Handler S
recovery next req h s =
    let o = next req h s in
    if o.panicked
    then record o {
      commands = o.commands ++ http_error "Internal Server Error" 500;
      events = o.events ++ panic_logged ∷ [];
      panicked = false;
    }
    else o

-- `has_metrics` is `m != nil`. A panic in `next` skips what follows it.
unfoldable pub logging : {S : Type 0} → Bool → Handler S → Handler S
unfolding get_request_id
logging has_metrics next req h s =
    let o = next req h s in
    let status = status_after o.commands 200 in
    if o.panicked then o else record o {
      events =
          o.events
          ++ (if has_metrics
              then counted req.method req.path status ∷ observed req.method req.path ∷ []
              else [])
          ++ logged (get_request_id req) req.method req.path status ∷ [];
    }

unfoldable pub metrics : {S : Type 0} → Bool → Handler S → Handler S
metrics has_metrics next req h s =
    let o = next req h s in
    if has_metrics
    then (if o.panicked
        then o
        else record o { events = o.events ++ observed req.method req.path ∷ [] })
    else o

abbrev earlier : Option ℕ → ℕ → ℕ
earlier none t = t
earlier (some u) t = min u t

-- context.WithTimeout: the earlier of the context's own deadline and `d` from now.
unfoldable pub timeout : {S : Type 0} → ℕ → ℕ → Handler S → Handler S
timeout d now next req h s =
    next (record req { deadline = some (earlier req.deadline (now + d)) }) h s

-- compress/gzip: what each write and the final `Close` pass on to the underlying writer.
pub record Gzipper : Type 1 where
  pub Stream : Type 0
  pub open_stream : ℤ → Stream
  pub push : String → Stream → String × Stream
  pub close : Stream → String

module _ (gz : Gzipper) where
  open gz use {Stream, open_stream, push, close}

  -- The commands of a handler that writes through `gzipResponseWriter`, and the stream after them.
  unfoldable pub zipped : List Command → Stream → List Command × Stream
  zipped [] st = ([], st)
  zipped (write b ∷ cs) st =
      let (out, st') = push b st in let (rest, st'') = zipped cs st' in (write out ∷ rest, st'')
  zipped (set_header k v ∷ cs) st = let (rest, st') = zipped cs st in (set_header k v ∷ rest, st')
  zipped (add_header k v ∷ cs) st = let (rest, st') = zipped cs st in (add_header k v ∷ rest, st')
  zipped (write_header n ∷ cs) st = let (rest, st') = zipped cs st in (write_header n ∷ rest, st')

  abbrev pub effective_level : ℤ → ℤ
  effective_level level = if ltb_ℤ level (negsuc 1) then pos 1 else level

  -- `gzip.NewWriterLevel` refuses a level outside -2 to 9.
  abbrev pub is_bad_level : ℤ → Bool
  is_bad_level level = ltb_ℤ level (negsuc 1) || ltb_ℤ (pos 9) level

  -- The deferred `Close` writes also when `next` panics.
  unfoldable pub gzip : {S : Type 0} → ℤ → Handler S → Handler S
  unfolding zipped
  gzip level next req h s =
      if not (contains_text (header_get "Accept-Encoding" req.header) "gzip")
      then next req h s
      else if is_bad_level (effective_level level)
      then next req h s
      else (let o = next req (header_set "Content-Encoding" "gzip" h) s in
          let (cs, st) = zipped o.commands (open_stream (effective_level level)) in
          record o {
            commands = set_header "Content-Encoding" "gzip" ∷ cs ++ write (close st) ∷ [];
          })
