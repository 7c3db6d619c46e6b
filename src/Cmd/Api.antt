-- ===== src/Cmd/Api.antt =====
-- cmd/api/main.go, the placeholder server.
use maxwell_go_spine.Prelude.{String, List, [], ◌∷◌}
use maxwell_go_spine.Go.Int.{ℤ, pos}
use maxwell_go_spine.Http.{write, Handler, respond}

pub record ApiServer (S : Type 0) : Type 0 where
  pub addr : String
  pub handler : Handler S
  pub read_header_timeout : ℤ

unfoldable pub write_ok : {S : Type 0} → Handler S
write_ok req h s = respond (write "ok" ∷ []) s

-- `serve_mux` is an `http.ServeMux` with its patterns.
unfoldable pub api_server : {S : Type 0} → (List (String × Handler S) → Handler S) → ApiServer S
unfolding write_ok
api_server serve_mux = record {
  addr = ":8080";
  handler = serve_mux (("/healthz", write_ok) ∷ []);
  read_header_timeout = pos 5000000000;
}
