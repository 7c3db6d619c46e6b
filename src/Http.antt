-- ===== src/Http.antt =====
-- net/http as the program meets it. A handler is what it asks of its `http.ResponseWriter`, in
-- order, with the state that it leaves; a middleware that wraps the writer rewrites these commands.
pub mod Response
use Prim.Native.String
use maxwell_go_spine.Prelude.{
  ℕ, String, Bool, true, false, ◌||◌, Option, none, some, List, [], ◌∷◌, ◌++◌, nat_eq,
  if◌then◌else◌,
}
use maxwell_go_spine.Prelude.Maps.Str.{lookup, insert}

-- `http.Header`: every name has a list of values.
abbrev pub Header : Type 0
Header = List (String × List String)

abbrev first : Option (List String) → String
first none = ""
first (some []) = ""
first (some (v ∷ vs)) = v

-- h.Get(name)
abbrev pub header_get : String → Header → String
header_get name h = first (lookup name h)

-- h.Set(name, value)
abbrev pub header_set : String → String → Header → Header
header_set name value h = insert name (value ∷ []) h

abbrev values : Option (List String) → List String
values none = []
values (some vs) = vs

-- h.Add(name, value)
abbrev pub header_add : String → String → Header → Header
header_add name value h = insert name (values (lookup name h) ++ value ∷ []) h

-- The parts of a request that the program reads; header names are in canonical form.
pub record Request : Type 0 where
  pub method : String
  pub path : String
  pub query : List (String × String)
  pub url_params : List (String × String)
  pub header : Header
  pub body : String
  pub request_id : Option String
  pub deadline : Option ℕ
  pub remote_addr : String

pub data Command : Type 0 where
  set_header add_header : String → String → Command
  write_header : ℕ → Command
  write : String → Command

-- What a middleware records beside the response.
pub data Event : Type 0 where
  logged : String → String → String → ℕ → Event
  counted : String → String → ℕ → Event
  observed : String → String → Event
  panic_logged : Event

pub record Outcome (S : Type 0) : Type 0 where
  pub commands : List Command
  pub events : List Event
  pub panicked : Bool
  pub state : S

-- `Header` is what `w.Header()` holds when the handler starts.
abbrev pub Handler : Type 0 → Type 0
Handler S = Request → Header → S → Outcome S

-- What a wrapper sends before and after the commands of the handler that it calls.
abbrev pub before : {S : Type 0} → List Command → Outcome S → Outcome S
before cs o = record o { commands = cs ++ o.commands }

abbrev pub after : {S : Type 0} → List Command → Outcome S → Outcome S
after cs o = record o { commands = o.commands ++ cs }

-- A handler that only writes.
abbrev pub respond : {S : Type 0} → List Command → S → Outcome S
respond cs s = record { commands = cs; events = []; panicked = false; state = s }

-- http.Error(w, text, code)
abbrev pub http_error : String → ℕ → List Command
http_error text code =
    set_header "Content-Type" "text/plain; charset=utf-8"
    ∷ set_header "X-Content-Type-Options" "nosniff"
    ∷ write_header code
    ∷ write (String.◌++◌ text "\n")
    ∷ []

-- The header map after some commands.
unfoldable pub header_after : List Command → Header → Header
header_after [] h = h
header_after (set_header k v ∷ cs) h = header_after cs (header_set k v h)
header_after (add_header k v ∷ cs) h = header_after cs (header_add k v h)
header_after (write_header n ∷ cs) h = header_after cs h
header_after (write b ∷ cs) h = header_after cs h

-- A `status` field that every `WriteHeader` overwrites.
unfoldable pub status_after : List Command → ℕ → ℕ
status_after [] n = n
status_after (write_header m ∷ cs) n = status_after cs m
status_after (set_header k v ∷ cs) n = status_after cs n
status_after (add_header k v ∷ cs) n = status_after cs n
status_after (write b ∷ cs) n = status_after cs n

-- The texts of the writes, joined.
unfoldable pub written : List Command → String
written [] = ""
written (write b ∷ cs) = String.◌++◌ b (written cs)
written (set_header k v ∷ cs) = written cs
written (add_header k v ∷ cs) = written cs
written (write_header n ∷ cs) = written cs

-- Whether `WriteHeader` was called.
unfoldable pub calls_write_header : List Command → Bool
calls_write_header [] = false
calls_write_header (write_header n ∷ cs) = true
calls_write_header (write b ∷ cs) = calls_write_header cs
calls_write_header (set_header k v ∷ cs) = calls_write_header cs
calls_write_header (add_header k v ∷ cs) = calls_write_header cs
