-- ===== src/Cmd/Life.antt =====
-- The life of the two servers behind their start: the main goroutine of cmd/server/main.go and of
-- cmd/api/main.go, and the goroutine that listens, as steps that may interleave.
pub mod Ends
use maxwell_go_spine.Prelude.{ℕ, ◌≡◌, Bool, true, false, Option, none, some}

-- Where `main` stands: at `<-stop`, in `srv.Shutdown`, at `srv.Close`, in the deferred `db.Close`,
-- or at its end.
pub data Main : Type 0 where
  waiting stopping closing releasing returned : Main

-- `busy` counts the connections with a request in flight, `queries` the queries that the database
-- still runs, and `expired` says whether the deadline of the context of `Shutdown` has passed.
pub record Proc : Type 0 where
  pub main : Main
  pub serving : Bool
  pub signalled : Bool
  pub busy : ℕ
  pub queries : ℕ
  pub expired : Bool
  pub exit : Option ℕ

abbrev pub begun : Proc
begun = record {
  main = waiting;
  serving = true;
  signalled = false;
  busy = 0;
  queries = 0;
  expired = false;
  exit = none;
}

-- A step of the program itself. `after_failure` is where `main` goes if `Shutdown` fails, which it
-- does when its context expires; without that it returns once no request is in flight. `db.Close`
-- returns once no query runs. A listener that ends by `http.ErrServerClosed` ends quietly, and by
-- another error it ends the program.
pub data Own (after_failure : Main) : Proc → Proc → Type 0 where
  receive :
      (p : Proc)
      → p.exit ≡ none
      → p.main ≡ waiting
      → p.signalled ≡ true
      → Own after_failure p (record p { main = stopping })
  shut_down :
      (p : Proc)
      → p.exit ≡ none
      → p.main ≡ stopping
      → p.busy ≡ 0
      → Own after_failure p (record p { main = releasing; serving = false })
  shut_down_failed :
      (p : Proc)
      → p.exit ≡ none
      → p.main ≡ stopping
      → p.expired ≡ true
      → Own after_failure p (record p { main = after_failure; serving = false })
  close :
      (p : Proc)
      → p.exit ≡ none
      → p.main ≡ closing
      → Own after_failure p (record p { main = releasing })
  release :
      (p : Proc)
      → p.exit ≡ none
      → p.main ≡ releasing
      → p.queries ≡ 0
      → Own after_failure p (record p { main = returned })
  finish :
      (p : Proc)
      → p.exit ≡ none
      → p.main ≡ returned
      → Own after_failure p (record p { exit = some 0 })
  listen_failed :
      (p : Proc)
      → p.exit ≡ none
      → p.serving ≡ true
      → Own after_failure p (record p { serving = false; exit = some 1 })

-- cmd/server: a failed `Shutdown` is followed by `srv.Close`.
abbrev pub ServerStep : Proc → Proc → Type 0
ServerStep = Own closing

-- cmd/api: the error of `Shutdown` is dropped. It has no database, and no query holds its end up.
abbrev pub ApiStep : Proc → Proc → Type 0
ApiStep = Own releasing

-- SIGINT or SIGTERM, a request, its end, a query, its end and the deadline may come at any time.
pub data Step (after_failure : Main) : Proc → Proc → Type 0 where
  own : {p q : Proc} → Own after_failure p q → Step after_failure p q
  signal : (p : Proc) → p.exit ≡ none → Step after_failure p (record p { signalled = true })
  requests : (p : Proc) (n : ℕ) → p.exit ≡ none → Step after_failure p (record p { busy = n })
  database : (p : Proc) (n : ℕ) → p.exit ≡ none → Step after_failure p (record p { queries = n })
  expire :
      (p : Proc)
      → p.exit ≡ none
      → p.main ≡ stopping
      → Step after_failure p (record p { expired = true })

pub data Reach (after_failure : Main) (p : Proc) : Proc → Type 0 where
  here : Reach after_failure p p
  next : {q r : Proc} → Reach after_failure p q → Step after_failure q r → Reach after_failure p r

-- On every way on, the program exits, and it is never stuck before.
pub data Exits (after_failure : Main) : Proc → Type 0 where
  exited : {p : Proc} (code : ℕ) → p.exit ≡ some code → Exits after_failure p
  goes_on :
      {p : Proc} (q : Proc)
      → Own after_failure p q
      → ((r : Proc) → Own after_failure p r → Exits after_failure r)
      → Exits after_failure p
