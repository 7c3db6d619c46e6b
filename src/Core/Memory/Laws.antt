-- ===== src/Core/Memory/Laws.antt =====
-- The in-memory repository against its abstract view: which identifiers were ever created, and
-- which user is live under each.
use maxwell_go_spine.Prelude.{
  ◌≡◌, refl, sym, ◌∙◌, Bool, false, ◌||◌, Option, none, some, List, [], ◌∷◌, nat_eq, if◌then◌else◌,
  arith, Bool-cases, Option-cases, inl, inr,
}
use maxwell_go_spine.Prelude.Maps.Nat.{insert, contains, lookup-insert}
use maxwell_go_spine.Go.Error.{not_found, plain, Result, ok, err}
use maxwell_go_spine.Core.User.{Uuid, User, Env}
use maxwell_go_spine.Core.Memory.{
  InMemoryUserRepo, new_in_memory, is_deleted, create, find_live, get, update, delete,
}

-- The abstract view.
pub record Directory : Type 0 where
  pub used : Uuid → Bool
  pub live : Uuid → Option User

abbrev live_user : User → Option User
live_user u = if is_deleted u then none else some u

-- The view with a user written under its identifier.
abbrev write : Uuid → User → Directory → Directory
write id u d = record {
  used = λ j. nat_eq id j || d.used j;
  live = λ j. if nat_eq id j then live_user u else d.live j;
}

pub data Call : Type 0 where
  create_call update_call : User → Call
  get_call : Uuid → Call
  delete_call : Env → Uuid → Call

-- `done` for a call that returns no user.
pub data Reply : Type 0 where
  done : Result (Unit {0}) → Reply
  found : Result User → Reply

-- What each call promises, in terms of the view alone.
unfoldable pub promise : Call → Directory → Reply × Directory
promise (create_call u) d =
    if d.used u.id then (done (err (plain "duplicate id")), d) else (done (ok tt), write u.id u d)
promise (update_call u) d = elim (d.live u.id) [
  | none ↦ (done (err not_found), d)
  | some old ↦ (done (ok tt), write u.id u d)
]
promise (get_call id) d = elim (d.live id) [
  | none ↦ (found (err not_found), d)
  | some u ↦ (found (ok u), d)
]
promise (delete_call env id) d = elim (d.live id) [
  | none ↦ (done (err not_found), d)
  | some u ↦ (done (ok tt), write id (record u { deleted_at = some env.now }) d)
]

unfoldable pub perform : Call → InMemoryUserRepo → Reply × InMemoryUserRepo
perform (create_call u) r = let (x, r') = create u r in (done x, r')
perform (update_call u) r = let (x, r') = update u r in (done x, r')
perform (get_call id) r = let (x, r') = get id r in (found x, r')
perform (delete_call env id) r = let (x, r') = delete env id r in (done x, r')

-- The repository shows the view.
pub record Shows (r : InMemoryUserRepo) (d : Directory) : Type 0 where
  pub same_used : (j : Uuid) → contains j r.users ≡ d.used j
  pub same_live : (j : Uuid) → find_live j r.users ≡ d.live j

write-Shows :
    (id : Uuid) (u : User) (r : InMemoryUserRepo) (d : Directory)
    → Shows r d
    → Shows (record r { users = insert id u r.users }) (write id u d)
unfolding find_live
write-Shows id u r d s = record {
  same_used = λ j. ground (arith, lookup-insert id j u r.users, s.same_used j);
  same_live = λ j. ground (arith, lookup-insert id j u r.users, s.same_live j);
}

-- One call.
pub perform-promise :
    (c : Call) (r : InMemoryUserRepo) (d : Directory)
    → Shows r d
    → ((perform c r).0 ≡ (promise c d).0) × Shows (perform c r).1 (promise c d).1
unfolding perform promise create update get delete
perform-promise (create_call u) r d s = elim (Bool-cases (contains u.id r.users)) [
  | inl e ↦ rw (e, sym (s.same_used u.id), e) (refl, s)
  | inr e ↦ rw (e, sym (s.same_used u.id), e) (refl, write-Shows u.id u r d s)
]
perform-promise (update_call u) r d s = elim (Option-cases (d.live u.id)) [
  | inl e ↦ rw (s.same_live u.id ∙ e, perform, update, e, promise) (refl, s)
  | inr (old, e) ↦
      rw (s.same_live u.id ∙ e, perform, update, e, promise) (refl, write-Shows u.id u r d s)
]
perform-promise (get_call id) r d s = elim (Option-cases (d.live id)) [
  | inl e ↦ rw (s.same_live id ∙ e, perform, get, e, promise) (refl, s)
  | inr (u, e) ↦ rw (s.same_live id ∙ e, perform, get, e, promise) (refl, s)
]
perform-promise (delete_call env id) r d s = elim (Option-cases (d.live id)) [
  | inl e ↦ rw (s.same_live id ∙ e, perform, delete, e, promise) (refl, s)
  | inr (u, e) ↦ rw (s.same_live id ∙ e, perform, delete, e, promise) (refl, write-Shows id _ r d s)
]

-- The replies of calls made one after the other, and the last state.
unfoldable pub run : List Call → InMemoryUserRepo → List Reply × InMemoryUserRepo
unfolding perform
run [] r = ([], r)
run (c ∷ cs) r = let (x, r') = perform c r in let (xs, r'') = run cs r' in (x ∷ xs, r'')

unfoldable pub promise_all : List Call → Directory → List Reply × Directory
unfolding promise
promise_all [] d = ([], d)
promise_all (c ∷ cs) d =
    let (x, d') = promise c d in let (xs, d'') = promise_all cs d' in (x ∷ xs, d'')

pub run-Shows :
    (cs : List Call) (r : InMemoryUserRepo) (d : Directory)
    → Shows r d
    → ((run cs r).0 ≡ (promise_all cs d).0) × Shows (run cs r).1 (promise_all cs d).1
unfolding run promise_all
run-Shows [] r d s = (refl, s)
run-Shows (c ∷ cs) r d s =
    let (same, s') = perform-promise c r d s in
    let (rest, s'') = run-Shows cs (perform c r).1 (promise c d).1 s' in (cc (same, rest), s'')

abbrev pub empty_directory : Directory
empty_directory = record { used = λ j. false; live = λ j. none }

-- From the new repository every sequence of `Create`, `Get`, `Update` and `Delete` gets the replies
-- that the abstract view promises, and the repository goes on to show that view: an identifier
-- is created at most once, and a deleted user is gone for `Get`, `Update` and `Delete`.
pub run-promise_all :
    (cs : List Call)
    → ((run cs new_in_memory).0 ≡ (promise_all cs empty_directory).0)
      × Shows (run cs new_in_memory).1 (promise_all cs empty_directory).1
unfolding new_in_memory
run-promise_all cs =
    run-Shows cs new_in_memory empty_directory
      (unfold find_live in record { same_used = λ j. refl; same_live = λ j. refl })
