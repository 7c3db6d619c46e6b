-- ===== src/Tests/Core.antt =====
-- The in-memory repository, the service and its transactions on small data.
use mathlib.Core.Logic.Or
use maxwell_go_spine.Prelude.{
  ℕ, ◌↔◌, ◌≡◌, refl, ap, sym, String, true, false, nat_eq, none, some, List, [], ◌∷◌, arith,
}
use maxwell_go_spine.Go.Int.{pos}
use maxwell_go_spine.Go.Error.{plain, Result, ok, err, panic, M}
use maxwell_go_spine.Core.User.{User, Env, UserRepository, UnitOfWork, TxStarter}
use maxwell_go_spine.Core.Memory
use maxwell_go_spine.Core.Memory.{
  InMemoryUserRepo, new_in_memory, in_memory_repository, page_of, list,
}
use maxwell_go_spine.Core.Memory.Laws.{
  Call, create_call, update_call, get_call, delete_call, run, promise_all, empty_directory, Shows,
  run-promise_all,
}
use maxwell_go_spine.Core.Memory.Paging.{page_of_overflow}
use maxwell_go_spine.Core.Memory.Sorting.{newest_first_order}
use maxwell_go_spine.Core.Service.{Mail, with_tx}
use maxwell_go_spine.Core.Service.Validation.{IsWellFormed}
use maxwell_go_spine.Core.Service.Stored
use maxwell_go_spine.Core.Service.Stored.{AllStored, serve_all, serve_all-AllStored}
use maxwell_go_spine.Core.Service.Transactions.{
  IsTransactional, Untouched, with_tx-Untouched, Committed, with_tx-Committed,
}

abbrev test_user : ℕ → String → User
test_user n name = record {
  id = n;
  name = name;
  email = "a@b.c";
  created_at = n;
  updated_at = n;
  deleted_at = none;
}

abbrev env : Env
env = record { now = 9; new_id = 7; range_order = 0 }

abbrev calls : List Call
calls =
    create_call (test_user 1 "ann")
    ∷ create_call (test_user 1 "bob")
    ∷ update_call (test_user 1 "eve")
    ∷ delete_call env 1
    ∷ get_call 1
    ∷ create_call (test_user 1 "ann")
    ∷ []

run-promise_all_example :
    ((run calls new_in_memory).0 ≡ (promise_all calls empty_directory).0)
    × Shows (run calls new_in_memory).1 (promise_all calls empty_directory).1
run-promise_all_example = run-promise_all calls

abbrev three : List User
three = test_user 3 "c" ∷ test_user 2 "b" ∷ test_user 1 "a" ∷ []

-- GET /v1/users?page=4611686018427387905&page_size=2
page_of_overflow_example : page_of three (pos 4611686018427387905) (pos 2) ≡ panic
page_of_overflow_example =
    page_of_overflow three 4611686018427387905 2 (omega arith) (omega arith) (omega arith)
      (omega arith) (omega arith)

abbrev stored : InMemoryUserRepo
stored = record {
  users = (1, test_user 1 "ann") ∷ (3, test_user 3 "cid") ∷ (2, test_user 2 "bob") ∷ [];
}

abbrev by_time : ℕ → User
by_time t = elim (nat_eq t 1) [
  | true ↦ test_user 1 "ann"
  | false ↦ elim (nat_eq t 3) [ true ↦ test_user 3 "cid" | false ↦ test_user 2 "bob" ]
]

-- Each call goes through the map in another order.
abbrev envs : ℕ → Env
envs k = record { now = 9; new_id = 7; range_order = k }

-- `ToLower` with no letter beyond ASCII, and a parser that takes every address.
abbrev mail : Mail
mail = record { unicode_lower = λ c. c; parse_address = λ e. true }

abbrev empty_repo : InMemoryUserRepo
empty_repo = record { users = [] }

abbrev service_calls : List Stored.ServiceCall
service_calls =
    Stored.create_call env " Ann " "ANN@X.ORG"
    ∷ Stored.create_call env "  " "b@x.org"
    ∷ Stored.update_call env 7 (some "Bob ") none
    ∷ Stored.list_call env (pos 1) (pos 20)
    ∷ Stored.delete_call env 7
    ∷ []

serve_all-AllStored_example :
    AllStored
      (IsWellFormed mail)
      (serve_all mail (λ n. newest_first_order) service_calls empty_repo)
serve_all-AllStored_example =
    serve_all-AllStored mail (λ n. newest_first_order) service_calls empty_repo (λ j u h. cc)

-- A database of one repository: a transaction holds the state at its beginning and its own.
abbrev Tx : Type 0
Tx = InMemoryUserRepo × InMemoryUserRepo

abbrev inside : {A : Type 0} → M InMemoryUserRepo A → M Tx A
inside m t = let (r, now) = m t.1 in (r, (t.0, now))

abbrev tx_repo : UserRepository Tx
tx_repo = record {
  create = λ u. inside (Memory.create u);
  get = λ id. inside (Memory.get id);
  update = λ u. inside (Memory.update u);
  delete = λ e id. inside (Memory.delete e id);
  list = λ e page size. inside (list (λ n. newest_first_order) e page size);
}

abbrev starter : TxStarter InMemoryUserRepo Tx
starter = record {
  begin_tx = λ s. (ok (s, s), s);
  unit_of_work = record {
    user_repo = tx_repo;
    commit = λ t. (ok tt, t);
    rollback = λ t. (ok tt, (t.0, t.0));
  };
  end_tx = λ t. t.1;
}

abbrev Open : InMemoryUserRepo → Tx → Type 0
Open s t = t.0 ≡ s

abbrev begun_on : InMemoryUserRepo → Result Tx → InMemoryUserRepo
begun_on s (ok t) = t.0
begun_on s (err e) = s
begun_on s panic = s

starter-IsTransactional : IsTransactional starter Open
starter-IsTransactional = record {
  begun = λ s s' t e. ap (λ (p : Result Tx × InMemoryUserRepo). begun_on s p.0) (sym e);
  refused = λ s s' x e. let clash : ok (s, s) ≡ err x = ap (λ p. p.0) e in absurd (cc);
  broken = λ s s' e. let clash : ok (s, s) ≡ panic = ap (λ p. p.0) e in absurd (cc);
  commit_failed = λ s t t' x o e. let clash : ok tt ≡ err x = ap (λ p. p.0) e in absurd (cc);
  commit_broken = λ s t t' o e. let clash : ok tt ≡ panic = ap (λ p. p.0) e in absurd (cc);
  rolled_back = λ s t o. o;
}

-- `fn` creates the same user twice and returns the error of the second call.
abbrev create_twice : UnitOfWork Tx → M Tx (Unit {0})
create_twice uow t =
    uow.user_repo.create (test_user 5 "eve") (uow.user_repo.create (test_user 5 "eve") t).1

with_tx-Untouched_example : Untouched stored (with_tx (some starter) create_twice stored)
with_tx-Untouched_example =
    with_tx-Untouched starter Open starter-IsTransactional create_twice (λ s t o. o) stored

create_twice_fails : (with_tx (some starter) create_twice stored).0 ≡ err (plain "duplicate id")
unfolding with_tx Memory.create
create_twice_fails = refl

abbrev create_once : UnitOfWork Tx → M Tx (Unit {0})
create_once uow t = uow.user_repo.create (test_user 5 "eve") t

abbrev with_eve : InMemoryUserRepo
with_eve = record {
  users =
      (1, test_user 1 "ann")
      ∷ (3, test_user 3 "cid")
      ∷ (2, test_user 2 "bob")
      ∷ (5, test_user 5 "eve")
      ∷ [];
}

with_tx-Committed_example :
    (with_tx (some starter) create_once stored ≡ (ok tt, with_eve))
    ↔ Committed starter create_once stored with_eve
with_tx-Committed_example = with_tx-Committed starter create_once stored with_eve

create_once_commits : Committed starter create_once stored with_eve
unfolding with_tx Memory.create
create_once_commits = (with_tx-Committed starter create_once stored with_eve).0 refl
