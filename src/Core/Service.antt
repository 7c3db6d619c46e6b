-- ===== src/Core/Service.antt =====
-- internal/core/usersvc.go: `userService`.
pub mod Validation
pub mod Stored
pub mod Transactions
use maxwell_go_spine.Prelude.{
  Char, String, Bool, true, false, Option, none, some, List, ◌==◌, if◌then◌else◌,
}
use maxwell_go_spine.Go.Int.{ℤ}
use maxwell_go_spine.Go.Error.{
  Err, validation, plain, wrapped, Result, ok, err, panic, M, and_then, returning,
}
use maxwell_go_spine.Go.Text.Trim.{trim_space}
use maxwell_go_spine.Go.Text.Split.{to_lower}
use maxwell_go_spine.Core.User.{Uuid, User, Env, UserRepository, UnitOfWork, TxStarter, UserService}

-- The table behind `unicode.ToLower` and the verdict of `mail.ParseAddress`.
pub record Mail : Type 0 where
  pub unicode_lower : Char → Char
  pub parse_address : String → Bool

-- The name check that `Create` and `Update` share.
unfoldable pub checked_name : String → Result String
checked_name name =
    if trim_space name == "" then err (wrapped "name empty" validation) else ok (trim_space name)

-- `if name != nil { … u.Name = … }`
unfoldable pub set_name : Option String → User → Result User
unfolding checked_name
set_name none u = ok u
set_name (some name) u =
    if trim_space name == ""
    then err (wrapped "name empty" validation)
    else ok (record u { name = trim_space name })

module _ (mail : Mail) where
  open mail use {unicode_lower, parse_address}

  unfoldable pub normalize_email : String → Result String
  normalize_email e =
      let e' = trim_space (to_lower unicode_lower e) in
      if e' == ""
      then err (wrapped "email empty" validation)
      else if parse_address e'
      then ok e'
      else err (wrapped "invalid email" validation)

  unfoldable pub set_email : Option String → User → Result User
  unfolding normalize_email
  set_email none u = ok u
  set_email (some email) u = elim (normalize_email email) [
    | ok ne ↦ ok (record u { email = ne })
    | err e ↦ err e
    | panic ↦ panic
  ]

  -- `Create` up to the repository's call.
  unfoldable pub build_user : Env → String → String → Result User
  unfolding checked_name normalize_email
  build_user env name email = and_then (checked_name name) λ n.
      and_then (normalize_email email) λ ne. ok (record {
        id = env.new_id;
        name = n;
        email = ne;
        created_at = env.now;
        updated_at = env.now;
        deleted_at = none;
      })

  -- `Update` between the repository's two calls.
  unfoldable pub change_user : Env → Option String → Option String → User → Result User
  unfolding set_name set_email
  change_user env name email u = and_then (set_name name u) λ named.
      and_then (set_email email named) λ mailed. ok (record mailed { updated_at = env.now })

  module _ {S : Type 0} (repo : UserRepository S) where
    unfoldable pub store_new : Result User → M S User
    store_new (ok u) s = returning u (repo.create u s)
    store_new (err e) s = (err e, s)
    store_new panic s = (panic, s)

    unfoldable pub create : Env → String → String → M S User
    unfolding build_user store_new
    create env name email = store_new (build_user env name email)

    unfoldable pub get : Env → Uuid → M S User
    get env id = repo.get id

    unfoldable pub store_changed : Result User → M S User
    store_changed (ok u) s = returning u (repo.update u s)
    store_changed (err e) s = (err e, s)
    store_changed panic s = (panic, s)

    unfoldable pub update_found :
        Env → Option String → Option String → Result User × S → Result User × S
    unfolding change_user store_changed
    update_found env name email (ok u, s) = store_changed (change_user env name email u) s
    update_found env name email (err e, s) = (err e, s)
    update_found env name email (panic, s) = (panic, s)

    unfoldable pub update : Env → Uuid → Option String → Option String → M S User
    unfolding update_found
    update env id name email s = update_found env name email (repo.get id s)

    unfoldable pub delete : Env → Uuid → M S (Unit {0})
    delete env id = repo.delete env id

    unfoldable pub list : Env → ℤ → ℤ → M S (List User × ℤ)
    list env page page_size = repo.list env page page_size

    unfoldable pub new_user_service : UserService S
    new_user_service = record {
      create = create;
      get = get;
      update = update;
      delete = delete;
      list = list;
    }

-- Behind `uow.Rollback()`: its error is dropped, and its panic takes the place of the result.
abbrev pub rolled : {T : Type 0} → Result (Unit {0}) → Result (Unit {0}) × T → Result (Unit {0}) × T
rolled result (ok u, t) = (result, t)
rolled result (err e, t) = (result, t)
rolled result (panic, t) = (panic, t)

-- The deferred rollback of `WithTx`: a panic in `fn` goes on.
unfoldable pub roll_back :
    {T : Type 0} → UnitOfWork T → Result (Unit {0}) → T → Result (Unit {0}) × T
roll_back uow result t = rolled result (uow.rollback t)

-- Behind `uow.Commit()`.
unfoldable pub after_commit :
    {T : Type 0} → UnitOfWork T → Result (Unit {0}) × T → Result (Unit {0}) × T
unfolding roll_back
after_commit uow (ok u, t) = (ok u, t)
after_commit uow (err e, t) = roll_back uow (err e) t
after_commit uow (panic, t) = roll_back uow panic t

-- Behind `fn(ctx, uow)`.
unfoldable pub after_fn :
    {T : Type 0} → UnitOfWork T → Result (Unit {0}) × T → Result (Unit {0}) × T
unfolding roll_back after_commit
after_fn uow (ok u, t) = after_commit uow (uow.commit t)
after_fn uow (err e, t) = roll_back uow (err e) t
after_fn uow (panic, t) = roll_back uow panic t

-- Behind `BeginTx`.
unfoldable pub after_begin :
    {S T : Type 0}
    → TxStarter S T
    → (UnitOfWork T → M T (Unit {0}))
    → Result T × S
    → Result (Unit {0}) × S
unfolding after_fn
after_begin starter fn (ok t, s) =
    let uow = starter.unit_of_work in
    let (done, t') = after_fn uow (fn uow t) in (done, starter.end_tx t')
after_begin starter fn (err e, s) = (err e, s)
after_begin starter fn (panic, s) = (panic, s)

-- A repository that is no `TxStarter` refuses.
unfoldable pub with_tx :
    {S T : Type 0} → Option (TxStarter S T) → (UnitOfWork T → M T (Unit {0})) → M S (Unit {0})
unfolding after_begin
with_tx none fn s = (err (plain "transactions not supported"), s)
with_tx (some starter) fn s = after_begin starter fn (starter.begin_tx s)
