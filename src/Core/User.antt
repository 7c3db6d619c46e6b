-- ===== src/Core/User.antt =====
-- internal/core/user.go and the interfaces of internal/core/usersvc.go.
use maxwell_go_spine.Prelude.{ℕ, String, Option, List}
use maxwell_go_spine.Go.Int.{ℤ}
use maxwell_go_spine.Go.Error.{M}

-- The sixteen bytes of an identifier, as one number.
abbrev pub Uuid : Type 0
Uuid = ℕ

-- A time in UTC, in nanoseconds from the start of year 1.
abbrev pub Time : Type 0
Time = ℕ

pub record User : Type 0 where
  pub id : Uuid
  pub name : String
  pub email : String
  pub created_at : Time
  pub updated_at : Time
  pub deleted_at : Option Time

-- What a call draws from outside: `time.Now().UTC()`, `uuid.New()`, and the order in which `range`
-- goes through a map, as a number.
pub record Env : Type 0 where
  pub now : Time
  pub new_id : Uuid
  pub range_order : ℕ

-- `UserRepository`, as operations on a state.
pub record UserRepository (S : Type 0) : Type 0 where
  pub create : User → M S (Unit {0})
  pub get : Uuid → M S User
  pub update : User → M S (Unit {0})
  pub delete : Env → Uuid → M S (Unit {0})
  pub list : Env → ℤ → ℤ → M S (List User × ℤ)

-- `UnitOfWork`: a transaction has a state of its own, which holds the database's.
pub record UnitOfWork (T : Type 0) : Type 0 where
  pub user_repo : UserRepository T
  pub commit : M T (Unit {0})
  pub rollback : M T (Unit {0})

-- `TxStarter`: how a transaction opens on the state of a repository, and what it leaves there.
pub record TxStarter (S T : Type 0) : Type 0 where
  pub begin_tx : M S T
  pub unit_of_work : UnitOfWork T
  pub end_tx : T → S

-- `UserService` without `WithTx`, whose argument is a function on transactions.
pub record UserService (S : Type 0) : Type 0 where
  pub create : Env → String → String → M S User
  pub get : Env → Uuid → M S User
  pub update : Env → Uuid → Option String → Option String → M S User
  pub delete : Env → Uuid → M S (Unit {0})
  pub list : Env → ℤ → ℤ → M S (List User × ℤ)
