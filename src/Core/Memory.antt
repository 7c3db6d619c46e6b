-- ===== src/Core/Memory.antt =====
-- internal/core/user_repo_memory.go, `InMemoryUserRepo`. The map holds copies, and `Get` and `List` give out copies, so
-- no caller shares a user with it; a call runs under the mutex and is one step.
pub mod Paging
pub mod Branches
pub mod Laws
pub mod Listing
pub mod Sorting
use maxwell_go_spine.Prelude.{
  ℕ, ◌≤◌, ◌<◌, Bool, true, false, Option, none, some, List, [], ◌∷◌, length, take, drop, ltb, leb,
  if◌then◌else◌, is_some, ◌-◌,
}
use maxwell_go_spine.Prelude.Maps.Nat.{lookup, insert, contains}
use maxwell_go_spine.Go.Int.{ℤ, pos, negsuc, ltb_ℤ, leb_ℤ, add64, sub64, mul64}
use maxwell_go_spine.Go.Error.{not_found, plain, Result, ok, err, panic, M}
use maxwell_go_spine.Core.User.{Uuid, User, Env, UserRepository}

pub record InMemoryUserRepo : Type 0 where
  pub users : List (Uuid × User)

unfoldable pub new_in_memory : InMemoryUserRepo
new_in_memory = record { users = [] }

abbrev pub is_deleted : User → Bool
is_deleted u = is_some u.deleted_at

unfoldable pub create : User → M InMemoryUserRepo (Unit {0})
create u r =
    if contains u.id r.users
    then (err (plain "duplicate id"), r)
    else (ok tt, record r { users = insert u.id u r.users })

-- `u, ok := r.users[id]; if !ok || u.DeletedAt != nil { return ErrNotFound }`
unfoldable pub find_live : Uuid → List (Uuid × User) → Option User
find_live id m = elim (lookup id m) [ none ↦ none | some u ↦ if is_deleted u then none else some u ]

unfoldable pub get : Uuid → M InMemoryUserRepo User
unfolding find_live
get id r = elim (find_live id r.users) [ none ↦ (err not_found, r) | some u ↦ (ok u, r) ]

unfoldable pub update : User → M InMemoryUserRepo (Unit {0})
unfolding find_live
update u r = elim (find_live u.id r.users) [
  | none ↦ (err not_found, r)
  | some existing ↦ (ok tt, record r { users = insert u.id u r.users })
]

unfoldable pub delete : Env → Uuid → M InMemoryUserRepo (Unit {0})
unfolding find_live
delete env id r = elim (find_live id r.users) [
  | none ↦ (err not_found, r)
  | some u ↦
      (ok tt, record r { users = insert id (record u { deleted_at = some env.now }) r.users })
]

-- The loop of `List` over the map.
unfoldable pub live_users : List (Uuid × User) → List User
live_users [] = []
live_users ((k, u) ∷ m) = let rest = live_users m in if is_deleted u then rest else u ∷ rest

-- `l[start:end]`; a bound below zero or a start behind the end panics, an end past the length too.
unfoldable pub slice : List User → ℤ → ℤ → Result (List User)
slice l (negsuc a) b = panic
slice l (pos a) (negsuc b) = panic
slice l (pos a) (pos b) =
    if ltb b a then panic else if ltb (length l) b then panic else ok (take (b - a) (drop a l))

-- `if page <= 0 { page = 1 }`
unfoldable pub page_number : ℤ → ℤ
page_number page = if leb_ℤ page (pos 0) then pos 1 else page

-- `if pageSize <= 0 { pageSize = 50 }`
unfoldable pub page_length : ℤ → ℤ
page_length page_size = if leb_ℤ page_size (pos 0) then pos 50 else page_size

-- From `if start >= total` on.
unfoldable pub window : List User → ℤ → ℤ → Result (List User × ℤ)
unfolding slice
window sorted start size =
    let total = pos (length sorted) in
    if leb_ℤ total start
    then ok ([], total)
    else (let reach = add64 start size in
        elim (slice sorted start (if ltb_ℤ total reach then total else reach)) [
          | ok users ↦ ok (users, total)
          | err e ↦ err e
          | panic ↦ panic
        ])

-- `List` behind the sort.
unfoldable pub page_of : List User → ℤ → ℤ → Result (List User × ℤ)
unfolding page_number page_length window
page_of sorted page page_size =
    let size = page_length page_size in
    window sorted (mul64 (sub64 (page_number page) (pos 1)) size) size

-- `arrange` is the order in which the map's users leave `sort.Slice`. The map gives them in another
-- order at each call and the sort is not stable, so it depends on what the call draws.
module _ (arrange : ℕ → List User → List User) where
  unfoldable pub list : Env → ℤ → ℤ → M InMemoryUserRepo (List User × ℤ)
  unfolding live_users page_of
  list env page page_size r =
      (page_of (arrange env.range_order (live_users r.users)) page page_size, r)

  unfoldable pub in_memory_repository : UserRepository InMemoryUserRepo
  in_memory_repository = record {
    create = create;
    get = get;
    update = update;
    delete = delete;
    list = list;
  }
