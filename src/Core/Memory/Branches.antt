-- ===== src/Core/Memory/Branches.antt =====
-- The branches of the in-memory repository's operations, as equations.
use maxwell_go_spine.Prelude.{◌≡◌, none, some, Option-cases, inl, inr}
use maxwell_go_spine.Prelude.Maps.Nat.{insert}
use maxwell_go_spine.Go.Error.{not_found, ok, err}
use maxwell_go_spine.Core.User.{Uuid, User, Env}
use maxwell_go_spine.Core.Memory.{InMemoryUserRepo, find_live, get, update, delete}

module _ (r : InMemoryUserRepo) where
  pub get_missing : (id : Uuid) → find_live id r.users ≡ none → get id r ≡ (err not_found, r)
  unfolding get
  get_missing id e = rw (e, get)

  pub get_found : (id : Uuid) (u : User) → find_live id r.users ≡ some u → get id r ≡ (ok u, r)
  unfolding get
  get_found id u e = rw (e, get)

  pub update_missing : (u : User) → find_live u.id r.users ≡ none → update u r ≡ (err not_found, r)
  unfolding update
  update_missing u e = rw (e, update)

  pub update_found :
      (u old : User)
      → find_live u.id r.users ≡ some old
      → update u r ≡ (ok tt, record r { users = insert u.id u r.users })
  unfolding update
  update_found u old e = rw (e, update)

  pub delete_missing :
      (env : Env) (id : Uuid) → find_live id r.users ≡ none → delete env id r ≡ (err not_found, r)
  unfolding delete
  delete_missing env id e = rw (e, delete)

  pub delete_found :
      (env : Env) (id : Uuid) (u : User)
      → find_live id r.users ≡ some u
      → delete env id r
        ≡ (ok tt, record r { users = insert id (record u { deleted_at = some env.now }) r.users })
  unfolding delete
  delete_found env id u e = rw (e, delete)

  -- `Get` only reads.
  pub get_state : (id : Uuid) → (get id r).1 ≡ r
  get_state id = elim (Option-cases (find_live id r.users)) [
    | inl e ↦ rw (get_missing id e)
    | inr (u, e) ↦ rw (get_found id u e)
  ]
