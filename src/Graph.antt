-- ===== src/Graph.antt =====
-- graph/resolver/user.resolvers.go: the resolvers over the user service; internal/http/graphql, in
-- Schema, has a second set, and Executor has what gqlgen generates.
pub mod Schema
pub mod Agreement
pub mod Introspection
pub mod Executor
pub mod Server
use maxwell_go_spine.Prelude.{String, Bool, true, Option, none, some, List, map}
use maxwell_go_spine.Go.Int.{ℤ, pos}
use maxwell_go_spine.Go.Error.{Result, ok, err, panic, M}
use maxwell_go_spine.Core.User.{Uuid, Time, User, Env, UserService}

-- `uuid.Parse`, `uuid.UUID.String`, and `time.Time.Format` with the layout of RFC 3339.
pub record Texts : Type 0 where
  pub parse_uuid : String → Result Uuid
  pub uuid_text : Uuid → String
  pub format_time : Time → String

-- `model.User`.
pub record GraphUser : Type 0 where
  pub id : String
  pub name : String
  pub email : String
  pub created_at : String
  pub updated_at : String
  pub deleted_at : Option String

-- `return f(v), nil` behind a call that can fail.
abbrev pub answer : {S A B : Type 0} → (A → B) → Result A × S → Result B × S
answer f (ok a, s) = (ok (f a), s)
answer f (err e, s) = (err e, s)
answer f (panic, s) = (panic, s)

-- A call behind `uuid.Parse`.
abbrev pub with_uuid : {S A : Type 0} → Result Uuid → (Uuid → M S A) → M S A
with_uuid (ok id) f s = f id s
with_uuid (err e) f s = (err e, s)
with_uuid panic f s = (panic, s)

abbrev pub formatted : (Time → String) → Option Time → Option String
formatted f none = none
formatted f (some t) = some (f t)

abbrev pub or_default : Option ℤ → ℤ → ℤ
or_default none def = def
or_default (some n) def = n

module _ (texts : Texts) where
  open texts use {parse_uuid, uuid_text, format_time}

  unfoldable pub convert_user : User → GraphUser
  convert_user u = record {
    id = uuid_text u.id;
    name = u.name;
    email = u.email;
    created_at = format_time u.created_at;
    updated_at = format_time u.updated_at;
    deleted_at = formatted format_time u.deleted_at;
  }

  module _ {S : Type 0} (svc : UserService S) where
    unfoldable pub users : Env → Option ℤ → Option ℤ → M S (List GraphUser)
    users env page page_size s =
        answer (λ (r : List User × ℤ). map convert_user r.0)
          (svc.list env (or_default page (pos 1)) (or_default page_size (pos 20)) s)

    unfoldable pub user : Env → String → M S GraphUser
    user env id s = with_uuid (parse_uuid id) (λ uid t. answer convert_user (svc.get env uid t)) s

    unfoldable pub create_user : Env → String → String → M S GraphUser
    create_user env name email s = answer convert_user (svc.create env name email s)

    unfoldable pub update_user : Env → String → Option String → Option String → M S GraphUser
    update_user env id name email s =
        with_uuid (parse_uuid id) (λ uid t. answer convert_user (svc.update env uid name email t)) s

    unfoldable pub delete_user : Env → String → M S Bool
    delete_user env id s =
        with_uuid (parse_uuid id) (λ uid t. answer (λ u. true) (svc.delete env uid t)) s
