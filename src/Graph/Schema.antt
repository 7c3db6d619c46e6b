-- ===== src/Graph/Schema.antt =====
-- internal/http/graphql/schema.go: the resolvers of `BuildSchema`.
pub mod Build
pub mod Typed
pub mod Sdl
use maxwell_go_spine.Prelude.{
  String, Bool, true, Option, none, some, List, [], ◌∷◌, ◌++◌, map, if◌then◌else◌,
}
use maxwell_go_spine.Go.Int.{ℤ, pos, eqb_ℤ}
use maxwell_go_spine.Go.Error.{M}
use maxwell_go_spine.Core.User.{Time, User, Env, UserService}
use maxwell_go_spine.Graph.{Texts, answer, with_uuid}

-- `map[string]any`, whose values are texts here.
abbrev pub Fields : Type 0
Fields = List (String × String)

abbrev pub deleted_field : (Time → String) → Option Time → Fields
deleted_field f none = []
deleted_field f (some t) = ("deletedAt", f t) ∷ []

-- `page, _ := p.Args["page"].(int); if page == 0 { page = … }`: a missing argument is 0.
abbrev pub int_arg : Option ℤ → ℤ → ℤ
int_arg none def = def
int_arg (some n) def = if eqb_ℤ n (pos 0) then def else n

module _ (texts : Texts) where
  open texts use {parse_uuid, uuid_text, format_time}

  unfoldable pub convert_user : User → Fields
  convert_user u =
      (("id", uuid_text u.id)
        ∷ ("name", u.name)
        ∷ ("email", u.email)
        ∷ ("createdAt", format_time u.created_at)
        ∷ ("updatedAt", format_time u.updated_at)
        ∷ [])
      ++ deleted_field format_time u.deleted_at

  module _ {S : Type 0} (svc : UserService S) where
    unfoldable pub resolve_users : Env → Option ℤ → Option ℤ → M S (List Fields)
    resolve_users env page page_size s =
        answer (λ (r : List User × ℤ). map convert_user r.0)
          (svc.list env (int_arg page (pos 1)) (int_arg page_size (pos 20)) s)

    unfoldable pub resolve_user : Env → String → M S Fields
    resolve_user env id s =
        with_uuid (parse_uuid id) (λ uid t. answer convert_user (svc.get env uid t)) s

    unfoldable pub resolve_create_user : Env → String → String → M S Fields
    resolve_create_user env name email s = answer convert_user (svc.create env name email s)

    unfoldable pub resolve_update_user : Env → String → Option String → Option String → M S Fields
    resolve_update_user env id name email s =
        with_uuid (parse_uuid id) (λ uid t. answer convert_user (svc.update env uid name email t)) s

    unfoldable pub resolve_delete_user : Env → String → M S Bool
    resolve_delete_user env id s =
        with_uuid (parse_uuid id) (λ uid t. answer (λ u. true) (svc.delete env uid t)) s
