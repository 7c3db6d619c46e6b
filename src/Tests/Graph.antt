-- ===== src/Tests/Graph.antt =====
-- Both sets of GraphQL resolvers over the in-memory service.
use maxwell_go_spine.Prelude.{◌≡◌, refl, ℕ, ◌+◌, true, none, some, [], ◌∷◌, map}
use maxwell_go_spine.Go.Int.{pos}
use maxwell_go_spine.Go.Error.{conflict, ok, err, panic}
use maxwell_go_spine.Core.User.{User, Env, UserService}
use maxwell_go_spine.Core.Memory.{InMemoryUserRepo, new_in_memory, in_memory_repository}
use maxwell_go_spine.Core.Service.{Mail, new_user_service}
use maxwell_go_spine.Graph.{Texts, answer, users, user, create_user, update_user, delete_user}
use maxwell_go_spine.Graph.Schema.{
  resolve_users, resolve_user, resolve_create_user, resolve_update_user, resolve_delete_user,
}
use maxwell_go_spine.Graph.Schema
use maxwell_go_spine.Graph.Schema.Build.{
  given_text, GivenArgs, user_map, create_user_root, schema_config,
}
use maxwell_go_spine.Graph.Schema.Typed.{IsTyped, IsCalm, resolve-IsTyped}
use maxwell_go_spine.Graph.Agreement.{fields_of, resolvers_agree}

abbrev texts : Texts
texts = record { parse_uuid = λ t. ok 7; uuid_text = λ id. "7"; format_time = λ t. "now" }

abbrev mail : Mail
mail = record { unicode_lower = λ c. c; parse_address = λ s. true }

abbrev svc : UserService InMemoryUserRepo
svc = new_user_service mail (in_memory_repository (λ n l. l))

abbrev env : Env
env = record { now = 9; new_id = 7; range_order = 0 }

resolvers_agree_example :
    (resolve_users texts svc env (some (pos 2)) none new_in_memory
      ≡ answer (map fields_of) (users texts svc env (some (pos 2)) none new_in_memory))
    × (resolve_user texts svc env "7" new_in_memory
        ≡ answer fields_of (user texts svc env "7" new_in_memory))
    × (resolve_create_user texts svc env "ann" "a@b.c" new_in_memory
        ≡ answer fields_of (create_user texts svc env "ann" "a@b.c" new_in_memory))
    × (resolve_update_user texts svc env "7" (some "eve") none new_in_memory
        ≡ answer fields_of (update_user texts svc env "7" (some "eve") none new_in_memory))
    × (resolve_delete_user texts svc env "7" new_in_memory
        ≡ delete_user texts svc env "7" new_in_memory)
resolvers_agree_example =
    resolvers_agree texts svc env (some (pos 2)) none "7" "ann" "a@b.c" (some "eve") none
      new_in_memory refl tt

-- A service over a counter of its calls.
abbrev ann : User
ann = record {
  id = 7;
  name = "ann";
  email = "a@b.c";
  created_at = 1;
  updated_at = 1;
  deleted_at = none;
}

abbrev counting : UserService ℕ
counting = record {
  create = λ env n e s. (ok ann, s + 1);
  get = λ env id s. (ok ann, s + 1);
  update = λ env id n e s. (err conflict, s + 1);
  delete = λ env id s. (ok tt, s + 1);
  list = λ env page size s. (ok (ann ∷ [], pos 1), s + 1);
}

counting-IsCalm : IsCalm texts counting
counting-IsCalm = record {
  parses = λ t p. absurd (cc);
  creates = λ v n e s p. absurd (cc);
  gets = λ v id s p. absurd (cc);
  updates = λ v id n e s p. absurd (cc);
  deletes = λ v id s p. absurd (cc);
  lists = λ v page size s p. absurd (cc);
}

abbrev chosen : GivenArgs
chosen = ("name", given_text "ann") ∷ ("email", given_text "a@b.c") ∷ []

created_map : (create_user_root texts counting).resolve env chosen 3 ≡ (
  ok (
      user_map (
        ("id", "7")
        ∷ ("name", "ann")
        ∷ ("email", "a@b.c")
        ∷ ("createdAt", "now")
        ∷ ("updatedAt", "now")
        ∷ [])),
  4,
)
unfolding create_user_root resolve_create_user Schema.convert_user
created_map = refl

-- Without its argument the resolver panics.
uncreated : (create_user_root texts counting).resolve env [] 3 ≡ (panic, 3)
unfolding create_user_root
uncreated = refl

resolve-IsTyped_example :
    IsTyped
      (create_user_root texts counting).declared
      ((create_user_root texts counting).resolve env chosen 3)
unfolding create_user_root schema_config
resolve-IsTyped_example =
    resolve-IsTyped texts counting counting-IsCalm "createUser" (create_user_root texts counting)
      env chosen 3 refl refl
