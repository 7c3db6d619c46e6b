-- ===== src/Graph/Schema/Build.antt =====
-- internal/http/graphql/schema.go: the objects of `BuildSchema`, with the declared type and the
-- arguments of each field, and its resolver on the arguments that graphql-go hands over.
use maxwell_go_spine.Prelude.{String, Bool, Option, none, some, List, [], ◌∷◌}
use maxwell_go_spine.Prelude.Maps.Str.{lookup}
use maxwell_go_spine.Go.Int.{ℤ}
use maxwell_go_spine.Go.Error.{Result, ok, panic, M, then_call}
use maxwell_go_spine.Core.User.{Env, UserService}
use maxwell_go_spine.Graph.{Texts, answer}
use maxwell_go_spine.Graph.Schema.{
  Fields, resolve_users, resolve_user, resolve_create_user, resolve_update_user,
  resolve_delete_user,
}

-- `graphql.ID` and the other scalars, and an object, by name; `NewList` and `NewNonNull`.
pub data Declared : Type 0 where
  named : String → Declared
  list_of non_null : Declared → Declared

-- A value of `p.Args`.
pub data Given : Type 0 where
  given_text : String → Given
  given_int : ℤ → Given

abbrev pub GivenArgs : Type 0
GivenArgs = List (String × Given)

-- What a resolver returns: `true`, a map, or a slice of maps.
pub data Served : Type 0 where
  boolean : Bool → Served
  user_map : Fields → Served
  user_maps : List Fields → Served

-- `graphql.Field`.
pub record SchemaField (S : Type 0) : Type 0 where
  pub declared : Declared
  pub args : List (String × Declared)
  pub resolve : Env → GivenArgs → M S Served

-- `graphql.SchemaConfig`: the fields of the query root and of the mutation root.
pub record RootConfig (S : Type 0) : Type 0 where
  pub query : List (String × SchemaField S)
  pub mutation : List (String × SchemaField S)

abbrev pub required : String → Declared
required n = non_null (named n)

-- The fields of `userType`, which graphql-go reads from the map.
abbrev pub user_type : List (String × Declared)
user_type =
    ("id", required "ID")
    ∷ ("name", required "String")
    ∷ ("email", required "String")
    ∷ ("createdAt", required "String")
    ∷ ("updatedAt", required "String")
    ∷ ("deletedAt", named "String")
    ∷ []

-- `p.Args[key].(string)`, which panics on anything else, and the assertions with a second value.
abbrev pub must_text : Option Given → Result String
must_text (some (given_text t)) = ok t
must_text (some (given_int n)) = panic
must_text none = panic

abbrev pub maybe_text : Option Given → Option String
maybe_text (some (given_text t)) = some t
maybe_text (some (given_int n)) = none
maybe_text none = none

abbrev pub maybe_int : Option Given → Option ℤ
maybe_int (some (given_int n)) = some n
maybe_int (some (given_text t)) = none
maybe_int none = none

module _ {S : Type 0} (texts : Texts) (svc : UserService S) where
  unfoldable pub users_root : SchemaField S
  users_root = record {
    declared = non_null (list_of (required "User"));
    args = ("page", named "Int") ∷ ("pageSize", named "Int") ∷ [];
    resolve = λ env args s. answer user_maps (
        resolve_users texts svc env (maybe_int (lookup "page" args))
          (maybe_int (lookup "pageSize" args)) s);
  }

  unfoldable pub user_root : SchemaField S
  user_root = record {
    declared = named "User";
    args = ("id", required "ID") ∷ [];
    resolve = λ env args s.
        then_call (must_text (lookup "id" args), s)
          (λ id t. answer user_map (resolve_user texts svc env id t));
  }

  unfoldable pub create_user_root : SchemaField S
  create_user_root = record {
    declared = named "User";
    args = ("name", required "String") ∷ ("email", required "String") ∷ [];
    resolve = λ env args s.
        then_call (must_text (lookup "name" args), s)
          (λ n t.
            then_call (must_text (lookup "email" args), t)
              (λ email u. answer user_map (resolve_create_user texts svc env n email u)));
  }

  unfoldable pub update_user_root : SchemaField S
  update_user_root = record {
    declared = named "User";
    args = ("id", required "ID") ∷ ("name", named "String") ∷ ("email", named "String") ∷ [];
    resolve = λ env args s.
        then_call (must_text (lookup "id" args), s)
          (λ id t. answer user_map (
            resolve_update_user texts svc env id (maybe_text (lookup "name" args))
              (maybe_text (lookup "email" args)) t));
  }

  unfoldable pub delete_user_root : SchemaField S
  delete_user_root = record {
    declared = required "Boolean";
    args = ("id", required "ID") ∷ [];
    resolve = λ env args s.
        then_call (must_text (lookup "id" args), s)
          (λ id t. answer boolean (resolve_delete_user texts svc env id t));
  }

  unfoldable pub schema_config : RootConfig S
  schema_config = record {
    query = ("users", users_root) ∷ ("user", user_root) ∷ [];
    mutation =
        ("createUser", create_user_root)
        ∷ ("updateUser", update_user_root)
        ∷ ("deleteUser", delete_user_root)
        ∷ [];
  }

  -- `new_schema` is `graphql.NewSchema`.
  unfoldable pub build_schema : {A : Type 0} → (RootConfig S → Result A) → Result A
  build_schema new_schema = new_schema schema_config
