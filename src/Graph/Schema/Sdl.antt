-- ===== src/Graph/Schema/Sdl.antt =====
-- The schema in graph/schema.graphqls, which graph/generated/generated.go has as `sources`, beside
-- the one that `BuildSchema` declares.
use maxwell_go_spine.Prelude.{◌≡◌, refl, String, List, [], ◌∷◌, map}
use maxwell_go_spine.Core.User.{UserService}
use maxwell_go_spine.Graph.{Texts}
use maxwell_go_spine.Graph.Schema.Build.{
  Declared, named, list_of, non_null, SchemaField, required, user_type, users_root, user_root,
  create_user_root, update_user_root, delete_user_root, schema_config,
}

-- A field by its name, its arguments and its type.
pub record Shape : Type 0 where
  pub key : String
  pub args : List (String × Declared)
  pub declared : Declared

abbrev pub sdl_user : List (String × Declared)
sdl_user =
    ("id", required "ID")
    ∷ ("name", required "String")
    ∷ ("email", required "String")
    ∷ ("createdAt", required "String")
    ∷ ("updatedAt", required "String")
    ∷ ("deletedAt", named "String")
    ∷ []

abbrev pub sdl_query : List Shape
sdl_query =
    record {
      key = "users";
      args = ("page", named "Int") ∷ ("pageSize", named "Int") ∷ [];
      declared = non_null (list_of (required "User"));
    }
    ∷ record { key = "user"; args = ("id", required "ID") ∷ []; declared = named "User" }
    ∷ []

abbrev pub sdl_mutation : List Shape
sdl_mutation =
    record {
      key = "createUser";
      args = ("name", required "String") ∷ ("email", required "String") ∷ [];
      declared = required "User";
    }
    ∷ record {
      key = "updateUser";
      args = ("id", required "ID") ∷ ("name", named "String") ∷ ("email", named "String") ∷ [];
      declared = required "User";
    }
    ∷ record {
      key = "deleteUser";
      args = ("id", required "ID") ∷ [];
      declared = required "Boolean";
    }
    ∷ []

abbrev pub shape_of : {S : Type 0} → String × SchemaField S → Shape
shape_of (n, f) = record { key = n; args = f.args; declared = f.declared }

-- A type that may be null.
abbrev pub nullable : Declared → Declared
nullable (named n) = named n
nullable (list_of t) = list_of t
nullable (non_null t) = t

abbrev pub relaxed : Shape → Shape
relaxed f = record f { declared = nullable f.declared }

-- Over every service, the query root is the one of the schema file, the mutation root is it up to
-- whether the values may be null, and so is the type User.
roots_agree :
    {S : Type 0} (texts : Texts) (svc : UserService S)
    → (map shape_of (schema_config texts svc).query ≡ sdl_query)
      × (map (λ f. relaxed (shape_of f)) (schema_config texts svc).mutation
          ≡ map relaxed sdl_mutation)
      × (user_type ≡ sdl_user)
unfolding schema_config users_root user_root create_user_root update_user_root delete_user_root
roots_agree texts svc = (refl, refl, refl)
