-- ===== src/Graph/Executor/Complexity.antt =====
-- `NewExecutableSchema` and `Complexity` of graph/generated/generated.go, and the schema that
-- graph/server/handler.go builds.
use Prim.Native.String.{◌++◌}
use maxwell_go_spine.Prelude.{
  ◌≡◌, refl, String, Bool, true, false, ◌==◌, Option, none, some, [], if◌then◌else◌,
}
use maxwell_go_spine.Go.Int.{ℤ, pos}
use maxwell_go_spine.Go.Error.{Result, ok, err, panic, and_then}
use maxwell_go_spine.Graph.Executor.{
  RawArgs, Args, ResolverRoot, Runtime, as_string, as_string_pointer, as_int_pointer,
}
use maxwell_go_spine.Graph.Executor.Args.{
  arg, create_user_args, delete_user_args, update_user_args, user_args, users_args,
}
use maxwell_go_spine.Graph.Executor.Stubs.{resolver}

-- The first argument of each function is the complexity of what is selected below the field.
pub record ComplexityRoot : Type 0 where
  pub mutation_create_user : Option (ℤ → String → String → ℤ)
  pub mutation_delete_user : Option (ℤ → String → ℤ)
  pub mutation_update_user : Option (ℤ → String → Option String → Option String → ℤ)
  pub query_user : Option (ℤ → String → ℤ)
  pub query_users : Option (ℤ → Option ℤ → Option ℤ → ℤ)
  pub user_created_at : Option (ℤ → ℤ)
  pub user_deleted_at : Option (ℤ → ℤ)
  pub user_email : Option (ℤ → ℤ)
  pub user_id : Option (ℤ → ℤ)
  pub user_name : Option (ℤ → ℤ)
  pub user_updated_at : Option (ℤ → ℤ)

-- `Config`, and the `executableSchema` with the same fields; a schema that is set, and the
-- directives, of which there are none, are left out.
pub record SchemaConfig (S : Type 0) : Type 0 where
  pub resolvers : ResolverRoot S
  pub complexity : ComplexityRoot

pub record ExecutableSchema (S : Type 0) : Type 0 where
  pub resolvers : ResolverRoot S
  pub complexity : ComplexityRoot

unfoldable pub new_executable_schema : {S : Type 0} → SchemaConfig S → ExecutableSchema S
new_executable_schema cfg = record { resolvers = cfg.resolvers; complexity = cfg.complexity }

-- A struct of functions that are all nil.
abbrev pub zero_complexity : ComplexityRoot
zero_complexity = record {
  mutation_create_user = none;
  mutation_delete_user = none;
  mutation_update_user = none;
  query_user = none;
  query_users = none;
  user_created_at = none;
  user_deleted_at = none;
  user_email = none;
  user_id = none;
  user_name = none;
  user_updated_at = none;
}

-- `NewExecutableSchema` of graph/server/handler.go, without the handler around it.
unfoldable pub server_schema : (S : Type 0) → ExecutableSchema S
unfolding new_executable_schema resolver
server_schema S =
    new_executable_schema (record { resolvers = resolver S; complexity = zero_complexity })

abbrev pub no_complexity : Result (ℤ × Bool)
no_complexity = ok (pos 0, false)

-- A field with no arguments.
abbrev pub plain_complexity : Option (ℤ → ℤ) → ℤ → Result (ℤ × Bool)
plain_complexity none child = no_complexity
plain_complexity (some f) child = ok (f child, true)

-- A field whose arguments are decoded if its function is set.
abbrev pub with_args : Result Args → (Args → Result ℤ) → Result (ℤ × Bool)
with_args (ok args) f = and_then (f args) (λ n. ok (n, true))
with_args (err e) f = no_complexity
with_args panic f = panic

abbrev pub args_complexity :
    {F : Type 0} → Option F → Result Args → (F → Args → Result ℤ) → Result (ℤ × Bool)
args_complexity none decoded call = no_complexity
args_complexity (some f) decoded call = with_args decoded (call f)

module _ {Sel S : Type 0} (rt : Runtime Sel S) where
  unfoldable pub complexity : ExecutableSchema S → String → String → ℤ → RawArgs → Result (ℤ × Bool)
  unfolding create_user_args delete_user_args update_user_args user_args users_args
  complexity e type_name field child raw =
      let root = e.complexity in
      let key = type_name ++ "." ++ field in
      if key == "Mutation.createUser"
      then args_complexity root.mutation_create_user (create_user_args rt [] raw) (λ f args.
        and_then (as_string (arg "name" args))
          (λ name. and_then (as_string (arg "email" args)) (λ email. ok (f child name email))))
      else if key == "Mutation.deleteUser"
      then args_complexity root.mutation_delete_user (delete_user_args rt [] raw)
          (λ f args. and_then (as_string (arg "id" args)) (λ id. ok (f child id)))
      else if key == "Mutation.updateUser"
      then args_complexity root.mutation_update_user (update_user_args rt [] raw) (λ f args.
        and_then (as_string (arg "id" args)) (λ id.
          and_then (as_string_pointer (arg "name" args)) (λ name.
            and_then (as_string_pointer (arg "email" args)) (λ email. ok (f child id name email)))))
      else if key == "Query.user"
      then args_complexity root.query_user (user_args rt [] raw)
          (λ f args. and_then (as_string (arg "id" args)) (λ id. ok (f child id)))
      else if key == "Query.users"
      then args_complexity root.query_users (users_args rt [] raw) (λ f args.
        and_then (as_int_pointer (arg "page" args)) (λ page.
          and_then (as_int_pointer (arg "pageSize" args)) (λ size. ok (f child page size))))
      else if key == "User.createdAt"
      then plain_complexity root.user_created_at child
      else if key == "User.deletedAt"
      then plain_complexity root.user_deleted_at child
      else if key == "User.email"
      then plain_complexity root.user_email child
      else if key == "User.id"
      then plain_complexity root.user_id child
      else if key == "User.name"
      then plain_complexity root.user_name child
      else if key == "User.updatedAt"
      then plain_complexity root.user_updated_at child
      else no_complexity

if_same : {A : Type 0} (b : Bool) {x y z : A} → x ≡ z → y ≡ z → (if b then x else y) ≡ z
if_same true p q = p
if_same false p q = q

-- Under the schema that the server builds, no field has a complexity of its own, and its arguments
-- are not looked at.
pub server_schema-complexity :
    {Sel S : Type 0} (rt : Runtime Sel S) (type_name field : String) (child : ℤ) (raw : RawArgs)
    → complexity rt (server_schema S) type_name field child raw ≡ no_complexity
unfolding complexity server_schema new_executable_schema
server_schema-complexity rt type_name field child raw =
    let key = type_name ++ "." ++ field in
    if_same (key == "Mutation.createUser") refl (
      if_same (key == "Mutation.deleteUser") refl (
        if_same (key == "Mutation.updateUser") refl (
          if_same (key == "Query.user") refl (
            if_same (key == "Query.users") refl (
              if_same (key == "User.createdAt") refl (
                if_same (key == "User.deletedAt") refl (
                  if_same (key == "User.email") refl (
                    if_same (key == "User.id") refl (
                      if_same (key == "User.name") refl
                        (if_same (key == "User.updatedAt") refl refl))))))))))
