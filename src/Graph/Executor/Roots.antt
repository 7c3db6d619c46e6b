-- ===== src/Graph/Executor/Roots.antt =====
-- The operations of graph/generated/generated.go: the fields of `Mutation` and `Query`, `Exec` and
-- `Complexity`.
use maxwell_go_spine.Prelude.{
  ℕ, ◌+◌, String, Bool, true, false, ◌==◌, Option, none, some, [], if◌then◌else◌,
}
use maxwell_go_spine.Go.Error.{Result, ok, err, panic, M, then_call, plain}
use maxwell_go_spine.Graph.{answer}
use maxwell_go_spine.Graph.Executor.{
  Marshaler, absent, Any, bool_value, user_pointer, user_slice, introspected, type_pointer,
  schema_pointer, Args, FieldPath, Run, CollectedField, ResolverRoot, Runtime, as_string,
  as_string_pointer, as_int_pointer, report, field_context, with_context, must_not_be_null,
  may_be_null, resolve,
}
use maxwell_go_spine.Graph.Executor.Args.{
  type_args, arg, create_user_args, delete_user_args, update_user_args, user_args, users_args,
}
use maxwell_go_spine.Graph.Executor.Objects.{
  field_path, invalid, uncounted, fill_fields, field_set, marshal_n_boolean, marshal_n_user,
  marshal_o_user, marshal_n_users,
}
use maxwell_go_spine.Graph.Executor.Introspect.Types.{marshal_type}
use maxwell_go_spine.Graph.Executor.Introspect.Schemas.{marshal_o_schema}

-- The operation of `rc.Operation`.
pub data Operation : Type 0 where
  query mutation subscription : Operation

-- A `*graphql.Response`: data, or the message of `graphql.ErrorResponse`.
pub data Reply : Type 0 where
  data_reply : Marshaler → Reply
  error_reply : String → Reply

-- A function that leaves `Invalids` as it is.
abbrev pub beside : {S : Type 0} → M S Marshaler → M (S × ℕ) Marshaler
beside f t = let c = f t.0 in (c.0, (c.1, t.1))

abbrev pub rooted : {S : Type 0} → Result Marshaler × (S × ℕ) → Result (Marshaler × ℕ) × S
rooted (ok m, (r, n)) = (ok (m, n), r)
rooted (err e, (r, n)) = (err e, r)
rooted (panic, (r, n)) = (panic, r)

-- `if out.Values[i] == graphql.Null { out.Invalids++ }`
abbrev pub count_null : {S : Type 0} → Result (Marshaler × ℕ) × S → Result (Marshaler × ℕ) × S
count_null (ok (m, n), r) = (ok (m, n + invalid m), r)
count_null (err e, r) = (err e, r)
count_null (panic, r) = (panic, r)

module _ {Sel S : Type 0} (rt : Runtime Sel S) (resolvers : ResolverRoot S) where
  -- The resolver calls, with the type assertions on their arguments.
  abbrev pub call_create_user : Args → M S Any
  call_create_user args s =
      then_call (as_string (arg "name" args), s)
        (λ name t.
          then_call (as_string (arg "email" args), t)
            (λ email u. answer user_pointer (resolvers.mutation.create_user name email u)))

  abbrev pub call_update_user : Args → M S Any
  call_update_user args s =
      then_call (as_string (arg "id" args), s)
        (λ id t.
          then_call (as_string_pointer (arg "name" args), t)
            (λ name u.
              then_call (as_string_pointer (arg "email" args), u)
                (λ email v. answer user_pointer (resolvers.mutation.update_user id name email v))))

  abbrev pub call_delete_user : Args → M S Any
  call_delete_user args s =
      then_call (as_string (arg "id" args), s)
        (λ id t. answer bool_value (resolvers.mutation.delete_user id t))

  abbrev pub call_users : Args → M S Any
  call_users args s =
      then_call (as_int_pointer (arg "page" args), s)
        (λ page t.
          then_call (as_int_pointer (arg "pageSize" args), t)
            (λ page_size u. answer user_slice (resolvers.query.users page page_size u)))

  abbrev pub call_user : Args → M S Any
  call_user args s =
      then_call (as_string (arg "id" args), s)
        (λ id t. answer user_pointer (resolvers.query.user id t))

  unfoldable pub field_context_create_user : FieldPath → CollectedField Sel → M (Run S) Args
  unfolding create_user_args
  field_context_create_user q field = field_context rt q (create_user_args rt q field.arguments)

  unfoldable pub field_context_update_user : FieldPath → CollectedField Sel → M (Run S) Args
  unfolding update_user_args
  field_context_update_user q field = field_context rt q (update_user_args rt q field.arguments)

  unfoldable pub field_context_delete_user : FieldPath → CollectedField Sel → M (Run S) Args
  unfolding delete_user_args
  field_context_delete_user q field = field_context rt q (delete_user_args rt q field.arguments)

  unfoldable pub field_context_users : FieldPath → CollectedField Sel → M (Run S) Args
  unfolding users_args
  field_context_users q field = field_context rt q (users_args rt q field.arguments)

  unfoldable pub field_context_user : FieldPath → CollectedField Sel → M (Run S) Args
  unfolding user_args
  field_context_user q field = field_context rt q (user_args rt q field.arguments)

  unfoldable pub mutation_create_user : FieldPath → CollectedField Sel → M (Run S) Marshaler
  unfolding field_context_create_user marshal_n_user
  mutation_create_user q field r = with_context (field_context_create_user q field r) (λ args.
      resolve rt q (must_not_be_null rt q) (marshal_n_user rt q field.selections)
        (call_create_user args))

  unfoldable pub mutation_update_user : FieldPath → CollectedField Sel → M (Run S) Marshaler
  unfolding field_context_update_user marshal_n_user
  mutation_update_user q field r = with_context (field_context_update_user q field r) (λ args.
      resolve rt q (must_not_be_null rt q) (marshal_n_user rt q field.selections)
        (call_update_user args))

  unfoldable pub mutation_delete_user : FieldPath → CollectedField Sel → M (Run S) Marshaler
  unfolding field_context_delete_user marshal_n_boolean
  mutation_delete_user q field r = with_context (field_context_delete_user q field r) (λ args.
      resolve rt q (must_not_be_null rt q) (marshal_n_boolean rt q) (call_delete_user args))

  unfoldable pub query_users : FieldPath → CollectedField Sel → M (Run S) Marshaler
  unfolding field_context_users marshal_n_users
  query_users q field r = with_context (field_context_users q field r) (λ args.
      resolve rt q (must_not_be_null rt q) (marshal_n_users rt q field.selections)
        (call_users args))

  unfoldable pub query_user : FieldPath → CollectedField Sel → M (Run S) Marshaler
  unfolding field_context_user marshal_o_user
  query_user q field r = with_context (field_context_user q field r) (λ args.
      resolve rt q (may_be_null rt) (marshal_o_user rt q field.selections) (call_user args))

  -- `introspectType` and `introspectSchema`, which wrap what the schema has.
  unfoldable pub introspect_type : String → M S Any
  introspect_type name s =
      if rt.disable_introspection
      then (err (plain "introspection disabled"), s)
      else (ok (introspected (type_pointer (rt.introspection.wrap_type name))), s)

  unfoldable pub introspect_schema : M S Any
  introspect_schema s =
      if rt.disable_introspection
      then (err (plain "introspection disabled"), s)
      else (ok (introspected (schema_pointer rt.introspection.wrap_schema)), s)

  abbrev pub call_type : Args → M S Any
  call_type args s = then_call (as_string (arg "name" args), s) introspect_type

  unfoldable pub field_context_type : FieldPath → CollectedField Sel → M (Run S) Args
  unfolding type_args
  field_context_type q field = field_context rt q (type_args rt q field.arguments)

  unfoldable pub query_type : FieldPath → CollectedField Sel → M (Run S) Marshaler
  unfolding field_context_type introspect_type
  query_type q field r =
      with_context (field_context_type q field r) (λ args.
        resolve rt q (may_be_null rt) (marshal_type rt field.selections q) (call_type args))

  unfoldable pub query_schema : FieldPath → CollectedField Sel → M (Run S) Marshaler
  unfolding introspect_schema
  query_schema q field =
      resolve rt q (may_be_null rt) (marshal_o_schema rt field.selections q) introspect_schema

  -- A root field behind `RootResolverMiddleware`: its value, and what it added to `Invalids`.
  abbrev pub root : M (Run S × ℕ) Marshaler → M (Run S) (Marshaler × ℕ)
  root f r = rooted (rt.root_resolver_middleware f (r, 0))

  -- The switch of `_Mutation`.
  unfoldable pub mutation_field : CollectedField Sel → M (Run S) (Marshaler × ℕ)
  unfolding mutation_create_user mutation_update_user mutation_delete_user
  mutation_field field r =
      let q = field_path [] field in
      if field.field_name == "__typename"
      then uncounted (ok (rt.marshal_string "Mutation"), r)
      else if field.field_name == "createUser"
      then count_null (root (beside (mutation_create_user q field)) r)
      else if field.field_name == "updateUser"
      then count_null (root (beside (mutation_update_user q field)) r)
      else if field.field_name == "deleteUser"
      then count_null (root (beside (mutation_delete_user q field)) r)
      else (panic, r)

  unfoldable pub mutation_object : Sel → M (Run S) Marshaler
  unfolding fill_fields mutation_field
  mutation_object sel r =
      field_set (fill_fields mutation_field (rt.collect_fields sel "Mutation") r)

  -- `innerFunc`: a panic is reported on the path of the object, and the value stays nil.
  abbrev pub inner_users : Result Marshaler × Run S → ℕ → Result Marshaler × (Run S × ℕ)
  inner_users (ok m, r) n = (ok m, (r, n + invalid m))
  inner_users (err e, r) n = (err e, (r, n))
  inner_users (panic, r) n = (ok absent, (report [] rt.recovered r, n))

  abbrev pub inner_user : Result Marshaler × Run S → ℕ → Result Marshaler × (Run S × ℕ)
  inner_user (ok m, r) n = (ok m, (r, n))
  inner_user (err e, r) n = (err e, (r, n))
  inner_user (panic, r) n = (ok absent, (report [] rt.recovered r, n))

  -- The switch of `_Query`, the functions that `Dispatch` runs included, one after another.
  unfoldable pub query_field : CollectedField Sel → M (Run S) (Marshaler × ℕ)
  unfolding query_users query_user query_type query_schema
  query_field field r =
      let q = field_path [] field in
      if field.field_name == "__typename"
      then uncounted (ok (rt.marshal_string "Query"), r)
      else if field.field_name == "users"
      then root (λ t. inner_users (query_users q field t.0) t.1) r
      else if field.field_name == "user"
      then root (λ t. inner_user (query_user q field t.0) t.1) r
      else if field.field_name == "__type"
      then root (beside (query_type q field)) r
      else if field.field_name == "__schema"
      then root (beside (query_schema q field)) r
      else (panic, r)

  unfoldable pub query_object : Sel → M (Run S) Marshaler
  unfolding fill_fields query_field
  query_object sel r = field_set (fill_fields query_field (rt.collect_fields sel "Query") r)

  -- The response handler that `Exec` returns, called with its variable `first`: a response or nil,
  -- and the new `first`. `one_shot` is `graphql.OneShot` of an error response.
  unfoldable pub exec :
      (String → Bool → Option Reply × Bool)
      → Operation
      → Sel
      → Bool
      → M (Run S) (Option Reply × Bool)
  unfolding query_object mutation_object
  exec one_shot query sel true r = answer (λ d. (some (data_reply d), false)) (query_object sel r)
  exec one_shot query sel false r = (ok (none, false), r)
  exec one_shot mutation sel true r =
      answer (λ d. (some (data_reply d), false)) (mutation_object sel r)
  exec one_shot mutation sel false r = (ok (none, false), r)
  exec one_shot subscription sel first r = (ok (one_shot "unsupported GraphQL operation" first), r)
