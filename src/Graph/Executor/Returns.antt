-- ===== src/Graph/Executor/Returns.antt =====
-- Operations return, whatever their resolvers do.
use maxwell_go_spine.Prelude.{◌≡◌, refl, ℕ, String, Bool, true, ◌==◌, List, [], ◌∷◌}
use maxwell_go_spine.Go.Error.{Result, ok, err, panic, M}
use maxwell_go_spine.Graph.Executor.{
  Marshaler, Outputs, FieldPath, Run, CollectedField, ResolverRoot, Runtime,
}
use maxwell_go_spine.Graph.Executor.Args.{
  type_args, create_user_args, delete_user_args, update_user_args, user_args, users_args,
}
use maxwell_go_spine.Graph.Executor.Objects.{
  field_path, invalid, nothing, rest_fields, next_fields, fill_fields, field_set,
}
use maxwell_go_spine.Graph.Executor.Roots.{
  beside, rooted, count_null, inner_users, inner_user, call_create_user, call_update_user,
  call_delete_user, call_users, call_user, field_context_create_user, field_context_update_user,
  field_context_delete_user, field_context_users, field_context_user, mutation_create_user,
  mutation_update_user, mutation_delete_user, query_users, query_user, mutation_field,
  mutation_object, query_field, query_object, query_type, query_schema, field_context_type,
  call_type, introspect_schema,
}
use maxwell_go_spine.Graph.Executor.Told.{
  IsReturned, FindsReports, refused-IsTold, resolve-IsReturned,
}
use maxwell_go_spine.Graph.Executor.Nulls.{
  marshal_n_boolean-told, marshal_n_user-told, marshal_o_user-told,
}
use maxwell_go_spine.Graph.Executor.NullLists.{marshal_n_users-told}
use maxwell_go_spine.Graph.Executor.Introspect.Told.{told_rules}
use maxwell_go_spine.Graph.Executor.Introspect.TypeRules.{marshal_type-Holds}
use maxwell_go_spine.Graph.Executor.Introspect.SchemaRules.{marshal_o_schema-Holds}
use maxwell_go_spine.Graph.Executor.Answers.{IsRootTransparent, with_context-IsReturned}
use maxwell_go_spine.Graph.Executor.Switches.{
  is_mutation_field, is_root_query_field, AllNamed, case_split, last_case,
}

-- The outcome as a value and a state.
pub IsReturned-value :
    {S A : Type 0} (c : Result A × S) → IsReturned c → (a : A) × (s : S) × (c ≡ (ok a, s))
IsReturned-value (ok a, s) h = (a, s, refl)
IsReturned-value (err e, s) h = elim h [ ]
IsReturned-value (panic, s) h = elim h [ ]

rest_fields-IsReturned :
    {S : Type 0} (alias : String) (v : Marshaler × ℕ) (c : Result (Outputs × ℕ) × S)
    → IsReturned c
    → IsReturned (rest_fields alias v c)
rest_fields-IsReturned alias v (ok rest, r) h = tt
rest_fields-IsReturned alias v (err e, r) h = h
rest_fields-IsReturned alias v (panic, r) h = h

next_fields-IsReturned :
    {S : Type 0} (alias : String) (c : Result (Marshaler × ℕ) × S) (rest : M S (Outputs × ℕ))
    → ((t : S) → IsReturned (rest t))
    → IsReturned c
    → IsReturned (next_fields alias c rest)
next_fields-IsReturned alias (ok v, r) rest each h =
    rest_fields-IsReturned alias v (rest r) (each r)
next_fields-IsReturned alias (err e, r) rest each h = h
next_fields-IsReturned alias (panic, r) rest each h = h

pub fill_fields-IsReturned :
    {Sel S : Type 0} (known : String → Bool) (value : CollectedField Sel → M S (Marshaler × ℕ))
    → ((field : CollectedField Sel) (r : S)
        → known field.field_name ≡ true
        → IsReturned (value field r))
    → (fields : List (CollectedField Sel)) (r : S) → AllNamed known fields
    → IsReturned (fill_fields value fields r)
unfolding fill_fields
fill_fields-IsReturned known value each [] r all = tt
fill_fields-IsReturned known value each (field ∷ fields) r (k, all) =
    next_fields-IsReturned field.alias (value field r) (fill_fields value fields)
      (λ t. fill_fields-IsReturned known value each fields t all) (each field r k)

field_set-IsReturned :
    {S : Type 0} (c : Result (Outputs × ℕ) × S) → IsReturned c → IsReturned (field_set c)
field_set-IsReturned (ok o, r) h = tt
field_set-IsReturned (err e, r) h = h
field_set-IsReturned (panic, r) h = h

count_null-IsReturned :
    {S : Type 0} (c : Result Marshaler × S)
    → IsReturned c
    → IsReturned (count_null (rooted (c.0, (c.1, 0))))
count_null-IsReturned (ok m, r) h = tt
count_null-IsReturned (err e, r) h = h
count_null-IsReturned (panic, r) h = h

rooted-IsReturned :
    {S : Type 0} (c : Result Marshaler × S) → IsReturned c → IsReturned (rooted (c.0, (c.1, 0)))
rooted-IsReturned (ok m, r) h = tt
rooted-IsReturned (err e, r) h = h
rooted-IsReturned (panic, r) h = h

module _ {Sel S : Type 0} (rt : Runtime Sel S) (finds : FindsReports rt)
    (transparent : IsRootTransparent rt) (resolvers : ResolverRoot S) where
  inner_users-IsReturned :
      (c : Result Marshaler × Run S)
      → IsReturned c
      → IsReturned (rooted (inner_users rt resolvers c 0))
  inner_users-IsReturned (ok m, r) h = tt
  inner_users-IsReturned (err e, r) h = h
  inner_users-IsReturned (panic, r) h = tt

  inner_user-IsReturned :
      (c : Result Marshaler × Run S)
      → IsReturned c
      → IsReturned (rooted (inner_user rt resolvers c 0))
  inner_user-IsReturned (ok m, r) h = tt
  inner_user-IsReturned (err e, r) h = h
  inner_user-IsReturned (panic, r) h = tt

  module _ (q : FieldPath) (field : CollectedField Sel) (r : Run S) where
    create_user-IsReturned : IsReturned (mutation_create_user rt resolvers q field r)
    unfolding mutation_create_user field_context_create_user
    create_user-IsReturned =
        with_context-IsReturned rt q (create_user_args rt q field.arguments) _ r (λ args t.
          resolve-IsReturned rt invalid _ _ (refused-IsTold rt finds q _)
            (marshal_n_user-told rt finds q field.selections) q (call_create_user rt resolvers args)
            t)

    update_user-IsReturned : IsReturned (mutation_update_user rt resolvers q field r)
    unfolding mutation_update_user field_context_update_user
    update_user-IsReturned =
        with_context-IsReturned rt q (update_user_args rt q field.arguments) _ r (λ args t.
          resolve-IsReturned rt invalid _ _ (refused-IsTold rt finds q _)
            (marshal_n_user-told rt finds q field.selections) q (call_update_user rt resolvers args)
            t)

    delete_user-IsReturned : IsReturned (mutation_delete_user rt resolvers q field r)
    unfolding mutation_delete_user field_context_delete_user
    delete_user-IsReturned =
        with_context-IsReturned rt q (delete_user_args rt q field.arguments) _ r (λ args t.
          resolve-IsReturned rt invalid _ _ (refused-IsTold rt finds q _)
            (marshal_n_boolean-told rt finds q) q (call_delete_user rt resolvers args) t)

    users-IsReturned : IsReturned (query_users rt resolvers q field r)
    unfolding query_users field_context_users
    users-IsReturned = with_context-IsReturned rt q (users_args rt q field.arguments) _ r (λ args t.
        resolve-IsReturned rt invalid _ _ (refused-IsTold rt finds q _)
          (marshal_n_users-told rt finds q field.selections) q (call_users rt resolvers args) t)

    user-IsReturned : IsReturned (query_user rt resolvers q field r)
    unfolding query_user field_context_user
    user-IsReturned = with_context-IsReturned rt q (user_args rt q field.arguments) _ r (λ args t.
        resolve-IsReturned rt nothing _ _ (λ u. (λ p. cc, λ p. p))
          (marshal_o_user-told rt finds q field.selections) q (call_user rt resolvers args) t)

    type-IsReturned : IsReturned (query_type rt resolvers q field r)
    unfolding query_type field_context_type told_rules
    type-IsReturned = with_context-IsReturned rt q (type_args rt q field.arguments) _ r (λ args t.
        resolve-IsReturned rt nothing _ _ (λ u. (λ p. cc, λ p. p))
          (marshal_type-Holds rt (told_rules rt finds) field.selections q) q
          (call_type rt resolvers args) t)

    schema-IsReturned : IsReturned (query_schema rt resolvers q field r)
    unfolding query_schema told_rules
    schema-IsReturned =
        resolve-IsReturned rt nothing _ _ (λ u. (λ p. cc, λ p. p))
          (marshal_o_schema-Holds rt (told_rules rt finds) field.selections q) q
          (introspect_schema rt resolvers) r

  mutation_field-IsReturned :
      (field : CollectedField Sel) (r : Run S)
      → is_mutation_field field.field_name ≡ true
      → IsReturned (mutation_field rt resolvers field r)
  unfolding mutation_field
  mutation_field-IsReturned field r known =
      let q = field_path [] field in
      case_split IsReturned (field.field_name == "__typename") _ tt
        (case_split IsReturned (field.field_name == "createUser") _
          (rw (transparent (beside (mutation_create_user rt resolvers q field)) (r, 0))
            (count_null-IsReturned _ (create_user-IsReturned q field r)))
          (case_split IsReturned (field.field_name == "updateUser") _
            (rw (transparent (beside (mutation_update_user rt resolvers q field)) (r, 0))
              (count_null-IsReturned _ (update_user-IsReturned q field r)))
            (last_case IsReturned (field.field_name == "deleteUser") _ (
              rw (transparent (beside (mutation_delete_user rt resolvers q field)) (r, 0))
                (count_null-IsReturned _ (delete_user-IsReturned q field r))))))
        known

  query_field-IsReturned :
      (field : CollectedField Sel) (r : Run S)
      → is_root_query_field field.field_name ≡ true
      → IsReturned (query_field rt resolvers field r)
  unfolding query_field
  query_field-IsReturned field r known =
      let q = field_path [] field in
      case_split IsReturned (field.field_name == "__typename") _ tt
        (case_split IsReturned (field.field_name == "users") _
          (rw
            (transparent (λ t. inner_users rt resolvers (query_users rt resolvers q field t.0) t.1)
              (r, 0))
            (inner_users-IsReturned _ (users-IsReturned q field r)))
          (case_split IsReturned (field.field_name == "user") _
            (rw
              (transparent (λ t. inner_user rt resolvers (query_user rt resolvers q field t.0) t.1)
                (r, 0))
              (inner_user-IsReturned _ (user-IsReturned q field r)))
            (case_split IsReturned (field.field_name == "__type") _
              (rw (transparent (beside (query_type rt resolvers q field)) (r, 0))
                (rooted-IsReturned _ (type-IsReturned q field r)))
              (last_case IsReturned (field.field_name == "__schema") _ (
                rw (transparent (beside (query_schema rt resolvers q field)) (r, 0))
                  (rooted-IsReturned _ (schema-IsReturned q field r)))))))
        known

  -- A mutation whose collected fields are fields of Mutation returns data, and so does a query
  -- whose collected fields are fields of Query, those of introspection included: a resolver that fails or panics
  -- stops neither. It is assumed that a field error which package graphql finds is a report, and
  -- that no extension wraps root fields.
  pub operations-return :
      (sel sel' : Sel) (r : Run S)
      → AllNamed is_mutation_field (rt.collect_fields sel "Mutation")
      → AllNamed is_root_query_field (rt.collect_fields sel' "Query")
      → ((m : Marshaler) × (t : Run S) × (mutation_object rt resolvers sel r ≡ (ok m, t)))
        × ((m : Marshaler) × (t : Run S) × (query_object rt resolvers sel' r ≡ (ok m, t)))
  unfolding mutation_object query_object
  operations-return sel sel' r mutations queries = (
    IsReturned-value _ (
        field_set-IsReturned _ (
          fill_fields-IsReturned is_mutation_field (mutation_field rt resolvers)
            mutation_field-IsReturned (rt.collect_fields sel "Mutation") r mutations)),
    IsReturned-value _ (
        field_set-IsReturned _ (
          fill_fields-IsReturned is_root_query_field (query_field rt resolvers)
            query_field-IsReturned (rt.collect_fields sel' "Query") r queries)),
  )
