-- ===== src/Graph/Executor/Unserved.antt =====
-- What /v1/graphql serves: the executor over the stub resolvers.
use maxwell_go_spine.Prelude.{◌≡◌, refl, String, Bool, true, false, ◌==◌, [], if◌then◌else◌, arith}
use maxwell_go_spine.Go.Error.{ok, M}
use maxwell_go_spine.Graph.Executor.{
  Marshaler, null, FieldPath, Run, CollectedField, Runtime, as_string, as_string_pointer,
  as_int_pointer, must_not_be_null, may_be_null,
}
use maxwell_go_spine.Graph.Executor.Args.{
  arg, create_user_args, delete_user_args, update_user_args, user_args, users_args,
}
use maxwell_go_spine.Graph.Executor.Objects.{
  field_path, fill_fields, marshal_n_boolean, marshal_n_user, marshal_o_user, marshal_n_users,
}
use maxwell_go_spine.Graph.Executor.Roots.{
  beside, rooted, count_null, inner_users, inner_user, call_create_user, call_update_user,
  call_delete_user, call_users, call_user, field_context_create_user, field_context_update_user,
  field_context_delete_user, field_context_users, field_context_user, mutation_create_user,
  mutation_update_user, mutation_delete_user, query_users, query_user, mutation_field,
  mutation_object, query_field, query_object,
}
use maxwell_go_spine.Graph.Executor.Stubs.{mutation_resolver, query_resolver, resolver}
use maxwell_go_spine.Graph.Executor.Answers.{IsRootTransparent}
use maxwell_go_spine.Graph.Executor.Stubbed.{
  IsFieldTransparent, then_call-IsFailed, IsStill, fill_fields-IsStill, field_set-null, IsRefused,
  with_context-IsRefused,
}
use maxwell_go_spine.Graph.Executor.Switches.{
  is_mutation_field, is_query_field, AllNamed, some_field, case_split, last_case, pair_split,
}

-- The collected fields of a mutation that call a resolver, and those of a query that may not be
-- null.
abbrev pub is_call : String → Bool
is_call n = if n == "__typename" then false else true

abbrev pub is_users : String → Bool
is_users n = if n == "__typename" then false else if n == "users" then true else false

module _ {Sel S : Type 0} (rt : Runtime Sel S) (fields_pass : IsFieldTransparent rt)
    (roots_pass : IsRootTransparent rt) where
  module _ (q : FieldPath) (field : CollectedField Sel) (r : Run S) where
    create_user-IsRefused :
        IsRefused rt fields_pass q r (mutation_create_user rt (resolver S) q field r)
    unfolding mutation_create_user field_context_create_user resolver mutation_resolver
    create_user-IsRefused =
        with_context-IsRefused rt fields_pass q (create_user_args rt q field.arguments)
          (must_not_be_null rt q) (marshal_n_user rt q field.selections)
          (call_create_user rt (resolver S)) r
          (λ args s.
            then_call-IsFailed (as_string (arg "name" args)) s _
              (λ name. then_call-IsFailed (as_string (arg "email" args)) s _ (λ email. refl)))

    update_user-IsRefused :
        IsRefused rt fields_pass q r (mutation_update_user rt (resolver S) q field r)
    unfolding mutation_update_user field_context_update_user resolver mutation_resolver
    update_user-IsRefused =
        with_context-IsRefused rt fields_pass q (update_user_args rt q field.arguments)
          (must_not_be_null rt q) (marshal_n_user rt q field.selections)
          (call_update_user rt (resolver S)) r
          (λ args s. then_call-IsFailed (as_string (arg "id" args)) s _ (λ id.
            then_call-IsFailed (as_string_pointer (arg "name" args)) s _ (λ name.
              then_call-IsFailed (as_string_pointer (arg "email" args)) s _ (λ email. refl))))

    delete_user-IsRefused :
        IsRefused rt fields_pass q r (mutation_delete_user rt (resolver S) q field r)
    unfolding mutation_delete_user field_context_delete_user resolver mutation_resolver
    delete_user-IsRefused =
        with_context-IsRefused rt fields_pass q (delete_user_args rt q field.arguments)
          (must_not_be_null rt q) (marshal_n_boolean rt q) (call_delete_user rt (resolver S)) r
          (λ args s. then_call-IsFailed (as_string (arg "id" args)) s _ (λ id. refl))

    users-IsRefused : IsRefused rt fields_pass q r (query_users rt (resolver S) q field r)
    unfolding query_users field_context_users resolver query_resolver
    users-IsRefused =
        with_context-IsRefused rt fields_pass q (users_args rt q field.arguments)
          (must_not_be_null rt q) (marshal_n_users rt q field.selections)
          (call_users rt (resolver S)) r
          (λ args s.
            then_call-IsFailed (as_int_pointer (arg "page" args)) s _ (λ page.
              then_call-IsFailed (as_int_pointer (arg "pageSize" args)) s _ (λ size. refl)))

    user-IsRefused : IsRefused rt fields_pass q r (query_user rt (resolver S) q field r)
    unfolding query_user field_context_user resolver query_resolver
    user-IsRefused =
        with_context-IsRefused rt fields_pass q (user_args rt q field.arguments) (may_be_null rt)
          (marshal_o_user rt q field.selections) (call_user rt (resolver S)) r
          (λ args s. then_call-IsFailed (as_string (arg "id" args)) s _ (λ id. refl))

  -- A refused root field leaves the state, and counts as invalid where it may not be null.
  mutation-IsStill :
      (s : S) (q : FieldPath) (f : M (Run S) Marshaler) (r : Run S)
      → r.state ≡ s
      → IsRefused rt fields_pass q r (f r)
      → IsStill s true (count_null (rooted (rt.root_resolver_middleware (beside f) (r, 0))))
  mutation-IsStill s q f r same (e, refused) =
      rw (roots_pass (beside f) (r, 0), refused) (same, λ p. ground arith)

  mutation_field-IsStill :
      (s : S) (field : CollectedField Sel) (r : Run S)
      → r.state ≡ s
      → is_mutation_field field.field_name ≡ true
      → IsStill s (is_call field.field_name) (mutation_field rt (resolver S) field r)
  unfolding mutation_field
  mutation_field-IsStill s field r same known =
      let q = field_path [] field in
      pair_split (IsStill s) (field.field_name == "__typename") _ (same, λ p. cc)
        (λ rest.
          case_split (IsStill s true) (field.field_name == "createUser") _
            (mutation-IsStill s q (mutation_create_user rt (resolver S) q field) r same
              (create_user-IsRefused q field r))
            (case_split (IsStill s true) (field.field_name == "updateUser") _
              (mutation-IsStill s q (mutation_update_user rt (resolver S) q field) r same
                (update_user-IsRefused q field r))
              (last_case (IsStill s true) (field.field_name == "deleteUser") _ (
                mutation-IsStill s q (mutation_delete_user rt (resolver S) q field) r same
                  (delete_user-IsRefused q field r))))
            rest)
        known

  query_field-IsStill :
      (s : S) (field : CollectedField Sel) (r : Run S)
      → r.state ≡ s
      → is_query_field field.field_name ≡ true
      → IsStill s (is_users field.field_name) (query_field rt (resolver S) field r)
  unfolding query_field
  query_field-IsStill s field r same known =
      let q = field_path [] field in
      let (e, no_users) = users-IsRefused q field r in
      let (e', no_user) = user-IsRefused q field r in
      pair_split (IsStill s) (field.field_name == "__typename") _ (same, λ p. cc)
        (pair_split (IsStill s) (field.field_name == "users") _
          (rw
            (
              roots_pass
                  (λ t. inner_users rt (resolver S) (query_users rt (resolver S) q field t.0) t.1)
                  (r, 0),
              no_users,
            )
            (same, λ p. ground arith))
          (λ (is_user : (field.field_name == "user") ≡ true).
            last_case (IsStill s false) (field.field_name == "user") _
              (rw
                (
                  roots_pass
                      (λ t. inner_user rt (resolver S) (query_user rt (resolver S) q field t.0) t.1)
                      (r, 0),
                  no_user,
                )
                (same, λ p. cc))
              is_user))
        known

  mutation_filled :
      (sel : Sel) (r : Run S)
      → AllNamed is_mutation_field (rt.collect_fields sel "Mutation")
      → IsStill r.state
          (some_field is_call (rt.collect_fields sel "Mutation"))
          (fill_fields (mutation_field rt (resolver S)) (rt.collect_fields sel "Mutation") r)
  mutation_filled sel r =
      fill_fields-IsStill is_mutation_field is_call (mutation_field rt (resolver S)) r.state
        (mutation_field-IsStill r.state) (rt.collect_fields sel "Mutation") r refl

  query_filled :
      (sel : Sel) (r : Run S)
      → AllNamed is_query_field (rt.collect_fields sel "Query")
      → IsStill r.state
          (some_field is_users (rt.collect_fields sel "Query"))
          (fill_fields (query_field rt (resolver S)) (rt.collect_fields sel "Query") r)
  query_filled sel r =
      fill_fields-IsStill is_query_field is_users (query_field rt (resolver S)) r.state
        (query_field-IsStill r.state) (rt.collect_fields sel "Query") r refl

  -- Over the stub resolvers, the data of a mutation is null if it selects any field but
  -- `__typename`, and that of a query is null if it selects `users`. It is assumed that the
  -- collected fields are fields of Mutation, and `users`, `user` and `__typename`, and that no
  -- extension wraps resolvers or root fields.
  pub stubs-serve_null :
      (sel sel' : Sel) (r : Run S)
      → AllNamed is_mutation_field (rt.collect_fields sel "Mutation")
      → AllNamed is_query_field (rt.collect_fields sel' "Query")
      → some_field is_call (rt.collect_fields sel "Mutation") ≡ true
      → some_field is_users (rt.collect_fields sel' "Query") ≡ true
      → ((mutation_object rt (resolver S) sel r).0 ≡ ok null)
        × ((query_object rt (resolver S) sel' r).0 ≡ ok null)
  unfolding mutation_object query_object
  stubs-serve_null sel sel' r mutations queries called listed = (
    (field_set-null r.state _ _ (mutation_filled sel r mutations)).1 called,
    (field_set-null r.state _ _ (query_filled sel' r queries)).1 listed,
  )
