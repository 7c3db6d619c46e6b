-- ===== src/Graph/Executor/Answers.antt =====
-- What each root field reports, and that it returns.
use maxwell_go_spine.Prelude.{◌≡◌, ℕ, Bool, [], arith}
use maxwell_go_spine.Go.Error.{Result, ok, err, panic, M}
use maxwell_go_spine.Graph.Executor.{
  Marshaler, Args, FieldPath, Run, CollectedField, ResolverRoot, Runtime, field_context,
  with_context,
}
use maxwell_go_spine.Graph.Executor.Args.{
  create_user_args, delete_user_args, update_user_args, user_args, users_args,
}
use maxwell_go_spine.Graph.Executor.Objects.{invalid, weigh, nothing}
use maxwell_go_spine.Graph.Executor.Roots.{
  query_type, query_schema, rooted, count_null, inner_users, inner_user, call_create_user,
  call_update_user, call_delete_user, call_users, call_user, field_context_create_user,
  field_context_update_user, field_context_delete_user, field_context_users, field_context_user,
  mutation_create_user, mutation_update_user, mutation_delete_user, query_users, query_user,
}
use maxwell_go_spine.Graph.Executor.Told.{
  told, IsTold, IsReturned, FindsReports, with_context-IsTold, told-report, refused-IsTold,
  resolve-IsTold,
}
use maxwell_go_spine.Graph.Executor.Nulls.{
  marshal_n_boolean-told, marshal_n_user-told, marshal_o_user-told,
}
use maxwell_go_spine.Graph.Executor.Introspect.Told.{told_rules}
use maxwell_go_spine.Graph.Executor.Introspect.Entry.{query_type-Holds, query_schema-Holds}
use maxwell_go_spine.Graph.Executor.NullLists.{marshal_n_users-told}

-- No extension of the handler wraps root fields.
abbrev pub IsRootTransparent : {Sel S : Type 0} → Runtime Sel S → Type 0
IsRootTransparent {Sel} {S} rt =
    (f : M (Run S × ℕ) Marshaler) (t : Run S × ℕ) → rt.root_resolver_middleware f t ≡ f t

pub count_null-IsTold :
    {S : Type 0} (b : Bool) (c : Result Marshaler × Run S)
    → IsTold b (weigh invalid c)
    → IsTold b (count_null (rooted (c.0, (c.1, 0))))
count_null-IsTold b (ok m, r) (h, k) = (λ p. h (ground arith), k)
count_null-IsTold b (err e, r) h = h
count_null-IsTold b (panic, r) h = tt

pub rooted-IsTold :
    {S : Type 0} (b : Bool) (c : Result Marshaler × Run S)
    → IsTold b (weigh nothing c)
    → IsTold b (rooted (c.0, (c.1, 0)))
rooted-IsTold b (ok m, r) h = h
rooted-IsTold b (err e, r) h = h
rooted-IsTold b (panic, r) h = tt

module _ {Sel S : Type 0} (rt : Runtime Sel S) where
  pub with_context-IsReturned :
      (q : FieldPath) (d : Result Args) (f : Args → M (Run S) Marshaler) (r : Run S)
      → ((args : Args) (t : Run S) → IsReturned (f args t))
      → IsReturned (with_context (field_context rt q d r) f)
  with_context-IsReturned q (ok args) f r each = each args r
  with_context-IsReturned q (err e) f r each = tt
  with_context-IsReturned q panic f r each = tt

  pub inner_users-IsTold :
      (resolvers : ResolverRoot S) (b : Bool) (c : Result Marshaler × Run S)
      → IsTold b (weigh invalid c)
      → IsTold b (rooted (inner_users rt resolvers c 0))
  inner_users-IsTold resolvers b (ok m, r) (h, k) = (λ p. h (ground arith), k)
  inner_users-IsTold resolvers b (err e, r) h = h
  inner_users-IsTold resolvers b (panic, r) h = (λ p. told-report [] _ r, λ p. told-report [] _ r)

  pub inner_user-IsTold :
      (resolvers : ResolverRoot S) (b : Bool) (c : Result Marshaler × Run S)
      → IsTold b (weigh nothing c)
      → IsTold b (rooted (inner_user rt resolvers c 0))
  inner_user-IsTold resolvers b (ok m, r) h = h
  inner_user-IsTold resolvers b (err e, r) h = h
  inner_user-IsTold resolvers b (panic, r) h = (λ p. told-report [] _ r, λ p. told-report [] _ r)

  module _ (finds : FindsReports rt) (resolvers : ResolverRoot S) (q : FieldPath)
      (field : CollectedField Sel) (r : Run S) where
    pub create_user-IsTold :
        IsTold (told r) (weigh invalid (mutation_create_user rt resolvers q field r))
    unfolding mutation_create_user field_context_create_user
    create_user-IsTold =
        with_context-IsTold rt invalid q (create_user_args rt q field.arguments) _ r (λ args t.
          resolve-IsTold rt invalid _ _ (refused-IsTold rt finds q _)
            (marshal_n_user-told rt finds q field.selections) q (call_create_user rt resolvers args)
            t)

    pub update_user-IsTold :
        IsTold (told r) (weigh invalid (mutation_update_user rt resolvers q field r))
    unfolding mutation_update_user field_context_update_user
    update_user-IsTold =
        with_context-IsTold rt invalid q (update_user_args rt q field.arguments) _ r (λ args t.
          resolve-IsTold rt invalid _ _ (refused-IsTold rt finds q _)
            (marshal_n_user-told rt finds q field.selections) q (call_update_user rt resolvers args)
            t)

    pub delete_user-IsTold :
        IsTold (told r) (weigh invalid (mutation_delete_user rt resolvers q field r))
    unfolding mutation_delete_user field_context_delete_user
    delete_user-IsTold =
        with_context-IsTold rt invalid q (delete_user_args rt q field.arguments) _ r (λ args t.
          resolve-IsTold rt invalid _ _ (refused-IsTold rt finds q _)
            (marshal_n_boolean-told rt finds q) q (call_delete_user rt resolvers args) t)

    pub users-IsTold : IsTold (told r) (weigh invalid (query_users rt resolvers q field r))
    unfolding query_users field_context_users
    users-IsTold = with_context-IsTold rt invalid q (users_args rt q field.arguments) _ r (λ args t.
        resolve-IsTold rt invalid _ _ (refused-IsTold rt finds q _)
          (marshal_n_users-told rt finds q field.selections) q (call_users rt resolvers args) t)

    pub user-IsTold : IsTold (told r) (weigh nothing (query_user rt resolvers q field r))
    unfolding query_user field_context_user
    user-IsTold = with_context-IsTold rt nothing q (user_args rt q field.arguments) _ r (λ args t.
        resolve-IsTold rt nothing _ _ (λ u. (λ p. cc, λ p. p))
          (marshal_o_user-told rt finds q field.selections) q (call_user rt resolvers args) t)

  module _ (finds : FindsReports rt) (resolvers : ResolverRoot S) (q : FieldPath)
      (field : CollectedField Sel) (r : Run S) where
    pub type-IsTold : IsTold (told r) (weigh nothing (query_type rt resolvers q field r))
    unfolding told_rules
    type-IsTold = query_type-Holds rt resolvers (told_rules rt finds) q field r

    pub schema-IsTold : IsTold (told r) (weigh nothing (query_schema rt resolvers q field r))
    unfolding told_rules
    schema-IsTold = query_schema-Holds rt resolvers (told_rules rt finds) q field r
