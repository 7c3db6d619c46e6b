-- ===== src/Graph/Executor/Operations.antt =====
-- Whole operations: what they report, and that they return.
use maxwell_go_spine.Prelude.{
  ◌≡◌, ◌≢◌, refl, sym, ap, String, Bool, true, false, ◌==◌, Option, some, [], arith,
}
use maxwell_go_spine.Go.Error.{Result, ok, err, panic}
use maxwell_go_spine.Graph.{answer}
use maxwell_go_spine.Graph.Executor.{
  Marshaler, null, absent, written, array, object, Run, CollectedField, ResolverRoot, Runtime,
}
use maxwell_go_spine.Graph.Executor.Objects.{field_path, invalid, weigh, fill_fields}
use maxwell_go_spine.Graph.Executor.Roots.{
  query_type, query_schema, Operation, query, mutation, subscription, Reply, data_reply, beside,
  inner_users, inner_user, mutation_create_user, mutation_update_user, mutation_delete_user,
  query_users, query_user, mutation_field, mutation_object, query_field, query_object, exec,
}
use maxwell_go_spine.Graph.Executor.Told.{
  has_reports, told, IsTold, FindsReports, fill_fields-IsTold, field_set-IsTold,
}
use maxwell_go_spine.Graph.Executor.Answers.{
  type-IsTold, schema-IsTold, IsRootTransparent, count_null-IsTold, rooted-IsTold,
  inner_users-IsTold, inner_user-IsTold, create_user-IsTold, update_user-IsTold, delete_user-IsTold,
  users-IsTold, user-IsTold,
}
use maxwell_go_spine.Graph.Executor.Switches.{if_split}

answer-told :
    {S : Type 0} (b : Bool) (c : Result Marshaler × Run S)
    → IsTold b (weigh invalid c)
    → (first : Bool) (r : Run S)
    → answer {B = Option Reply × Bool} (λ d. (some (data_reply d), false)) c
      ≡ (ok (some (data_reply null), first), r)
    → has_reports r.reports ≡ true
answer-told b (ok null, t) (h, k) first r e =
    rw (ap (λ (c : Result (Option Reply × Bool) × Run _). told c.1) (sym e)) (h (ground arith))
answer-told b (ok absent, t) h first r e = cc
answer-told b (ok (written w), t) h first r e = cc
answer-told b (ok (array a), t) h first r e = cc
answer-told b (ok (object o), t) h first r e = cc
answer-told b (err e', t) h first r e = cc
answer-told b (panic, t) h first r e = cc

module _ {Sel S : Type 0} (rt : Runtime Sel S) (finds : FindsReports rt)
    (transparent : IsRootTransparent rt) (resolvers : ResolverRoot S) where
  mutation_field-IsTold :
      (field : CollectedField Sel) (r : Run S)
      → IsTold (told r) (mutation_field rt resolvers field r)
  unfolding mutation_field
  mutation_field-IsTold field r =
      let q = field_path [] field in
      let P = IsTold (told r) in
      if_split P (field.field_name == "__typename") (λ p. cc, λ p. p)
        (if_split P (field.field_name == "createUser")
          (rw (transparent (beside (mutation_create_user rt resolvers q field)) (r, 0))
            (count_null-IsTold (told r) _ (create_user-IsTold rt finds resolvers q field r)))
          (if_split P (field.field_name == "updateUser")
            (rw (transparent (beside (mutation_update_user rt resolvers q field)) (r, 0))
              (count_null-IsTold (told r) _ (update_user-IsTold rt finds resolvers q field r)))
            (if_split P (field.field_name == "deleteUser")
              (rw (transparent (beside (mutation_delete_user rt resolvers q field)) (r, 0))
                (count_null-IsTold (told r) _ (delete_user-IsTold rt finds resolvers q field r)))
              tt)))

  query_field-IsTold :
      (field : CollectedField Sel) (r : Run S) → IsTold (told r) (query_field rt resolvers field r)
  unfolding query_field
  query_field-IsTold field r =
      let q = field_path [] field in
      let P = IsTold (told r) in
      if_split P (field.field_name == "__typename") (λ p. cc, λ p. p)
        (if_split P (field.field_name == "users")
          (rw
            (transparent (λ t. inner_users rt resolvers (query_users rt resolvers q field t.0) t.1)
              (r, 0))
            (inner_users-IsTold rt resolvers (told r) _
              (users-IsTold rt finds resolvers q field r)))
          (if_split P (field.field_name == "user")
            (rw
              (transparent (λ t. inner_user rt resolvers (query_user rt resolvers q field t.0) t.1)
                (r, 0))
              (inner_user-IsTold rt resolvers (told r) _
                (user-IsTold rt finds resolvers q field r)))
            (if_split P (field.field_name == "__type")
              (rw (transparent (beside (query_type rt resolvers q field)) (r, 0))
                (rooted-IsTold (told r) _ (type-IsTold rt finds resolvers q field r)))
              (if_split P (field.field_name == "__schema")
                (rw (transparent (beside (query_schema rt resolvers q field)) (r, 0))
                  (rooted-IsTold (told r) _ (schema-IsTold rt finds resolvers q field r)))
                tt))))

  -- A query or a mutation whose data is null has at least one error in its response, whatever the
  -- resolvers do and whatever introspection finds. It is assumed that a field error which package
  -- graphql finds is a report, and that no extension wraps root fields.
  pub null_data-told :
      (one_shot : String → Bool → Option Reply × Bool) (op : Operation) (sel : Sel) (r : Run S)
      (first : Bool) (r' : Run S)
      → op ≢ subscription
      → exec rt resolvers one_shot op sel true r ≡ (ok (some (data_reply null), first), r')
      → has_reports r'.reports ≡ true
  unfolding exec mutation_object query_object
  null_data-told one_shot query sel r first r' n e =
      let fields = rt.collect_fields sel "Query" in
      answer-told (told r) _
        (field_set-IsTold (told r) (fill_fields (query_field rt resolvers) fields r)
          (fill_fields-IsTold (query_field rt resolvers) query_field-IsTold fields r))
        first r' e
  null_data-told one_shot mutation sel r first r' n e =
      let fields = rt.collect_fields sel "Mutation" in
      answer-told (told r) _
        (field_set-IsTold (told r) (fill_fields (mutation_field rt resolvers) fields r)
          (fill_fields-IsTold (mutation_field rt resolvers) mutation_field-IsTold fields r))
        first r' e
  null_data-told one_shot subscription sel r first r' n e = absurd (n refl)
