-- ===== src/Graph/Executor/Introspect/Told.antt =====
-- What introspection reports: the rules, filled.
use maxwell_go_spine.Graph.Executor.{Runtime}
use maxwell_go_spine.Graph.Executor.Objects.{fill_fields}
use maxwell_go_spine.Graph.Executor.Introspect.Rules.{FieldRules}
use maxwell_go_spine.Graph.Executor.Told.{
  told, IsTold, FindsReports, refused-IsTold, not_null-IsTold, resolve-IsTold, with_context-IsTold,
  fill_fields-IsTold, field_set-IsTold,
}
use maxwell_go_spine.Graph.Executor.Nulls.{
  marshal_n_string-told, marshal_n_boolean-told, marshal_o_string-told, uncounted-IsTold,
}
use maxwell_go_spine.Graph.Executor.NullLists.{marshal_list-told}

-- A null that counts as invalid is told.
unfoldable pub told_rules : {Sel S : Type 0} (rt : Runtime Sel S) → FindsReports rt → FieldRules rt
told_rules rt finds = record {
  Holds = λ r c. IsTold (told r) c;
  value_holds = λ m r. (λ p. cc, λ p. p);
  panic_holds = λ r. tt;
  uncounted_holds = λ r c h. uncounted-IsTold rt finds (told r) c h;
  not_null_holds = not_null-IsTold rt finds;
  refused_holds = refused-IsTold rt finds;
  string_holds = marshal_n_string-told rt finds;
  boolean_holds = marshal_n_boolean-told rt finds;
  text_holds = marshal_o_string-told rt finds;
  resolve_holds =
      λ w on_nil marshal f g q call same r. resolve-IsTold rt w on_nil marshal f g q call r;
  with_context_holds = with_context-IsTold rt;
  list_holds = marshal_list-told rt;
  object_holds = λ value each fields r.
      field_set-IsTold (told r) (fill_fields value fields r)
        (fill_fields-IsTold value each fields r);
}
