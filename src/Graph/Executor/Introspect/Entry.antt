-- ===== src/Graph/Executor/Introspect/Entry.antt =====
-- The rules for the fields `__type` and `__schema` of a query.
use maxwell_go_spine.Prelude.{◌≡◌, refl, String}
use maxwell_go_spine.Go.Error.{Result}
use maxwell_go_spine.Graph.Executor.{
  null, Any, FieldPath, Run, CollectedField, ResolverRoot, Runtime, as_string,
}
use maxwell_go_spine.Graph.Executor.Args.{arg, type_args}
use maxwell_go_spine.Graph.Executor.Objects.{weigh, nothing}
use maxwell_go_spine.Graph.Executor.Roots.{
  introspect_type, introspect_schema, call_type, field_context_type, query_type, query_schema,
}
use maxwell_go_spine.Graph.Executor.Switches.{if_split}
use maxwell_go_spine.Graph.Executor.Introspect.Rules.{FieldRules}
use maxwell_go_spine.Graph.Executor.Introspect.TypeRules.{then_call-still, marshal_type-Holds}
use maxwell_go_spine.Graph.Executor.Introspect.SchemaRules.{marshal_o_schema-Holds}

module _ {Sel S : Type 0} (rt : Runtime Sel S) (resolvers : ResolverRoot S) where
  introspect_type-still : (n : String) (s : S) → (introspect_type rt resolvers n s).1 ≡ s
  unfolding introspect_type
  introspect_type-still n s =
      if_split (λ (c : Result Any × S). c.1 ≡ s) rt.disable_introspection refl refl

  introspect_schema-still : (s : S) → (introspect_schema rt resolvers s).1 ≡ s
  unfolding introspect_schema
  introspect_schema-still s =
      if_split (λ (c : Result Any × S). c.1 ≡ s) rt.disable_introspection refl refl

  module _ (rules : FieldRules rt) (q : FieldPath) (field : CollectedField Sel) (r : Run S) where
    pub query_type-Holds : rules.Holds r (weigh nothing (query_type rt resolvers q field r))
    unfolding query_type field_context_type
    query_type-Holds =
        rules.with_context_holds nothing q (type_args rt q field.arguments) _ r (λ args.
          rules.resolve_holds nothing _ _ (rules.value_holds null)
            (marshal_type-Holds rt rules field.selections q) q (call_type rt resolvers args)
            (then_call-still (as_string (arg "name" args)) _ introspect_type-still))

    pub query_schema-Holds : rules.Holds r (weigh nothing (query_schema rt resolvers q field r))
    unfolding query_schema
    query_schema-Holds =
        rules.resolve_holds nothing _ _ (rules.value_holds null)
          (marshal_o_schema-Holds rt rules field.selections q) q (introspect_schema rt resolvers)
          introspect_schema-still r
