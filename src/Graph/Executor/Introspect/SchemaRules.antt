-- ===== src/Graph/Executor/Introspect/SchemaRules.antt =====
-- The rules for directives and the schema.
use maxwell_go_spine.Prelude.{◌==◌}
use maxwell_go_spine.Graph.Introspection.{Directive, SchemaMethods}
use maxwell_go_spine.Graph.Executor.{FieldPath, Run, CollectedField, Runtime}
use maxwell_go_spine.Graph.Executor.Objects.{field_path, nothing}
use maxwell_go_spine.Graph.Executor.Introspect.{
  to_type, to_schema, to_types, to_input_values, to_directives, to_strings,
}
use maxwell_go_spine.Graph.Executor.Introspect.Types.{types}
use maxwell_go_spine.Graph.Executor.Introspect.Directives.{
  directive_name, directive_description, marshal_n_directive_location, directive_locations,
  directive_args, directive_is_repeatable, directive_field, directive_object,
}
use maxwell_go_spine.Graph.Executor.Introspect.Schemas.{
  schema_description, schema_types, schema_query_type, schema_mutation_type,
  schema_subscription_type, schema_directives, schema_field, schema_object, marshal_o_schema,
}
use maxwell_go_spine.Graph.Executor.Introspect.Rules.{
  FieldRules, HoldsAt, AllHold, asserted-Holds, o_pointer-Holds, n_list-Holds, nullable-Holds,
  text_field-Holds, n_pointer-Holds, non_null-Holds, string_field-Holds, boolean_field-Holds,
}
use maxwell_go_spine.Graph.Executor.Switches.{if_split}
use maxwell_go_spine.Graph.Executor.Introspect.Objects.{input_value_object-Holds}
use maxwell_go_spine.Graph.Executor.Introspect.TypeRules.{types-Holds}

module _ {Sel S : Type 0} (rt : Runtime Sel S) (rules : FieldRules rt) where
  marshal_n_directive_location-Holds : AllHold rt rules (marshal_n_directive_location rt)
  unfolding marshal_n_directive_location
  marshal_n_directive_location-Holds q t r = rules.not_null_holds q (rt.marshal_string t) r

  directive_field-Holds :
      (p : FieldPath) (obj : Directive) (field : CollectedField Sel) (r : Run S)
      → rules.Holds r (directive_field rt p obj field r)
  unfolding directive_field directive_name directive_description directive_locations directive_args
      directive_is_repeatable
  directive_field-Holds p obj field r =
      let q = field_path p field in
      let P = rules.Holds r in
      if_split P (field.field_name == "__typename") (rules.value_holds _ r) (
        if_split P (field.field_name == "name") (string_field-Holds rt rules q _ r) (
          if_split P (field.field_name == "description") (text_field-Holds rt rules q _ r) (
            if_split P (field.field_name == "locations")
              (non_null-Holds rt rules to_strings _
                (n_list-Holds rt rules _ marshal_n_directive_location-Holds) q _ r)
              (if_split P (field.field_name == "args")
                (non_null-Holds rt rules to_input_values _
                  (n_list-Holds rt rules _ (
                    input_value_object-Holds rt rules (types rt) (types-Holds rt rules)
                      field.selections))
                  q _ r)
                (if_split P (field.field_name == "isRepeatable")
                  (boolean_field-Holds rt rules q _ r) (rules.panic_holds r))))))

  directive_object-Holds : (sel : Sel) → AllHold rt rules (directive_object rt sel)
  unfolding directive_object
  directive_object-Holds sel p obj r =
      rules.object_holds (directive_field rt p obj) (directive_field-Holds p obj)
        (rt.collect_fields sel "__Directive") r

  schema_field-Holds :
      (p : FieldPath) (obj : SchemaMethods) (field : CollectedField Sel) (r : Run S)
      → rules.Holds r (schema_field rt p obj field r)
  unfolding schema_field schema_description schema_types schema_query_type schema_mutation_type
      schema_subscription_type schema_directives
  schema_field-Holds p obj field r =
      let q = field_path p field in
      let sel = field.selections in
      let P = rules.Holds r in
      if_split P (field.field_name == "__typename") (rules.value_holds _ r) (
        if_split P (field.field_name == "description") (text_field-Holds rt rules q _ r) (
          if_split P (field.field_name == "types")
            (non_null-Holds rt rules to_types _
              (n_list-Holds rt rules (types rt sel) (types-Holds rt rules sel)) q _ r)
            (if_split P (field.field_name == "queryType")
              (non_null-Holds rt rules to_type _
                (n_pointer-Holds rt rules (types rt sel) (types-Holds rt rules sel)) q _ r)
              (if_split P (field.field_name == "mutationType")
                (nullable-Holds rt rules to_type _
                  (o_pointer-Holds rt rules (types rt sel) (types-Holds rt rules sel)) q _ r)
                (if_split P (field.field_name == "subscriptionType")
                  (nullable-Holds rt rules to_type _
                    (o_pointer-Holds rt rules (types rt sel) (types-Holds rt rules sel)) q _ r)
                  (if_split P (field.field_name == "directives")
                    (non_null-Holds rt rules to_directives _
                      (n_list-Holds rt rules _ (directive_object-Holds sel)) q _ r)
                    (rules.panic_holds r)))))))

  schema_object-Holds : (sel : Sel) → AllHold rt rules (schema_object rt sel)
  unfolding schema_object
  schema_object-Holds sel p obj r =
      rules.object_holds (schema_field rt p obj) (schema_field-Holds p obj)
        (rt.collect_fields sel "__Schema") r

  pub marshal_o_schema-Holds :
      (sel : Sel) (q : FieldPath) → HoldsAt rt rules nothing (marshal_o_schema rt sel q)
  unfolding marshal_o_schema
  marshal_o_schema-Holds sel q =
      asserted-Holds rt rules nothing to_schema _
        (o_pointer-Holds rt rules (schema_object rt sel) (schema_object-Holds sel) q)
