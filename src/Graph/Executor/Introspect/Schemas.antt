-- ===== src/Graph/Executor/Introspect/Schemas.antt =====
-- The object `__Schema` of graph/generated/generated.go.
use maxwell_go_spine.Prelude.{ℕ, ◌==◌, if◌then◌else◌}
use maxwell_go_spine.Go.Error.{ok, panic, M}
use maxwell_go_spine.Graph.Introspection.{SchemaMethods}
use maxwell_go_spine.Graph.Executor.{
  Marshaler, Any, string_pointer, introspected, directive_slice, FieldPath, Run, CollectedField,
  Runtime,
}
use maxwell_go_spine.Graph.Executor.Objects.{
  field_path, counting, uncounted, fill_fields, field_set,
}
use maxwell_go_spine.Graph.Executor.Introspect.{
  to_type, to_schema, to_types, to_directives, Marshals, asserted, marshal_n_type, marshal_o_type,
  marshal_n_types, marshal_n_directives, o_pointer, non_null, nullable, text_field, gives,
  type_result, types_result,
}
use maxwell_go_spine.Graph.Executor.Introspect.Types.{types}
use maxwell_go_spine.Graph.Executor.Introspect.Directives.{directive_object}

module _ {Sel S : Type 0} (rt : Runtime Sel S) where
  abbrev pub SchemaValue : Type 0
  SchemaValue = Sel → FieldPath → SchemaMethods → M (Run S) Marshaler

  unfoldable pub schema_description : FieldPath → SchemaMethods → M (Run S) Marshaler
  schema_description q obj = text_field rt q (gives string_pointer obj.description)

  unfoldable pub schema_types : SchemaValue
  schema_types sel q obj =
      non_null rt to_types (marshal_n_types rt (types rt sel)) q (types_result obj.types)

  unfoldable pub schema_query_type : SchemaValue
  schema_query_type sel q obj =
      non_null rt to_type (marshal_n_type rt (types rt sel)) q (type_result obj.query_type)

  unfoldable pub schema_mutation_type : SchemaValue
  schema_mutation_type sel q obj =
      nullable rt to_type (marshal_o_type rt (types rt sel)) q (type_result obj.mutation_type)

  unfoldable pub schema_subscription_type : SchemaValue
  schema_subscription_type sel q obj =
      nullable rt to_type (marshal_o_type rt (types rt sel)) q (type_result obj.subscription_type)

  unfoldable pub schema_directives : SchemaValue
  schema_directives sel q obj =
      non_null rt to_directives (marshal_n_directives rt (directive_object rt sel)) q
        (gives (λ ds. introspected (directive_slice ds)) obj.directives)

  -- The switch of `___Schema`.
  unfoldable pub schema_field :
      FieldPath → SchemaMethods → CollectedField Sel → M (Run S) (Marshaler × ℕ)
  schema_field p obj field r =
      let q = field_path p field in
      let sel = field.selections in
      if field.field_name == "__typename"
      then uncounted (ok (rt.marshal_string "__Schema"), r)
      else if field.field_name == "description"
      then uncounted (schema_description q obj r)
      else if field.field_name == "types"
      then counting (schema_types sel q obj r)
      else if field.field_name == "queryType"
      then counting (schema_query_type sel q obj r)
      else if field.field_name == "mutationType"
      then uncounted (schema_mutation_type sel q obj r)
      else if field.field_name == "subscriptionType"
      then uncounted (schema_subscription_type sel q obj r)
      else if field.field_name == "directives"
      then counting (schema_directives sel q obj r)
      else (panic, r)

  unfoldable pub schema_object : Sel → Marshals S SchemaMethods
  schema_object sel p obj r =
      field_set (fill_fields (schema_field p obj) (rt.collect_fields sel "__Schema") r)

  unfoldable pub marshal_o_schema : Sel → FieldPath → Any → M (Run S) Marshaler
  marshal_o_schema sel q v = asserted rt (to_schema v) (o_pointer rt (schema_object sel) q)
