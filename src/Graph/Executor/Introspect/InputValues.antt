-- ===== src/Graph/Executor/Introspect/InputValues.antt =====
-- The object `__InputValue` of graph/generated/generated.go.
use maxwell_go_spine.Prelude.{ℕ, ◌==◌, if◌then◌else◌}
use maxwell_go_spine.Go.Error.{ok, panic, M}
use maxwell_go_spine.Graph.Introspection.{TypeRef, InputValue}
use maxwell_go_spine.Graph.Executor.{
  Marshaler, string_value, string_pointer, introspected, type_pointer, FieldPath, Run,
  CollectedField, Runtime,
}
use maxwell_go_spine.Graph.Executor.Objects.{
  field_path, counting, uncounted, fill_fields, field_set,
}
use maxwell_go_spine.Graph.Executor.Introspect.{
  to_type, Marshals, marshal_n_type, non_null, string_field, text_field, gives,
}

module _ {Sel S : Type 0} (rt : Runtime Sel S) where
  unfoldable pub input_value_name : FieldPath → InputValue → M (Run S) Marshaler
  input_value_name q obj = string_field rt q (ok (string_value obj.name))

  unfoldable pub input_value_description : FieldPath → InputValue → M (Run S) Marshaler
  input_value_description q obj = text_field rt q (gives string_pointer obj.description)

  -- `types` marshals a type under the selections of the field.
  unfoldable pub input_value_type :
      Marshals S TypeRef → FieldPath → InputValue → M (Run S) Marshaler
  input_value_type types q obj =
      non_null rt to_type (marshal_n_type rt types) q
        (ok (introspected (type_pointer obj.value_type)))

  unfoldable pub input_value_default_value : FieldPath → InputValue → M (Run S) Marshaler
  input_value_default_value q obj = text_field rt q (ok (string_pointer obj.default_value))

  -- The switch of `___InputValue`.
  unfoldable pub input_value_field :
      Marshals S TypeRef → FieldPath → InputValue → CollectedField Sel → M (Run S) (Marshaler × ℕ)
  input_value_field types p obj field r =
      let q = field_path p field in
      if field.field_name == "__typename"
      then uncounted (ok (rt.marshal_string "__InputValue"), r)
      else if field.field_name == "name"
      then counting (input_value_name q obj r)
      else if field.field_name == "description"
      then uncounted (input_value_description q obj r)
      else if field.field_name == "type"
      then counting (input_value_type types q obj r)
      else if field.field_name == "defaultValue"
      then uncounted (input_value_default_value q obj r)
      else (panic, r)

  unfoldable pub input_value_object : (Sel → Marshals S TypeRef) → Sel → Marshals S InputValue
  input_value_object types sel p obj r = field_set (
      fill_fields (λ field. input_value_field (types field.selections) p obj field)
        (rt.collect_fields sel "__InputValue") r)
