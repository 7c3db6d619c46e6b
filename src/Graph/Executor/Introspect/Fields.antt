-- ===== src/Graph/Executor/Introspect/Fields.antt =====
-- The object `__Field` of graph/generated/generated.go.
use maxwell_go_spine.Prelude.{ℕ, ◌==◌, if◌then◌else◌}
use maxwell_go_spine.Go.Error.{ok, panic, M}
use maxwell_go_spine.Graph.Introspection.{TypeRef, InputValue, TypeField}
use maxwell_go_spine.Graph.Executor.{
  Marshaler, string_value, string_pointer, bool_value, introspected, type_pointer,
  input_value_slice, FieldPath, Run, CollectedField, Runtime,
}
use maxwell_go_spine.Graph.Executor.Objects.{
  field_path, counting, uncounted, fill_fields, field_set,
}
use maxwell_go_spine.Graph.Executor.Introspect.{
  to_type, to_input_values, Marshals, marshal_n_type, marshal_n_input_values, non_null,
  string_field, boolean_field, text_field, gives,
}
use maxwell_go_spine.Graph.Executor.Introspect.InputValues.{input_value_object}

module _ {Sel S : Type 0} (rt : Runtime Sel S) where
  unfoldable pub type_field_name : FieldPath → TypeField → M (Run S) Marshaler
  type_field_name q obj = string_field rt q (ok (string_value obj.name))

  unfoldable pub type_field_description : FieldPath → TypeField → M (Run S) Marshaler
  type_field_description q obj = text_field rt q (gives string_pointer obj.description)

  -- `inputs` marshals an input value under the selections of the field, and `types` a type.
  unfoldable pub type_field_args :
      Marshals S InputValue → FieldPath → TypeField → M (Run S) Marshaler
  type_field_args inputs q obj =
      non_null rt to_input_values (marshal_n_input_values rt inputs) q
        (ok (introspected (input_value_slice obj.args)))

  unfoldable pub type_field_type : Marshals S TypeRef → FieldPath → TypeField → M (Run S) Marshaler
  type_field_type types q obj =
      non_null rt to_type (marshal_n_type rt types) q
        (ok (introspected (type_pointer obj.value_type)))

  unfoldable pub type_field_is_deprecated : FieldPath → TypeField → M (Run S) Marshaler
  type_field_is_deprecated q obj = boolean_field rt q (gives bool_value obj.is_deprecated)

  unfoldable pub type_field_deprecation_reason : FieldPath → TypeField → M (Run S) Marshaler
  type_field_deprecation_reason q obj =
      text_field rt q (gives string_pointer obj.deprecation_reason)

  -- The switch of `___Field`.
  unfoldable pub type_field_field :
      Marshals S TypeRef
      → Marshals S InputValue
      → FieldPath
      → TypeField
      → CollectedField Sel
      → M (Run S) (Marshaler × ℕ)
  type_field_field types inputs p obj field r =
      let q = field_path p field in
      if field.field_name == "__typename"
      then uncounted (ok (rt.marshal_string "__Field"), r)
      else if field.field_name == "name"
      then counting (type_field_name q obj r)
      else if field.field_name == "description"
      then uncounted (type_field_description q obj r)
      else if field.field_name == "args"
      then counting (type_field_args inputs q obj r)
      else if field.field_name == "type"
      then counting (type_field_type types q obj r)
      else if field.field_name == "isDeprecated"
      then counting (type_field_is_deprecated q obj r)
      else if field.field_name == "deprecationReason"
      then uncounted (type_field_deprecation_reason q obj r)
      else (panic, r)

  unfoldable pub type_field_object : (Sel → Marshals S TypeRef) → Sel → Marshals S TypeField
  type_field_object types sel p obj r = field_set (
      fill_fields
        (λ field.
          type_field_field (types field.selections) (input_value_object rt types field.selections) p
            obj field)
        (rt.collect_fields sel "__Field") r)
