-- ===== src/Graph/Executor/Introspect/EnumValues.antt =====
-- The object `__EnumValue` of graph/generated/generated.go.
use maxwell_go_spine.Prelude.{ℕ, ◌==◌, if◌then◌else◌}
use maxwell_go_spine.Go.Error.{ok, panic, M}
use maxwell_go_spine.Graph.Introspection.{EnumValue}
use maxwell_go_spine.Graph.Executor.{
  Marshaler, string_value, string_pointer, bool_value, FieldPath, Run, CollectedField, Runtime,
}
use maxwell_go_spine.Graph.Executor.Objects.{
  field_path, counting, uncounted, fill_fields, field_set,
}
use maxwell_go_spine.Graph.Executor.Introspect.{
  Marshals, string_field, boolean_field, text_field, gives,
}

module _ {Sel S : Type 0} (rt : Runtime Sel S) where
  unfoldable pub enum_value_name : FieldPath → EnumValue → M (Run S) Marshaler
  enum_value_name q obj = string_field rt q (ok (string_value obj.name))

  unfoldable pub enum_value_description : FieldPath → EnumValue → M (Run S) Marshaler
  enum_value_description q obj = text_field rt q (gives string_pointer obj.description)

  unfoldable pub enum_value_is_deprecated : FieldPath → EnumValue → M (Run S) Marshaler
  enum_value_is_deprecated q obj = boolean_field rt q (gives bool_value obj.is_deprecated)

  unfoldable pub enum_value_deprecation_reason : FieldPath → EnumValue → M (Run S) Marshaler
  enum_value_deprecation_reason q obj =
      text_field rt q (gives string_pointer obj.deprecation_reason)

  -- The switch of `___EnumValue`.
  unfoldable pub enum_value_field :
      FieldPath → EnumValue → CollectedField Sel → M (Run S) (Marshaler × ℕ)
  enum_value_field p obj field r =
      let q = field_path p field in
      if field.field_name == "__typename"
      then uncounted (ok (rt.marshal_string "__EnumValue"), r)
      else if field.field_name == "name"
      then counting (enum_value_name q obj r)
      else if field.field_name == "description"
      then uncounted (enum_value_description q obj r)
      else if field.field_name == "isDeprecated"
      then counting (enum_value_is_deprecated q obj r)
      else if field.field_name == "deprecationReason"
      then uncounted (enum_value_deprecation_reason q obj r)
      else (panic, r)

  unfoldable pub enum_value_object : Sel → Marshals S EnumValue
  enum_value_object sel p obj r =
      field_set (fill_fields (enum_value_field p obj) (rt.collect_fields sel "__EnumValue") r)
