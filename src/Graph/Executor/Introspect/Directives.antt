-- ===== src/Graph/Executor/Introspect/Directives.antt =====
-- The object `__Directive` of graph/generated/generated.go.
use maxwell_go_spine.Prelude.{ℕ, String, Option, List, ◌==◌, if◌then◌else◌}
use maxwell_go_spine.Go.Error.{ok, panic, M}
use maxwell_go_spine.Graph.Introspection.{InputValue, Directive}
use maxwell_go_spine.Graph.Executor.{
  Marshaler, string_value, string_pointer, bool_value, introspected, input_value_slice,
  string_slice, FieldPath, Run, CollectedField, Runtime,
}
use maxwell_go_spine.Graph.Executor.Objects.{
  field_path, counting, uncounted, fill_fields, field_set, not_null,
}
use maxwell_go_spine.Graph.Executor.Introspect.{
  to_strings, to_input_values, Marshals, n_list, marshal_n_input_values, non_null, string_field,
  boolean_field, text_field, gives,
}
use maxwell_go_spine.Graph.Executor.Introspect.InputValues.{input_value_object}
use maxwell_go_spine.Graph.Executor.Introspect.Types.{types}

module _ {Sel S : Type 0} (rt : Runtime Sel S) where
  unfoldable pub directive_name : FieldPath → Directive → M (Run S) Marshaler
  directive_name q obj = string_field rt q (ok (string_value obj.name))

  unfoldable pub directive_description : FieldPath → Directive → M (Run S) Marshaler
  directive_description q obj = text_field rt q (gives string_pointer obj.description)

  unfoldable pub marshal_n_directive_location : Marshals S String
  marshal_n_directive_location q t = not_null rt q (rt.marshal_string t)

  abbrev pub marshal_n_directive_locations : Marshals S (Option (List String))
  marshal_n_directive_locations = n_list rt marshal_n_directive_location

  unfoldable pub directive_locations : FieldPath → Directive → M (Run S) Marshaler
  directive_locations q obj =
      non_null rt to_strings marshal_n_directive_locations q
        (ok (introspected (string_slice obj.locations)))

  -- `inputs` marshals an input value under the selections of the field.
  unfoldable pub directive_args :
      Marshals S InputValue → FieldPath → Directive → M (Run S) Marshaler
  directive_args inputs q obj =
      non_null rt to_input_values (marshal_n_input_values rt inputs) q
        (ok (introspected (input_value_slice obj.args)))

  unfoldable pub directive_is_repeatable : FieldPath → Directive → M (Run S) Marshaler
  directive_is_repeatable q obj = boolean_field rt q (ok (bool_value obj.is_repeatable))

  -- The switch of `___Directive`.
  unfoldable pub directive_field :
      FieldPath → Directive → CollectedField Sel → M (Run S) (Marshaler × ℕ)
  directive_field p obj field r =
      let q = field_path p field in
      if field.field_name == "__typename"
      then uncounted (ok (rt.marshal_string "__Directive"), r)
      else if field.field_name == "name"
      then counting (directive_name q obj r)
      else if field.field_name == "description"
      then uncounted (directive_description q obj r)
      else if field.field_name == "locations"
      then counting (directive_locations q obj r)
      else if field.field_name == "args"
      then counting (directive_args (input_value_object rt (types rt) field.selections) q obj r)
      else if field.field_name == "isRepeatable"
      then counting (directive_is_repeatable q obj r)
      else (panic, r)

  unfoldable pub directive_object : Sel → Marshals S Directive
  directive_object sel p obj r =
      field_set (fill_fields (directive_field p obj) (rt.collect_fields sel "__Directive") r)
