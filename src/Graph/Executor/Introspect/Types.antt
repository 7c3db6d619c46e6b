-- ===== src/Graph/Executor/Introspect/Types.antt =====
-- The object `__Type` of graph/generated/generated.go, which leads to fields, to input values and to
-- types again. What a type leads to stands under the selections of a field, so that the nesting of
-- the query bounds the recursion; where the fuel is out, there is a panic.
use maxwell_go_spine.Prelude.{ℕ, zero, suc, String, ◌==◌, if◌then◌else◌}
use maxwell_go_spine.Go.Error.{ok, panic, M, then_call}
use maxwell_go_spine.Graph.{answer}
use maxwell_go_spine.Graph.Introspection.{TypeRef, EnumValue, InputValue, TypeField}
use maxwell_go_spine.Graph.Executor.{
  Marshaler, Any, Args, string_value, string_pointer, introspected, field_slice, enum_value_slice,
  FieldPath, Run, CollectedField, Runtime, as_bool, field_context, with_context, may_be_null,
  resolve,
}
use maxwell_go_spine.Graph.Executor.Args.{arg, type_enum_values_args, type_fields_args}
use maxwell_go_spine.Graph.Executor.Objects.{
  field_path, counting, uncounted, fill_fields, field_set, not_null,
}
use maxwell_go_spine.Graph.Executor.Introspect.{
  to_string, to_type, to_types, to_fields, to_enum_values, to_input_values, Marshals, asserted,
  marshal_o_type, marshal_o_types, marshal_o_fields, marshal_o_enum_values, marshal_o_input_values,
  non_null, nullable, text_field, gives, type_result, types_result, input_values_result,
}
use maxwell_go_spine.Graph.Executor.Introspect.EnumValues.{enum_value_object}
use maxwell_go_spine.Graph.Executor.Introspect.InputValues.{input_value_object}
use maxwell_go_spine.Graph.Executor.Introspect.Fields.{type_field_object}

module _ {Sel S : Type 0} (rt : Runtime Sel S) where
  abbrev pub TypeValue : Type 0
  TypeValue = FieldPath → TypeRef → M (Run S) Marshaler

  unfoldable pub marshal_n_type_kind : Marshals S String
  marshal_n_type_kind q t = not_null rt q (rt.marshal_string t)

  unfoldable pub type_kind : TypeValue
  type_kind q obj =
      non_null rt to_string marshal_n_type_kind q
        (gives string_value (rt.introspection.methods obj).kind)

  unfoldable pub type_name : TypeValue
  type_name q obj = text_field rt q (gives string_pointer (rt.introspection.methods obj).name)

  unfoldable pub type_description : TypeValue
  type_description q obj =
      text_field rt q (gives string_pointer (rt.introspection.methods obj).description)

  unfoldable pub field_context_type_fields : FieldPath → CollectedField Sel → M (Run S) Args
  field_context_type_fields q field = field_context rt q (type_fields_args rt q field.arguments)

  unfoldable pub field_context_type_enum_values : FieldPath → CollectedField Sel → M (Run S) Args
  field_context_type_enum_values q field =
      field_context rt q (type_enum_values_args rt q field.arguments)

  abbrev pub call_fields : TypeRef → Args → M S Any
  call_fields obj args s =
      then_call (as_bool (arg "includeDeprecated" args), s)
        (λ include_deprecated t.
          answer (λ fs. introspected (field_slice fs))
            ((rt.introspection.methods obj).fields include_deprecated, t))

  abbrev pub call_enum_values : TypeRef → Args → M S Any
  call_enum_values obj args s =
      then_call (as_bool (arg "includeDeprecated" args), s)
        (λ include_deprecated t.
          answer (λ vs. introspected (enum_value_slice vs))
            ((rt.introspection.methods obj).enum_values include_deprecated, t))

  -- `fields` marshals a field under the selections, and so on.
  unfoldable pub type_fields :
      Marshals S TypeField → CollectedField Sel → FieldPath → TypeRef → M (Run S) Marshaler
  type_fields fields field q obj r = with_context (field_context_type_fields q field r) (λ args.
      resolve rt q (may_be_null rt) (λ v. asserted rt (to_fields v) (marshal_o_fields rt fields q))
        (call_fields obj args))

  unfoldable pub type_interfaces : Marshals S TypeRef → TypeValue
  type_interfaces types q obj =
      nullable rt to_types (marshal_o_types rt types) q
        (types_result (rt.introspection.methods obj).interfaces)

  unfoldable pub type_possible_types : Marshals S TypeRef → TypeValue
  type_possible_types types q obj =
      nullable rt to_types (marshal_o_types rt types) q
        (types_result (rt.introspection.methods obj).possible_types)

  unfoldable pub type_enum_values :
      Marshals S EnumValue → CollectedField Sel → FieldPath → TypeRef → M (Run S) Marshaler
  type_enum_values values field q obj r =
      with_context (field_context_type_enum_values q field r) (λ args.
        resolve rt q (may_be_null rt)
          (λ v. asserted rt (to_enum_values v) (marshal_o_enum_values rt values q))
          (call_enum_values obj args))

  unfoldable pub type_input_fields : Marshals S InputValue → TypeValue
  type_input_fields inputs q obj =
      nullable rt to_input_values (marshal_o_input_values rt inputs) q
        (input_values_result (rt.introspection.methods obj).input_fields)

  unfoldable pub type_of_type : Marshals S TypeRef → TypeValue
  type_of_type types q obj =
      nullable rt to_type (marshal_o_type rt types) q
        (type_result (rt.introspection.methods obj).of_type)

  unfoldable pub type_specified_by_url : TypeValue
  type_specified_by_url q obj =
      text_field rt q (gives string_pointer (rt.introspection.methods obj).specified_by_url)

  -- The switch of `___Type`.
  unfoldable pub type_value_field :
      Marshals S TypeRef
      → Marshals S TypeField
      → Marshals S InputValue
      → FieldPath
      → TypeRef
      → CollectedField Sel
      → M (Run S) (Marshaler × ℕ)
  type_value_field types fields inputs p obj field r =
      let q = field_path p field in
      if field.field_name == "__typename"
      then uncounted (ok (rt.marshal_string "__Type"), r)
      else if field.field_name == "kind"
      then counting (type_kind q obj r)
      else if field.field_name == "name"
      then uncounted (type_name q obj r)
      else if field.field_name == "description"
      then uncounted (type_description q obj r)
      else if field.field_name == "fields"
      then uncounted (type_fields fields field q obj r)
      else if field.field_name == "interfaces"
      then uncounted (type_interfaces types q obj r)
      else if field.field_name == "possibleTypes"
      then uncounted (type_possible_types types q obj r)
      else if field.field_name == "enumValues"
      then uncounted (type_enum_values (enum_value_object rt field.selections) field q obj r)
      else if field.field_name == "inputFields"
      then uncounted (type_input_fields inputs q obj r)
      else if field.field_name == "ofType"
      then uncounted (type_of_type types q obj r)
      else if field.field_name == "specifiedByURL"
      then uncounted (type_specified_by_url q obj r)
      else (panic, r)

  -- `___Type`, whose fields lead to `types`.
  unfoldable pub type_value_object : (Sel → Marshals S TypeRef) → Sel → Marshals S TypeRef
  type_value_object types sel p obj r = field_set (
      fill_fields
        (λ field.
          type_value_field (types field.selections) (type_field_object rt types field.selections)
            (input_value_object rt types field.selections) p obj field)
        (rt.collect_fields sel "__Type") r)

  unfoldable pub type_object : ℕ → Sel → Marshals S TypeRef
  type_object zero sel p obj r = (panic, r)
  type_object (suc n) sel p obj r = type_value_object (type_object n) sel p obj r

  -- As much fuel as the selections nest.
  unfoldable pub types : Sel → Marshals S TypeRef
  types sel = type_object (suc (rt.depth sel)) sel

  unfoldable pub marshal_type : Sel → FieldPath → Any → M (Run S) Marshaler
  marshal_type sel q v = asserted rt (to_type v) (marshal_o_type rt (types sel) q)
