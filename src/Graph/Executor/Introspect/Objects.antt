-- ===== src/Graph/Executor/Introspect/Objects.antt =====
-- The rules for enum values, input values and fields.
use maxwell_go_spine.Prelude.{◌==◌}
use maxwell_go_spine.Graph.Introspection.{TypeRef, EnumValue, InputValue, TypeField}
use maxwell_go_spine.Graph.Executor.{FieldPath, Run, CollectedField, Runtime}
use maxwell_go_spine.Graph.Executor.Objects.{field_path}
use maxwell_go_spine.Graph.Executor.Introspect.{Marshals, to_type, to_input_values}
use maxwell_go_spine.Graph.Executor.Introspect.EnumValues.{
  enum_value_name, enum_value_description, enum_value_is_deprecated, enum_value_deprecation_reason,
  enum_value_field, enum_value_object,
}
use maxwell_go_spine.Graph.Executor.Introspect.InputValues.{
  input_value_name, input_value_description, input_value_type, input_value_default_value,
  input_value_field, input_value_object,
}
use maxwell_go_spine.Graph.Executor.Introspect.Fields.{
  type_field_name, type_field_description, type_field_args, type_field_type,
  type_field_is_deprecated, type_field_deprecation_reason, type_field_field, type_field_object,
}
use maxwell_go_spine.Graph.Executor.Introspect.Rules.{
  FieldRules, AllHold, n_list-Holds, text_field-Holds, n_pointer-Holds, non_null-Holds,
  string_field-Holds, boolean_field-Holds,
}
use maxwell_go_spine.Graph.Executor.Switches.{if_split}

module _ {Sel S : Type 0} (rt : Runtime Sel S) (rules : FieldRules rt) where
  enum_value_field-Holds :
      (p : FieldPath) (obj : EnumValue) (field : CollectedField Sel) (r : Run S)
      → rules.Holds r (enum_value_field rt p obj field r)
  unfolding enum_value_field enum_value_name enum_value_description enum_value_is_deprecated
      enum_value_deprecation_reason
  enum_value_field-Holds p obj field r =
      let q = field_path p field in
      let P = rules.Holds r in
      if_split P (field.field_name == "__typename") (rules.value_holds _ r) (
        if_split P (field.field_name == "name") (string_field-Holds rt rules q _ r) (
          if_split P (field.field_name == "description") (text_field-Holds rt rules q _ r) (
            if_split P (field.field_name == "isDeprecated") (boolean_field-Holds rt rules q _ r) (
              if_split P (field.field_name == "deprecationReason") (text_field-Holds rt rules q _ r)
                (rules.panic_holds r)))))

  pub enum_value_object-Holds : (sel : Sel) → AllHold rt rules (enum_value_object rt sel)
  unfolding enum_value_object
  enum_value_object-Holds sel p obj r =
      rules.object_holds (enum_value_field rt p obj) (enum_value_field-Holds p obj)
        (rt.collect_fields sel "__EnumValue") r

  -- What leads to types is as the types are.
  module _ (types : Sel → Marshals S TypeRef)
      (each : (sel : Sel) → AllHold rt rules (types sel)) where
    input_value_field-Holds :
        (p : FieldPath) (obj : InputValue) (field : CollectedField Sel) (r : Run S)
        → rules.Holds r (input_value_field rt (types field.selections) p obj field r)
    unfolding input_value_field input_value_name input_value_description input_value_type
        input_value_default_value
    input_value_field-Holds p obj field r =
        let q = field_path p field in
        let P = rules.Holds r in
        if_split P (field.field_name == "__typename") (rules.value_holds _ r) (
          if_split P (field.field_name == "name") (string_field-Holds rt rules q _ r) (
            if_split P (field.field_name == "description") (text_field-Holds rt rules q _ r) (
              if_split P (field.field_name == "type")
                (non_null-Holds rt rules to_type _
                  (n_pointer-Holds rt rules (types field.selections) (each field.selections)) q _ r)
                (if_split P (field.field_name == "defaultValue") (text_field-Holds rt rules q _ r)
                  (rules.panic_holds r)))))

    pub input_value_object-Holds : (sel : Sel) → AllHold rt rules (input_value_object rt types sel)
    unfolding input_value_object
    input_value_object-Holds sel p obj r =
        rules.object_holds (λ field. input_value_field rt (types field.selections) p obj field)
          (input_value_field-Holds p obj) (rt.collect_fields sel "__InputValue") r

    type_field_field-Holds :
        (p : FieldPath) (obj : TypeField) (field : CollectedField Sel) (r : Run S)
        → rules.Holds r (
            type_field_field rt
              (types field.selections)
              (input_value_object rt types field.selections)
              p
              obj
              field
              r)
    unfolding type_field_field type_field_name type_field_description type_field_args
        type_field_type type_field_is_deprecated type_field_deprecation_reason
    type_field_field-Holds p obj field r =
        let q = field_path p field in
        let P = rules.Holds r in
        if_split P (field.field_name == "__typename") (rules.value_holds _ r) (
          if_split P (field.field_name == "name") (string_field-Holds rt rules q _ r) (
            if_split P (field.field_name == "description") (text_field-Holds rt rules q _ r) (
              if_split P (field.field_name == "args")
                (non_null-Holds rt rules to_input_values _
                  (n_list-Holds rt rules _ (input_value_object-Holds field.selections)) q _ r)
                (if_split P (field.field_name == "type")
                  (non_null-Holds rt rules to_type _
                    (n_pointer-Holds rt rules (types field.selections) (each field.selections)) q _
                    r)
                  (if_split P (field.field_name == "isDeprecated")
                    (boolean_field-Holds rt rules q _ r)
                    (if_split P (field.field_name == "deprecationReason")
                      (text_field-Holds rt rules q _ r) (rules.panic_holds r)))))))

    pub type_field_object-Holds : (sel : Sel) → AllHold rt rules (type_field_object rt types sel)
    unfolding type_field_object
    type_field_object-Holds sel p obj r =
        rules.object_holds
          (λ field.
            type_field_field rt (types field.selections)
              (input_value_object rt types field.selections) p obj field)
          (type_field_field-Holds p obj) (rt.collect_fields sel "__Field") r
