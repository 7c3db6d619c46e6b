-- ===== src/Graph/Executor/Introspect/TypeRules.antt =====
-- The rules for types.
use maxwell_go_spine.Prelude.{◌≡◌, refl, ℕ, zero, suc, ◌==◌}
use maxwell_go_spine.Go.Error.{Result, ok, err, panic, M, then_call}
use maxwell_go_spine.Graph.{answer}
use maxwell_go_spine.Graph.Introspection.{TypeRef}
use maxwell_go_spine.Graph.Executor.{null, Args, as_bool, FieldPath, Run, CollectedField, Runtime}
use maxwell_go_spine.Graph.Executor.Args.{arg, type_enum_values_args, type_fields_args}
use maxwell_go_spine.Graph.Executor.Objects.{field_path, weigh, nothing}
use maxwell_go_spine.Graph.Executor.Introspect.{
  Marshals, to_string, to_type, to_types, to_fields, to_enum_values, to_input_values,
}
use maxwell_go_spine.Graph.Executor.Introspect.EnumValues.{enum_value_object}
use maxwell_go_spine.Graph.Executor.Introspect.InputValues.{input_value_object}
use maxwell_go_spine.Graph.Executor.Introspect.Fields.{type_field_object}
use maxwell_go_spine.Graph.Executor.Introspect.Types.{
  marshal_n_type_kind, type_kind, type_name, type_description, field_context_type_fields,
  field_context_type_enum_values, call_fields, call_enum_values, type_fields, type_interfaces,
  type_possible_types, type_enum_values, type_input_fields, type_of_type, type_specified_by_url,
  type_value_field, type_value_object, type_object, types, marshal_type,
}
use maxwell_go_spine.Graph.Executor.Introspect.Rules.{
  FieldRules, HoldsAt, AllHold, asserted-Holds, o_pointer-Holds, o_list-Holds, nullable-Holds,
  text_field-Holds, non_null-Holds,
}
use maxwell_go_spine.Graph.Executor.Switches.{if_split}
use maxwell_go_spine.Graph.Executor.Introspect.Objects.{
  enum_value_object-Holds, input_value_object-Holds, type_field_object-Holds,
}

-- Calls that leave the state as it is.
pub then_call-still :
    {S A B : Type 0} (x : Result A) (f : A → M S B)
    → ((a : A) (s : S) → (f a s).1 ≡ s)
    → (s : S) → (then_call (x, s) f).1 ≡ s
then_call-still (ok a) f each s = each a s
then_call-still (err e) f each s = refl
then_call-still panic f each s = refl

pub answer-still : {S A B : Type 0} (f : A → B) (x : Result A) (s : S) → (answer f (x, s)).1 ≡ s
answer-still f (ok a) s = refl
answer-still f (err e) s = refl
answer-still f panic s = refl

module _ {Sel S : Type 0} (rt : Runtime Sel S) (rules : FieldRules rt) where
  marshal_n_type_kind-Holds : AllHold rt rules (marshal_n_type_kind rt)
  unfolding marshal_n_type_kind
  marshal_n_type_kind-Holds q t r = rules.not_null_holds q (rt.marshal_string t) r

  call_fields-still : (obj : TypeRef) (args : Args) (s : S) → (call_fields rt obj args s).1 ≡ s
  call_fields-still obj args =
      then_call-still (as_bool (arg "includeDeprecated" args)) _
        (λ b t. answer-still _ ((rt.introspection.methods obj).fields b) t)

  call_enum_values-still :
      (obj : TypeRef) (args : Args) (s : S) → (call_enum_values rt obj args s).1 ≡ s
  call_enum_values-still obj args =
      then_call-still (as_bool (arg "includeDeprecated" args)) _
        (λ b t. answer-still _ ((rt.introspection.methods obj).enum_values b) t)

  module _ (types : Sel → Marshals S TypeRef)
      (each : (sel : Sel) → AllHold rt rules (types sel)) where
    type_fields-Holds :
        (field : CollectedField Sel) (q : FieldPath) (obj : TypeRef) (r : Run S)
        → rules.Holds r (
            weigh nothing
              (type_fields rt (type_field_object rt types field.selections) field q obj r))
    unfolding type_fields field_context_type_fields
    type_fields-Holds field q obj r =
        rules.with_context_holds nothing q (type_fields_args rt q field.arguments) _ r (λ args t.
          rules.resolve_holds nothing _ _ (rules.value_holds null)
            (asserted-Holds rt rules nothing to_fields _ (
              o_list-Holds rt rules _ (type_field_object-Holds rt rules types each field.selections)
                q))
            q (call_fields rt obj args) (call_fields-still obj args) t)

    type_enum_values-Holds :
        (field : CollectedField Sel) (q : FieldPath) (obj : TypeRef) (r : Run S)
        → rules.Holds r (
            weigh nothing
              (type_enum_values rt (enum_value_object rt field.selections) field q obj r))
    unfolding type_enum_values field_context_type_enum_values
    type_enum_values-Holds field q obj r =
        rules.with_context_holds nothing q (type_enum_values_args rt q field.arguments) _ r
          (λ args t.
            rules.resolve_holds nothing _ _ (rules.value_holds null)
              (asserted-Holds rt rules nothing to_enum_values _
                (o_list-Holds rt rules _ (enum_value_object-Holds rt rules field.selections) q))
              q (call_enum_values rt obj args) (call_enum_values-still obj args) t)

    type_value_field-Holds :
        (p : FieldPath) (obj : TypeRef) (field : CollectedField Sel) (r : Run S)
        → rules.Holds r (
            type_value_field rt
              (types field.selections)
              (type_field_object rt types field.selections)
              (input_value_object rt types field.selections)
              p
              obj
              field
              r)
    unfolding type_value_field type_kind type_name type_description type_interfaces
        type_possible_types type_input_fields type_of_type type_specified_by_url
    type_value_field-Holds p obj field r =
        let q = field_path p field in
        let P = rules.Holds r in
        if_split P (field.field_name == "__typename") (rules.value_holds _ r) (
          if_split P (field.field_name == "kind")
            (non_null-Holds rt rules to_string _ marshal_n_type_kind-Holds q _ r)
            (if_split P (field.field_name == "name") (text_field-Holds rt rules q _ r) (
              if_split P (field.field_name == "description") (text_field-Holds rt rules q _ r) (
                if_split P (field.field_name == "fields") (type_fields-Holds field q obj r) (
                  if_split P (field.field_name == "interfaces")
                    (nullable-Holds rt rules to_types _
                      (o_list-Holds rt rules (types field.selections) (each field.selections)) q _
                      r)
                    (if_split P (field.field_name == "possibleTypes")
                      (nullable-Holds rt rules to_types _
                        (o_list-Holds rt rules (types field.selections) (each field.selections)) q _
                        r)
                      (if_split P (field.field_name == "enumValues")
                        (type_enum_values-Holds field q obj r)
                        (if_split P (field.field_name == "inputFields")
                          (nullable-Holds rt rules to_input_values _
                            (o_list-Holds rt rules _
                              (input_value_object-Holds rt rules types each field.selections))
                            q _ r)
                          (if_split P (field.field_name == "ofType")
                            (nullable-Holds rt rules to_type _
                              (o_pointer-Holds rt rules (types field.selections)
                                (each field.selections))
                              q _ r)
                            (if_split P (field.field_name == "specifiedByURL")
                              (text_field-Holds rt rules q _ r) (rules.panic_holds r)))))))))))

    type_value_object-Holds : (sel : Sel) → AllHold rt rules (type_value_object rt types sel)
    unfolding type_value_object
    type_value_object-Holds sel p obj r =
        rules.object_holds
          (λ field.
            type_value_field rt (types field.selections)
              (type_field_object rt types field.selections)
              (input_value_object rt types field.selections) p obj field)
          (type_value_field-Holds p obj) (rt.collect_fields sel "__Type") r

  type_object-Holds : (n : ℕ) (sel : Sel) → AllHold rt rules (type_object rt n sel)
  unfolding type_object
  type_object-Holds zero sel p obj r = rules.panic_holds r
  type_object-Holds (suc n) sel p obj r =
      type_value_object-Holds (type_object rt n) (type_object-Holds n) sel p obj r

  pub types-Holds : (sel : Sel) → AllHold rt rules (types rt sel)
  unfolding types
  types-Holds sel = type_object-Holds (suc (rt.depth sel)) sel

  pub marshal_type-Holds :
      (sel : Sel) (q : FieldPath) → HoldsAt rt rules nothing (marshal_type rt sel q)
  unfolding marshal_type
  marshal_type-Holds sel q =
      asserted-Holds rt rules nothing to_type _
        (o_pointer-Holds rt rules (types rt sel) (types-Holds sel) q)
