-- ===== src/Graph/Executor/Introspect.antt =====
-- The objects of introspection in graph/generated/generated.go. This file has what their fields
-- share; EnumValues, InputValues, Fields, Types, Directives and Schemas have the objects. A function
-- that leads to a type takes what marshals a type, and Types closes the recursion.
pub mod EnumValues
pub mod InputValues
pub mod Fields
pub mod Types
pub mod Directives
pub mod Schemas
pub mod Rules
pub mod Objects
pub mod TypeRules
pub mod SchemaRules
pub mod Told
pub mod Entry
pub mod Enough
use maxwell_go_spine.Prelude.{String, Bool, Option, none, some, List, []}
use maxwell_go_spine.Go.Error.{Result, ok, panic, M, pure}
use maxwell_go_spine.Graph.{answer}
use maxwell_go_spine.Graph.Introspection.{
  TypeRef, EnumValue, InputValue, TypeField, Directive, SchemaMethods,
}
use maxwell_go_spine.Graph.Executor.{
  Marshaler, null, Any, string_value, string_pointer, bool_value, introspected, type_pointer,
  schema_pointer, type_slice, field_slice, input_value_slice, enum_value_slice, directive_slice,
  string_slice, FieldPath, Run, Runtime, must_not_be_null, null_element, may_be_null, resolve,
}
use maxwell_go_spine.Graph.Executor.Lists.{marshal_list}
use maxwell_go_spine.Graph.Executor.Objects.{
  not_null, marshal_n_string, marshal_n_boolean, marshal_o_string,
}

-- The type assertions on `resTmp`; `none` is a panic.
abbrev pub to_string : Any → Option String
to_string (string_value t) = some t
to_string _ = none

abbrev pub to_type : Any → Option (Option TypeRef)
to_type (introspected (type_pointer t)) = some t
to_type _ = none

abbrev pub to_schema : Any → Option (Option SchemaMethods)
to_schema (introspected (schema_pointer t)) = some t
to_schema _ = none

abbrev pub to_types : Any → Option (Option (List TypeRef))
to_types (introspected (type_slice ts)) = some ts
to_types _ = none

abbrev pub to_fields : Any → Option (Option (List TypeField))
to_fields (introspected (field_slice fs)) = some fs
to_fields _ = none

abbrev pub to_input_values : Any → Option (Option (List InputValue))
to_input_values (introspected (input_value_slice vs)) = some vs
to_input_values _ = none

abbrev pub to_enum_values : Any → Option (Option (List EnumValue))
to_enum_values (introspected (enum_value_slice vs)) = some vs
to_enum_values _ = none

abbrev pub to_directives : Any → Option (Option (List Directive))
to_directives (introspected (directive_slice ds)) = some ds
to_directives _ = none

abbrev pub to_strings : Any → Option (Option (List String))
to_strings (introspected (string_slice ts)) = some ts
to_strings _ = none

-- What marshals a value at a path of the response.
abbrev pub Marshals : Type 0 → Type 0 → Type 0
Marshals S A = FieldPath → A → M (Run S) Marshaler

-- A nil slice has no elements.
abbrev pub or_empty : {A : Type 0} → Option (List A) → List A
or_empty none = []
or_empty (some vs) = vs

module _ {Sel S : Type 0} (rt : Runtime Sel S) where
  abbrev pub asserted : {A : Type 0} → Option A → (A → M (Run S) Marshaler) → M (Run S) Marshaler
  asserted none marshal r = (panic, r)
  asserted (some a) marshal r = marshal a r

  abbrev pub unless_none :
      {A : Type 0}
      → M (Run S) Marshaler
      → (A → M (Run S) Marshaler)
      → Option A
      → M (Run S) Marshaler
  unless_none on_nil marshal none r = on_nil r
  unless_none on_nil marshal (some a) r = marshal a r

  -- A pointer, where the schema allows no null and where it allows one.
  abbrev pub n_pointer : {A : Type 0} → Marshals S A → Marshals S (Option A)
  n_pointer marshal q v = unless_none (null_element rt q) (marshal q) v

  abbrev pub o_pointer : {A : Type 0} → Marshals S A → Marshals S (Option A)
  o_pointer marshal q v = unless_none (may_be_null rt) (marshal q) v

  abbrev pub n_list : {A : Type 0} → Marshals S A → Marshals S (Option (List A))
  n_list marshal q vs = marshal_list rt marshal q (or_empty vs)

  abbrev pub o_list : {A : Type 0} → Marshals S A → Marshals S (Option (List A))
  o_list marshal q vs = unless_none (may_be_null rt) (marshal_list rt marshal q) vs

  -- The `marshal…` functions of pointers and slices, over what marshals one value.
  abbrev pub marshal_n_type : Marshals S TypeRef → Marshals S (Option TypeRef)
  marshal_n_type types = n_pointer types

  abbrev pub marshal_o_type : Marshals S TypeRef → Marshals S (Option TypeRef)
  marshal_o_type types = o_pointer types

  abbrev pub marshal_n_types : Marshals S TypeRef → Marshals S (Option (List TypeRef))
  marshal_n_types types = n_list types

  abbrev pub marshal_o_types : Marshals S TypeRef → Marshals S (Option (List TypeRef))
  marshal_o_types types = o_list types

  abbrev pub marshal_o_fields : Marshals S TypeField → Marshals S (Option (List TypeField))
  marshal_o_fields fields = o_list fields

  abbrev pub marshal_n_input_values : Marshals S InputValue → Marshals S (Option (List InputValue))
  marshal_n_input_values inputs = n_list inputs

  abbrev pub marshal_o_input_values : Marshals S InputValue → Marshals S (Option (List InputValue))
  marshal_o_input_values inputs = o_list inputs

  abbrev pub marshal_o_enum_values : Marshals S EnumValue → Marshals S (Option (List EnumValue))
  marshal_o_enum_values values = o_list values

  abbrev pub marshal_n_directives : Marshals S Directive → Marshals S (Option (List Directive))
  marshal_n_directives directives = n_list directives

  -- A field function that has no arguments: `value` is what the struct or its method gives, and
  -- `to` the type assertion.
  abbrev pub non_null :
      {A : Type 0} → (Any → Option A) → Marshals S A → FieldPath → Result Any → M (Run S) Marshaler
  non_null to marshal q value =
      resolve rt q (must_not_be_null rt q) (λ v. asserted (to v) (marshal q)) (λ s. (value, s))

  abbrev pub nullable :
      {A : Type 0} → (Any → Option A) → Marshals S A → FieldPath → Result Any → M (Run S) Marshaler
  nullable to marshal q value =
      resolve rt q (may_be_null rt) (λ v. asserted (to v) (marshal q)) (λ s. (value, s))

  -- The fields of type `String!`, `Boolean!` and `String`.
  abbrev pub string_field : FieldPath → Result Any → M (Run S) Marshaler
  string_field q value =
      resolve rt q (must_not_be_null rt q) (marshal_n_string rt q) (λ s. (value, s))

  abbrev pub boolean_field : FieldPath → Result Any → M (Run S) Marshaler
  boolean_field q value =
      resolve rt q (must_not_be_null rt q) (marshal_n_boolean rt q) (λ s. (value, s))

  abbrev pub text_field : FieldPath → Result Any → M (Run S) Marshaler
  text_field q value = resolve rt q (may_be_null rt) (marshal_o_string rt) (λ s. (value, s))

-- What a method returns, as the value of its field.
abbrev pub gives : {A : Type 0} → (A → Any) → Result A → Result Any
gives wrap (ok a) = ok (wrap a)
gives wrap (Result.err e) = Result.err e
gives wrap panic = panic

abbrev pub type_result : Result (Option TypeRef) → Result Any
type_result = gives (λ t. introspected (type_pointer t))

abbrev pub types_result : Result (Option (List TypeRef)) → Result Any
types_result = gives (λ ts. introspected (type_slice ts))

abbrev pub input_values_result : Result (Option (List InputValue)) → Result Any
input_values_result = gives (λ vs. introspected (input_value_slice vs))
