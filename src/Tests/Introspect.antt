-- ===== src/Tests/Introspect.antt =====
-- Introspection at concrete selections: a schema of two types, asked through chains of fields.
use maxwell_go_spine.Prelude.{
  ◌≡◌, refl, ℕ, suc, String, Bool, true, false, none, some, List, [], ◌∷◌, if◌then◌else◌, ◌==◌,
  arith,
}
use maxwell_go_spine.Go.Int.{pos}
use maxwell_go_spine.Go.Error.{plain, Result, ok, err}
use maxwell_go_spine.Graph.Introspection.{TypeRef, type_ref, TypeField, TypeMethods, SchemaMethods}
use maxwell_go_spine.Graph.Executor.{
  Marshaler, null, written, array, object, element, no_elements, output, no_outputs, Raw, boolean,
  text, name, Run, CollectedField, Runtime,
}
use maxwell_go_spine.Graph.Executor.Told.{has_reports}
use maxwell_go_spine.Graph.Executor.Objects.{fill_fields, marshal_o_string}
use maxwell_go_spine.Graph.Executor.Args.{
  type_args, type_fields_args, unmarshal_n_string, unmarshal_o_boolean,
}
use maxwell_go_spine.Graph.Executor.Lists.{elements, any_null, marshal_list}
use maxwell_go_spine.Graph.Executor.Roots.{
  introspect_type, introspect_schema, field_context_type, query_type, query_schema,
}
use maxwell_go_spine.Graph.Executor.Stubs.{resolver}
use maxwell_go_spine.Graph.Executor.Introspect.Types.{
  type_name, type_fields, type_of_type, type_value_field, type_value_object, type_object, types,
  marshal_type, field_context_type_fields,
}
use maxwell_go_spine.Graph.Executor.Introspect.Schemas.{
  schema_types, schema_query_type, schema_field, schema_object, marshal_o_schema,
}
use maxwell_go_spine.Graph.Executor.Introspect.Fields.{
  type_field_type, type_field_field, type_field_object,
}
use maxwell_go_spine.Graph.Executor.Introspect.Enough.{AllShallower}

-- A chain of fields, each the only one below the one before it.
data Chain : Type 0 where
  ended : Chain
  below : String → Chain → Chain

abbrev depth_of : Chain → ℕ
depth_of ended = 0
depth_of (below f sel) = suc (depth_of sel)

abbrev collected : String → Chain → CollectedField Chain
collected f sel = record {
  field_name = f;
  alias = f;
  arguments = ("name", text "User") ∷ ("includeDeprecated", boolean true) ∷ [];
  selections = sel;
}

abbrev collect : Chain → String → List (CollectedField Chain)
collect ended _ = []
collect (below f sel) _ = collected f sel ∷ []

abbrev string_of : Raw → Result String
string_of (text t) = ok t
string_of _ = err (plain "no text")

abbrev boolean_of : Raw → Result Bool
boolean_of (boolean b) = ok b
boolean_of _ = err (plain "no boolean")

abbrev email_field : TypeField
email_field = record {
  name = "email";
  description = ok none;
  args = none;
  value_type = some (type_ref "String");
  is_deprecated = ok false;
  deprecation_reason = ok none;
}

abbrev methods_of : TypeRef → TypeMethods
methods_of (type_ref t) = record {
  kind = if t == "List" then ok "LIST" else ok "OBJECT";
  name = if t == "List" then ok none else ok (some t);
  description = ok none;
  fields = λ b. if t == "User" then ok (some (email_field ∷ [])) else ok none;
  interfaces = ok none;
  possible_types = ok none;
  enum_values = λ b. ok none;
  input_fields = ok none;
  of_type = if t == "List" then ok (some (type_ref "User")) else ok none;
  specified_by_url = ok none;
}

abbrev schema_methods : SchemaMethods
schema_methods = record {
  description = ok none;
  types = ok (some (type_ref "User" ∷ type_ref "List" ∷ []));
  query_type = ok none;
  mutation_type = ok none;
  subscription_type = ok none;
  directives = ok none;
}

abbrev rt : Runtime Chain ℕ
rt = record {
  collect_fields = collect;
  unmarshal_string = string_of;
  unmarshal_id = string_of;
  unmarshal_int = λ v. ok (pos 0);
  unmarshal_boolean = boolean_of;
  error_on_path = λ q e. e;
  marshal_string = written;
  marshal_id = written;
  marshal_boolean = λ b. written (if b then "true" else "false");
  has_field_error = λ q rs. has_reports rs;
  recovered = plain "internal system error";
  resolver_middleware = λ f. f;
  root_resolver_middleware = λ f. f;
  disable_introspection = false;
  introspection = record {
    wrap_schema = some schema_methods;
    wrap_type = λ n. some (type_ref n);
    methods = methods_of;
  };
  depth = depth_of;
}

nests : (sel : Chain) (n : String) → AllShallower rt (depth_of sel) (collect sel n)
nests ended n = tt
nests (below f sel) n = ((ground arith), tt)

abbrev start : Run ℕ
start = record { state = 5; reports = [] }

-- `{ fields { type { name } } }` of User.
abbrev field_types : Chain
field_types = below "fields" (below "type" (below "name" ended))

abbrev field_types_output : Marshaler
field_types_output = object (
    output "fields"
      (array (
        element
          (object (output "type" (object (output "name" (written "String") no_outputs)) no_outputs))
          no_elements))
      no_outputs)

introspected_fields :
    query_type rt (resolver ℕ) (name "__type" ∷ []) (collected "__type" field_types) start
    ≡ (ok field_types_output, start)
unfolding query_type field_context_type type_args unmarshal_n_string introspect_type marshal_type
    types type_object type_value_object fill_fields type_value_field type_fields
    field_context_type_fields type_fields_args unmarshal_o_boolean marshal_list elements any_null
    type_field_object type_field_field type_field_type type_name marshal_o_string
introspected_fields = refl

-- `{ types { ofType { name } } }` of the schema: a type that is no list is of none.
abbrev list_types : Chain
list_types = below "types" (below "ofType" (below "name" ended))

introspected_lists :
    query_schema rt (resolver ℕ) (name "__schema" ∷ []) (collected "__schema" list_types) start ≡ (
      ok (
          object (
            output "types"
              (array (
                element (object (output "ofType" null no_outputs)) (
                  element
                    (object (
                      output "ofType"
                        (object (output "name" (written "User") no_outputs))
                        no_outputs))
                    no_elements)))
              no_outputs)),
      start,
    )
unfolding query_schema introspect_schema marshal_o_schema schema_object schema_field schema_types
    types type_object type_value_object fill_fields type_value_field type_of_type marshal_list
    elements any_null type_name marshal_o_string
introspected_lists = refl

-- A schema without a query type is null, which is reported.
introspected_null :
    query_schema rt
      (resolver ℕ)
      (name "__schema" ∷ [])
      (collected "__schema" (below "queryType" ended))
      start
    ≡ (
      ok null,
      record {
        state = 5;
        reports =
            (
              name "__schema" ∷ name "queryType" ∷ [],
              plain "the requested element is null which the schema does not allow",
            )
            ∷ [];
      },
    )
unfolding query_schema introspect_schema marshal_o_schema schema_object schema_field
    schema_query_type fill_fields
introspected_null = refl
