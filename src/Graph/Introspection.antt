-- ===== src/Graph/Introspection.antt =====
-- What package introspection of gqlgen gives of a schema, which graph/generated/generated.go
-- marshals: the fields of its structs, and what their methods return. A pointer to a type is nil or
-- a handle, since types refer to each other; a slice is nil or a list.
use maxwell_go_spine.Prelude.{String, Bool, Option, List}
use maxwell_go_spine.Go.Error.{Result}

pub data TypeRef : Type 0 where
  type_ref : String → TypeRef

pub record EnumValue : Type 0 where
  pub name : String
  pub description : Result (Option String)
  pub is_deprecated : Result Bool
  pub deprecation_reason : Result (Option String)

pub record InputValue : Type 0 where
  pub name : String
  pub description : Result (Option String)
  pub value_type : Option TypeRef
  pub default_value : Option String

pub record TypeField : Type 0 where
  pub name : String
  pub description : Result (Option String)
  pub args : Option (List InputValue)
  pub value_type : Option TypeRef
  pub is_deprecated : Result Bool
  pub deprecation_reason : Result (Option String)

pub record Directive : Type 0 where
  pub name : String
  pub description : Result (Option String)
  pub locations : Option (List String)
  pub args : Option (List InputValue)
  pub is_repeatable : Bool

pub record TypeMethods : Type 0 where
  pub kind : Result String
  pub name : Result (Option String)
  pub description : Result (Option String)
  pub fields : Bool → Result (Option (List TypeField))
  pub interfaces : Result (Option (List TypeRef))
  pub possible_types : Result (Option (List TypeRef))
  pub enum_values : Bool → Result (Option (List EnumValue))
  pub input_fields : Result (Option (List InputValue))
  pub of_type : Result (Option TypeRef)
  pub specified_by_url : Result (Option String)

pub record SchemaMethods : Type 0 where
  pub description : Result (Option String)
  pub types : Result (Option (List TypeRef))
  pub query_type : Result (Option TypeRef)
  pub mutation_type : Result (Option TypeRef)
  pub subscription_type : Result (Option TypeRef)
  pub directives : Result (Option (List Directive))

-- `WrapSchema` and `WrapTypeFromDef` of the served schema, and what is behind a pointer to a type.
pub record Introspection : Type 0 where
  pub wrap_schema : Option SchemaMethods
  pub wrap_type : String → Option TypeRef
  pub methods : TypeRef → TypeMethods
