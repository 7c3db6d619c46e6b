-- ===== src/Graph/Executor.antt =====
-- graph/generated/generated.go: what the executor of gqlgen works on, and the shape that all its
-- field functions share. Args decodes arguments, Lists marshals slices, Objects has the fields of a
-- user, Introspect those of introspection, Roots the operations, Complexity the schema's
-- configuration, Stubs the resolvers behind it. The map
-- `deferred` of an object is made and never written, so that no group is ever deferred and the
-- response of a query has no successor.
pub mod Args
pub mod Lists
pub mod Introspect
pub mod Objects
pub mod Roots
pub mod Stubs
pub mod Switches
pub mod Told
pub mod Nulls
pub mod NullLists
pub mod Answers
pub mod Operations
pub mod Returns
pub mod Stubbed
pub mod Unserved
pub mod Projected
pub mod Complexity
pub mod Once
use maxwell_go_spine.Prelude.{
  ℕ, String, Bool, Option, none, some, List, [], ◌∷◌, ◌++◌, if◌then◌else◌,
}
use maxwell_go_spine.Go.Int.{ℤ}
use maxwell_go_spine.Go.Error.{Err, plain, Result, ok, err, panic, M}
use maxwell_go_spine.Graph.{GraphUser}
use maxwell_go_spine.Graph.Introspection.{
  TypeRef, EnumValue, InputValue, TypeField, Directive, SchemaMethods, Introspection,
}

-- `graphql.Marshaler`: `null` is `graphql.Null`, `absent` is a nil interface, `written` is a function
-- that writes a text, `array` is `graphql.Array` and `object` is `*graphql.FieldSet`.
mutual
  pub data Marshaler : Type 0 where
    null absent : Marshaler
    written : String → Marshaler
    array : Elements → Marshaler
    object : Outputs → Marshaler

  pub data Elements : Type 0 where
    no_elements : Elements
    element : Marshaler → Elements → Elements

  pub data Outputs : Type 0 where
    no_outputs : Outputs
    output : String → Marshaler → Outputs → Outputs

-- An argument as the query or the variables give it.
pub data Raw : Type 0 where
  nil : Raw
  boolean : Bool → Raw
  integer : ℤ → Raw
  text : String → Raw
  other : String → Raw

-- The values of package introspection that the executor puts into an `interface{}`.
pub data Introspected : Type 0 where
  type_pointer : Option TypeRef → Introspected
  schema_pointer : Option SchemaMethods → Introspected
  type_slice : Option (List TypeRef) → Introspected
  field_slice : Option (List TypeField) → Introspected
  input_value_slice : Option (List InputValue) → Introspected
  enum_value_slice : Option (List EnumValue) → Introspected
  directive_slice : Option (List Directive) → Introspected
  string_slice : Option (List String) → Introspected

-- `interface{}`, of the types that the executor puts there.
pub data Any : Type 0 where
  no_value : Any
  string_value : String → Any
  string_pointer : Option String → Any
  int_pointer : Option ℤ → Any
  bool_value : Bool → Any
  user_pointer : Option GraphUser → Any
  user_slice : List GraphUser → Any
  introspected : Introspected → Any

abbrev pub RawArgs : Type 0
RawArgs = List (String × Raw)

abbrev pub Args : Type 0
Args = List (String × Any)

-- The path of a field in the response, or of an argument of it.
pub data PathPart : Type 0 where
  name : String → PathPart
  index : ℕ → PathPart

abbrev pub FieldPath : Type 0
FieldPath = List PathPart

-- The calls of `ec.Error` and `ec.Errorf`, in order.
abbrev pub Reports : Type 0
Reports = List (FieldPath × Err)

-- What the response is built from: the state of the service below, and what is reported.
pub record Run (S : Type 0) : Type 0 where
  pub state : S
  pub reports : Reports

-- `graphql.CollectedField`; `arguments` is `field.ArgumentMap(ec.Variables)`, and `Sel` is
-- `ast.SelectionSet`.
pub record CollectedField (Sel : Type 0) : Type 0 where
  pub field_name : String
  pub alias : String
  pub arguments : RawArgs
  pub selections : Sel

pub record MutationResolver (S : Type 0) : Type 0 where
  pub create_user : String → String → M S (Option GraphUser)
  pub update_user : String → Option String → Option String → M S (Option GraphUser)
  pub delete_user : String → M S Bool

pub record QueryResolver (S : Type 0) : Type 0 where
  pub users : Option ℤ → Option ℤ → M S (List GraphUser)
  pub user : String → M S (Option GraphUser)

pub record ResolverRoot (S : Type 0) : Type 0 where
  pub mutation : MutationResolver S
  pub query : QueryResolver S

-- What package graphql of gqlgen does, `ec.Recover`, and what package introspection finds; `depth`
-- is how deep a selection set nests. A function behind `RootResolverMiddleware` may write `out.Invalids`, the number beside the run.
pub record Runtime (Sel S : Type 0) : Type 0 where
  pub collect_fields : Sel → String → List (CollectedField Sel)
  pub unmarshal_string : Raw → Result String
  pub unmarshal_id : Raw → Result String
  pub unmarshal_int : Raw → Result ℤ
  pub unmarshal_boolean : Raw → Result Bool
  pub error_on_path : FieldPath → Err → Err
  pub marshal_string : String → Marshaler
  pub marshal_id : String → Marshaler
  pub marshal_boolean : Bool → Marshaler
  pub has_field_error : FieldPath → Reports → Bool
  pub recovered : Err
  pub resolver_middleware : M S Any → M S Any
  pub root_resolver_middleware : M (Run S × ℕ) Marshaler → M (Run S × ℕ) Marshaler
  pub disable_introspection : Bool
  pub introspection : Introspection
  pub depth : Sel → ℕ

-- Type assertions.
abbrev pub as_string : Any → Result String
as_string (string_value t) = ok t
as_string _ = panic

abbrev pub as_string_pointer : Any → Result (Option String)
as_string_pointer (string_pointer t) = ok t
as_string_pointer _ = panic

abbrev pub as_int_pointer : Any → Result (Option ℤ)
as_int_pointer (int_pointer n) = ok n
as_int_pointer _ = panic

abbrev pub as_bool : Any → Result Bool
as_bool (bool_value b) = ok b
as_bool _ = panic

abbrev pub report : {S : Type 0} → FieldPath → Err → Run S → Run S
report p e r = record r { reports = r.reports ++ ((p, e) ∷ []) }

-- A call on the service below, which reports nothing.
abbrev pub served : {S A : Type 0} → Result A × S → Run S → Result A × Run S
served c r = (c.0, record r { state = c.1 })

-- Behind the decoding of the arguments in a `fieldContext_` function.
abbrev pub with_context :
    {S A : Type 0} → Result A × Run S → (A → M (Run S) Marshaler) → Result Marshaler × Run S
with_context (ok args, r) f = f args r
with_context (err e, r) f = (ok null, r)
with_context (panic, r) f = (panic, r)

module _ {Sel S : Type 0} (rt : Runtime Sel S) where
  -- A `fieldContext_` function: the arguments, or an error that is reported; a panic is one too.
  abbrev pub field_context : FieldPath → Result Args → M (Run S) Args
  field_context q (ok args) r = (ok args, r)
  field_context q (err e) r = (err e, report q e r)
  field_context q panic r = (err rt.recovered, report q rt.recovered r)

  -- The deferred `recover` of a field function.
  abbrev pub caught : FieldPath → Result Marshaler × Run S → Result Marshaler × Run S
  caught q (ok m, r) = (ok m, r)
  caught q (err e, r) = (err e, r)
  caught q (panic, r) = (ok null, report q rt.recovered r)

  -- A null that the schema does not allow.
  abbrev pub refused : FieldPath → String → M (Run S) Marshaler
  refused q why r =
      if rt.has_field_error q r.reports then (ok null, r) else (ok null, report q (plain why) r)

  abbrev pub must_not_be_null : FieldPath → M (Run S) Marshaler
  must_not_be_null q r = refused q "must not be null" r

  abbrev pub null_element : FieldPath → M (Run S) Marshaler
  null_element q r = refused q "the requested element is null which the schema does not allow" r

  abbrev pub may_be_null : M (Run S) Marshaler
  may_be_null r = (ok null, r)

  abbrev pub unless_nil :
      M (Run S) Marshaler → (Any → M (Run S) Marshaler) → Any → M (Run S) Marshaler
  unless_nil on_nil marshal no_value r = on_nil r
  unless_nil on_nil marshal value r = marshal value r

  -- Behind `ec.ResolverMiddleware`.
  abbrev pub resolved :
      FieldPath
      → M (Run S) Marshaler
      → (Any → M (Run S) Marshaler)
      → Result Any × Run S
      → Result Marshaler × Run S
  resolved q on_nil marshal (ok value, r) = unless_nil on_nil marshal value r
  resolved q on_nil marshal (err e, r) = (ok null, report q e r)
  resolved q on_nil marshal (panic, r) = (panic, r)

  -- A field function behind its `fieldContext_`: `on_nil` is its branch for a result nil, and
  -- `marshal` has the type assertion and the call that it returns.
  abbrev pub resolve :
      FieldPath → M (Run S) Marshaler → (Any → M (Run S) Marshaler) → M S Any → M (Run S) Marshaler
  resolve q on_nil marshal call r =
      caught q (resolved q on_nil marshal (served (rt.resolver_middleware call r.state) r))
