-- ===== src/Graph/Executor/Args.antt =====
-- The arguments of the fields in graph/generated/generated.go: the `field_…_args` functions.
use maxwell_go_spine.Prelude.{String, Bool, false, Option, none, some, [], ◌∷◌, ◌++◌}
use maxwell_go_spine.Prelude.Maps.Str.{lookup}
use maxwell_go_spine.Go.Int.{ℤ}
use maxwell_go_spine.Go.Error.{Err, Result, ok, err, panic, and_then}
use maxwell_go_spine.Graph.Executor.{
  Raw, nil, boolean, integer, text, other, Any, no_value, string_value, string_pointer, int_pointer,
  bool_value, RawArgs, Args, name, FieldPath, Runtime,
}

-- `args[key]`, which is nil on a missing key.
abbrev pub arg : String → Args → Any
arg key args = elim (lookup key args) [ none ↦ no_value | some value ↦ value ]

-- An argument that is not there is the zero value of its type.
abbrev pub or_zero : {A : Type 0} → A → (Raw → Result A) → Option Raw → Result A
or_zero zero_val unmarshal none = ok zero_val
or_zero zero_val unmarshal (some v) = unmarshal v

-- An optional argument that is there may be null.
abbrev pub unless_null : {A : Type 0} → (Raw → Result A) → Raw → Result (Option A)
unless_null unmarshal nil = ok none
unless_null unmarshal (boolean b) = and_then (unmarshal (boolean b)) (λ a. ok (some a))
unless_null unmarshal (integer n) = and_then (unmarshal (integer n)) (λ a. ok (some a))
unless_null unmarshal (text t) = and_then (unmarshal (text t)) (λ a. ok (some a))
unless_null unmarshal (other t) = and_then (unmarshal (other t)) (λ a. ok (some a))

-- `return res, graphql.ErrorOnPath(ctx, err)`
abbrev pub on_path : {A : Type 0} → (Err → Err) → Result A → Result A
on_path wrap (ok a) = ok a
on_path wrap (err e) = err (wrap e)
on_path wrap panic = panic

module _ {Sel S : Type 0} (rt : Runtime Sel S) where
  unfoldable pub unmarshal_n_string : FieldPath → Raw → Result String
  unmarshal_n_string q v = on_path (rt.error_on_path q) (rt.unmarshal_string v)

  unfoldable pub unmarshal_n_id : FieldPath → Raw → Result String
  unmarshal_n_id q v = on_path (rt.error_on_path q) (rt.unmarshal_id v)

  unfoldable pub unmarshal_o_string : FieldPath → Raw → Result (Option String)
  unmarshal_o_string q v = on_path (rt.error_on_path q) (unless_null rt.unmarshal_string v)

  unfoldable pub unmarshal_o_int : FieldPath → Raw → Result (Option ℤ)
  unmarshal_o_int q v = on_path (rt.error_on_path q) (unless_null rt.unmarshal_int v)

  unfoldable pub unmarshal_o_boolean : FieldPath → Raw → Result Bool
  unmarshal_o_boolean q v = on_path (rt.error_on_path q) (rt.unmarshal_boolean v)

  -- One argument of each type, under its name.
  abbrev pub string_arg : String → FieldPath → RawArgs → Result String
  string_arg key q raw = or_zero "" (unmarshal_n_string (q ++ (name key ∷ []))) (lookup key raw)

  abbrev pub id_arg : String → FieldPath → RawArgs → Result String
  id_arg key q raw = or_zero "" (unmarshal_n_id (q ++ (name key ∷ []))) (lookup key raw)

  abbrev pub string_pointer_arg : String → FieldPath → RawArgs → Result (Option String)
  string_pointer_arg key q raw =
      or_zero none (unmarshal_o_string (q ++ (name key ∷ []))) (lookup key raw)

  abbrev pub int_pointer_arg : String → FieldPath → RawArgs → Result (Option ℤ)
  int_pointer_arg key q raw = or_zero none (unmarshal_o_int (q ++ (name key ∷ []))) (lookup key raw)

  unfoldable pub create_user_args : FieldPath → RawArgs → Result Args
  unfolding unmarshal_n_string
  create_user_args q raw = and_then (string_arg "name" q raw) (λ arg0.
      and_then (string_arg "email" q raw)
        (λ arg1. ok (("name", string_value arg0) ∷ ("email", string_value arg1) ∷ [])))

  unfoldable pub delete_user_args : FieldPath → RawArgs → Result Args
  unfolding unmarshal_n_id
  delete_user_args q raw =
      and_then (id_arg "id" q raw) (λ arg0. ok (("id", string_value arg0) ∷ []))

  unfoldable pub update_user_args : FieldPath → RawArgs → Result Args
  unfolding unmarshal_n_id unmarshal_o_string
  update_user_args q raw = and_then (id_arg "id" q raw) (λ arg0.
      and_then (string_pointer_arg "name" q raw) (λ arg1.
        and_then (string_pointer_arg "email" q raw) (λ arg2. ok (
          ("id", string_value arg0)
          ∷ ("name", string_pointer arg1)
          ∷ ("email", string_pointer arg2)
          ∷ []))))

  unfoldable pub type_args : FieldPath → RawArgs → Result Args
  unfolding unmarshal_n_string
  type_args q raw =
      and_then (string_arg "name" q raw) (λ arg0. ok (("name", string_value arg0) ∷ []))

  unfoldable pub user_args : FieldPath → RawArgs → Result Args
  unfolding unmarshal_n_id
  user_args q raw = and_then (id_arg "id" q raw) (λ arg0. ok (("id", string_value arg0) ∷ []))

  unfoldable pub users_args : FieldPath → RawArgs → Result Args
  unfolding unmarshal_o_int
  users_args q raw = and_then (int_pointer_arg "page" q raw) (λ arg0.
      and_then (int_pointer_arg "pageSize" q raw)
        (λ arg1. ok (("page", int_pointer arg0) ∷ ("pageSize", int_pointer arg1) ∷ [])))

  abbrev pub boolean_arg : String → FieldPath → RawArgs → Result Bool
  boolean_arg key q raw =
      or_zero false (unmarshal_o_boolean (q ++ (name key ∷ []))) (lookup key raw)

  unfoldable pub type_enum_values_args : FieldPath → RawArgs → Result Args
  unfolding unmarshal_o_boolean
  type_enum_values_args q raw =
      and_then (boolean_arg "includeDeprecated" q raw)
        (λ arg0. ok (("includeDeprecated", bool_value arg0) ∷ []))

  unfoldable pub type_fields_args : FieldPath → RawArgs → Result Args
  unfolding unmarshal_o_boolean
  type_fields_args q raw =
      and_then (boolean_arg "includeDeprecated" q raw)
        (λ arg0. ok (("includeDeprecated", bool_value arg0) ∷ []))
