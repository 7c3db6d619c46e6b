-- ===== src/Graph/Executor/Objects.antt =====
-- The object of a user in graph/generated/generated.go: `_User`, the `_User_…` functions, and the
-- `marshal…` functions that lead there.
use maxwell_go_spine.Prelude.{
  ℕ, ◌+◌, String, ◌==◌, ltb, none, some, List, [], ◌∷◌, ◌++◌, if◌then◌else◌,
}
use maxwell_go_spine.Go.Error.{Result, ok, err, panic, M, pure}
use maxwell_go_spine.Graph.{GraphUser}
use maxwell_go_spine.Graph.Executor.{
  Marshaler, null, object, Outputs, no_outputs, output, Any, string_value, string_pointer,
  bool_value, user_pointer, user_slice, name, FieldPath, Run, CollectedField, Runtime,
  must_not_be_null, null_element, may_be_null, resolve,
}
use maxwell_go_spine.Graph.Executor.Lists.{marshal_list}

-- `field.Alias` below the path of the object.
abbrev pub field_path : {Sel : Type 0} → FieldPath → CollectedField Sel → FieldPath
field_path p field = p ++ (name field.alias ∷ [])

-- What one field adds to `Invalids`, where the schema allows no null.
abbrev pub invalid : Marshaler → ℕ
invalid null = 1
invalid m = 0

abbrev pub weigh :
    {S : Type 0} → (Marshaler → ℕ) → Result Marshaler × S → Result (Marshaler × ℕ) × S
weigh w (ok m, r) = (ok (m, w m), r)
weigh w (err e, r) = (err e, r)
weigh w (panic, r) = (panic, r)

abbrev pub nothing : Marshaler → ℕ
nothing m = 0

abbrev pub counting : {S : Type 0} → Result Marshaler × S → Result (Marshaler × ℕ) × S
counting c = weigh invalid c

abbrev pub uncounted : {S : Type 0} → Result Marshaler × S → Result (Marshaler × ℕ) × S
uncounted c = weigh nothing c

-- The loop over the collected fields: the values under their aliases, and `Invalids`.
abbrev pub rest_fields :
    {S : Type 0} → String → Marshaler × ℕ → Result (Outputs × ℕ) × S → Result (Outputs × ℕ) × S
rest_fields alias v (ok rest, r) = (ok (output alias v.0 rest.0, v.1 + rest.1), r)
rest_fields alias v (err e, r) = (err e, r)
rest_fields alias v (panic, r) = (panic, r)

abbrev pub next_fields :
    {S : Type 0}
    → String
    → Result (Marshaler × ℕ) × S
    → M S (Outputs × ℕ)
    → Result (Outputs × ℕ) × S
next_fields alias (ok v, r) rest = rest_fields alias v (rest r)
next_fields alias (err e, r) rest = (err e, r)
next_fields alias (panic, r) rest = (panic, r)

unfoldable pub fill_fields :
    {Sel S : Type 0}
    → (CollectedField Sel → M S (Marshaler × ℕ))
    → List (CollectedField Sel)
    → M S (Outputs × ℕ)
fill_fields value [] r = (ok (no_outputs, 0), r)
fill_fields value (field ∷ fields) r =
    next_fields field.alias (value field r) (fill_fields value fields)

-- `if out.Invalids > 0 { return graphql.Null }`
abbrev pub field_set : {S : Type 0} → Result (Outputs × ℕ) × S → Result Marshaler × S
field_set (ok (outs, invalids), r) = (ok (if ltb 0 invalids then null else object outs), r)
field_set (err e, r) = (err e, r)
field_set (panic, r) = (panic, r)

module _ {Sel S : Type 0} (rt : Runtime Sel S) where
  -- `marshalN…2string` and `marshalNBoolean2bool`, behind the function of package graphql.
  abbrev pub not_null : FieldPath → Marshaler → M (Run S) Marshaler
  not_null q null r = null_element rt q r
  not_null q m r = (ok m, r)

  unfoldable pub marshal_n_id : FieldPath → Any → M (Run S) Marshaler
  marshal_n_id q (string_value v) r = not_null q (rt.marshal_id v) r
  marshal_n_id q _ r = (panic, r)

  unfoldable pub marshal_n_string : FieldPath → Any → M (Run S) Marshaler
  marshal_n_string q (string_value v) r = not_null q (rt.marshal_string v) r
  marshal_n_string q _ r = (panic, r)

  unfoldable pub marshal_n_boolean : FieldPath → Any → M (Run S) Marshaler
  marshal_n_boolean q (bool_value v) r = not_null q (rt.marshal_boolean v) r
  marshal_n_boolean q _ r = (panic, r)

  unfoldable pub marshal_o_string : Any → M (Run S) Marshaler
  marshal_o_string (string_pointer none) r = (ok null, r)
  marshal_o_string (string_pointer (some v)) r = (ok (rt.marshal_string v), r)
  marshal_o_string _ r = (panic, r)

  -- A field that is in the struct: the resolver returns it.
  abbrev pub from_struct :
      FieldPath → M (Run S) Marshaler → (Any → M (Run S) Marshaler) → Any → M (Run S) Marshaler
  from_struct q on_nil marshal value = resolve rt q on_nil marshal (pure value)

  unfoldable pub user_id : FieldPath → GraphUser → M (Run S) Marshaler
  unfolding marshal_n_id
  user_id q obj = from_struct q (must_not_be_null rt q) (marshal_n_id q) (string_value obj.id)

  unfoldable pub user_name : FieldPath → GraphUser → M (Run S) Marshaler
  unfolding marshal_n_string
  user_name q obj =
      from_struct q (must_not_be_null rt q) (marshal_n_string q) (string_value obj.name)

  unfoldable pub user_email : FieldPath → GraphUser → M (Run S) Marshaler
  unfolding marshal_n_string
  user_email q obj =
      from_struct q (must_not_be_null rt q) (marshal_n_string q) (string_value obj.email)

  unfoldable pub user_created_at : FieldPath → GraphUser → M (Run S) Marshaler
  unfolding marshal_n_string
  user_created_at q obj =
      from_struct q (must_not_be_null rt q) (marshal_n_string q) (string_value obj.created_at)

  unfoldable pub user_updated_at : FieldPath → GraphUser → M (Run S) Marshaler
  unfolding marshal_n_string
  user_updated_at q obj =
      from_struct q (must_not_be_null rt q) (marshal_n_string q) (string_value obj.updated_at)

  unfoldable pub user_deleted_at : FieldPath → GraphUser → M (Run S) Marshaler
  unfolding marshal_o_string
  user_deleted_at q obj =
      from_struct q (may_be_null rt) marshal_o_string (string_pointer obj.deleted_at)

  -- The switch of `_User`.
  unfoldable pub user_field : FieldPath → GraphUser → CollectedField Sel → M (Run S) (Marshaler × ℕ)
  unfolding user_id user_name user_email user_created_at user_updated_at user_deleted_at
  user_field p obj field r =
      let q = field_path p field in
      if field.field_name == "__typename"
      then uncounted (ok (rt.marshal_string "User"), r)
      else if field.field_name == "id"
      then counting (user_id q obj r)
      else if field.field_name == "name"
      then counting (user_name q obj r)
      else if field.field_name == "email"
      then counting (user_email q obj r)
      else if field.field_name == "createdAt"
      then counting (user_created_at q obj r)
      else if field.field_name == "updatedAt"
      then counting (user_updated_at q obj r)
      else if field.field_name == "deletedAt"
      then uncounted (user_deleted_at q obj r)
      else (panic, r)

  unfoldable pub user_object : FieldPath → Sel → GraphUser → M (Run S) Marshaler
  unfolding fill_fields user_field
  user_object p sel obj r =
      field_set (fill_fields (user_field p obj) (rt.collect_fields sel "User") r)

  unfoldable pub marshal_n_user : FieldPath → Sel → Any → M (Run S) Marshaler
  unfolding user_object
  marshal_n_user q sel (user_pointer none) r = null_element rt q r
  marshal_n_user q sel (user_pointer (some v)) r = user_object q sel v r
  marshal_n_user q sel _ r = (panic, r)

  unfoldable pub marshal_o_user : FieldPath → Sel → Any → M (Run S) Marshaler
  unfolding user_object
  marshal_o_user q sel (user_pointer none) r = (ok null, r)
  marshal_o_user q sel (user_pointer (some v)) r = user_object q sel v r
  marshal_o_user q sel _ r = (panic, r)

  unfoldable pub marshal_n_users : FieldPath → Sel → Any → M (Run S) Marshaler
  unfolding marshal_list user_object
  marshal_n_users q sel (user_slice vs) r = marshal_list rt (λ p v. user_object p sel v) q vs r
  marshal_n_users q sel _ r = (panic, r)
