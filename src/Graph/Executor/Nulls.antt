-- ===== src/Graph/Executor/Nulls.antt =====
-- Nulls that the schema does not allow: what each object and each root field reports.
use maxwell_go_spine.Prelude.{ℕ, Bool, ◌==◌, none, some}
use maxwell_go_spine.Go.Error.{Result, ok, err, panic, M, pure}
use maxwell_go_spine.Graph.{GraphUser}
use maxwell_go_spine.Graph.Executor.{
  Marshaler, Any, no_value, string_value, string_pointer, int_pointer, bool_value, user_pointer,
  user_slice, introspected, FieldPath, Run, CollectedField, Runtime, must_not_be_null, resolve,
}
use maxwell_go_spine.Graph.Executor.Objects.{
  field_path, invalid, weigh, nothing, fill_fields, marshal_n_id, marshal_n_string,
  marshal_n_boolean, marshal_o_string, user_id, user_name, user_email, user_created_at,
  user_updated_at, user_deleted_at, user_field, user_object, marshal_n_user, marshal_o_user,
}
use maxwell_go_spine.Graph.Executor.Told.{
  told, IsTold, FindsReports, fill_fields-IsTold, field_set-IsTold, refused-IsTold, not_null-IsTold,
  resolve-IsTold,
}
use maxwell_go_spine.Graph.Executor.Switches.{if_split}

module _ {Sel S : Type 0} (rt : Runtime Sel S) (finds : FindsReports rt) where
  abbrev pub ValueTold : (Marshaler → ℕ) → (Any → M (Run S) Marshaler) → Type 0
  ValueTold w marshal = (v : Any) (r : Run S) → IsTold (told r) (weigh w (marshal v r))

  pub marshal_n_id-told : (q : FieldPath) → ValueTold invalid (marshal_n_id rt q)
  unfolding marshal_n_id
  marshal_n_id-told q (string_value v) r = not_null-IsTold rt finds q (rt.marshal_id v) r
  marshal_n_id-told q no_value r = tt
  marshal_n_id-told q (introspected v) r = tt
  marshal_n_id-told q (string_pointer v) r = tt
  marshal_n_id-told q (int_pointer v) r = tt
  marshal_n_id-told q (bool_value v) r = tt
  marshal_n_id-told q (user_pointer v) r = tt
  marshal_n_id-told q (user_slice v) r = tt

  pub marshal_n_string-told : (q : FieldPath) → ValueTold invalid (marshal_n_string rt q)
  unfolding marshal_n_string
  marshal_n_string-told q (string_value v) r = not_null-IsTold rt finds q (rt.marshal_string v) r
  marshal_n_string-told q no_value r = tt
  marshal_n_string-told q (introspected v) r = tt
  marshal_n_string-told q (string_pointer v) r = tt
  marshal_n_string-told q (int_pointer v) r = tt
  marshal_n_string-told q (bool_value v) r = tt
  marshal_n_string-told q (user_pointer v) r = tt
  marshal_n_string-told q (user_slice v) r = tt

  pub marshal_n_boolean-told : (q : FieldPath) → ValueTold invalid (marshal_n_boolean rt q)
  unfolding marshal_n_boolean
  marshal_n_boolean-told q (bool_value v) r = not_null-IsTold rt finds q (rt.marshal_boolean v) r
  marshal_n_boolean-told q no_value r = tt
  marshal_n_boolean-told q (introspected v) r = tt
  marshal_n_boolean-told q (string_value v) r = tt
  marshal_n_boolean-told q (string_pointer v) r = tt
  marshal_n_boolean-told q (int_pointer v) r = tt
  marshal_n_boolean-told q (user_pointer v) r = tt
  marshal_n_boolean-told q (user_slice v) r = tt

  pub marshal_o_string-told : ValueTold nothing (marshal_o_string rt)
  unfolding marshal_o_string
  marshal_o_string-told (string_pointer none) r = (λ p. cc, λ p. p)
  marshal_o_string-told (string_pointer (some v)) r = (λ p. cc, λ p. p)
  marshal_o_string-told no_value r = tt
  marshal_o_string-told (introspected v) r = tt
  marshal_o_string-told (string_value v) r = tt
  marshal_o_string-told (int_pointer v) r = tt
  marshal_o_string-told (bool_value v) r = tt
  marshal_o_string-told (user_pointer v) r = tt
  marshal_o_string-told (user_slice v) r = tt

  -- A field of the struct that may not be null.
  from_struct-told :
      (q : FieldPath) (marshal : Any → M (Run S) Marshaler) (v : Any)
      → ValueTold invalid marshal
      → (r : Run S)
      → IsTold (told r) (weigh invalid (resolve rt q (must_not_be_null rt q) marshal (pure v) r))
  from_struct-told q marshal v each r =
      resolve-IsTold rt invalid _ marshal (refused-IsTold rt finds q "must not be null") each q
        (pure v) r

  user_field-told :
      (p : FieldPath) (obj : GraphUser) (field : CollectedField Sel) (r : Run S)
      → IsTold (told r) (user_field rt p obj field r)
  unfolding user_field user_id user_name user_email user_created_at user_updated_at user_deleted_at
  user_field-told p obj field r =
      let q = field_path p field in
      let P = IsTold (told r) in
      if_split P (field.field_name == "__typename") (λ p. cc, λ p. p)
        (if_split P (field.field_name == "id") (from_struct-told q _ _ (marshal_n_id-told q) r) (
          if_split P (field.field_name == "name")
            (from_struct-told q _ _ (marshal_n_string-told q) r)
            (if_split P (field.field_name == "email")
              (from_struct-told q _ _ (marshal_n_string-told q) r)
              (if_split P (field.field_name == "createdAt")
                (from_struct-told q _ _ (marshal_n_string-told q) r)
                (if_split P (field.field_name == "updatedAt")
                  (from_struct-told q _ _ (marshal_n_string-told q) r)
                  (if_split P (field.field_name == "deletedAt")
                    (resolve-IsTold rt nothing _ _ (λ t. (λ p. cc, λ p. p)) marshal_o_string-told q
                      _ r)
                    tt))))))

  pub user_object-told :
      (p : FieldPath) (sel : Sel) (obj : GraphUser) (r : Run S)
      → IsTold (told r) (weigh invalid (user_object rt p sel obj r))
  unfolding user_object
  user_object-told p sel obj r =
      field_set-IsTold (told r) (fill_fields (user_field rt p obj) (rt.collect_fields sel "User") r)
        (fill_fields-IsTold (user_field rt p obj) (user_field-told p obj)
          (rt.collect_fields sel "User") r)

  pub marshal_n_user-told :
      (q : FieldPath) (sel : Sel) → ValueTold invalid (marshal_n_user rt q sel)
  unfolding marshal_n_user
  marshal_n_user-told q sel (user_pointer none) r = refused-IsTold rt finds q _ r
  marshal_n_user-told q sel (user_pointer (some v)) r = user_object-told q sel v r
  marshal_n_user-told q sel no_value r = tt
  marshal_n_user-told q sel (introspected v) r = tt
  marshal_n_user-told q sel (string_value v) r = tt
  marshal_n_user-told q sel (string_pointer v) r = tt
  marshal_n_user-told q sel (int_pointer v) r = tt
  marshal_n_user-told q sel (bool_value v) r = tt
  marshal_n_user-told q sel (user_slice v) r = tt

  pub uncounted-IsTold :
      (b : Bool) (c : Result Marshaler × Run S)
      → IsTold b (weigh invalid c)
      → IsTold b (weigh nothing c)
  uncounted-IsTold b (ok m, r) (h, k) = (λ p. cc, k)
  uncounted-IsTold b (err e, r) h = h
  uncounted-IsTold b (panic, r) h = tt

  pub marshal_o_user-told :
      (q : FieldPath) (sel : Sel) → ValueTold nothing (marshal_o_user rt q sel)
  unfolding marshal_o_user
  marshal_o_user-told q sel (user_pointer none) r = (λ p. cc, λ p. p)
  marshal_o_user-told q sel (user_pointer (some v)) r =
      uncounted-IsTold (told r) (user_object rt q sel v r) (user_object-told q sel v r)
  marshal_o_user-told q sel no_value r = tt
  marshal_o_user-told q sel (introspected v) r = tt
  marshal_o_user-told q sel (string_value v) r = tt
  marshal_o_user-told q sel (string_pointer v) r = tt
  marshal_o_user-told q sel (int_pointer v) r = tt
  marshal_o_user-told q sel (bool_value v) r = tt
  marshal_o_user-told q sel (user_slice v) r = tt
