-- ===== src/Graph/Executor/Projected.antt =====
-- What a working resolver's users become in the response.
use maxwell_go_spine.Prelude.{
  ◌≡◌, refl, ℕ, suc, String, Bool, true, false, ◌==◌, Option, none, some, List, [], ◌∷◌, ◌++◌,
  if◌then◌else◌, arith,
}
use maxwell_go_spine.Go.Int.{ℤ}
use maxwell_go_spine.Go.Error.{Result, ok, M, pure}
use maxwell_go_spine.Graph.{GraphUser}
use maxwell_go_spine.Graph.Executor.{
  Marshaler, null, absent, written, array, object, Elements, no_elements, element, Outputs,
  no_outputs, output, Any, string_value, string_pointer, user_slice, index, FieldPath, Run,
  CollectedField, ResolverRoot, Runtime, resolve,
}
use maxwell_go_spine.Graph.Executor.Args.{int_pointer_arg, users_args}
use maxwell_go_spine.Graph.Executor.Lists.{any_null, elements, marshal_list}
use maxwell_go_spine.Graph.Executor.Objects.{
  field_path, invalid, counting, uncounted, fill_fields, not_null, marshal_n_id, marshal_n_string,
  marshal_o_string, user_id, user_name, user_email, user_created_at, user_updated_at,
  user_deleted_at, user_field, user_object, marshal_n_users,
}
use maxwell_go_spine.Graph.Executor.Roots.{field_context_users, query_users}
use maxwell_go_spine.Graph.Executor.Stubbed.{IsFieldTransparent}
use maxwell_go_spine.Graph.Executor.Switches.{is_user_field, AllNamed, last_case, pair_split}

-- A text or an identifier is never marshalled as `graphql.Null`.
abbrev pub MarshalsTexts : {Sel S : Type 0} → Runtime Sel S → Type 0
MarshalsTexts rt =
    (t : String) → (invalid (rt.marshal_string t) ≡ 0) × (invalid (rt.marshal_id t) ≡ 0)

-- The outputs of a list of fields, each with its value by name.
abbrev pub outputs : {Sel : Type 0} → (String → Marshaler) → List (CollectedField Sel) → Outputs
outputs value [] = no_outputs
outputs value (field ∷ fields) = output field.alias (value field.field_name) (outputs value fields)

fill_fields-outputs :
    {Sel S : Type 0} (known : String → Bool) (v : String → Marshaler)
    (value : CollectedField Sel → M S (Marshaler × ℕ))
    → ((field : CollectedField Sel) (r : S)
        → known field.field_name ≡ true
        → value field r ≡ (ok (v field.field_name, 0), r))
    → (fields : List (CollectedField Sel)) (r : S) → AllNamed known fields
    → fill_fields value fields r ≡ (ok (outputs v fields, 0), r)
unfolding fill_fields
fill_fields-outputs known v value each [] r all = refl
fill_fields-outputs known v value each (field ∷ fields) r (k, all) =
    rw (each field r k, fill_fields-outputs known v value each fields r all) refl

module _ {Sel S : Type 0} (rt : Runtime Sel S) where
  abbrev pub optional_text : Option String → Marshaler
  optional_text none = null
  optional_text (some t) = rt.marshal_string t

  -- A field of a user, by its name in the schema.
  abbrev pub field_value : GraphUser → String → Marshaler
  field_value u n =
      if n == "__typename"
      then rt.marshal_string "User"
      else if n == "id"
      then rt.marshal_id u.id
      else if n == "name"
      then rt.marshal_string u.name
      else if n == "email"
      then rt.marshal_string u.email
      else if n == "createdAt"
      then rt.marshal_string u.created_at
      else if n == "updatedAt"
      then rt.marshal_string u.updated_at
      else optional_text u.deleted_at

  abbrev pub user_output : Sel → GraphUser → Marshaler
  user_output sel u = object (outputs (field_value u) (rt.collect_fields sel "User"))

  abbrev pub users_output : Sel → List GraphUser → Elements
  users_output sel [] = no_elements
  users_output sel (u ∷ us) = element (user_output sel u) (users_output sel us)

  users_output-no_null : (sel : Sel) (us : List GraphUser) → any_null (users_output sel us) ≡ false
  unfolding any_null
  users_output-no_null sel [] = refl
  users_output-no_null sel (u ∷ us) = users_output-no_null sel us

  not_null-valid :
      (q : FieldPath) (m : Marshaler) (r : Run S) → invalid m ≡ 0 → not_null rt q m r ≡ (ok m, r)
  not_null-valid q null r h = absurd (omega (arith, h))
  not_null-valid q absent r h = refl
  not_null-valid q (written t) r h = refl
  not_null-valid q (array es) r h = refl
  not_null-valid q (object outs) r h = refl

  module _ (fields_pass : IsFieldTransparent rt) (texts : MarshalsTexts rt) where
    string-resolve :
        (q : FieldPath) (on_nil : M (Run S) Marshaler) (marshal : Any → M (Run S) Marshaler)
        (t : String) (m : Marshaler) (r : Run S)
        → marshal (string_value t) r ≡ (ok m, r)
        → resolve rt q on_nil marshal (pure (string_value t)) r ≡ (ok m, r)
    string-resolve q on_nil marshal t m r h =
        rw (fields_pass (pure (string_value t)) r.state, h) refl

    -- A text field of the struct, as the switch of `_User` counts it.
    text-field :
        (q : FieldPath) (on_nil : M (Run S) Marshaler) (t : String) (r : Run S)
        → counting (resolve rt q on_nil (marshal_n_string rt q) (pure (string_value t)) r)
          ≡ (ok (rt.marshal_string t, 0), r)
    unfolding marshal_n_string
    text-field q on_nil t r =
        let valid = (texts t).0 in
        rw
          (
            string-resolve q on_nil (marshal_n_string rt q) t (rt.marshal_string t) r
                (not_null-valid q (rt.marshal_string t) r valid),
            valid,
          )
          refl

    id-field :
        (q : FieldPath) (on_nil : M (Run S) Marshaler) (t : String) (r : Run S)
        → counting (resolve rt q on_nil (marshal_n_id rt q) (pure (string_value t)) r)
          ≡ (ok (rt.marshal_id t, 0), r)
    unfolding marshal_n_id
    id-field q on_nil t r =
        let valid = (texts t).1 in
        rw
          (
            string-resolve q on_nil (marshal_n_id rt q) t (rt.marshal_id t) r
                (not_null-valid q (rt.marshal_id t) r valid),
            valid,
          )
          refl

    pointer-field :
        (q : FieldPath) (on_nil : M (Run S) Marshaler) (t : Option String) (r : Run S)
        → uncounted (resolve rt q on_nil (marshal_o_string rt) (pure (string_pointer t)) r)
          ≡ (ok (optional_text t, 0), r)
    unfolding marshal_o_string
    pointer-field q on_nil none r = rw (fields_pass (pure (string_pointer none)) r.state) refl
    pointer-field q on_nil (some t) r =
        rw (fields_pass (pure (string_pointer (some t))) r.state) refl

    user_field-value :
        (p : FieldPath) (u : GraphUser) (field : CollectedField Sel) (r : Run S)
        → is_user_field field.field_name ≡ true
        → user_field rt p u field r ≡ (ok (field_value u field.field_name, 0), r)
    unfolding user_field user_id user_name user_email user_created_at user_updated_at
        user_deleted_at
    user_field-value p u field r known =
        let q = field_path p field in
        let Gives : Marshaler → Result (Marshaler × ℕ) × Run S → Type 0 =
          λ m c. c ≡ (ok (m, 0), r) in
        pair_split Gives (field.field_name == "__typename") _ refl
          (pair_split Gives (field.field_name == "id") _ (id-field q _ u.id r) (
            pair_split Gives (field.field_name == "name") _ (text-field q _ u.name r) (
              pair_split Gives (field.field_name == "email") _ (text-field q _ u.email r) (
                pair_split Gives (field.field_name == "createdAt") _ (text-field q _ u.created_at r)
                  (pair_split Gives (field.field_name == "updatedAt") _
                    (text-field q _ u.updated_at r)
                    (last_case (Gives (optional_text u.deleted_at))
                      (field.field_name == "deletedAt") _ (pointer-field q _ u.deleted_at r)))))))
          known

    module _ (sel : Sel) (known : AllNamed is_user_field (rt.collect_fields sel "User")) where
      user_object-output :
          (p : FieldPath) (u : GraphUser) (r : Run S)
          → user_object rt p sel u r ≡ (ok (user_output sel u), r)
      unfolding user_object
      user_object-output p u r =
          rw
            (fill_fields-outputs is_user_field (field_value u) (user_field rt p u)
              (user_field-value p u) (rt.collect_fields sel "User") r known)
            refl

      user_elements-output :
          (p : FieldPath) (us : List GraphUser) (i : ℕ) (r : Run S)
          → elements rt (λ q v. user_object rt q sel v) p i true us r
            ≡ (ok (users_output sel us, true), r)
      unfolding elements
      user_elements-output p [] i r = refl
      user_elements-output p (u ∷ us) i r =
          rw (user_object-output (p ++ (index i ∷ [])) u r, user_elements-output p us (suc i) r)
            refl

      marshal_n_users-output :
          (q : FieldPath) (us : List GraphUser) (r : Run S)
          → marshal_n_users rt q sel (user_slice us) r ≡ (ok (array (users_output sel us)), r)
      unfolding marshal_n_users marshal_list
      marshal_n_users-output q us r =
          rw (user_elements-output q us 0 r, users_output-no_null sel us) refl

  -- The field `users` whose arguments decode and whose resolver returns users is the array of the
  -- users in order, each an object of the fields that are selected, under their aliases and in the
  -- order of the selection, with the values that their names say; nothing is reported. It is
  -- assumed that the fields selected are fields of User, that texts and identifiers are marshalled
  -- as values, and that no extension wraps resolvers.
  pub query_users-output :
      (resolvers : ResolverRoot S) (q : FieldPath) (field : CollectedField Sel) (r : Run S)
      (page page_size : Option ℤ) (us : List GraphUser) (s : S)
      → IsFieldTransparent rt
      → MarshalsTexts rt
      → AllNamed is_user_field (rt.collect_fields field.selections "User")
      → int_pointer_arg rt "page" q field.arguments ≡ ok page
      → int_pointer_arg rt "pageSize" q field.arguments ≡ ok page_size
      → resolvers.query.users page page_size r.state ≡ (ok us, s)
      → query_users rt resolvers q field r
        ≡ (ok (array (users_output field.selections us)), record r { state = s })
  unfolding query_users field_context_users users_args
  query_users-output resolvers q field r page page_size us s pass texts known p p' h =
      rw
        (
          p,
          p',
          pass _ r.state,
          h,
          marshal_n_users-output pass texts field.selections known q us (record r { state = s }),
        )
        refl
