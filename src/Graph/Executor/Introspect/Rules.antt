-- ===== src/Graph/Executor/Introspect/Rules.antt =====
-- The rules by which a fact about field functions goes through the objects of introspection, as an
-- interface: Told fills it with what is reported.
use maxwell_go_spine.Prelude.{◌≡◌, refl, ℕ, String, Option, none, some, List}
use maxwell_go_spine.Go.Error.{Result, ok, panic, M}
use maxwell_go_spine.Graph.Executor.{
  Marshaler, null, Any, Args, FieldPath, Run, CollectedField, Runtime, field_context, with_context,
  refused, resolve,
}
use maxwell_go_spine.Graph.Executor.Lists.{marshal_list}
use maxwell_go_spine.Graph.Executor.Objects.{
  invalid, weigh, nothing, fill_fields, field_set, not_null, marshal_n_string, marshal_n_boolean,
  marshal_o_string,
}
use maxwell_go_spine.Graph.Executor.Introspect.{
  Marshals, or_empty, asserted, n_pointer, o_pointer, n_list, o_list, non_null, nullable,
  string_field, boolean_field, text_field,
}

-- `Holds r c` is the fact, of the outcome `c` from the run `r`.
pub record FieldRules {Sel S : Type 0} (rt : Runtime Sel S) : Type 1 where
  pub Holds : Run S → Result (Marshaler × ℕ) × Run S → Type 0
  pub value_holds : (m : Marshaler) (r : Run S) → Holds r (weigh nothing (ok m, r))
  pub panic_holds : (r : Run S) → Holds r (panic, r)
  pub uncounted_holds :
      (r : Run S) (c : Result Marshaler × Run S)
      → Holds r (weigh invalid c)
      → Holds r (weigh nothing c)
  pub not_null_holds :
      (q : FieldPath) (m : Marshaler) (r : Run S) → Holds r (weigh invalid (not_null rt q m r))
  pub refused_holds :
      (q : FieldPath) (why : String) (r : Run S) → Holds r (weigh invalid (refused rt q why r))
  pub string_holds :
      (q : FieldPath) (v : Any) (r : Run S) → Holds r (weigh invalid (marshal_n_string rt q v r))
  pub boolean_holds :
      (q : FieldPath) (v : Any) (r : Run S) → Holds r (weigh invalid (marshal_n_boolean rt q v r))
  pub text_holds : (v : Any) (r : Run S) → Holds r (weigh nothing (marshal_o_string rt v r))
  pub resolve_holds :
      (w : Marshaler → ℕ) (on_nil : M (Run S) Marshaler) (marshal : Any → M (Run S) Marshaler)
      → ((r : Run S) → Holds r (weigh w (on_nil r)))
      → ((v : Any) (r : Run S) → Holds r (weigh w (marshal v r)))
      → (q : FieldPath) (call : M S Any) → ((s : S) → (call s).1 ≡ s)
      → (r : Run S) → Holds r (weigh w (resolve rt q on_nil marshal call r))
  pub with_context_holds :
      (w : Marshaler → ℕ) (q : FieldPath) (d : Result Args) (f : Args → M (Run S) Marshaler)
      (r : Run S)
      → ((args : Args) (t : Run S) → Holds t (weigh w (f args t)))
      → Holds r (weigh w (with_context (field_context rt q d r) f))
  pub list_holds :
      {A : Type 0} (value : FieldPath → A → M (Run S) Marshaler)
      → ((q : FieldPath) (v : A) (r : Run S) → Holds r (weigh invalid (value q v r)))
      → (q : FieldPath) (vs : List A) (r : Run S)
      → Holds r (weigh invalid (marshal_list rt value q vs r))
  pub object_holds :
      (value : CollectedField Sel → M (Run S) (Marshaler × ℕ))
      → ((field : CollectedField Sel) (r : Run S) → Holds r (value field r))
      → (fields : List (CollectedField Sel)) (r : Run S)
      → Holds r (weigh invalid (field_set (fill_fields value fields r)))

module _ {Sel S : Type 0} (rt : Runtime Sel S) (rules : FieldRules rt) where
  -- The fact, whatever the value is.
  abbrev pub HoldsAt : {A : Type 0} → (Marshaler → ℕ) → (A → M (Run S) Marshaler) → Type 0
  HoldsAt {A} w marshal = (a : A) (r : Run S) → rules.Holds r (weigh w (marshal a r))

  abbrev pub AllHold : {A : Type 0} → Marshals S A → Type 0
  AllHold marshal = (q : FieldPath) → HoldsAt invalid (marshal q)

  pub asserted-Holds :
      {A : Type 0} (w : Marshaler → ℕ) (to : Any → Option A) (marshal : A → M (Run S) Marshaler)
      → HoldsAt w marshal
      → HoldsAt w (λ v. asserted rt (to v) marshal)
  asserted-Holds {A} w to marshal each v = by_cases (to v)
    where
      by_cases : HoldsAt w (λ (o : Option A). asserted rt o marshal)
      by_cases none r = rules.panic_holds r
      by_cases (some a) r = each a r

  module _ {A : Type 0} (marshal : Marshals S A) (each : AllHold marshal) where
    pub o_pointer-Holds : (q : FieldPath) → HoldsAt nothing (o_pointer rt marshal q)
    o_pointer-Holds q none r = rules.value_holds null r
    o_pointer-Holds q (some a) r = rules.uncounted_holds r (marshal q a r) (each q a r)

    pub n_list-Holds : AllHold (n_list rt marshal)
    n_list-Holds q vs r = rules.list_holds marshal each q (or_empty vs) r

    pub o_list-Holds : (q : FieldPath) → HoldsAt nothing (o_list rt marshal q)
    o_list-Holds q none r = rules.value_holds null r
    o_list-Holds q (some vs) r =
        rules.uncounted_holds r (marshal_list rt marshal q vs r)
          (rules.list_holds marshal each q vs r)

  pub nullable-Holds :
      {A : Type 0} (to : Any → Option A) (marshal : Marshals S A)
      → ((q : FieldPath) → HoldsAt nothing (marshal q))
      → (q : FieldPath) → HoldsAt nothing (nullable rt to marshal q)
  nullable-Holds to marshal each q value r =
      rules.resolve_holds nothing _ _ (rules.value_holds null)
        (asserted-Holds nothing to (marshal q) (each q)) q _ (λ s. refl) r

  pub text_field-Holds : (q : FieldPath) → HoldsAt nothing (text_field rt q)
  text_field-Holds q value r =
      rules.resolve_holds nothing _ _ (rules.value_holds null) rules.text_holds q _ (λ s. refl) r

  pub n_pointer-Holds :
      {A : Type 0} (marshal : Marshals S A) → AllHold marshal → AllHold (n_pointer rt marshal)
  n_pointer-Holds marshal each q none r = rules.refused_holds q _ r
  n_pointer-Holds marshal each q (some a) r = each q a r

  pub non_null-Holds :
      {A : Type 0} (to : Any → Option A) (marshal : Marshals S A)
      → AllHold marshal
      → AllHold (non_null rt to marshal)
  non_null-Holds to marshal each q value r =
      rules.resolve_holds invalid _ _ (rules.refused_holds q _)
        (asserted-Holds invalid to (marshal q) (each q)) q _ (λ s. refl) r

  pub string_field-Holds : AllHold (string_field rt)
  string_field-Holds q value r =
      rules.resolve_holds invalid _ _ (rules.refused_holds q _) (rules.string_holds q) q _
        (λ s. refl) r

  pub boolean_field-Holds : AllHold (boolean_field rt)
  boolean_field-Holds q value r =
      rules.resolve_holds invalid _ _ (rules.refused_holds q _) (rules.boolean_holds q) q _
        (λ s. refl) r
