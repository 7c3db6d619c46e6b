-- ===== src/Graph/Executor/Introspect/Enough.antt =====
-- The fuel for types: more than the selections nest changes nothing, and less is never needed.
use std.Path.{ap₂, fun_ext}
use maxwell_go_spine.Prelude.{
  ◌≡◌, refl, ap, ◌∙◌, ℕ, zero, suc, String, true, ltb, List, [], ◌∷◌, arith,
}
use maxwell_go_spine.Go.Error.{M}
use maxwell_go_spine.Graph.Introspection.{TypeRef}
use maxwell_go_spine.Graph.Executor.{Marshaler, FieldPath, Run, CollectedField, Runtime}
use maxwell_go_spine.Graph.Executor.Objects.{next_fields, fill_fields, field_set}
use maxwell_go_spine.Graph.Executor.Introspect.{Marshals}
use maxwell_go_spine.Graph.Executor.Introspect.InputValues.{input_value_field, input_value_object}
use maxwell_go_spine.Graph.Executor.Introspect.Fields.{type_field_field, type_field_object}
use maxwell_go_spine.Graph.Executor.Introspect.Types.{
  type_value_field, type_value_object, type_object,
}

-- Fields whose selections nest less than `d`.
abbrev pub AllShallower : {Sel S : Type 0} → Runtime Sel S → ℕ → List (CollectedField Sel) → Type 0
AllShallower rt d [] = Unit
AllShallower rt d (field ∷ fields) =
    (ltb (rt.depth field.selections) d ≡ true) × AllShallower rt d fields

-- The selections of a collected field nest less than the set that it is collected from.
abbrev pub Nests : {Sel S : Type 0} → Runtime Sel S → Type 0
Nests {Sel} rt =
    (sel : Sel) (type_name : String)
    → AllShallower rt (rt.depth sel) (rt.collect_fields sel type_name)

module _ {Sel S : Type 0} (rt : Runtime Sel S) where
  fill_fields-agree :
      (v w : CollectedField Sel → M (Run S) (Marshaler × ℕ)) (d : ℕ)
      → ((field : CollectedField Sel)
          → ltb (rt.depth field.selections) d ≡ true
          → v field ≡ w field)
      → (fields : List (CollectedField Sel)) → AllShallower rt d fields
      → (r : Run S) → fill_fields v fields r ≡ fill_fields w fields r
  unfolding fill_fields
  fill_fields-agree v w d each [] below r = refl
  fill_fields-agree v w d each (field ∷ fields) (b, below) r =
      ap (λ x. next_fields field.alias (x r) (fill_fields v fields)) (each field b)
      ∙ ap (next_fields field.alias (w field r))
          (fun_ext (fill_fields-agree v w d each fields below))

  abbrev pub AgreeBelow : ℕ → (Sel → Marshals S TypeRef) → (Sel → Marshals S TypeRef) → Type 0
  AgreeBelow d f g = (sel : Sel) → ltb (rt.depth sel) d ≡ true → f sel ≡ g sel

  module _ (nests : Nests rt) where
    -- An object of which each field agrees.
    object-agree :
        {A : Type 0} (v w : FieldPath → A → CollectedField Sel → M (Run S) (Marshaler × ℕ))
        (type_name : String) (sel : Sel)
        → ((field : CollectedField Sel)
            → ltb (rt.depth field.selections) (rt.depth sel) ≡ true
            → ◌≡◌ {A = FieldPath → A → M (Run S) (Marshaler × ℕ)}
                (λ p a. v p a field)
                (λ p a. w p a field))
        → ◌≡◌ {A = Marshals S A}
            (λ p a r. field_set (fill_fields (v p a) (rt.collect_fields sel type_name) r))
            (λ p a r. field_set (fill_fields (w p a) (rt.collect_fields sel type_name) r))
    object-agree v w type_name sel each = fun_ext (λ p. fun_ext (λ a. fun_ext (λ r. ap field_set (
        fill_fields-agree (v p a) (w p a) (rt.depth sel)
          (λ field below. ap (λ x. x p a) (each field below)) (rt.collect_fields sel type_name)
          (nests sel type_name) r))))

    module _ (f g : Sel → Marshals S TypeRef) where
      input_value_object-agree :
          (sel : Sel)
          → AgreeBelow (rt.depth sel) f g
          → input_value_object rt f sel ≡ input_value_object rt g sel
      unfolding input_value_object
      input_value_object-agree sel agree =
          object-agree (λ p a field. input_value_field rt (f field.selections) p a field)
            (λ p a field. input_value_field rt (g field.selections) p a field) "__InputValue" sel
            (λ field below.
              ap (λ x p a. input_value_field rt x p a field) (agree field.selections below))

      AgreeBelow-weaken : (d e : ℕ) → ltb d e ≡ true → AgreeBelow e f g → AgreeBelow d f g
      AgreeBelow-weaken d e b agree sel c = agree sel (ground arith)

      type_field_object-agree :
          (sel : Sel)
          → AgreeBelow (rt.depth sel) f g
          → type_field_object rt f sel ≡ type_field_object rt g sel
      unfolding type_field_object
      type_field_object-agree sel agree =
          object-agree
            (λ p a field.
              type_field_field rt (f field.selections) (input_value_object rt f field.selections) p
                a field)
            (λ p a field.
              type_field_field rt (g field.selections) (input_value_object rt g field.selections) p
                a field)
            "__Field" sel
            (λ field below.
              ap₂ (λ x y p a. type_field_field rt x y p a field) (agree field.selections below)
                (input_value_object-agree field.selections
                  (AgreeBelow-weaken (rt.depth field.selections) (rt.depth sel) below agree)))

      type_value_object-agree :
          (sel : Sel)
          → AgreeBelow (rt.depth sel) f g
          → type_value_object rt f sel ≡ type_value_object rt g sel
      unfolding type_value_object
      type_value_object-agree sel agree =
          object-agree
            (λ p a field.
              type_value_field rt (f field.selections) (type_field_object rt f field.selections)
                (input_value_object rt f field.selections) p a field)
            (λ p a field.
              type_value_field rt (g field.selections) (type_field_object rt g field.selections)
                (input_value_object rt g field.selections) p a field)
            "__Type" sel
            (λ field below.
              let narrow =
                AgreeBelow-weaken (rt.depth field.selections) (rt.depth sel) below agree in
              ap
                (λ x p a.
                  type_value_field rt x (type_field_object rt f field.selections)
                    (input_value_object rt f field.selections) p a field)
                (agree field.selections below)
              ∙ ap₂ (λ x y p a. type_value_field rt (g field.selections) x y p a field)
                  (type_field_object-agree field.selections narrow)
                  (input_value_object-agree field.selections narrow))

    -- A type is marshalled alike with any two amounts of fuel above the nesting of its selections,
    -- so that the fuel is never out. It is assumed that the selections of a collected field nest
    -- less than those that it is collected from.
    pub type_object-enough :
        (n m : ℕ) (sel : Sel)
        → ltb (rt.depth sel) n ≡ true
        → ltb (rt.depth sel) m ≡ true
        → type_object rt n sel ≡ type_object rt m sel
    unfolding type_object
    type_object-enough zero m sel a b = absurd (ground arith)
    type_object-enough (suc n) zero sel a b = absurd (ground arith)
    type_object-enough (suc n) (suc m) sel a b =
        type_value_object-agree (type_object rt n) (type_object rt m) sel
          (λ sel' c. type_object-enough n m sel' (ground arith) (ground arith))
