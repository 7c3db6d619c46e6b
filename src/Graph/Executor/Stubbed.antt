-- ===== src/Graph/Executor/Stubbed.antt =====
-- Rules for an executor whose resolvers fail.
use maxwell_go_spine.Prelude.{
  ◌≡◌, refl, ap, ℕ, String, Bool, true, false, ltb, List, [], ◌∷◌, if◌then◌else◌, arith,
}
use maxwell_go_spine.Go.Error.{Err, Result, ok, err, panic, M, then_call}
use maxwell_go_spine.Graph.Executor.{
  Marshaler, null, Outputs, Any, Args, FieldPath, Run, CollectedField, Runtime, report, served,
  caught, resolved, resolve, field_context, with_context,
}
use maxwell_go_spine.Graph.Executor.Objects.{rest_fields, next_fields, fill_fields, field_set}
use maxwell_go_spine.Graph.Executor.Switches.{AllNamed, some_field}

-- No extension of the handler wraps resolvers.
abbrev pub IsFieldTransparent : {Sel S : Type 0} → Runtime Sel S → Type 0
IsFieldTransparent {Sel} {S} rt = (f : M S Any) (s : S) → rt.resolver_middleware f s ≡ f s

-- A call that fails or panics with the state as it was.
abbrev pub IsFailed : {S A : Type 0} → S → Result A × S → Type 0
IsFailed s (ok a, t) = ⊥
IsFailed s (err e, t) = t ≡ s
IsFailed s (panic, t) = t ≡ s

pub then_call-IsFailed :
    {S A B : Type 0} (x : Result A) (s : S) (f : A → M S B)
    → ((a : A) → IsFailed s (f a s))
    → IsFailed s (then_call (x, s) f)
then_call-IsFailed (ok a) s f each = each a
then_call-IsFailed (err e) s f each = refl
then_call-IsFailed panic s f each = refl

-- The state is as it was, and a field that is needed is count_null as invalid.
abbrev pub IsStill : {S A : Type 0} → S → Bool → Result (A × ℕ) × Run S → Type 0
IsStill s needed (ok (a, n), r) = (r.state ≡ s) × (needed ≡ true → ltb 0 n ≡ true)
IsStill s needed (err e, r) = ⊥
IsStill s needed (panic, r) = ⊥

rest_fields-IsStill :
    {S : Type 0} (s : S) (alias : String) (v : Marshaler × ℕ) (b b' : Bool)
    (c : Result (Outputs × ℕ) × Run S)
    → (b ≡ true → ltb 0 v.1 ≡ true)
    → IsStill s b' c
    → IsStill s (if b then true else b') (rest_fields alias v c)
rest_fields-IsStill s alias v true b' (ok (outs, n), r) f (same, g) =
    (same, λ p. ground (arith, f refl))
rest_fields-IsStill s alias v false b' (ok (outs, n), r) f (same, g) =
    (same, λ p. ground (arith, g p))
rest_fields-IsStill s alias v b b' (err e, r) f h = elim h [ ]
rest_fields-IsStill s alias v b b' (panic, r) f h = elim h [ ]

next_fields-IsStill :
    {S : Type 0} (s : S) (alias : String) (b b' : Bool) (c : Result (Marshaler × ℕ) × Run S)
    (rest : M (Run S) (Outputs × ℕ))
    → ((t : Run S) → t.state ≡ s → IsStill s b' (rest t))
    → IsStill s b c
    → IsStill s (if b then true else b') (next_fields alias c rest)
next_fields-IsStill s alias b b' (ok v, r) rest each (same, f) =
    rest_fields-IsStill s alias v b b' (rest r) f (each r same)
next_fields-IsStill s alias b b' (err e, r) rest each h = elim h [ ]
next_fields-IsStill s alias b b' (panic, r) rest each h = elim h [ ]

pub fill_fields-IsStill :
    {Sel S : Type 0} (known needed : String → Bool)
    (value : CollectedField Sel → M (Run S) (Marshaler × ℕ)) (s : S)
    → ((field : CollectedField Sel) (r : Run S)
        → r.state ≡ s
        → known field.field_name ≡ true
        → IsStill s (needed field.field_name) (value field r))
    → (fields : List (CollectedField Sel)) (r : Run S) → r.state ≡ s
    → AllNamed known fields
    → IsStill s (some_field needed fields) (fill_fields value fields r)
unfolding fill_fields
fill_fields-IsStill known needed value s each [] r same all = (same, λ p. cc)
fill_fields-IsStill known needed value s each (field ∷ fields) r same (k, all) =
    next_fields-IsStill s field.alias (needed field.field_name) (some_field needed fields)
      (value field r) (fill_fields value fields)
      (λ t still. fill_fields-IsStill known needed value s each fields t still all)
      (each field r same k)

pub field_set-null :
    {S : Type 0} (s : S) (needed : Bool) (c : Result (Outputs × ℕ) × Run S)
    → IsStill s needed c
    → ((field_set c).1.state ≡ s) × (needed ≡ true → (field_set c).0 ≡ ok null)
field_set-null s needed (ok (outs, n), r) (same, f) = (same, λ p. rw (f p) refl)
field_set-null s needed (err e, r) h = elim h [ ]
field_set-null s needed (panic, r) h = elim h [ ]

module _ {Sel S : Type 0} (rt : Runtime Sel S) (fields_pass : IsFieldTransparent rt) where
  -- A field function over a resolver that fails: null, one report, and the state as it was.
  abbrev pub IsRefused : FieldPath → Run S → Result Marshaler × Run S → Type 0
  IsRefused q r c = (e : Err) × (c ≡ (ok null, report q e r))

  served-IsRefused :
      (q : FieldPath) (on_nil : M (Run S) Marshaler) (marshal : Any → M (Run S) Marshaler)
      (r : Run S) (c : Result Any × S)
      → IsFailed r.state c
      → IsRefused q r (caught rt q (resolved rt q on_nil marshal (served c r)))
  served-IsRefused q on_nil marshal r (ok v, t) h = elim h [ ]
  served-IsRefused q on_nil marshal r (err e, t) h =
      (e, ap (λ s. (ok null, report q e (record r { state = s }))) h)
  served-IsRefused q on_nil marshal r (panic, t) h =
      (rt.recovered, ap (λ s. (ok null, report q rt.recovered (record r { state = s }))) h)

  pub with_context-IsRefused :
      (q : FieldPath) (d : Result Args) (on_nil : M (Run S) Marshaler)
      (marshal : Any → M (Run S) Marshaler) (call : Args → M S Any) (r : Run S)
      → ((args : Args) (s : S) → IsFailed s (call args s))
      → IsRefused q r
          (with_context (field_context rt q d r) (λ args. resolve rt q on_nil marshal (call args)))
  with_context-IsRefused q (ok args) on_nil marshal call r fails =
      rw (fields_pass (call args) r.state)
        (served-IsRefused q on_nil marshal r (call args r.state) (fails args r.state))
  with_context-IsRefused q (err e) on_nil marshal call r fails = (e, refl)
  with_context-IsRefused q panic on_nil marshal call r fails = (rt.recovered, refl)
