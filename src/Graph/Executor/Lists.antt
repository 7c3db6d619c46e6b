-- ===== src/Graph/Executor/Lists.antt =====
-- The slices that graph/generated/generated.go marshals: `marshalNUser2ᚕ…` and the functions of the
-- same text for what introspection finds. The functions `f` that such a function starts at once are
-- run one after another.
use maxwell_go_spine.Prelude.{ℕ, suc, Bool, true, false, List, [], ◌∷◌, ◌++◌, if◌then◌else◌}
use maxwell_go_spine.Go.Error.{Result, ok, err, panic, M}
use maxwell_go_spine.Graph.Executor.{
  Marshaler, null, array, Elements, no_elements, element, index, FieldPath, Run, Runtime, report,
}

-- `for _, e := range ret { if e == graphql.Null { return graphql.Null } }`
unfoldable pub any_null : Elements → Bool
any_null no_elements = false
any_null (element null es) = true
any_null (element m es) = any_null es

module _ {Sel S : Type 0} (rt : Runtime Sel S) where
  -- A panic sets `ret` to nil, and then `ret[i] = …` panics for each element that is left, once its
  -- value is there.
  abbrev pub rest_elements :
      Marshaler → Result (Elements × Bool) × Run S → Result (Elements × Bool) × Run S
  rest_elements m (ok (es, kept), r) = (ok (element m es, kept), r)
  rest_elements m (err e, r) = (err e, r)
  rest_elements m (panic, r) = (panic, r)

  abbrev pub next_elements :
      FieldPath
      → Bool
      → Result Marshaler × Run S
      → (Bool → M (Run S) (Elements × Bool))
      → Result (Elements × Bool) × Run S
  next_elements q true (ok m, r) rest = rest_elements m (rest true r)
  next_elements q false (ok m, r) rest = rest false (report q rt.recovered r)
  next_elements q kept (err e, r) rest = (err e, r)
  next_elements q kept (panic, r) rest = rest false (report q rt.recovered r)

  unfoldable pub elements :
      {A : Type 0}
      → (FieldPath → A → M (Run S) Marshaler)
      → FieldPath
      → ℕ
      → Bool
      → List A
      → M (Run S) (Elements × Bool)
  elements value p i kept [] r = (ok (no_elements, kept), r)
  elements value p i kept (v ∷ vs) r =
      let q = p ++ (index i ∷ []) in
      next_elements q kept (value q v r) (λ k. elements value p (suc i) k vs)

  abbrev pub array_of : Result (Elements × Bool) × Run S → Result Marshaler × Run S
  array_of (ok (es, true), r) = (ok (if any_null es then null else array es), r)
  array_of (ok (es, false), r) = (ok (array no_elements), r)
  array_of (err e, r) = (err e, r)
  array_of (panic, r) = (panic, r)

  unfoldable pub marshal_list :
      {A : Type 0}
      → (FieldPath → A → M (Run S) Marshaler)
      → FieldPath
      → List A
      → M (Run S) Marshaler
  unfolding elements any_null
  marshal_list value q vs r = array_of (elements value q 0 true vs r)
