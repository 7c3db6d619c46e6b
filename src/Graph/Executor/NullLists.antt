-- ===== src/Graph/Executor/NullLists.antt =====
-- Nulls in a list: what `marshalNUser2ᚕ…` and the functions of the same text report.
use mathlib.Core.Path.{subst}
use maxwell_go_spine.Prelude.{
  ltb, arith, ◌≡◌, refl, ℕ, suc, Bool, true, false, List, [], ◌∷◌, ◌++◌, if◌then◌else◌,
}
use maxwell_go_spine.Go.Error.{Result, ok, err, panic, M}
use maxwell_go_spine.Graph.Executor.{
  Marshaler, null, absent, written, array, object, Elements, no_value, string_value, string_pointer,
  int_pointer, bool_value, user_pointer, user_slice, introspected, index, FieldPath, Run, Runtime,
  report,
}
use maxwell_go_spine.Graph.Executor.Lists.{
  any_null, rest_elements, next_elements, elements, array_of, marshal_list,
}
use maxwell_go_spine.Graph.Executor.Objects.{invalid, weigh, marshal_n_users}
use maxwell_go_spine.Graph.Executor.Told.{told, IsTold, FindsReports, told-report}
use maxwell_go_spine.Graph.Executor.Nulls.{ValueTold, user_object-told}

-- A list with no null, or something is told.
abbrev pub ElementsTold : {S : Type 0} → Bool → Result (Elements × Bool) × Run S → Type 0
ElementsTold before (ok (es, kept), r) =
    (any_null es ≡ true → told r ≡ true) × (before ≡ true → told r ≡ true)
ElementsTold before (err e, r) = ⊥
ElementsTold before (panic, r) = Unit

module _ {Sel S : Type 0} (rt : Runtime Sel S) where
  rest_elements-told :
      (m : Marshaler) (b b' : Bool) (c : Result (Elements × Bool) × Run S)
      → (ltb 0 (invalid m) ≡ true → b' ≡ true)
      → (b ≡ true → b' ≡ true)
      → ElementsTold b' c
      → ElementsTold b (rest_elements rt m c)
  unfolding any_null
  rest_elements-told null b b' (ok (es, kept), r) f g (h, k) =
      (λ p. k (f (ground arith)), λ p. k (g p))
  rest_elements-told absent b b' (ok (es, kept), r) f g (h, k) = (h, λ p. k (g p))
  rest_elements-told (written t) b b' (ok (es, kept), r) f g (h, k) = (h, λ p. k (g p))
  rest_elements-told (array a) b b' (ok (es, kept), r) f g (h, k) = (h, λ p. k (g p))
  rest_elements-told (object o) b b' (ok (es, kept), r) f g (h, k) = (h, λ p. k (g p))
  rest_elements-told m b b' (err e, r) f g h = h
  rest_elements-told m b b' (panic, r) f g h = tt

  ElementsTold-weaken :
      (b : Bool) (c : Result (Elements × Bool) × Run S) → ElementsTold true c → ElementsTold b c
  ElementsTold-weaken b (ok (es, kept), r) (h, k) = (h, λ p. k refl)
  ElementsTold-weaken b (err e, r) h = h
  ElementsTold-weaken b (panic, r) h = tt

  -- A panic is told, whatever was told before.
  lost-told :
      (q : FieldPath) (b : Bool) (rest : Bool → M (Run S) (Elements × Bool))
      → ((k : Bool) (t : Run S) → ElementsTold (told t) (rest k t))
      → (t : Run S) → ElementsTold b (rest false (report q rt.recovered t))
  lost-told q b rest each t =
      let t' = report q rt.recovered t in
      ElementsTold-weaken b (rest false t')
        (subst (λ x. ElementsTold x (rest false t')) (told-report q rt.recovered t) (each false t'))

  next_elements-told :
      (q : FieldPath) (b kept : Bool) (c : Result Marshaler × Run S)
      (rest : Bool → M (Run S) (Elements × Bool))
      → ((k : Bool) (t : Run S) → ElementsTold (told t) (rest k t))
      → IsTold b (weigh invalid c)
      → ElementsTold b (next_elements rt q kept c rest)
  next_elements-told q b true (ok m, t) rest each (f, g) =
      rest_elements-told m b (told t) (rest true t) f g (each true t)
  next_elements-told q b false (ok m, t) rest each h = lost-told q b rest each t
  next_elements-told q b true (err e, t) rest each h = h
  next_elements-told q b false (err e, t) rest each h = h
  next_elements-told q b true (panic, t) rest each h = lost-told q b rest each t
  next_elements-told q b false (panic, t) rest each h = lost-told q b rest each t

  elements-told :
      {A : Type 0} (value : FieldPath → A → M (Run S) Marshaler)
      → ((q : FieldPath) (v : A) (r : Run S) → IsTold (told r) (weigh invalid (value q v r)))
      → (p : FieldPath) (i : ℕ) (vs : List A) (kept : Bool) (r : Run S)
      → ElementsTold (told r) (elements rt value p i kept vs r)
  unfolding elements any_null
  elements-told value each p i [] kept r = (λ p. cc, λ p. p)
  elements-told value each p i (v ∷ vs) kept r =
      let q = p ++ (index i ∷ []) in
      next_elements-told q (told r) kept (value q v r) (λ k. elements rt value p (suc i) k vs)
        (elements-told value each p (suc i) vs) (each q v r)

  array_of-IsTold :
      (b : Bool) (c : Result (Elements × Bool) × Run S)
      → ElementsTold b c
      → IsTold b (weigh invalid (array_of rt c))
  array_of-IsTold b (ok (es, false), r) (h, k) = (λ p. cc, k)
  array_of-IsTold b (ok (es, true), r) (h, k) = by_test (any_null es) h
    where
      by_test :
          (n : Bool)
          → (n ≡ true → told r ≡ true)
          → IsTold b (weigh invalid (ok (if n then null else array es), r))
      by_test true f = (λ p. f refl, k)
      by_test false f = (λ p. cc, k)
  array_of-IsTold b (err e, r) h = h
  array_of-IsTold b (panic, r) h = tt

  pub marshal_list-told :
      {A : Type 0} (value : FieldPath → A → M (Run S) Marshaler)
      → ((q : FieldPath) (v : A) (r : Run S) → IsTold (told r) (weigh invalid (value q v r)))
      → (q : FieldPath) (vs : List A) (r : Run S)
      → IsTold (told r) (weigh invalid (marshal_list rt value q vs r))
  unfolding marshal_list
  marshal_list-told value each q vs r =
      array_of-IsTold (told r) (elements rt value q 0 true vs r)
        (elements-told value each q 0 vs true r)

  pub marshal_n_users-told :
      (finds : FindsReports rt) (q : FieldPath) (sel : Sel)
      → ValueTold rt finds invalid (marshal_n_users rt q sel)
  unfolding marshal_n_users
  marshal_n_users-told finds q sel (user_slice vs) r =
      marshal_list-told _ (λ p v t. user_object-told rt finds p sel v t) q vs r
  marshal_n_users-told finds q sel no_value r = tt
  marshal_n_users-told finds q sel (introspected v) r = tt
  marshal_n_users-told finds q sel (string_value v) r = tt
  marshal_n_users-told finds q sel (string_pointer v) r = tt
  marshal_n_users-told finds q sel (int_pointer v) r = tt
  marshal_n_users-told finds q sel (bool_value v) r = tt
  marshal_n_users-told finds q sel (user_pointer v) r = tt
