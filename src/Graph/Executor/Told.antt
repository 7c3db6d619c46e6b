-- ===== src/Graph/Executor/Told.antt =====
-- What the executor reports: the rules for the shape that its field functions share.
use maxwell_go_spine.Prelude.{
  ◌≡◌, refl, ℕ, zero, suc, ◌+◌, String, Bool, true, false, ltb, List, [], ◌∷◌, ◌++◌, if◌then◌else◌,
  arith,
}
use maxwell_go_spine.Go.Error.{Err, Result, ok, err, panic, M}
use maxwell_go_spine.Graph.Executor.{
  Marshaler, null, absent, written, array, object, Outputs, Any, no_value, string_value,
  string_pointer, int_pointer, bool_value, user_pointer, user_slice, introspected, FieldPath,
  Reports, Run, CollectedField, Runtime, Args, field_context, with_context, report, served, caught,
  refused, unless_nil, resolved, resolve,
}
use maxwell_go_spine.Graph.Executor.Objects.{
  invalid, weigh, rest_fields, next_fields, fill_fields, field_set, not_null,
}

abbrev pub has_reports : Reports → Bool
has_reports [] = false
has_reports (e ∷ es) = true

abbrev pub told : {S : Type 0} → Run S → Bool
told r = has_reports r.reports

-- From a run where `before` says whether something is told: no error is left over, an invalid value
-- is told, and what was told stays told.
abbrev pub IsTold : {S A : Type 0} → Bool → Result (A × ℕ) × Run S → Type 0
IsTold before (ok (a, n), r) = (ltb 0 n ≡ true → told r ≡ true) × (before ≡ true → told r ≡ true)
IsTold before (err e, r) = ⊥
IsTold before (panic, r) = Unit

-- The call returns a value.
abbrev pub IsReturned : {S A : Type 0} → Result A × S → Type 0
IsReturned (ok a, s) = Unit
IsReturned (err e, s) = ⊥
IsReturned (panic, s) = ⊥

-- A field error that package graphql finds among the reports is one of them.
abbrev pub FindsReports : {Sel S : Type 0} → Runtime Sel S → Type 0
FindsReports rt =
    (q : FieldPath) (rs : Reports) → rt.has_field_error q rs ≡ true → has_reports rs ≡ true

has_reports-snoc : (rs : Reports) (e : FieldPath × Err) → has_reports (rs ++ (e ∷ [])) ≡ true
has_reports-snoc [] e = refl
has_reports-snoc (r ∷ rs) e = refl

pub told-report : {S : Type 0} (q : FieldPath) (e : Err) (r : Run S) → told (report q e r) ≡ true
told-report q e r = has_reports-snoc r.reports (q, e)

either_positive :
    (m n : ℕ) (b c : Bool)
    → (ltb 0 m ≡ true → b ≡ true)
    → (ltb 0 n ≡ true → c ≡ true)
    → (b ≡ true → c ≡ true)
    → ltb 0 (m + n) ≡ true
    → c ≡ true
either_positive zero n b c f h k p = h (ground arith)
either_positive (suc m) n b c f h k p = k (f (ground arith))

rest_fields-IsTold :
    {S : Type 0} (alias : String) (v : Marshaler × ℕ) (b : Bool) (c : Result (Outputs × ℕ) × Run S)
    (b' : Bool)
    → (ltb 0 v.1 ≡ true → b' ≡ true)
    → (b ≡ true → b' ≡ true)
    → IsTold b' c
    → IsTold b (rest_fields alias v c)
rest_fields-IsTold alias v b (ok (outs, n), t) b' f g (h, k) =
    (either_positive v.1 n b' (told t) f h k, λ p. k (g p))
rest_fields-IsTold alias v b (err e, t) b' f g h = h
rest_fields-IsTold alias v b (panic, t) b' f g h = tt

next_fields-IsTold :
    {S : Type 0} (alias : String) (b : Bool) (c : Result (Marshaler × ℕ) × Run S)
    (rest : M (Run S) (Outputs × ℕ))
    → ((t : Run S) → IsTold (told t) (rest t))
    → IsTold b c
    → IsTold b (next_fields alias c rest)
next_fields-IsTold alias b (ok (m, n), t) rest each (f, g) =
    rest_fields-IsTold alias (m, n) b (rest t) (told t) f g (each t)
next_fields-IsTold alias b (err e, t) rest each h = h
next_fields-IsTold alias b (panic, t) rest each h = tt

pub fill_fields-IsTold :
    {Sel S : Type 0} (value : CollectedField Sel → M (Run S) (Marshaler × ℕ))
    → ((field : CollectedField Sel) (r : Run S) → IsTold (told r) (value field r))
    → (fields : List (CollectedField Sel)) (r : Run S)
    → IsTold (told r) (fill_fields value fields r)
unfolding fill_fields
fill_fields-IsTold value each [] r = (λ p. cc, λ p. p)
fill_fields-IsTold value each (field ∷ fields) r =
    next_fields-IsTold field.alias (told r) (value field r) (fill_fields value fields)
      (fill_fields-IsTold value each fields) (each field r)

pub field_set-IsTold :
    {S : Type 0} (b : Bool) (c : Result (Outputs × ℕ) × Run S)
    → IsTold b c
    → IsTold b (weigh invalid (field_set c))
field_set-IsTold b (ok (outs, zero), r) (h, k) = (λ p. cc, k)
field_set-IsTold b (ok (outs, suc n), r) (h, k) = (λ p. h (ground arith), k)
field_set-IsTold b (err e, r) h = h
field_set-IsTold b (panic, r) h = tt

module _ {Sel S : Type 0} (rt : Runtime Sel S) where
  pub caught-IsTold :
      (w : Marshaler → ℕ) (q : FieldPath) (b : Bool) (c : Result Marshaler × Run S)
      → IsTold b (weigh w c)
      → IsTold b (weigh w (caught rt q c))
  caught-IsTold w q b (ok m, r) h = h
  caught-IsTold w q b (err e, r) h = h
  caught-IsTold w q b (panic, r) h =
      (λ p. told-report q rt.recovered r, λ p. told-report q rt.recovered r)

  pub caught-IsReturned :
      (w : Marshaler → ℕ) (q : FieldPath) (b : Bool) (c : Result Marshaler × Run S)
      → IsTold b (weigh w c)
      → IsReturned (caught rt q c)
  caught-IsReturned w q b (ok m, r) h = tt
  caught-IsReturned w q b (err e, r) h = h
  caught-IsReturned w q b (panic, r) h = tt

  pub refused-IsTold :
      FindsReports rt
      → (q : FieldPath) (why : String) (r : Run S)
      → IsTold (told r) (weigh invalid (refused rt q why r))
  refused-IsTold finds q why r = by_test (rt.has_field_error q r.reports) (finds q r.reports)
    where
      by_test :
          (b : Bool)
          → (b ≡ true → told r ≡ true)
          → IsTold
              (told r)
              (weigh invalid (if b then (ok null, r) else (ok null, report q (Err.plain why) r)))
      by_test true found = (λ p. found refl, λ p. p)
      by_test false found = (λ p. told-report q _ r, λ p. told-report q _ r)

  pub not_null-IsTold :
      FindsReports rt
      → (q : FieldPath) (m : Marshaler) (r : Run S)
      → IsTold (told r) (weigh invalid (not_null rt q m r))
  not_null-IsTold finds q null r = refused-IsTold finds q _ r
  not_null-IsTold finds q absent r = (λ p. cc, λ p. p)
  not_null-IsTold finds q (written t) r = (λ p. cc, λ p. p)
  not_null-IsTold finds q (array es) r = (λ p. cc, λ p. p)
  not_null-IsTold finds q (object outs) r = (λ p. cc, λ p. p)

  module _ (w : Marshaler → ℕ) (on_nil : M (Run S) Marshaler) (marshal : Any → M (Run S) Marshaler)
      (nil_told : (r : Run S) → IsTold (told r) (weigh w (on_nil r)))
      (value_told : (v : Any) (r : Run S) → IsTold (told r) (weigh w (marshal v r))) where
    unless_nil-IsTold :
        (v : Any) (r : Run S) → IsTold (told r) (weigh w (unless_nil rt on_nil marshal v r))
    unless_nil-IsTold no_value r = nil_told r
    unless_nil-IsTold (string_value t) r = value_told (string_value t) r
    unless_nil-IsTold (string_pointer t) r = value_told (string_pointer t) r
    unless_nil-IsTold (int_pointer n) r = value_told (int_pointer n) r
    unless_nil-IsTold (bool_value b) r = value_told (bool_value b) r
    unless_nil-IsTold (user_pointer u) r = value_told (user_pointer u) r
    unless_nil-IsTold (user_slice us) r = value_told (user_slice us) r
    unless_nil-IsTold (introspected v) r = value_told (introspected v) r

    resolved-IsTold :
        (q : FieldPath) (x : Result Any × Run S)
        → IsTold (told x.1) (weigh w (resolved rt q on_nil marshal x))
    resolved-IsTold q (ok v, r) = unless_nil-IsTold v r
    resolved-IsTold q (err e, r) = (λ p. told-report q e r, λ p. told-report q e r)
    resolved-IsTold q (panic, r) = tt

    pub resolve-IsTold :
        (q : FieldPath) (call : M S Any) (r : Run S)
        → IsTold (told r) (weigh w (resolve rt q on_nil marshal call r))
    resolve-IsTold q call r =
        caught-IsTold w q (told r) _
          (resolved-IsTold q (served (rt.resolver_middleware call r.state) r))

    pub resolve-IsReturned :
        (q : FieldPath) (call : M S Any) (r : Run S)
        → IsReturned (resolve rt q on_nil marshal call r)
    resolve-IsReturned q call r =
        caught-IsReturned w q (told r) _
          (resolved-IsTold q (served (rt.resolver_middleware call r.state) r))

  pub with_context-IsTold :
      (w : Marshaler → ℕ) (q : FieldPath) (d : Result Args) (f : Args → M (Run S) Marshaler)
      (r : Run S)
      → ((args : Args) (t : Run S) → IsTold (told t) (weigh w (f args t)))
      → IsTold (told r) (weigh w (with_context (field_context rt q d r) f))
  with_context-IsTold w q (ok args) f r each = each args r
  with_context-IsTold w q (err e) f r each = (λ p. told-report q e r, λ p. told-report q e r)
  with_context-IsTold w q panic f r each = (λ p. told-report q _ r, λ p. told-report q _ r)
