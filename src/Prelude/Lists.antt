-- ===== src/Prelude/Lists.antt =====
-- Lists measured by native numbers, under the library's names.
use Prim.Native.Nat.{ℕ, zero, suc, ◌+◌, ◌-◌, ◌≤◌, min}
use mathlib.Core.Path.{◌≡◌, refl, ap, sym, ◌∙◌}
use mathlib.Core.List.{List, [], ◌∷◌, ◌++◌, map}
use native.Mathlib.Omega.{arith}

module _ {ℓ} {A : Type ℓ} where
  abbrev pub length : List A → ℕ
  length [] = 0
  length (item ∷ items) = suc (length items)

  abbrev pub take : ℕ → List A → List A
  take zero items = []
  take (suc n) [] = []
  take (suc n) (item ∷ items) = item ∷ take n items

  abbrev pub drop : ℕ → List A → List A
  drop zero items = items
  drop (suc n) [] = []
  drop (suc n) (item ∷ items) = drop n items

  pub length-append :
      (items others : List A) → length (items ++ others) ≡ length items + length others
  length-append [] others = omega arith
  length-append (item ∷ items) others = omega (arith, length-append items others)

  pub take-append-drop : (n : ℕ) (items : List A) → take n items ++ drop n items ≡ items
  take-append-drop zero items = refl
  take-append-drop (suc n) [] = refl
  take-append-drop (suc n) (item ∷ items) = ap (◌∷◌ item) (take-append-drop n items)

  pub length-take : (n : ℕ) (items : List A) → length (take n items) ≡ min n (length items)
  length-take zero items = omega arith
  length-take (suc n) [] = omega arith
  length-take (suc n) (item ∷ items) = omega (arith, length-take n items)

  pub length-drop : (n : ℕ) (items : List A) → length (drop n items) ≡ length items - n
  length-drop zero items = omega arith
  length-drop (suc n) [] = omega arith
  length-drop (suc n) (item ∷ items) = omega (arith, length-drop n items)

  pub drop-nil : (n : ℕ) → drop n [] ≡ []
  drop-nil zero = refl
  drop-nil (suc n) = refl

  pub drop-drop : (m n : ℕ) (items : List A) → drop m (drop n items) ≡ drop (n + m) items
  drop-drop m zero items = ap (λ (k : ℕ). drop k items) (omega arith)
  drop-drop m (suc n) [] = drop-nil m ∙ sym (drop-nil (suc n + m))
  drop-drop m (suc n) (item ∷ items) =
      drop-drop m n items
      ∙ ap (λ (k : ℕ). drop k (item ∷ items)) (let e : suc (n + m) ≡ suc n + m = omega arith in e)

  pub drop_of_length-le : (n : ℕ) (items : List A) → length items ≤ n → drop n items ≡ []
  drop_of_length-le zero [] h = refl
  drop_of_length-le zero (item ∷ items) h = absurd (omega arith)
  drop_of_length-le (suc n) [] h = refl
  drop_of_length-le (suc n) (item ∷ items) h = drop_of_length-le n items (omega arith)

  pub take_of_length-le : (n : ℕ) (items : List A) → length items ≤ n → take n items ≡ items
  take_of_length-le zero [] h = refl
  take_of_length-le zero (item ∷ items) h = absurd (omega arith)
  take_of_length-le (suc n) [] h = refl
  take_of_length-le (suc n) (item ∷ items) h =
      ap (◌∷◌ item) (take_of_length-le n items (omega arith))

pub length-map {ℓ κ} :
    {A : Type ℓ} {B : Type κ} (f : A → B) (items : List A) → length (map f items) ≡ length items
length-map f [] = refl
length-map f (item ∷ items) = ap suc (length-map f items)

module _ {ℓ κ} {A : Type ℓ} (P : A → Type κ) where
  abbrev pub All : List A → Type κ
  All [] = Unit
  All (item ∷ items) = P item × All items

  pub All-append : (items others : List A) → All items → All others → All (items ++ others)
  All-append [] others _ hy = hy
  All-append (item ∷ items) others (px, hx) hy = (px, All-append items others hx hy)
