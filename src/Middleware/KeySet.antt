-- ===== src/Middleware/KeySet.antt =====
-- The sets of texts, `map[string]struct{}`, that the API key and the CORS middleware build.
use maxwell_go_spine.Prelude.{
  ◌≡◌, ◌≢◌, ◌↔◌, ◌⊎◌, inl, inr, refl, String, true, false, ◌||◌, List, [], ◌∷◌, ◌==◌, eq_iff, arith,
  Bool-cases,
}
use maxwell_go_spine.Prelude.Maps.Str.{insert, contains, lookup-insert}

-- `for _, k := range keys { set[k] = struct{}{} }`
unfoldable pub add_keys : List String → List (String × Unit {0}) → List (String × Unit {0})
add_keys [] set = set
add_keys (k ∷ ks) set = add_keys ks (insert k tt set)

abbrev pub Has : String → List String → Type 0
Has k [] = ⊥
Has k (x ∷ xs) = (x ≡ k) ⊎ Has k xs

contains-insert :
    (k x : String) (set : List (String × Unit {0}))
    → contains k (insert x tt set) ≡ (x == k || contains k set)
contains-insert k x set = ground (arith, lookup-insert x k tt set)

-- The set built from the keys has a key exactly if the list, or the set before, has it.
pub contains-add_keys :
    (k : String) (ks : List String) (set : List (String × Unit {0}))
    → (contains k (add_keys ks set) ≡ true) ↔ (Has k ks ⊎ (contains k set ≡ true))
unfolding add_keys
contains-add_keys k [] set = (λ h. inr h, λ h. ground arith)
contains-add_keys k (x ∷ ks) set =
    let ih = contains-add_keys k ks (insert x tt set) in
    let here = contains-insert k x set in
    elim (Bool-cases (x == k)) [
      | inl e ↦ (λ h. inl (inl ((eq_iff x k).0 e)), λ h. ih.1 (inr (rw (here, e) refl)))
      | inr e ↦
          let e' : x ≢ k = λ same. ground (arith, eq_iff x k) in
          let skip : contains k (insert x tt set) ≡ contains k set = rw (here, e) refl in
          (λ h. ground (arith, ih.0 h), λ h. ih.1 (ground arith))
    ]

-- Membership in a set that is built from nothing.
pub Has-add_keys : (k : String) (ks : List String) → contains k (add_keys ks []) ≡ true → Has k ks
Has-add_keys k ks h = elim ((contains-add_keys k ks []).0 h) [ inl has ↦ has | inr never ↦ cc ]

pub not-Has-add_keys :
    (k : String) (ks : List String) → contains k (add_keys ks []) ≡ false → ¬ Has k ks
not-Has-add_keys k ks h has = let yes' = (contains-add_keys k ks []).1 (inl has) in cc
