-- ===== src/Prelude/Maps/Nat.antt =====
-- Maps keyed by values of ℕ.
use mathlib.Core.Path.{◌≡◌, refl}
use mathlib.Core.Bool.{Bool}
use mathlib.Core.Option.{Option, none, some}
use mathlib.Core.List.{List, [], ◌∷◌}
use native.Mathlib.Omega.{arith}
use maxwell_go_spine.Prelude.Tests.{if◌then◌else◌, is_some, nat_eq}
use Prim.Native.Nat.{ℕ}

module _ {ℓ} {V : Type ℓ} where
  -- entries[key], with `ok`
  abbrev pub lookup : ℕ → List (ℕ × V) → Option V
  lookup key [] = none
  lookup key ((other, val) ∷ entries) = if nat_eq other key then some val else lookup key entries

  -- entries[key] = val
  abbrev pub insert : ℕ → V → List (ℕ × V) → List (ℕ × V)
  insert key val [] = (key, val) ∷ []
  insert key val ((other, held) ∷ entries) =
      if nat_eq other key then (key, val) ∷ entries else (other, held) ∷ insert key val entries

  -- delete(entries, key)
  abbrev pub remove : ℕ → List (ℕ × V) → List (ℕ × V)
  remove key [] = []
  remove key ((other, val) ∷ entries) =
      let rest = remove key entries in if nat_eq other key then rest else (other, val) ∷ rest

  abbrev pub contains : ℕ → List (ℕ × V) → Bool
  contains key entries = is_some (lookup key entries)

  pub lookup-insert :
      (key other : ℕ) (val : V) (entries : List (ℕ × V))
      → lookup other (insert key val entries)
        ≡ (if nat_eq key other then some val else lookup other entries)
  lookup-insert key other val [] = refl
  lookup-insert key other val ((first, held) ∷ entries) =
      ground (arith, lookup-insert key other val entries)

  pub lookup-remove :
      (key other : ℕ) (entries : List (ℕ × V))
      → lookup other (remove key entries)
        ≡ (if nat_eq key other then none else lookup other entries)
  lookup-remove key other [] = ground arith
  lookup-remove key other ((first, held) ∷ entries) =
      ground (arith, lookup-remove key other entries)
