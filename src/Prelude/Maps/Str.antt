-- ===== src/Prelude/Maps/Str.antt =====
-- Maps keyed by values of String.
use mathlib.Core.Path.{◌≡◌, refl}
use mathlib.Core.Bool.{Bool}
use mathlib.Core.Option.{Option, none, some}
use mathlib.Core.List.{List, [], ◌∷◌}
use native.Mathlib.Omega.{arith}
use Prim.Native.String.{String}
use text.Mathlib.Text.{◌==◌}
use text.Mathlib.TextEquality.{eq_iff}
use maxwell_go_spine.Prelude.Tests.{if◌then◌else◌, is_some}

module _ {ℓ} {V : Type ℓ} where
  -- entries[key], with `ok`
  abbrev pub lookup : String → List (String × V) → Option V
  lookup key [] = none
  lookup key ((other, val) ∷ entries) = if other == key then some val else lookup key entries

  -- entries[key] = val
  abbrev pub insert : String → V → List (String × V) → List (String × V)
  insert key val [] = (key, val) ∷ []
  insert key val ((other, held) ∷ entries) =
      if other == key then (key, val) ∷ entries else (other, held) ∷ insert key val entries

  -- delete(entries, key)
  abbrev pub remove : String → List (String × V) → List (String × V)
  remove key [] = []
  remove key ((other, val) ∷ entries) =
      let rest = remove key entries in if other == key then rest else (other, val) ∷ rest

  abbrev pub contains : String → List (String × V) → Bool
  contains key entries = is_some (lookup key entries)

  pub lookup-insert :
      (key other : String) (val : V) (entries : List (String × V))
      → lookup other (insert key val entries)
        ≡ (if key == other then some val else lookup other entries)
  lookup-insert key other val [] = refl
  lookup-insert key other val ((first, held) ∷ entries) = ground (
    arith,
    eq_iff key other,
    eq_iff first key,
    eq_iff first other,
    lookup-insert key other val entries,
  )

  pub lookup-remove :
      (key other : String) (entries : List (String × V))
      → lookup other (remove key entries) ≡ (if key == other then none else lookup other entries)
  lookup-remove key other [] = ground arith
  lookup-remove key other ((first, held) ∷ entries) = ground (
    arith,
    eq_iff key other,
    eq_iff first key,
    eq_iff first other,
    lookup-remove key other entries,
  )
