-- ===== src/Go/Text/Split.antt =====
-- strings.ToLower, strings.HasPrefix, strings.Contains, strings.Split, strings.SplitN(s, sep, 2) at
-- a separator of one ASCII byte.
use text.Mathlib.Text.{starts_with, find?}
use maxwell_go_spine.Prelude.{
  Char, code, ℕ, suc, zero, ◌-◌, ◌≡◌, List, [], ◌∷◌, Bool, false, ◌&&◌, leb, ltb, nat_eq,
  if◌then◌else◌, is_some, All, Option, none, some, String, Bool-cases, inl, inr,
}

-- The lower-case letter at a place of the alphabet.
abbrev letter_at : ℕ → String → Char → Char
letter_at i String.[] c = c
letter_at zero (String.◌∷◌ l s) c = l
letter_at (suc i) (String.◌∷◌ l s) c = letter_at i s c

-- unicode.ToLower: beyond ASCII it is the Unicode table's, which is a parameter.
module _ (unicode_lower : Char → Char) where
  unfoldable pub lower_char : Char → Char
  lower_char c =
      if ltb 127 (code c)
      then unicode_lower c
      else if leb b'A' (code c) && leb (code c) b'Z'
      then letter_at (code c - b'A') "abcdefghijklmnopqrstuvwxyz" c
      else c

  unfoldable pub to_lower : String → String
  unfolding lower_char
  to_lower String.[] = String.[]
  to_lower (String.◌∷◌ c s) = String.◌∷◌ (lower_char c) (to_lower s)

abbrev pub has_prefix : String → String → Bool
has_prefix s t = starts_with s t

abbrev pub contains_text : String → String → Bool
contains_text s t = is_some (find? s t)

-- The head of the list of parts grows by a character.
abbrev push : Char → List String → List String
push c [] = String.◌∷◌ c "" ∷ []
push c (p ∷ ps) = String.◌∷◌ c p ∷ ps

unfoldable pub split : ℕ → String → List String
split sep String.[] = "" ∷ []
split sep (String.◌∷◌ c s) =
    let parts = split sep s in if nat_eq (code c) sep then "" ∷ parts else push c parts

-- At most one cut: what stands before the first separator, and all behind it, if there is one.
unfoldable pub split_once : ℕ → String → String × Option String
split_once sep String.[] = ("", none)
split_once sep (String.◌∷◌ c s) =
    let (before, after) = split_once sep s in
    if nat_eq (code c) sep then ("", some s) else (String.◌∷◌ c before, after)

-- Text without the separator.
abbrev pub Lacks : ℕ → String → Type 0
Lacks sep String.[] = Unit
Lacks sep (String.◌∷◌ c s) = (nat_eq (code c) sep ≡ false) × Lacks sep s

push-Lacks :
    (sep : ℕ) (c : Char) (ps : List String)
    → nat_eq (code c) sep ≡ false
    → All (Lacks sep) ps
    → All (Lacks sep) (push c ps)
push-Lacks sep c [] e h = ((e, tt), tt)
push-Lacks sep c (p ∷ ps) e h = ((e, h.0), h.1)

-- No part of a split text holds the separator.
pub split-Lacks : (sep : ℕ) (s : String) → All (Lacks sep) (split sep s)
unfolding split
split-Lacks sep String.[] = (tt, tt)
split-Lacks sep (String.◌∷◌ c s) = elim (Bool-cases (nat_eq (code c) sep)) [
  | inl e ↦ rw e (tt, split-Lacks sep s)
  | inr e ↦ rw e (push-Lacks sep c (split sep s) e (split-Lacks sep s))
]
