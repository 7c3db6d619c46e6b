-- ===== src/Go/Text/Trim.antt =====
-- strings.TrimSpace, strings.ToLower, strings.HasPrefix.
use Prim.Native.Char.{Char, code}
use Prim.Native.String.{String, [], ◌∷◌}
use maxwell_go_spine.Prelude.{
  ℕ, ◌≡◌, refl, ap, ◌∙◌, Bool, false, ◌&&◌, ◌||◌, leb, nat_eq, if◌then◌else◌, Bool-cases, inl, inr,
}

-- unicode.IsSpace
unfoldable pub is_space : ℕ → Bool
is_space c =
    (leb 9 c && leb c 13)
    || nat_eq c 32
    || nat_eq c 0x85
    || nat_eq c 0xA0
    || nat_eq c 0x1680
    || (leb 0x2000 c && leb c 0x200A)
    || nat_eq c 0x2028
    || nat_eq c 0x2029
    || nat_eq c 0x202F
    || nat_eq c 0x205F
    || nat_eq c 0x3000

unfoldable pub trim_left : String → String
unfolding is_space
trim_left [] = []
trim_left (c ∷ s) = let rest = trim_left s in if is_space (code c) then rest else c ∷ s

-- A space stays only in front of something that stays.
abbrev pub keep_before : Char → String → String
keep_before c [] = if is_space (code c) then [] else c ∷ []
keep_before c (d ∷ s) = c ∷ d ∷ s

unfoldable pub trim_right : String → String
unfolding is_space
trim_right [] = []
trim_right (c ∷ s) = keep_before c (trim_right s)

unfoldable pub trim_space : String → String
unfolding trim_left trim_right
trim_space s = trim_right (trim_left s)

-- The first character is no space, if there is one.
abbrev StartsSolid : String → Type 0
StartsSolid [] = Unit
StartsSolid (c ∷ s) = is_space (code c) ≡ false

trim_left-solid : (s : String) → StartsSolid (trim_left s)
unfolding trim_left
trim_left-solid [] = tt
trim_left-solid (c ∷ s) = elim (Bool-cases (is_space (code c))) [
  | inl e ↦ rw e (trim_left-solid s)
  | inr e ↦ rw e e
]

trim_left_of_solid : (s : String) → StartsSolid s → trim_left s ≡ s
unfolding trim_left
trim_left_of_solid [] h = refl
trim_left_of_solid (c ∷ s) h = rw h

keep_before-solid :
    (c : Char) (s : String) → is_space (code c) ≡ false → StartsSolid (keep_before c s)
keep_before-solid c [] h = rw h h
keep_before-solid c (d ∷ s) h = h

trim_right-solid : (s : String) → StartsSolid s → StartsSolid (trim_right s)
unfolding trim_right
trim_right-solid [] h = tt
trim_right-solid (c ∷ s) h = keep_before-solid c (trim_right s) h

trim_right-keep_before :
    (c : Char) (s : String) → trim_right s ≡ s → trim_right (keep_before c s) ≡ keep_before c s
unfolding trim_right
trim_right-keep_before c [] h = elim (Bool-cases (is_space (code c))) [
  | inl e ↦ rw e
  | inr e ↦ rw (e, keep_before, e)
]
trim_right-keep_before c (d ∷ s) h = rw h

trim_right_idem : (s : String) → trim_right (trim_right s) ≡ trim_right s
unfolding trim_right
trim_right_idem [] = refl
trim_right_idem (c ∷ s) = trim_right-keep_before c (trim_right s) (trim_right_idem s)

-- Trimming a trimmed text changes nothing.
pub trim_space_idem : (s : String) → trim_space (trim_space s) ≡ trim_space s
unfolding trim_space
trim_space_idem s =
    ap trim_right (trim_left_of_solid _ (trim_right-solid _ (trim_left-solid s)))
    ∙ trim_right_idem (trim_left s)
