-- ===== src/Go/Text/Printed.antt =====
-- Printed integers: strconv.Atoi reads them back, and a separator between them splits them.
use Prim.Native.String
use text.Mathlib.TextLemmas.{cons-append, nil-append}
use maxwell_go_spine.Prelude.{Char, ℕ, suc, ◌≡◌, refl, code, String, true, [], ◌∷◌, ◌<◌, arith}
use maxwell_go_spine.Go.Int.{ℤ, pos, negsuc, max_int, word_mod}
use maxwell_go_spine.Go.Text.Number.{atoi, print_nat, print_int}
use maxwell_go_spine.Go.Text.Split.{Lacks, split}
use maxwell_go_spine.Go.Text.Digits.{AllDigits, not_sign, print_nat-text}

-- A value of type `int`.
abbrev pub IsInt : ℤ → Type 0
IsInt (pos n) = n < max_int
IsInt (negsuc n) = n < max_int

dash_text : (c : Char) × (◌≡◌ {A = String} "-" (String.◌∷◌ c "")) × (code c ≡ 45)
dash_text = (_, refl, refl)

pub atoi-print_int : (n : ℤ) → IsInt n → atoi (print_int n) ≡ (n, true)
unfolding atoi print_int
atoi-print_int (pos n) h =
    let (c, s, printed, digit, all, value) = print_nat-text n (omega arith) in
    let (no_dash, no_plus) = not_sign c digit in
    rw (printed, no_dash, no_plus, value) (ground arith)
atoi-print_int (negsuc n) h =
    let (c, s, printed, digit, all, value) = print_nat-text (suc n) (omega arith) in
    let (d, dashed, coded) = dash_text in
    rw
      (
        printed,
        dashed,
        cons-append d "" (String.◌∷◌ c s),
        nil-append (String.◌∷◌ c s),
        coded,
        value,
      )
      (ground arith)

AllDigits-Lacks : (s : String) → AllDigits s → Lacks b':' s
AllDigits-Lacks String.[] all = tt
AllDigits-Lacks (String.◌∷◌ c s) (digit, all) = (ground arith, AllDigits-Lacks s all)

pub print_nat-Lacks : (n : ℕ) → n < word_mod → Lacks b':' (print_nat n)
print_nat-Lacks n h =
    let (c, s, printed, digit, all, value) = print_nat-text n h in
    rw printed (AllDigits-Lacks (String.◌∷◌ c s) (digit, all))

pub print_int-Lacks : (n : ℤ) → IsInt n → Lacks b':' (print_int n)
unfolding print_int
print_int-Lacks (pos n) h = print_nat-Lacks n (omega arith)
print_int-Lacks (negsuc n) h =
    let (d, dashed, coded) = dash_text in
    rw (dashed, cons-append d "" (print_nat (suc n)), nil-append (print_nat (suc n)), coded)
      (refl, print_nat-Lacks (suc n) (omega arith))

-- A text with no separator is one part, in front of a separator the first part.
pub split-Lacks_end : (sep : ℕ) (s : String) → Lacks sep s → split sep s ≡ s ∷ []
unfolding split
split-Lacks_end sep String.[] h = refl
split-Lacks_end sep (String.◌∷◌ c s) (e, h) = rw (e, split-Lacks_end sep s h) refl

colon_text : (c : Char) × (◌≡◌ {A = String} ":" (String.◌∷◌ c "")) × (code c ≡ b':')
colon_text = (_, refl, refl)

pub split-colon :
    (s t : String)
    → Lacks b':' s
    → split b':' (String.◌++◌ s (String.◌++◌ ":" t)) ≡ s ∷ split b':' t
unfolding split
split-colon String.[] t h =
    let (c, colon, coded) = colon_text in
    rw (colon, cons-append c "" t, nil-append t, nil-append (String.◌∷◌ c t), coded) refl
split-colon (String.◌∷◌ c s) t (e, h) =
    rw (cons-append c s (String.◌++◌ ":" t), e, split-colon s t h) refl
