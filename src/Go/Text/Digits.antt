-- ===== src/Go/Text/Digits.antt =====
-- What is printed by %d is read back by strconv.Atoi.
use Prim.Native.String
use mathlib.Core.Path.{subst}
use text.Mathlib.TextLemmas.{cons-append, nil-append}
use maxwell_go_spine.Prelude.{
  Char, ℕ, zero, suc, ◌≡◌, refl, ap, ◌∙◌, ◌/◌, ◌%◌, ◌+◌, ◌*◌, code, String, Bool, true, false, ◌&&◌,
  some, leb, ltb, nat_eq, ◌<◌, ◌^◌, Bool-cases, inl, inr, arith,
}
use maxwell_go_spine.Go.Int.{word_mod}
use maxwell_go_spine.Go.Text.Number.{digits_value, digit_text, print_digits, print_nat}

abbrev pub is_digit : Char → Bool
is_digit c = leb b'0' (code c) && leb (code c) b'9'

-- A digit in front of a text.
abbrev DigitFacts : ℕ → Type 0
DigitFacts d =
    (c : Char) × (digit_text d ≡ String.◌∷◌ c "") × (is_digit c ≡ true) × (code c ≡ 48 + d)

digit_facts : (d : ℕ) → d < 10 → DigitFacts d
digit_facts zero h = (_, refl, refl, refl)
digit_facts (suc zero) h = (_, refl, refl, refl)
digit_facts (suc (suc zero)) h = (_, refl, refl, refl)
digit_facts (suc (suc (suc zero))) h = (_, refl, refl, refl)
digit_facts (suc (suc (suc (suc zero)))) h = (_, refl, refl, refl)
digit_facts (suc (suc (suc (suc (suc zero))))) h = (_, refl, refl, refl)
digit_facts (suc (suc (suc (suc (suc (suc zero)))))) h = (_, refl, refl, refl)
digit_facts (suc (suc (suc (suc (suc (suc (suc zero))))))) h = (_, refl, refl, refl)
digit_facts (suc (suc (suc (suc (suc (suc (suc (suc zero)))))))) h = (_, refl, refl, refl)
digit_facts (suc (suc (suc (suc (suc (suc (suc (suc (suc zero))))))))) h = (_, refl, refl, refl)
digit_facts (suc (suc (suc (suc (suc (suc (suc (suc (suc (suc d)))))))))) h = absurd (omega arith)

read_digit :
    (d a : ℕ) (s : String)
    → d < 10
    → digits_value (String.◌++◌ (digit_text d) s) a ≡ digits_value s (a * 10 + d)
unfolding digits_value
read_digit d a s h =
    let (c, printed, digit, coded) = digit_facts d h in
    rw (printed, cons-append c "" s, nil-append s, digit)
      (ap (digits_value s) (omega (arith, coded)))

-- Reading the digits of `n` gives `n`, and what follows is read behind them.
pub read_digits :
    (fuel n : ℕ) (rest : String)
    → n < 10 ^ suc fuel
    → digits_value (print_digits (suc fuel) n rest) 0 ≡ digits_value rest n
unfolding print_digits
read_digits zero n rest h = elim (Bool-cases (ltb n 10)) [
  | inl e ↦ rw e (read_digit n 0 rest (ground arith) ∙ ap (digits_value rest) (omega arith))
  | inr e ↦ absurd (ground arith)
]
read_digits (suc fuel) n rest h = elim (Bool-cases (ltb n 10)) [
  | inl e ↦ rw e (read_digit n 0 rest (ground arith) ∙ ap (digits_value rest) (omega arith))
  | inr e ↦ rw e (
      read_digits fuel (n / 10) (String.◌++◌ (digit_text (n % 10)) rest) (ground arith)
      ∙ read_digit (n % 10) (n / 10) rest (omega arith)
      ∙ ap (digits_value rest) (omega arith))
]

-- Text of decimal digits.
abbrev pub AllDigits : String → Type 0
AllDigits String.[] = Unit
AllDigits (String.◌∷◌ c s) = (is_digit c ≡ true) × AllDigits s

-- At least one digit, and only digits in front of `rest`.
abbrev Printed : ℕ → ℕ → String → Type 0
Printed fuel n rest =
    (c : Char) × (s : String) × (print_digits (suc fuel) n rest ≡ String.◌∷◌ c s)
    × (is_digit c ≡ true)
    × (AllDigits rest → AllDigits s)

last_digit :
    (d : ℕ) (rest : String)
    → d < 10
    → (c : Char) × (String.◌++◌ (digit_text d) rest ≡ String.◌∷◌ c rest) × (is_digit c ≡ true)
last_digit d rest h =
    let (c, printed, digit, coded) = digit_facts d h in
    (c, rw (printed, cons-append c "" rest, nil-append rest) refl, digit)

print_digits-Printed : (fuel n : ℕ) (rest : String) → n < 10 ^ suc fuel → Printed fuel n rest
unfolding print_digits
print_digits-Printed zero n rest h = elim (Bool-cases (ltb n 10)) [
  | inl e ↦
      let (c, printed, digit) = last_digit n rest (ground arith) in
      (c, rest, rw e printed, digit, λ all. all)
  | inr e ↦ absurd (ground arith)
]
print_digits-Printed (suc fuel) n rest h = elim (Bool-cases (ltb n 10)) [
  | inl e ↦
      let (c, printed, digit) = last_digit n rest (ground arith) in
      (c, rest, rw e printed, digit, λ all. all)
  | inr e ↦
      let (c, printed, digit) = last_digit (n % 10) rest (omega arith) in
      let (c', s, printed', digit', all') =
        print_digits-Printed fuel (n / 10) (String.◌++◌ (digit_text (n % 10)) rest)
          (ground arith) in
      (c', s, rw e printed', digit', λ all. all' (rw printed (digit, all)))
]

pub not_sign :
    (c : Char) → is_digit c ≡ true → (nat_eq (code c) b'-' ≡ false) × (nat_eq (code c) b'+' ≡ false)
not_sign c h = (ground arith, ground arith)

-- The texts of an `int`, on the two sides of zero.
pub print_nat-text :
    (n : ℕ)
    → n < word_mod
    → (c : Char) × (s : String) × (print_nat n ≡ String.◌∷◌ c s)
      × (is_digit c ≡ true)
      × AllDigits s
      × (digits_value (String.◌∷◌ c s) 0 ≡ some n)
unfolding print_nat digits_value
print_nat-text n h =
    let (c, s, printed, digit, all) = print_digits-Printed 19 n "" (omega arith) in
    (
      c,
      s,
      printed,
      digit,
      all tt,
      subst (λ t. digits_value t 0 ≡ some n) printed (read_digits 19 n "" (omega arith)),
    )
