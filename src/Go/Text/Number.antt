-- ===== src/Go/Text/Number.antt =====
-- strconv.Atoi, and the verb %d of package fmt.
use maxwell_go_spine.Prelude.{
  ℕ, zero, suc, ◌≡◌, refl, ◌/◌, ◌%◌, ◌+◌, ◌-◌, ◌*◌, code, String, Bool, true, false, ◌&&◌, Option,
  none, some, leb, ltb, nat_eq, ◌≤◌, ◌<◌, ◌^◌, Bool-cases, inl, inr, arith, if◌then◌else◌,
}
use Prim.Native.String
use maxwell_go_spine.Go.Int.{ℤ, pos, negsuc, max_int, word_mod}

-- The value of a text of decimal digits, read behind the digits of `acc`.
unfoldable pub digits_value : String → ℕ → Option ℕ
digits_value String.[] acc = some acc
digits_value (String.◌∷◌ c s) acc =
    let rest = digits_value s (acc * 10 + (code c - b'0')) in
    if leb b'0' (code c) && leb (code c) b'9' then rest else none

abbrev pub at_least_one : String → Option ℕ
at_least_one String.[] = none
at_least_one (String.◌∷◌ c s) = digits_value (String.◌∷◌ c s) 0

-- An `int` and whether there was no error; out of range the nearest bound comes with the error.
abbrev pub positive : Option ℕ → ℤ × Bool
positive none = (pos 0, false)
positive (some v) = if ltb v max_int then (pos v, true) else (pos (max_int - 1), false)

abbrev pub negative : Option ℕ → ℤ × Bool
negative none = (pos 0, false)
negative (some v) =
    if nat_eq v 0
    then (pos 0, true)
    else if leb v max_int
    then (negsuc (v - 1), true)
    else (negsuc (max_int - 1), false)

unfoldable pub atoi : String → ℤ × Bool
unfolding digits_value
atoi String.[] = (pos 0, false)
atoi (String.◌∷◌ c s) =
    if nat_eq (code c) b'-'
    then negative (at_least_one s)
    else if nat_eq (code c) b'+'
    then positive (at_least_one s)
    else positive (at_least_one (String.◌∷◌ c s))

abbrev pub digit_text : ℕ → String
digit_text d = String.slice "0123456789" d (d + 1)

-- The decimal digits of `n` in front of `acc`, at most `fuel` of them.
unfoldable pub print_digits : ℕ → ℕ → String → String
print_digits zero n acc = acc
print_digits (suc fuel) n acc =
    let rest = print_digits fuel (n / 10) (String.◌++◌ (digit_text (n % 10)) acc) in
    if ltb n 10 then String.◌++◌ (digit_text n) acc else rest

-- %d; a 64-bit number has at most 20 digits.
unfoldable pub print_nat : ℕ → String
unfolding print_digits
print_nat n = print_digits 20 n ""

unfoldable pub print_int : ℤ → String
unfolding print_nat
print_int (pos n) = print_nat n
print_int (negsuc n) = String.◌++◌ "-" (print_nat (suc n))

four_digits : print_int (negsuc 4070) ≡ "-4071"
unfolding print_int
four_digits = refl

-- With fuel for all digits, more of it changes nothing.
print_digits_enough :
    (fuel more n : ℕ) (acc : String)
    → fuel ≤ more
    → n < 10 ^ suc fuel
    → print_digits (suc more) n acc ≡ print_digits (suc fuel) n acc
unfolding print_digits
print_digits_enough zero more n acc k h = elim (Bool-cases (ltb n 10)) [
  | inl e ↦ rw e refl
  | inr e ↦ absurd (ground arith)
]
print_digits_enough (suc fuel) zero n acc k h = absurd (omega arith)
print_digits_enough (suc fuel) (suc more) n acc k h = elim (Bool-cases (ltb n 10)) [
  | inl e ↦ rw e refl
  | inr e ↦ rw e (
      print_digits_enough fuel more (n / 10) (String.◌++◌ (digit_text (n % 10)) acc) (omega arith)
        (ground arith))
]

-- The 20 digits of `print_nat` are enough for 64 bits.
print_nat_enough : (more n : ℕ) → 20 ≤ more → n < word_mod → print_digits more n "" ≡ print_nat n
unfolding print_nat
print_nat_enough zero n k h = absurd (omega arith)
print_nat_enough (suc more) n k h = print_digits_enough 19 more n "" (omega arith) (omega arith)
