-- ===== src/Go/Int.antt =====
-- Go's `int`, `int64` (64-bit two's complement) and `uint64`.
use maxwell_go_spine.Prelude.{
  ℕ, suc, ◌+◌, ◌-◌, ◌*◌, ◌%◌, ◌^◌, ◌≤◌, ◌<◌, ◌≡◌, Bool, ltb, leb, if◌then◌else◌, arith,
}

-- `negsuc n` is -(n + 1).
pub data ℤ : Type 0 where
  pos : ℕ → ℤ
  negsuc : ℕ → ℤ

abbrev pub pos_part : ℤ → ℕ
pos_part (pos n) = n
pos_part (negsuc n) = 0

abbrev pub neg_part : ℤ → ℕ
neg_part (pos n) = 0
neg_part (negsuc n) = suc n

-- a < b and a <= b
abbrev pub ltb_ℤ : ℤ → ℤ → Bool
ltb_ℤ a b = ltb (pos_part a + neg_part b) (pos_part b + neg_part a)

abbrev pub leb_ℤ : ℤ → ℤ → Bool
leb_ℤ a b = leb (pos_part a + neg_part b) (pos_part b + neg_part a)

abbrev pub eqb_ℤ : ℤ → ℤ → Bool
eqb_ℤ a b = if ltb_ℤ a b then Bool.false else if ltb_ℤ b a then Bool.false else Bool.true

abbrev pub word_mod : ℕ
word_mod = 2 ^ 64

abbrev pub max_int : ℕ
max_int = 2 ^ 63

-- The 64-bit pattern of an integer, and the integer that a pattern stands for.
unfoldable pub to_word : ℤ → ℕ
to_word (pos n) = n % word_mod
to_word (negsuc n) = word_mod - 1 - n % word_mod

unfoldable pub of_word : ℕ → ℤ
of_word w = if ltb w max_int then pos w else negsuc (word_mod - 1 - w)

unfoldable pub add64 : ℤ → ℤ → ℤ
unfolding to_word of_word
add64 a b = of_word ((to_word a + to_word b) % word_mod)

unfoldable pub sub64 : ℤ → ℤ → ℤ
unfolding to_word of_word
sub64 a b = of_word ((to_word a + (word_mod - to_word b)) % word_mod)

unfoldable pub mul64 : ℤ → ℤ → ℤ
unfolding to_word of_word
mul64 a b = of_word ((to_word a * to_word b) % word_mod)

-- In range the operations are those of the integers.
pub add64-pos : (a b : ℕ) → a + b < max_int → add64 (pos a) (pos b) ≡ pos (a + b)
unfolding add64
add64-pos a b h = ground arith

pub sub64-pos : (a b : ℕ) → b ≤ a → a < max_int → sub64 (pos a) (pos b) ≡ pos (a - b)
unfolding sub64
sub64-pos a b h k = ground arith
