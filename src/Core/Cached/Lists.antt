-- ===== src/Core/Cached/Lists.antt =====
-- The key of a cached list names the version, the page and the size.
use Prim.Native.String
use text.Mathlib.TextLemmas.{append_assoc, cons-append, nil-append}
use maxwell_go_spine.Prelude.{
  Char, ℕ, ◌≡◌, refl, sym, ap, ◌∙◌, ◌<◌, String, Bool, true, false, Option, none, some, List, [],
  ◌∷◌, nat_eq, code,
}
use maxwell_go_spine.Go.Int.{ℤ, word_mod}
use maxwell_go_spine.Go.Text.Number.{digits_value, atoi, print_nat, print_int}
use maxwell_go_spine.Go.Text.Split.{Lacks, split}
use maxwell_go_spine.Go.Text.Digits.{print_nat-text}
use maxwell_go_spine.Go.Text.Printed.{
  IsInt, atoi-print_int, print_nat-Lacks, print_int-Lacks, split-Lacks_end, split-colon,
}
use maxwell_go_spine.Core.Cached.{cache_key_list}

-- The number behind the letter of a version.
abbrev pub version_number : String → Option ℕ
version_number String.[] = none
version_number (String.◌∷◌ v digits) = digits_value digits 0

abbrev pub read_parts : Option ℕ → ℤ × Bool → ℤ × Bool → Option (ℕ × ℤ × ℤ)
read_parts (some ver) (page, true) (size, true) = some (ver, page, size)
read_parts _ _ _ = none

-- The version, the page and the size in the text of a key.
abbrev pub read_list_key : List String → Option (ℕ × ℤ × ℤ)
read_list_key (user ∷ lists ∷ version ∷ page ∷ size ∷ []) =
    read_parts (version_number version) (atoi page) (atoi size)
read_list_key _ = none

key-parts :
    (x : String)
    → String.◌++◌ "user:list:v" x
      ≡ String.◌++◌ "user"
          (String.◌++◌ ":" (String.◌++◌ "list" (String.◌++◌ ":" (String.◌++◌ "v" x))))
key-parts x =
    append_assoc "user" ":list:v" x
    ∙ ap (String.◌++◌ "user") (
        append_assoc ":" "list:v" x
        ∙ ap (String.◌++◌ ":")
            (append_assoc "list" ":v" x ∙ ap (String.◌++◌ "list") (append_assoc ":" "v" x)))

v_text : (c : Char) × (◌≡◌ {A = String} "v" (String.◌∷◌ c "")) × (nat_eq (code c) b':' ≡ false)
v_text = (_, refl, refl)

v-Lacks : (s : String) → Lacks b':' s → Lacks b':' (String.◌++◌ "v" s)
v-Lacks s h = let (c, v, coded) = v_text in rw (v, cons-append c "" s, nil-append s) (coded, h)

version_number-print :
    (ver : ℕ) → ver < word_mod → version_number (String.◌++◌ "v" (print_nat ver)) ≡ some ver
version_number-print ver h =
    let (c, v, coded) = v_text in
    let (d, s, printed, digit, all, value) = print_nat-text ver h in
    rw (v, printed, cons-append c "" (String.◌∷◌ d s), nil-append (String.◌∷◌ d s)) value

-- The parts of the key of a list between its colons give back the version, the page and the size,
-- each in the range of its Go type: lists of different versions, pages or sizes have different
-- keys.
pub cache_key_list-read :
    (ver : ℕ) (page size : ℤ)
    → ver < word_mod
    → IsInt page
    → IsInt size
    → read_list_key (split b':' (cache_key_list ver page size)) ≡ some (ver, page, size)
unfolding cache_key_list
cache_key_list-read ver page size h p q =
    let rest : String = String.◌++◌ (print_int page) (String.◌++◌ ":" (print_int size)) in
    rw
      (
        key-parts (String.◌++◌ (print_nat ver) (String.◌++◌ ":" rest)),
        split-colon "user"
            (String.◌++◌ "list" (
              String.◌++◌ ":"
                (String.◌++◌ "v" (String.◌++◌ (print_nat ver) (String.◌++◌ ":" rest)))))
            (refl, (refl, (refl, (refl, tt)))),
        split-colon "list" (String.◌++◌ "v" (String.◌++◌ (print_nat ver) (String.◌++◌ ":" rest)))
            (refl, (refl, (refl, (refl, tt)))),
        sym (append_assoc "v" (print_nat ver) (String.◌++◌ ":" rest)),
        split-colon (String.◌++◌ "v" (print_nat ver)) rest (v-Lacks _ (print_nat-Lacks ver h)),
        split-colon (print_int page) (print_int size) (print_int-Lacks page p),
        split-Lacks_end b':' (print_int size) (print_int-Lacks size q),
        version_number-print ver h,
        atoi-print_int page p,
        atoi-print_int size q,
      )
      refl
