-- ===== src/Core/Memory/Paging.antt =====
-- What `InMemoryUserRepo.List` gives: pages of the listed users, totals, and what an overflow does.
use native.Mathlib.Nat.{mod-eq_of_lt}
use maxwell_go_spine.Prelude.{
  ℕ, zero, suc, ◌+◌, ◌-◌, ◌*◌, ◌%◌, ◌≤◌, ◌<◌, ◌≡◌, refl, sym, ap, ◌∙◌, List, [], ◌∷◌, ◌++◌, length,
  take, drop, leb, arith, drop_of_length-le, take_of_length-le, length-drop, Bool-cases, inl, inr,
}
use maxwell_go_spine.Go.Int.{ℤ, pos, negsuc, max_int, word_mod, mul64, add64-pos, sub64-pos}
use maxwell_go_spine.Go.Error.{Result, ok, err, panic}
use maxwell_go_spine.Core.User.{User}
use maxwell_go_spine.Core.Memory.{page_of, page_number, page_length, window, slice}

-- Products of numbers in range are exact.
mul64-pos :
    (a b : ℕ) → a * b < max_int → a < max_int → b < max_int → mul64 (pos a) (pos b) ≡ pos (a * b)
unfolding mul64
mul64-pos a b h ha hb =
    let ea : a % word_mod ≡ a = mod-eq_of_lt (omega arith) in
    let eb : b % word_mod ≡ b = mod-eq_of_lt (omega arith) in
    let eab : (a * b) % word_mod ≡ a * b = mod-eq_of_lt (omega arith) in
    rw (ea, eb, eab) (ground arith)

take_all : (n k : ℕ) (l : List User) → length l ≤ n → length l ≤ k → take n l ≡ take k l
take_all n k l p q = take_of_length-le n l p ∙ sym (take_of_length-le k l q)

take-nil : (n : ℕ) → take {A = User} n [] ≡ []
take-nil zero = refl
take-nil (suc n) = refl

-- A window in range is a part of the list, cut at its end.
window_lem :
    (l : List User) (start size : ℕ)
    → start + size < max_int
    → window l (pos start) (pos size) ≡ ok (take size (drop start l), pos (length l))
unfolding window slice
window_lem l start size fits = elim (Bool-cases (leb (length l) start)) [
  | inl past ↦ ground (arith, drop_of_length-le start l, take-nil size)
  | inr inside ↦
      rw (add64-pos start size fits)
        (ground (arith, take_all (length l - start) size (drop start l), length-drop start l))
]

-- A page and a size from 1 up whose page ends in range: the page's users, and the total.
pub page_of-take :
    (l : List User) (page size : ℕ)
    → 0 < page
    → 0 < size
    → (page - 1) * size + size < max_int
    → page < max_int
    → page_of l (pos page) (pos size) ≡ ok (take size (drop ((page - 1) * size) l), pos (length l))
unfolding page_of
page_of-take l page size hp hs fits hp' =
    let number : page_number (pos page) ≡ pos page = ground arith in
    let len : page_length (pos size) ≡ pos size = ground arith in
    rw
      (
        number,
        len,
        sub64-pos page 1 hp hp',
        mul64-pos (page - 1) size (omega arith) (omega arith) (omega arith),
      )
      (window_lem l ((page - 1) * size) size fits)

take-add : (a b : ℕ) (l : List User) → take (a + b) l ≡ take a l ++ take b (drop a l)
take-add zero b l = ap (λ (k : ℕ). take k l) (omega arith)
take-add (suc a) b [] = take-nil (suc a + b) ∙ sym (take-nil b)
take-add (suc a) b (x ∷ l) =
    ap (λ (k : ℕ). take k (x ∷ l)) (let e : suc a + b ≡ suc (a + b) = omega arith in e)
    ∙ ap (◌∷◌ x) (take-add a b l)

-- The users of a reply; none for an error or a panic.
abbrev pub users_of : Result (List User × ℤ) → List User
users_of (ok (users, total)) = users
users_of (err e) = []
users_of panic = []

-- A client that reads the pages 1 to `k` in turn.
unfoldable pub read_pages : List User → ℕ → ℕ → List User
read_pages l size zero = []
read_pages l size (suc k) = read_pages l size k ++ users_of (page_of l (pos (suc k)) (pos size))

-- The pages 1 to `k` together are the first `k * size` users.
pub read_pages-take :
    (l : List User) (size k : ℕ)
    → 0 < size
    → k * size < max_int
    → read_pages l size k ≡ take (k * size) l
unfolding read_pages
read_pages-take l size zero hs fits =
    ap (λ (n : ℕ). take n l) (let e : zero ≡ zero * size = omega arith in e)
read_pages-take l size (suc k) hs fits =
    rw
      (
        read_pages-take l size k hs (grind arith),
        page_of-take l (suc k) size (omega arith) hs (grind arith) (grind arith),
      )
      (let e : suc k - 1 ≡ k = omega arith in
        rw e (
          sym (take-add (k * size) size l)
          ∙ ap (λ (n : ℕ). take n l) (let e' : k * size + size ≡ suc k * size = grind arith in e')))

-- Enough pages are the whole list, each user once and in order.
pub read_pages_all :
    (l : List User) (size k : ℕ)
    → 0 < size
    → k * size < max_int
    → length l ≤ k * size
    → read_pages l size k ≡ l
read_pages_all l size k hs fits enough =
    read_pages-take l size k hs fits ∙ take_of_length-le (k * size) l enough

mul64_negative :
    (a b : ℕ)
    → a < max_int
    → b < max_int
    → max_int ≤ (a * b) % word_mod
    → mul64 (pos a) (pos b) ≡ negsuc (word_mod - 1 - (a * b) % word_mod)
unfolding mul64
mul64_negative a b ha hb h =
    let ea : a % word_mod ≡ a = mod-eq_of_lt (omega arith) in
    let eb : b % word_mod ≡ b = mod-eq_of_lt (omega arith) in rw (ea, eb) (ground arith)

-- Where the product of the skipped pages and the size has its sign bit set, `List` panics.
pub page_of_overflow :
    (l : List User) (page size : ℕ)
    → 0 < page
    → page < max_int
    → 0 < size
    → size < max_int
    → max_int ≤ ((page - 1) * size) % word_mod
    → page_of l (pos page) (pos size) ≡ panic
unfolding page_of
page_of_overflow l page size hp hp' hs hs' high =
    let number : page_number (pos page) ≡ pos page = ground arith in
    let len : page_length (pos size) ≡ pos size = ground arith in
    rw (number, len, sub64-pos page 1 hp hp', mul64_negative (page - 1) size (omega arith) hs' high)
      (ground arith)
