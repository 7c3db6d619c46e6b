-- ===== src/Core/Cached/Keys.antt =====
-- The cache's keys tell users apart, and users from lists.
use Prim.Native.String.{◌++◌, slice}
use text.Mathlib.TextLemmas.{append_assoc, append_cancel_left}
use text.Mathlib.TextPositions.{slice-append_left}
use maxwell_go_spine.Prelude.{ℕ, ◌≡◌, ◌≢◌, ap, sym, ◌∙◌, arith, eq_iff, String}
use maxwell_go_spine.Go.Int.{ℤ}
use maxwell_go_spine.Core.User.{Uuid}
use maxwell_go_spine.Core.Cached.{Codec, cache_key_list, cache_key_user}

different_words : ◌≢◌ {A = String} "user:list" "user:get:"
different_words = ground (arith, eq_iff "user:list" "user:get:")

-- Texts that begin differently in their first nine bytes.
list_is_no_get : (x y : String) → "user:list:v" ++ x ≢ "user:get:" ++ y
list_is_no_get x y e = different_words (
    sym (slice-append_left "user:list" (":v" ++ x))
    ∙ ap (λ (s : String). slice s 0 9) (sym (append_assoc "user:list" ":v" x) ∙ e)
    ∙ slice-append_left "user:get:" y)

module _ (codec : Codec) where
  pub cache_key_user_injective :
      ((i j : Uuid) → codec.uuid_text i ≡ codec.uuid_text j → i ≡ j)
      → (i j : Uuid) → cache_key_user codec i ≡ cache_key_user codec j
      → i ≡ j
  unfolding cache_key_user
  cache_key_user_injective injective i j e = injective i j (append_cancel_left "user:get:" _ _ e)

  pub list_key_is_no_user_key :
      (ver : ℕ) (page size : ℤ) (id : Uuid) → cache_key_list ver page size ≢ cache_key_user codec id
  unfolding cache_key_list cache_key_user
  list_key_is_no_user_key ver page size id e = list_is_no_get _ _ e
