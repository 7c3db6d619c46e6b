-- ===== src/Config/Keys.antt =====
-- What a loaded configuration guarantees.
use maxwell_go_spine.Prelude.{
  ◌≡◌, ◌≢◌, inl, inr, ℕ, Char, code, String, false, not, ◌||◌, Option, none, some, List, [], ◌∷◌,
  ◌==◌, nat_eq, eq_iff, arith, Bool-cases, All,
}
use maxwell_go_spine.Prelude.Maps.Str.{insert}
use maxwell_go_spine.Go.Int.{ℤ}
use maxwell_go_spine.Go.Text.Trim.{
  is_space, trim_left, trim_right, trim_space, trim_space_idem, keep_before,
}
use maxwell_go_spine.Go.Text.Split.{Lacks, contains_text, split, split_once, split-Lacks}
use maxwell_go_spine.Config.{
  Platform, keep_keys, key_list, add_dated, add_expiry, add_expiries, expiries_of, date_key,
}

-- A key: trimmed, not empty, and free of the separator.
abbrev pub IsKey : ℕ → String → Type 0
IsKey sep k = (trim_space k ≡ k) × (k ≢ "") × Lacks sep k

module _ (sep : ℕ) where
  trim_left-Lacks : (s : String) → Lacks sep s → Lacks sep (trim_left s)
  unfolding trim_left
  trim_left-Lacks String.[] h = tt
  trim_left-Lacks (String.◌∷◌ c s) h = elim (Bool-cases (is_space (code c))) [
    | inl e ↦ rw e (trim_left-Lacks s h.1)
    | inr e ↦ rw e h
  ]

  keep_before-Lacks :
      (c : Char) (s : String)
      → nat_eq (code c) sep ≡ false
      → Lacks sep s
      → Lacks sep (keep_before c s)
  keep_before-Lacks c String.[] e h = elim (Bool-cases (is_space (code c))) [
    | inl f ↦ rw f tt
    | inr f ↦ rw f (e, tt)
  ]
  keep_before-Lacks c (String.◌∷◌ d s) e h = (e, h)

  trim_right-Lacks : (s : String) → Lacks sep s → Lacks sep (trim_right s)
  unfolding trim_right
  trim_right-Lacks String.[] h = tt
  trim_right-Lacks (String.◌∷◌ c s) h = keep_before-Lacks c _ h.0 (trim_right-Lacks s h.1)

  trim_space-IsKey :
      (s : String) → (trim_space s == "") ≡ false → Lacks sep s → IsKey sep (trim_space s)
  unfolding trim_space
  trim_space-IsKey s e h = (
    trim_space_idem s,
    (λ same. ground (arith, eq_iff (trim_space s) "")),
    trim_right-Lacks _ (trim_left-Lacks s h),
  )

keep_keys-IsKey : (ps : List String) → All (Lacks b',') ps → All (IsKey b',') (keep_keys ps)
unfolding keep_keys
keep_keys-IsKey [] h = tt
keep_keys-IsKey (p ∷ ps) h = elim (Bool-cases (trim_space p == "")) [
  | inl e ↦ rw e (keep_keys-IsKey ps h.1)
  | inr e ↦ rw e (trim_space-IsKey b',' p e h.0, keep_keys-IsKey ps h.1)
]

pub key_list-IsKey : (v : String) → All (IsKey b',') (key_list v)
unfolding key_list
key_list-IsKey v = elim (Bool-cases (v == "")) [
  | inl e ↦ rw e tt
  | inr e ↦ rw e (keep_keys-IsKey _ (split-Lacks b',' v))
]

-- The keys of `API_KEY_EXPIRIES` are keys without a colon.
abbrev pub IsDated : String × ℤ → Type 0
IsDated e = IsKey b':' e.0

split_once-Lacks : (sep : ℕ) (s : String) → Lacks sep (split_once sep s).0
unfolding split_once
split_once-Lacks sep String.[] = tt
split_once-Lacks sep (String.◌∷◌ c s) = elim (Bool-cases (nat_eq (code c) sep)) [
  | inl e ↦ rw e tt
  | inr e ↦ rw e (e, split_once-Lacks sep s)
]

insert-IsDated :
    (k : String) (v : ℤ) (m : List (String × ℤ))
    → IsKey b':' k
    → All IsDated m
    → All IsDated (insert k v m)
insert-IsDated k v [] h a = (h, tt)
insert-IsDated k v ((j, w) ∷ m) h a = elim (Bool-cases (j == k)) [
  | inl e ↦ rw e (h, a.1)
  | inr e ↦ rw e (a.0, insert-IsDated k v m h a.1)
]

module _ (platform : Platform) where
  date_key-IsDated :
      (k : String) (ts : Option ℤ) (m : List (String × ℤ))
      → IsKey b':' k
      → All IsDated m
      → All IsDated (date_key platform k ts m)
  date_key-IsDated k none m h a = a
  date_key-IsDated k (some ts) m h a = insert-IsDated k ts m h a

  add_dated-IsDated :
      (x : String × Option String) (m : List (String × ℤ))
      → Lacks b':' x.0
      → All IsDated m
      → All IsDated (add_dated platform x m)
  unfolding add_dated
  add_dated-IsDated (k, none) m h a = a
  add_dated-IsDated (k, some d) m h a = elim (Bool-cases (trim_space k == "")) [
    | inl e ↦ rw e a
    | inr e ↦ elim (Bool-cases (trim_space d == "")) [
      | inl f ↦ rw (e, f) a
      | inr f ↦ rw (e, f) (date_key-IsDated _ _ m (trim_space-IsKey b':' k e h) a)
    ]
  ]

  add_expiry-IsDated :
      (pair : String) (m : List (String × ℤ))
      → All IsDated m
      → All IsDated (add_expiry platform pair m)
  unfolding add_expiry
  add_expiry-IsDated pair m a =
      elim (Bool-cases (trim_space pair == "" || not (contains_text (trim_space pair) ":"))) [
        | inl e ↦ rw e a
        | inr e ↦ rw e (add_dated-IsDated _ m (split_once-Lacks b':' (trim_space pair)) a)
      ]

  add_expiries-IsDated :
      (ps : List String) (m : List (String × ℤ))
      → All IsDated m
      → All IsDated (add_expiries platform ps m)
  unfolding add_expiries
  add_expiries-IsDated [] m a = a
  add_expiries-IsDated (p ∷ ps) m a = add_expiries-IsDated ps _ (add_expiry-IsDated p m a)

  pub expiries_of-IsDated : (v : String) → All IsDated (expiries_of platform v)
  unfolding expiries_of
  expiries_of-IsDated v = elim (Bool-cases (v == "")) [
    | inl e ↦ rw e tt
    | inr e ↦ rw e (add_expiries-IsDated (split b',' v) [] tt)
  ]
