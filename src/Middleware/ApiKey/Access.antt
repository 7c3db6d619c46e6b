-- ===== src/Middleware/ApiKey/Access.antt =====
-- Who gets through the API key middleware.
use maxwell_go_spine.Prelude.{
  Char, ◌≡◌, ◌≢◌, ◌↔◌, ◌⊎◌, inl, inr, refl, sym, ap, ◌∙◌, String, true, false, ◌&&◌, Option, none,
  some, List, [], ◌∷◌, ◌==◌, eq_iff, arith, Bool-cases,
}
use maxwell_go_spine.Prelude.Maps.Str.{lookup, contains}
use maxwell_go_spine.Go.Int.{ℤ, leb_ℤ}
use maxwell_go_spine.Http.{
  Header, header_add, Request, add_header, Outcome, Handler, before, respond,
}
use maxwell_go_spine.Middleware.KeySet.{
  Has, add_keys, contains-add_keys, Has-add_keys, not-Has-add_keys,
}
use maxwell_go_spine.Middleware.ApiKey.{
  ApiKeyOptions, has_none, expired_at, is_expired, unauthorized, deprecation, candidate, check_key,
  api_key_auth_with_opts,
}

-- No expiry, or one that is later than `now`.
abbrev pub IsCurrent : String → List (String × ℤ) → ℤ → Type 0
IsCurrent key es now = (ts : ℤ) → lookup key es ≡ some ts → leb_ℤ ts now ≡ false

is_expired-lookup :
    (k : String) (es : List (String × ℤ)) (now : ℤ)
    → is_expired k es now ≡ expired_at (lookup k es) now
unfolding is_expired
is_expired-lookup k [] now = refl
is_expired-lookup k (x ∷ es) now = refl

current_of-IsCurrent :
    (o : Option ℤ) (now : ℤ)
    → ((ts : ℤ) → o ≡ some ts → leb_ℤ ts now ≡ false)
    → expired_at o now ≡ false
current_of-IsCurrent none now h = refl
current_of-IsCurrent (some ts) now h = h ts refl

-- The middleware's test is false exactly for a key that is current.
is_expired-false_iff :
    (k : String) (es : List (String × ℤ)) (now : ℤ)
    → (is_expired k es now ≡ false) ↔ IsCurrent k es now
is_expired-false_iff k es now = (
  λ h ts e. ap (λ (o : Option ℤ). expired_at o now) (sym e) ∙ sym (is_expired-lookup k es now) ∙ h,
  λ h. is_expired-lookup k es now ∙ current_of-IsCurrent (lookup k es) now h,
)

-- The key is configured and has not expired.
pub record Admits (opts : ApiKeyOptions) (now : ℤ) (key : String) : Type 0 where
  pub presented : key ≢ ""
  pub configured : Has key opts.current ⊎ Has key opts.old
  pub unexpired : IsCurrent key opts.expiries now

ne-test : (k : String) → k ≢ "" → (k == "") ≡ false
ne-test k ne = elim (Bool-cases (k == "")) [ inl e ↦ absurd (ne ((eq_iff k "").0 e)) | inr e ↦ e ]

module _ {S : Type 0} (opts : ApiKeyOptions) (now : ℤ) (k : String) (next : Handler S)
    (req : Request) (h : Header) (s : S) where
  open opts use {current, old, expiries}

  check_key-refuses :
      ¬ Admits opts now k → check_key opts now k next req h s ≡ respond unauthorized s
  unfolding check_key
  check_key-refuses refused = elim (Bool-cases (k == "")) [
    | inl e ↦ rw e
    | inr e ↦
        let presented : k ≢ "" = λ same. ground (arith, eq_iff k "") in
        elim (Bool-cases (is_expired k expiries now)) [
          | inl x ↦ rw (e, x) (ground arith)
          | inr x ↦
              let unexpired = (is_expired-false_iff k expiries now).0 x in
              elim (Bool-cases (contains k (add_keys current []))) [
                | inl c ↦ absurd (
                    refused (record {
                      presented = presented;
                      configured = inl (Has-add_keys k current c);
                      unexpired = unexpired;
                    }))
                | inr c ↦ elim (Bool-cases (contains k (add_keys old []))) [
                  | inl o ↦ absurd (
                      refused (record {
                        presented = presented;
                        configured = inr (Has-add_keys k old o);
                        unexpired = unexpired;
                      }))
                  | inr o ↦ rw (e, c, o)
                ]
              ]
        ]
  ]

  abbrev passed : Outcome S
  passed = check_key opts now k next req h s

  check_key-Admits :
      Admits opts now k
      → (Has k current × (passed ≡ next req h s))
        ⊎ ((¬ Has k current)
            × (passed
                ≡ before
                    (add_header "Warning" deprecation ∷ [])
                    (next req (header_add "Warning" deprecation h) s)))
  unfolding check_key
  check_key-Admits a =
      let e : (k == "") ≡ false = ne-test k a.presented in
      let x : is_expired k expiries now ≡ false =
        (is_expired-false_iff k expiries now).1 a.unexpired in
      elim (Bool-cases (contains k (add_keys current []))) [
        | inl c ↦ inl (Has-add_keys k current c, rw (e, c, x))
        | inr c ↦
            let never : ¬ Has k current = not-Has-add_keys k current c in
            let has_old : Has k old = elim a.configured [
              | inl has ↦ absurd (never has)
              | inr has ↦ has
            ] in
            let o : contains k (add_keys old []) ≡ true =
              (contains-add_keys k old []).1 (inl has_old) in
            inr (never, rw (e, c, o, x))
      ]

module _ (unicode_lower : Char → Char) {S : Type 0} (opts : ApiKeyOptions) (now : ℤ)
    (next : Handler S) (req : Request) (h : Header) (s : S) where
  abbrev key : String
  key = candidate unicode_lower req.header

  abbrev answer : Outcome S
  answer = api_key_auth_with_opts unicode_lower opts now next req h s

  abbrev IsConfigured : Type 0
  IsConfigured = (has_none opts.current && has_none opts.old) ≡ false

  -- With some key configured, a request whose key is not admitted gets the 401 and the next
  -- handler does not run: its state is as it was.
  pub refuses : IsConfigured → ¬ Admits opts now key → answer ≡ respond unauthorized s
  unfolding api_key_auth_with_opts
  refuses some_key no_key = rw some_key (check_key-refuses opts now key next req h s no_key)

  -- An admitted request runs the next handler once; it carries the deprecation warning exactly if
  -- the key is an old one that is not also a current one.
  pub lets_through :
      IsConfigured
      → Admits opts now key
      → (Has key opts.current × (answer ≡ next req h s))
        ⊎ ((¬ Has key opts.current)
            × (answer
                ≡ before
                    (add_header "Warning" deprecation ∷ [])
                    (next req (header_add "Warning" deprecation h) s)))
  unfolding api_key_auth_with_opts
  lets_through some_key a = rw some_key (check_key-Admits opts now key next req h s a)
