-- ===== src/Core/Service/Validation.antt =====
-- What the service lets through to the repository.
use maxwell_go_spine.Prelude.{
  ◌≡◌, refl, sym, ◌≢◌, String, true, false, Option, none, some, ◌==◌, eq_iff, arith, Bool-cases,
  inl, inr,
}
use maxwell_go_spine.Go.Error.{Result, ok, err, panic}
use maxwell_go_spine.Go.Text.Trim.{trim_space, trim_space_idem}
use maxwell_go_spine.Go.Text.Split.{to_lower}
use maxwell_go_spine.Core.User.{User}
use maxwell_go_spine.Core.Service.{Mail, normalize_email, checked_name, set_name, set_email}

-- A name without spaces around it that is not empty, and an email that also parses.
pub record IsWellFormed (mail : Mail) (u : User) : Type 0 where
  pub named : u.name ≢ ""
  pub name_trimmed : trim_space u.name ≡ u.name
  pub mailed : u.email ≢ ""
  pub email_trimmed : trim_space u.email ≡ u.email
  pub email_parses : mail.parse_address u.email ≡ true

ne_of_test : (s : String) → (s == "") ≡ false → s ≢ ""
ne_of_test s e h = ground (arith, eq_iff s "")

pub checked_name_ok :
    (name n : String)
    → checked_name name ≡ ok n
    → (n ≡ trim_space name) × (n ≢ "") × (trim_space n ≡ n)
unfolding checked_name
checked_name_ok name n h = elim (Bool-cases (trim_space name == "")) [
  | inl e ↦ absurd (ground arith)
  | inr e ↦
      let same : trim_space name ≡ n = ground arith in
      (sym same, rw (← same) (ne_of_test _ e), rw (← same) (trim_space_idem name))
]

module _ (mail : Mail) where
  pub normalize_email_ok :
      (e ne : String)
      → normalize_email mail e ≡ ok ne
      → (ne ≡ trim_space (to_lower mail.unicode_lower e))
        × (ne ≢ "")
        × (trim_space ne ≡ ne)
        × (mail.parse_address ne ≡ true)
  unfolding normalize_email
  normalize_email_ok e ne h = elim (Bool-cases (e' == "")) [
    | inl empty ↦ absurd (ground arith)
    | inr full ↦ elim (Bool-cases (mail.parse_address e')) [
      | inl parses ↦
          let same : e' ≡ ne = ground arith in
          (
            sym same,
            rw (← same) (ne_of_test _ full),
            rw (← same) (trim_space_idem (to_lower mail.unicode_lower e)),
            rw (← same) parses,
          )
      | inr fails ↦ absurd (ground arith)
    ]
  ]
    where
      e' : String
      e' = trim_space (to_lower mail.unicode_lower e)

  pub set_name_ok :
      (name : Option String) (u u' : User)
      → set_name name u ≡ ok u'
      → IsWellFormed mail u
      → IsWellFormed mail u'
        × (u'.id ≡ u.id)
        × (u'.created_at ≡ u.created_at)
        × (u'.deleted_at ≡ u.deleted_at)
  unfolding set_name
  set_name_ok none u u' h w = let e : u ≡ u' = cc in rw (← e) (w, refl, refl, refl)
  set_name_ok (some name) u u' h w = elim (Bool-cases (trim_space name == "")) [
    | inl empty ↦ absurd (ground arith)
    | inr full ↦
        let e : record u { name = trim_space name } ≡ u' = ground arith in
        rw (← e) (
          record {
            named = ne_of_test _ full;
            name_trimmed = trim_space_idem name;
            mailed = w.mailed;
            email_trimmed = w.email_trimmed;
            email_parses = w.email_parses;
          },
          refl,
          refl,
          refl,
        )
  ]

  pub set_email_ok :
      (email : Option String) (u u' : User)
      → set_email mail email u ≡ ok u'
      → IsWellFormed mail u
      → IsWellFormed mail u'
        × (u'.id ≡ u.id)
        × (u'.created_at ≡ u.created_at)
        × (u'.deleted_at ≡ u.deleted_at)
  unfolding set_email
  set_email_ok none u u' h w = let e : u ≡ u' = cc in rw (← e) (w, refl, refl, refl)
  set_email_ok (some email) u u' h w = go (normalize_email mail email) refl
    where
      go :
          (r : Result String)
          → normalize_email mail email ≡ r
          → IsWellFormed mail u'
            × (u'.id ≡ u.id)
            × (u'.created_at ≡ u.created_at)
            × (u'.deleted_at ≡ u.deleted_at)
      go (ok ne) e =
          let same : record u { email = ne } ≡ u' = cc (rw (e, set_email) at h) in
          let (_, full, trimmed, parses) = normalize_email_ok email ne e in
          rw (← same) (
            record {
              named = w.named;
              name_trimmed = w.name_trimmed;
              mailed = full;
              email_trimmed = trimmed;
              email_parses = parses;
            },
            refl,
            refl,
            refl,
          )
      go (err x) e = absurd (cc (rw (e, set_email) at h))
      go panic e = absurd (cc (rw (e, set_email) at h))
