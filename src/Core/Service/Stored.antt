-- ===== src/Core/Service/Stored.antt =====
-- The service over the in-memory repository: what is stored stays well formed.
use maxwell_go_spine.Prelude.{
  ℕ, ◌≡◌, refl, ◌∙◌, String, Option, none, some, List, [], ◌∷◌, nat_eq, arith, Bool-cases,
  Option-cases, inl, inr,
}
use maxwell_go_spine.Prelude.Maps.Nat.{lookup, insert, contains, lookup-insert}
use maxwell_go_spine.Go.Int.{ℤ}
use maxwell_go_spine.Go.Error.{Result, ok, err, panic, and_then-eq-ok}
use maxwell_go_spine.Core.User.{Uuid, User, Env, UserRepository}
use maxwell_go_spine.Core.Service.{
  Mail, normalize_email, checked_name, set_name, set_email, build_user, change_user, store_new,
  store_changed, update_found, create, get, update, delete, list,
}
use maxwell_go_spine.Core.Service.Validation.{
  IsWellFormed, normalize_email_ok, checked_name_ok, set_name_ok, set_email_ok,
}
use maxwell_go_spine.Core.Memory
use maxwell_go_spine.Core.Memory.Branches.{
  get_missing, get_found, get_state, update_missing, update_found as update_lem, delete_missing,
  delete_found,
}
use maxwell_go_spine.Core.Memory.{InMemoryUserRepo, in_memory_repository, find_live, is_deleted}

module _ (mail : Mail) where
  pub build_user_ok :
      (env : Env) (name email : String) (u : User)
      → build_user mail env name email ≡ ok u
      → IsWellFormed mail u
        × (u.id ≡ env.new_id)
        × (u.created_at ≡ env.now)
        × (u.updated_at ≡ env.now)
        × (u.deleted_at ≡ none)
  unfolding build_user
  build_user_ok env name email u h =
      let (n, checked, h1) = and_then-eq-ok (checked_name name) _ h in
      let (ne, mailed, h2) = and_then-eq-ok (normalize_email mail email) _ h1 in
      let (_, full, trimmed) = checked_name_ok name n checked in
      let (_, some_mail, mail_trimmed, parses) = normalize_email_ok mail email ne mailed in
      let same : record {
        id = env.new_id;
        name = n;
        email = ne;
        created_at = env.now;
        updated_at = env.now;
        deleted_at = none;
      }
          ≡ u =
        cc in
      rw (← same) (
        record {
          named = full;
          name_trimmed = trimmed;
          mailed = some_mail;
          email_trimmed = mail_trimmed;
          email_parses = parses;
        },
        refl,
        refl,
        refl,
        refl,
      )

  pub change_user_ok :
      (env : Env) (name email : Option String) (u u' : User)
      → change_user mail env name email u ≡ ok u'
      → IsWellFormed mail u
      → IsWellFormed mail u'
        × (u'.id ≡ u.id)
        × (u'.created_at ≡ u.created_at)
        × (u'.updated_at ≡ env.now)
        × (u'.deleted_at ≡ u.deleted_at)
  unfolding change_user
  change_user_ok env name email u u' h w =
      let (v, named, h1) = and_then-eq-ok (set_name name u) _ h in
      let (x, mailed, h2) = and_then-eq-ok (set_email mail email v) _ h1 in
      let (wv, iv, cv, dv) = set_name_ok mail name u v named w in
      let (wx, ix, cx, dx) = set_email_ok mail email v x mailed wv in
      let same : record x { updated_at = env.now } ≡ u' = cc in
      rw (← same) (
        record {
          named = wx.named;
          name_trimmed = wx.name_trimmed;
          mailed = wx.mailed;
          email_trimmed = wx.email_trimmed;
          email_parses = wx.email_parses;
        },
        ix ∙ iv,
        cx ∙ cv,
        refl,
        dx ∙ dv,
      )

-- Every stored user has the property, deleted ones too.
abbrev pub AllStored : (User → Type 0) → InMemoryUserRepo → Type 0
AllStored P r = (j : Uuid) (u : User) → lookup j r.users ≡ some u → P u

pub insert-AllStored :
    (P : User → Type 0) (id : Uuid) (v : User) (r : InMemoryUserRepo)
    → P v
    → AllStored P r
    → AllStored P (record r { users = insert id v r.users })
insert-AllStored P id v r pv all j u h = elim (Bool-cases (nat_eq id j)) [
  | inl e ↦ let same : v ≡ u = ground (arith, lookup-insert id j v r.users) in rw (← same) pv
  | inr e ↦ all j u (ground (arith, lookup-insert id j v r.users))
]

pub find_live-lookup :
    (id : Uuid) (m : List (Uuid × User)) (u : User)
    → find_live id m ≡ some u
    → (lookup id m ≡ some u) × (u.deleted_at ≡ none)
unfolding find_live
find_live-lookup id m u h = ground arith

pub data ServiceCall : Type 0 where
  create_call : Env → String → String → ServiceCall
  update_call : Env → Uuid → Option String → Option String → ServiceCall
  get_call delete_call : Env → Uuid → ServiceCall
  list_call : Env → ℤ → ℤ → ServiceCall

module _ (mail : Mail) (arrange : ℕ → List User → List User) where
  abbrev repo : UserRepository InMemoryUserRepo
  repo = in_memory_repository arrange

  -- The repository after a call of the service, whatever the call returns.
  unfoldable pub serve : ServiceCall → InMemoryUserRepo → InMemoryUserRepo
  serve (create_call env name email) r = (create mail repo env name email r).1
  serve (update_call env id name email) r = (update mail repo env id name email r).1
  serve (get_call env id) r = (get mail repo env id r).1
  serve (delete_call env id) r = (delete mail repo env id r).1
  serve (list_call env page size) r = (list mail repo env page size r).1

  store_new-AllStored :
      (x : Result User) (r : InMemoryUserRepo)
      → ((u : User) → x ≡ ok u → IsWellFormed mail u)
      → AllStored (IsWellFormed mail) r
      → AllStored (IsWellFormed mail) (store_new mail repo x r).1
  unfolding store_new in_memory_repository Memory.create
  store_new-AllStored (ok u) r w all = elim (Bool-cases (contains u.id r.users)) [
    | inl e ↦ rw e all
    | inr e ↦ rw e (insert-AllStored (IsWellFormed mail) u.id u r (w u refl) all)
  ]
  store_new-AllStored (err e) r w all = all
  store_new-AllStored panic r w all = all

  store_changed-AllStored :
      (x : Result User) (r : InMemoryUserRepo)
      → ((u : User) → x ≡ ok u → IsWellFormed mail u)
      → AllStored (IsWellFormed mail) r
      → AllStored (IsWellFormed mail) (store_changed mail repo x r).1
  unfolding store_changed in_memory_repository
  store_changed-AllStored (ok u) r w all = elim (Option-cases (find_live u.id r.users)) [
    | inl e ↦ rw (update_missing r u e) all
    | inr (old, e) ↦
        rw (update_lem r u old e) (insert-AllStored (IsWellFormed mail) u.id u r (w u refl) all)
  ]
  store_changed-AllStored (err e) r w all = all
  store_changed-AllStored panic r w all = all

  update-AllStored :
      (env : Env) (id : Uuid) (name email : Option String) (r : InMemoryUserRepo)
      → AllStored (IsWellFormed mail) r
      → AllStored (IsWellFormed mail) (update mail repo env id name email r).1
  unfolding update update_found in_memory_repository
  update-AllStored env id name email r all = elim (Option-cases (find_live id r.users)) [
    | inl e ↦ rw (get_missing r id e) all
    | inr (u, e) ↦ rw (get_found r id u e) (
        store_changed-AllStored (change_user mail env name email u) r
          (λ u' h.
            (change_user_ok mail env name email u u' h
              (all id u (find_live-lookup id r.users u e).0)).0)
          all)
  ]

  delete-AllStored :
      (env : Env) (id : Uuid) (r : InMemoryUserRepo)
      → AllStored (IsWellFormed mail) r
      → AllStored (IsWellFormed mail) (delete mail repo env id r).1
  unfolding delete in_memory_repository
  delete-AllStored env id r all = elim (Option-cases (find_live id r.users)) [
    | inl e ↦ rw (delete_missing r env id e) all
    | inr (u, e) ↦ rw (delete_found r env id u e) (
        let w = all id u (find_live-lookup id r.users u e).0 in
        insert-AllStored (IsWellFormed mail) id _ r
          (record {
            named = w.named;
            name_trimmed = w.name_trimmed;
            mailed = w.mailed;
            email_trimmed = w.email_trimmed;
            email_parses = w.email_parses;
          })
          all)
  ]

  pub serve-AllStored :
      (c : ServiceCall) (r : InMemoryUserRepo)
      → AllStored (IsWellFormed mail) r
      → AllStored (IsWellFormed mail) (serve c r)
  unfolding serve create get list in_memory_repository Memory.list
  serve-AllStored (create_call env name email) r all =
      store_new-AllStored (build_user mail env name email) r
        (λ u h. (build_user_ok mail env name email u h).0) all
  serve-AllStored (update_call env id name email) r all = update-AllStored env id name email r all
  serve-AllStored (get_call env id) r all = rw (get_state r id) all
  serve-AllStored (delete_call env id) r all = delete-AllStored env id r all
  serve-AllStored (list_call env page size) r all = all

  unfoldable pub serve_all : List ServiceCall → InMemoryUserRepo → InMemoryUserRepo
  unfolding serve
  serve_all [] r = r
  serve_all (c ∷ cs) r = serve_all cs (serve c r)

  -- After any sequence of service calls every stored user is well formed, if all were before.
  pub serve_all-AllStored :
      (cs : List ServiceCall) (r : InMemoryUserRepo)
      → AllStored (IsWellFormed mail) r
      → AllStored (IsWellFormed mail) (serve_all cs r)
  unfolding serve_all
  serve_all-AllStored [] r all = all
  serve_all-AllStored (c ∷ cs) r all = serve_all-AllStored cs (serve c r) (serve-AllStored c r all)
