-- ===== src/Graph/Schema/Typed.antt =====
-- The resolvers of `BuildSchema` and the types that it declares.
use mathlib.Core.Path.{subst}
use mathlib.Core.Option.{some-injective}
use maxwell_go_spine.Prelude.{
  ◌≡◌, ◌≢◌, refl, String, Bool, true, false, not, ◌==◌, ◌&&◌, Option, none, some, List, [], ◌∷◌,
  ◌++◌, map, if◌then◌else◌,
}
use maxwell_go_spine.Prelude.Maps.Str.{lookup, contains}
use maxwell_go_spine.Go.Int.{ℤ}
use maxwell_go_spine.Go.Error.{Result, ok, err, panic, M, then_call}
use maxwell_go_spine.Core.User.{Uuid, User, Env, UserService}
use maxwell_go_spine.Graph.{Texts, answer, with_uuid}
use maxwell_go_spine.Graph.Schema.{
  Fields, convert_user, resolve_users, resolve_user, resolve_create_user, resolve_update_user,
  resolve_delete_user,
}
use maxwell_go_spine.Graph.Schema.Build.{
  Declared, named, list_of, non_null, Given, given_text, given_int, GivenArgs, Served, boolean,
  user_map, user_maps, SchemaField, user_type, must_text, users_root, user_root, create_user_root,
  update_user_root, delete_user_root, schema_config,
}

-- An argument is of its declared type; it may be left out if the type is nullable.
abbrev pub arg_fits : Declared → Option Given → Bool
arg_fits (named n) none = true
arg_fits (named n) (some (given_int i)) = n == "Int"
arg_fits (named n) (some (given_text t)) = not (n == "Int")
arg_fits (list_of t) v = false
arg_fits (non_null t) none = false
arg_fits (non_null t) (some v) = arg_fits t (some v)

abbrev pub args_fit : List (String × Declared) → GivenArgs → Bool
args_fit [] args = true
args_fit ((key, t) ∷ rest) args = arg_fits t (lookup key args) && args_fit rest args

abbrev pub is_required : Declared → Bool
is_required (named n) = false
is_required (list_of t) = false
is_required (non_null t) = true

-- A map has each field that an object requires.
abbrev pub has_required : List (String × Declared) → Fields → Bool
has_required [] fields = true
has_required ((key, t) ∷ rest) fields =
    (if is_required t then contains key fields else true) && has_required rest fields

abbrev pub all_users : List Fields → Bool
all_users [] = true
all_users (fields ∷ rest) = has_required user_type fields && all_users rest

-- A value is of a declared type.
abbrev pub fits : Declared → Served → Bool
fits (named n) (boolean b) = n == "Boolean"
fits (named n) (user_map fields) = (n == "User") && has_required user_type fields
fits (named n) (user_maps ms) = false
fits (list_of t) (boolean b) = false
fits (list_of t) (user_map fields) = false
fits (list_of (named n)) (user_maps ms) = (n == "User") && all_users ms
fits (list_of (non_null (named n))) (user_maps ms) = (n == "User") && all_users ms
fits (list_of (non_null (list_of t))) (user_maps ms) = false
fits (list_of (non_null (non_null t))) (user_maps ms) = false
fits (list_of (list_of t)) (user_maps ms) = false
fits (non_null t) v = fits t v

-- A call that returns a value of the type, or an error, and does not panic.
abbrev pub IsTyped : {S : Type 0} → Declared → Result Served × S → Type 0
IsTyped t (ok v, s) = fits t v ≡ true
IsTyped t (err e, s) = Unit
IsTyped t (panic, s) = ⊥

-- Neither the service nor `uuid.Parse` panics.
pub record IsCalm {S : Type 0} (texts : Texts) (svc : UserService S) : Type 0 where
  pub parses : (t : String) → texts.parse_uuid t ≢ panic
  pub creates : (env : Env) (n e : String) (s : S) → (svc.create env n e s).0 ≢ panic
  pub gets : (env : Env) (id : Uuid) (s : S) → (svc.get env id s).0 ≢ panic
  pub updates :
      (env : Env) (id : Uuid) (n e : Option String) (s : S) → (svc.update env id n e s).0 ≢ panic
  pub deletes : (env : Env) (id : Uuid) (s : S) → (svc.delete env id s).0 ≢ panic
  pub lists : (env : Env) (page size : ℤ) (s : S) → (svc.list env page size s).0 ≢ panic

-- All entries of a map have a property.
abbrev pub AllEntries : {A : Type 0} → (A → Type 0) → List (String × A) → Type 0
AllEntries P [] = Unit
AllEntries P ((key, a) ∷ rest) = P a × AllEntries P rest

found_has :
    {A : Type 0} (P : A → Type 0) (b : Bool) {a : A} {c : Option A} {d : A}
    → P a
    → (c ≡ some d → P d)
    → (if b then some a else c) ≡ some d
    → P d
found_has P true p q e = subst P (some-injective _ _ e) p
found_has P false p q e = q e

lookup-AllEntries :
    {A : Type 0} (P : A → Type 0) (entries : List (String × A))
    → AllEntries P entries
    → (key : String) (a : A) → lookup key entries ≡ some a
    → P a
lookup-AllEntries P [] h key a found = absurd (cc)
lookup-AllEntries P ((other, b) ∷ entries) (p, h) key a found =
    found_has P (other == key) p (lookup-AllEntries P entries h key a) found

both_left : (b c : Bool) → (b && c) ≡ true → b ≡ true
both_left true c e = refl
both_left false c e = absurd (cc)

both_right : (b c : Bool) → (b && c) ≡ true → c ≡ true
both_right true c e = e
both_right false c e = absurd (cc)

-- A required argument that fits is a text, if its type is not Int.
text_arg :
    (n : String) (v : Option Given)
    → (n == "Int") ≡ false
    → arg_fits (non_null (named n)) v ≡ true
    → (t : String) × (must_text v ≡ ok t)
text_arg n none other fit = absurd (cc)
text_arg n (some (given_text t)) other fit = (t, refl)
text_arg n (some (given_int i)) other fit = absurd (cc)

module _ {S : Type 0} (texts : Texts) (svc : UserService S) where
  user-Typed :
      (c : Result User × S)
      → c.0 ≢ panic
      → IsTyped (named "User") (answer user_map (answer (convert_user texts) c))
  unfolding convert_user
  user-Typed (ok u, s) calm = refl
  user-Typed (err e, s) calm = tt
  user-Typed (panic, s) calm = calm refl

  all_users-map : (us : List User) → all_users (map (convert_user texts) us) ≡ true
  unfolding convert_user
  all_users-map [] = refl
  all_users-map (u ∷ us) = all_users-map us

  users-Typed :
      (c : Result (List User × ℤ) × S)
      → c.0 ≢ panic
      → IsTyped
          (non_null (list_of (non_null (named "User"))))
          (answer user_maps (answer (λ (r : List User × ℤ). map (convert_user texts) r.0) c))
  users-Typed (ok (us, n), s) calm = all_users-map us
  users-Typed (err e, s) calm = tt
  users-Typed (panic, s) calm = calm refl

  with_uuid-Typed :
      {A : Type 0} (t : Declared) (w : A → Served) (r : Result Uuid) (f : Uuid → M S A) (s : S)
      → r ≢ panic
      → ((id : Uuid) → IsTyped t (answer w (f id s)))
      → IsTyped t (answer w (with_uuid r f s))
  with_uuid-Typed t w (ok id) f s calm each = each id
  with_uuid-Typed t w (err e) f s calm each = tt
  with_uuid-Typed t w panic f s calm each = calm refl

  deleted-Typed :
      (c : Result (Unit {0}) × S)
      → c.0 ≢ panic
      → IsTyped (non_null (named "Boolean")) (answer boolean (answer (λ u. true) c))
  deleted-Typed (ok u, s) calm = refl
  deleted-Typed (err e, s) calm = tt
  deleted-Typed (panic, s) calm = calm refl

  then_text-Typed :
      (t : Declared) (n : String) (v : Option Given) (s : S) (f : String → M S Served)
      → (n == "Int") ≡ false
      → arg_fits (non_null (named n)) v ≡ true
      → ((x : String) → IsTyped t (f x s))
      → IsTyped t (then_call (must_text v, s) f)
  then_text-Typed t n v s f other fit each =
      let found = text_arg n v other fit in rw found.1 (each found.0)

  module _ (calm : IsCalm texts svc) where
    -- The arguments fit, so the call returns a value of the declared type or an error.
    abbrev pub IsSound : SchemaField S → Type 0
    IsSound f =
        (env : Env) (args : GivenArgs) (s : S)
        → args_fit f.args args ≡ true
        → IsTyped f.declared (f.resolve env args s)

    users-Sound : IsSound (users_root texts svc)
    unfolding users_root resolve_users
    users-Sound env args s fit = users-Typed (svc.list env _ _ s) (calm.lists env _ _ s)

    user-Sound : IsSound (user_root texts svc)
    unfolding user_root resolve_user
    user-Sound env args s fit =
        then_text-Typed (named "User") "ID" (lookup "id" args) s _ refl (both_left _ _ fit) (λ id.
          with_uuid-Typed (named "User") user_map (texts.parse_uuid id) _ s (calm.parses id)
            (λ i. user-Typed (svc.get env i s) (calm.gets env i s)))

    create_user-Sound : IsSound (create_user_root texts svc)
    unfolding create_user_root resolve_create_user
    create_user-Sound env args s fit =
        then_text-Typed (named "User") "String" (lookup "name" args) s _ refl (both_left _ _ fit)
          (λ n.
            then_text-Typed (named "User") "String" (lookup "email" args) s _ refl
              (both_left _ _ (both_right _ _ fit))
              (λ email. user-Typed (svc.create env n email s) (calm.creates env n email s)))

    update_user-Sound : IsSound (update_user_root texts svc)
    unfolding update_user_root resolve_update_user
    update_user-Sound env args s fit =
        then_text-Typed (named "User") "ID" (lookup "id" args) s _ refl (both_left _ _ fit) (λ id.
          with_uuid-Typed (named "User") user_map (texts.parse_uuid id) _ s (calm.parses id)
            (λ i. user-Typed (svc.update env i _ _ s) (calm.updates env i _ _ s)))

    delete_user-Sound : IsSound (delete_user_root texts svc)
    unfolding delete_user_root resolve_delete_user
    delete_user-Sound env args s fit =
        then_text-Typed (non_null (named "Boolean")) "ID" (lookup "id" args) s _ refl
          (both_left _ _ fit)
          (λ id.
            with_uuid-Typed (non_null (named "Boolean")) boolean (texts.parse_uuid id) _ s
              (calm.parses id) (λ i. deleted-Typed (svc.delete env i s) (calm.deletes env i s)))

    -- Each field of the two roots of `BuildSchema`, on arguments of the types that the field
    -- declares, returns an error or a value of the type that it declares, in which every field that
    -- `User` requires is there; no type assertion panics. It is assumed that neither the service nor
    -- `uuid.Parse` panics.
    pub resolve-IsTyped :
        (key : String) (f : SchemaField S) (env : Env) (args : GivenArgs) (s : S)
        → lookup key ((schema_config texts svc).query ++ (schema_config texts svc).mutation)
          ≡ some f
        → args_fit f.args args ≡ true
        → IsTyped f.declared (f.resolve env args s)
    unfolding schema_config
    resolve-IsTyped key f env args s found fit =
        lookup-AllEntries IsSound
          ((schema_config texts svc).query ++ (schema_config texts svc).mutation)
          (
            users-Sound,
            (user-Sound, (create_user-Sound, (update_user-Sound, (delete_user-Sound, tt)))),
          )
          key f found env args s fit
