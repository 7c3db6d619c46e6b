-- ===== src/Graph/Agreement.antt =====
-- The two sets of GraphQL resolvers agree.
use maxwell_go_spine.Prelude.{
  ◌≡◌, refl, ap, String, false, Option, none, some, List, [], ◌∷◌, ◌++◌, map,
}
use maxwell_go_spine.Go.Int.{ℤ, pos, eqb_ℤ}
use maxwell_go_spine.Go.Error.{Result, ok, err, panic, M}
use maxwell_go_spine.Core.User.{Uuid, Time, User, Env, UserService}
use maxwell_go_spine.Graph
use maxwell_go_spine.Graph.{
  Texts, GraphUser, answer, with_uuid, users, user, create_user, update_user, delete_user,
}
use maxwell_go_spine.Graph.Schema
use maxwell_go_spine.Graph.Schema.{
  Fields, resolve_users, resolve_user, resolve_create_user, resolve_update_user,
  resolve_delete_user,
}

abbrev pub deleted_of : Option String → Fields
deleted_of none = []
deleted_of (some t) = ("deletedAt", t) ∷ []

-- The object that the schema serves, from the one that the resolvers serve.
abbrev pub fields_of : GraphUser → Fields
fields_of u =
    (("id", u.id)
      ∷ ("name", u.name)
      ∷ ("email", u.email)
      ∷ ("createdAt", u.created_at)
      ∷ ("updatedAt", u.updated_at)
      ∷ [])
    ++ deleted_of u.deleted_at

-- A page argument that is missing or not zero.
abbrev pub NotZero : Option ℤ → Type 0
NotZero none = Unit
NotZero (some n) = eqb_ℤ n (pos 0) ≡ false

deleted-fields :
    (f : Time → String) (d : Option Time)
    → Schema.deleted_field f d ≡ deleted_of (Graph.formatted f d)
deleted-fields f none = refl
deleted-fields f (some t) = refl

convert-fields :
    (texts : Texts) (u : User)
    → Schema.convert_user texts u ≡ fields_of (Graph.convert_user texts u)
unfolding Schema.convert_user Graph.convert_user
convert-fields texts u = rw (deleted-fields texts.format_time u.deleted_at) refl

map-fields :
    (texts : Texts) (us : List User)
    → map (Schema.convert_user texts) us ≡ map fields_of (map (Graph.convert_user texts) us)
map-fields texts [] = refl
map-fields texts (u ∷ us) = cc (convert-fields texts u, map-fields texts us)

answer-answer :
    {S A B C : Type 0} (f : A → C) (g : A → B) (h : B → C)
    → ((a : A) → f a ≡ h (g a))
    → (x : Result A × S) → answer f x ≡ answer h (answer g x)
answer-answer f g h same (ok a, s) = ap (λ c. (ok c, s)) (same a)
answer-answer f g h same (err e, s) = refl
answer-answer f g h same (panic, s) = refl

with_uuid-answer :
    {S A B : Type 0} (r : Result Uuid) (f : Uuid → M S B) (g : Uuid → M S A) (h : A → B) (s : S)
    → ((id : Uuid) (t : S) → f id t ≡ answer h (g id t))
    → with_uuid r f s ≡ answer h (with_uuid r g s)
with_uuid-answer (ok id) f g h s same = same id s
with_uuid-answer (err e) f g h s same = refl
with_uuid-answer panic f g h s same = refl

int_arg-default :
    (a : Option ℤ) (def : ℤ) → NotZero a → Schema.int_arg a def ≡ Graph.or_default a def
int_arg-default none def n = refl
int_arg-default (some a) def n = rw n refl

-- On the same service, each resolver of `BuildSchema` answers what the resolver of
-- user.resolvers.go answers, as a map, with the same errors and effects; for `users` if neither
-- argument is zero, which only `BuildSchema` replaces by its default.
pub resolvers_agree :
    {S : Type 0} (texts : Texts) (svc : UserService S) (env : Env) (page page_size : Option ℤ)
    (id name email : String) (new_name new_email : Option String) (s : S)
    → NotZero page
    → NotZero page_size
    → (resolve_users texts svc env page page_size s
        ≡ answer (map fields_of) (users texts svc env page page_size s))
      × (resolve_user texts svc env id s ≡ answer fields_of (user texts svc env id s))
      × (resolve_create_user texts svc env name email s
          ≡ answer fields_of (create_user texts svc env name email s))
      × (resolve_update_user texts svc env id new_name new_email s
          ≡ answer fields_of (update_user texts svc env id new_name new_email s))
      × (resolve_delete_user texts svc env id s ≡ delete_user texts svc env id s)
unfolding resolve_users users resolve_user user resolve_create_user create_user resolve_update_user
    update_user resolve_delete_user delete_user
resolvers_agree texts svc env page page_size id name email new_name new_email s p q = (
  rw (int_arg-default page (pos 1) p, int_arg-default page_size (pos 20) q)
      (answer-answer _ _ (map fields_of) (λ r. map-fields texts r.0) (svc.list env _ _ s)),
  with_uuid-answer _ _ _ fields_of s
      (λ i t. answer-answer _ _ fields_of (convert-fields texts) (svc.get env i t)),
  answer-answer _ _ fields_of (convert-fields texts) (svc.create env name email s),
  with_uuid-answer _ _ _ fields_of s (λ i t.
      answer-answer _ _ fields_of (convert-fields texts) (svc.update env i new_name new_email t)),
  refl,
)
