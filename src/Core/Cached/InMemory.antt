-- ===== src/Core/Cached/InMemory.antt =====
-- The caching service over the user service over the in-memory repository.
use mathlib.Core.Path.{subst}
use maxwell_go_spine.Prelude.{
  ℕ, ◌≡◌, refl, sym, ap, ◌∙◌, String, Option, none, some, List, nat_eq, arith, Bool-cases,
  Option-cases, inl, inr,
}
use maxwell_go_spine.Prelude.Maps.Nat.{lookup, insert, contains, lookup-insert}
use maxwell_go_spine.Go.Error.{Result, ok, err, panic}
use maxwell_go_spine.Core.User.{Uuid, Time, User, Env, UserRepository, UserService}
use maxwell_go_spine.Core.Service.{
  Mail, build_user, change_user, store_new, store_changed, update_found, new_user_service, create,
  get, update, delete, list,
}
use maxwell_go_spine.Core.Service.Validation.{IsWellFormed}
use maxwell_go_spine.Core.Service.Stored.{
  AllStored, build_user_ok, change_user_ok, find_live-lookup, create_call, update_call, get_call,
  delete_call, serve, serve-AllStored,
}
use maxwell_go_spine.Core.Memory
use maxwell_go_spine.Core.Memory.{
  InMemoryUserRepo, new_in_memory, in_memory_repository, find_live, is_deleted,
}
use maxwell_go_spine.Core.Memory.Branches.{
  get_missing, get_found, update_missing, update_found as update_lem, delete_missing, delete_found,
}
use maxwell_go_spine.Cache.{Bytes, Layered}
use maxwell_go_spine.Cache.Coherence.{IsLocal, IsRedis}
use maxwell_go_spine.Core.Cached
use maxwell_go_spine.Core.Cached.{Codec, Cached}
use maxwell_go_spine.Core.Cached.Fresh.{
  SameOthers, Wrote, Found, Removed, IsUserStore, IsCodec, Fresh,
}
use maxwell_go_spine.Core.Cached.Served
use maxwell_go_spine.Core.Cached.Served.{
  Call, get-Answers, Answers-Fresh, serve_all-Fresh, serve_all-get,
}

abbrev pub find : Uuid → InMemoryUserRepo → Option User
find id r = find_live id r.users

-- Every user is stored under its own identifier.
abbrev pub IsKeyed : InMemoryUserRepo → Type 0
IsKeyed r = (j : Uuid) (u : User) → lookup j r.users ≡ some u → u.id ≡ j

insert-IsKeyed :
    (id : Uuid) (v : User) (r : InMemoryUserRepo)
    → v.id ≡ id
    → IsKeyed r
    → IsKeyed (record r { users = insert id v r.users })
insert-IsKeyed id v r e keyed j u h = elim (Bool-cases (nat_eq id j)) [
  | inl same ↦ ground (arith, lookup-insert id j v r.users, e)
  | inr other ↦ keyed j u (ground (arith, lookup-insert id j v r.users))
]

pub insert-find :
    (id : Uuid) (v : User) (r : InMemoryUserRepo)
    → v.deleted_at ≡ none
    → find id (record r { users = insert id v r.users }) ≡ some v
unfolding find_live
insert-find id v r e = ground (arith, lookup-insert id id v r.users)

pub insert-deleted :
    (id : Uuid) (v : User) (t : Time) (r : InMemoryUserRepo)
    → v.deleted_at ≡ some t
    → find id (record r { users = insert id v r.users }) ≡ none
unfolding find_live
insert-deleted id v t r e = ground (arith, lookup-insert id id v r.users)

insert-SameOthers :
    (id : Uuid) (v : User) (r : InMemoryUserRepo)
    → SameOthers find id r (record r { users = insert id v r.users })
unfolding find_live
insert-SameOthers id v r j n = ground (arith, lookup-insert id j v r.users)

module _ (mail : Mail) (arrange : ℕ → List User → List User) where
  abbrev repo : UserRepository InMemoryUserRepo
  repo = in_memory_repository arrange

  -- What the service keeps of the repository.
  abbrev pub Valid : InMemoryUserRepo → Type 0
  Valid r = IsKeyed r × AllStored (IsWellFormed mail) r

  store_new-Wrote :
      (x : Result User) (r : InMemoryUserRepo)
      → ((u : User) → x ≡ ok u → u.deleted_at ≡ none)
      → IsKeyed r
      → Wrote find r (store_new mail repo x r) × IsKeyed (store_new mail repo x r).1
  unfolding store_new in_memory_repository Memory.create
  store_new-Wrote (ok u) r live keyed = elim (Bool-cases (contains u.id r.users)) [
    | inl e ↦ rw e ((λ j. refl), keyed)
    | inr e ↦ rw e (
      (insert-find u.id u r (live u refl), insert-SameOthers u.id u r),
      insert-IsKeyed u.id u r refl keyed,
    )
  ]
  store_new-Wrote (err e) r live keyed = ((λ j. refl), keyed)
  store_new-Wrote panic r live keyed = ((λ j. refl), keyed)

  store_changed-Wrote :
      (x : Result User) (r : InMemoryUserRepo)
      → ((u : User) → x ≡ ok u → u.deleted_at ≡ none)
      → IsKeyed r
      → Wrote find r (store_changed mail repo x r) × IsKeyed (store_changed mail repo x r).1
  unfolding store_changed in_memory_repository
  store_changed-Wrote (ok u) r live keyed = elim (Option-cases (find_live u.id r.users)) [
    | inl e ↦ rw (update_missing r u e) ((λ j. refl), keyed)
    | inr (old, e) ↦ rw (update_lem r u old e) (
      (insert-find u.id u r (live u refl), insert-SameOthers u.id u r),
      insert-IsKeyed u.id u r refl keyed,
    )
  ]
  store_changed-Wrote (err e) r live keyed = ((λ j. refl), keyed)
  store_changed-Wrote panic r live keyed = ((λ j. refl), keyed)

  update-Wrote :
      (env : Env) (id : Uuid) (name email : Option String) (r : InMemoryUserRepo)
      → Valid r
      → Wrote find r (update mail repo env id name email r)
        × IsKeyed (update mail repo env id name email r).1
  unfolding update update_found in_memory_repository
  update-Wrote env id name email r (keyed, all) = elim (Option-cases (find_live id r.users)) [
    | inl e ↦ rw (get_missing r id e) ((λ j. refl), keyed)
    | inr (u, e) ↦
        let (stored, live) = find_live-lookup id r.users u e in
        rw (get_found r id u e) (
          store_changed-Wrote (change_user mail env name email u) r
            (λ u' h.
              let (w, same, made, now, deleted) =
                change_user_ok mail env name email u u' h (all id u stored) in
              deleted ∙ live)
            keyed)
  ]

  get-Found :
      (id : Uuid) (r : InMemoryUserRepo)
      → IsKeyed r
      → Found find r (Memory.get id r) × IsKeyed (Memory.get id r).1
  get-Found id r keyed = elim (Option-cases (find_live id r.users)) [
    | inl e ↦ rw (get_missing r id e) ((λ j. refl), keyed)
    | inr (u, e) ↦
        let same : id ≡ u.id = sym (keyed id u (find_live-lookup id r.users u e).0) in
        rw (get_found r id u e) ((ap (λ i. find i r) (sym same) ∙ e, λ j. refl), keyed)
  ]

  get_answers :
      (id : Uuid) (r r' : InMemoryUserRepo) (u : User)
      → Memory.get id r ≡ (ok u, r')
      → find id r ≡ some u
  get_answers id r r' u h = elim (Option-cases (find_live id r.users)) [
    | inl e ↦ cc (get_missing r id e, ap (λ p. p.0) h)
    | inr (v, e) ↦ cc (get_found r id v e, h, e)
  ]

  delete-Removed :
      (env : Env) (id : Uuid) (r : InMemoryUserRepo)
      → IsKeyed r
      → Removed find id r (Memory.delete env id r) × IsKeyed (Memory.delete env id r).1
  delete-Removed env id r keyed = elim (Option-cases (find_live id r.users)) [
    | inl e ↦ rw (delete_missing r env id e) ((λ j. refl), keyed)
    | inr (u, e) ↦ rw (delete_found r env id u e) (
      insert-SameOthers id (record u { deleted_at = some env.now }) r,
      insert-IsKeyed id _ r (keyed id u (find_live-lookup id r.users u e).0) keyed,
    )
  ]

  pub in_memory-IsUserStore : IsUserStore (new_user_service mail repo) find Valid
  unfolding new_user_service create get update delete list in_memory_repository Memory.list serve
  in_memory-IsUserStore = record {
    creates = λ env name email r (keyed, all).
        let (wrote, keyed') =
          store_new-Wrote (build_user mail env name email) r
            (λ u h. (build_user_ok mail env name email u h).4) keyed in
        (wrote, (keyed', serve-AllStored mail arrange (create_call env name email) r all));
    gets = λ env id r (keyed, all).
        let (found, keyed') = get-Found id r keyed in
        (found, (keyed', serve-AllStored mail arrange (get_call env id) r all));
    answers = λ env id r r' u h. get_answers id r r' u h;
    updates = λ env id name email r (keyed, all).
        let (wrote, keyed') = update-Wrote env id name email r (keyed, all) in
        (wrote, (keyed', serve-AllStored mail arrange (update_call env id name email) r all));
    deletes = λ env id r (keyed, all).
        let (removed, keyed') = delete-Removed env id r keyed in
        (removed, (keyed', serve-AllStored mail arrange (delete_call env id) r all));
    lists = λ env page size r v. ((λ j. refl), v);
  }

  module _ (codec : Codec) (json : IsCodec codec) {L R : Type 0} (cache : Layered L R)
      (Near : String → Bytes → L → Type 0) (Far : String → Bytes → R → Type 0)
      (near : IsLocal Near cache.local) (far : IsRedis Far cache.ttl cache.redis) where
    abbrev svc : UserService InMemoryUserRepo
    svc = new_user_service mail repo

    Valid-lookup :
        (id : Uuid) (u : User) (r : InMemoryUserRepo)
        → Valid r
        → find id r ≡ some u
        → (lookup id r.users ≡ some u) × (u.deleted_at ≡ none) × (u.id ≡ id) × IsWellFormed mail u
    Valid-lookup id u r (keyed, all) h =
        let (stored, live) = find_live-lookup id r.users u h in
        (stored, live, keyed id u stored, all id u stored)

    -- Suppose that the layers' writes take effect and that the codec gives back what it wrote. Put
    -- the caching service over the user service over the new in-memory repository, with a cache that
    -- holds for no user anything but what the repository has, an empty cache for one. After any
    -- sequence of calls of the caching service, a user that its `Get` answers is the one that the
    -- repository stores under the identifier asked for: it is not deleted, has that identifier, and
    -- is well formed.
    pub cached_in_memory-get :
        (cs : List Call) (s : Cached InMemoryUserRepo L R) (env : Env) (id : Uuid) (u : User)
        → s.base ≡ new_in_memory
        → Fresh codec find cache Near Far s
        → (Cached.get codec cache svc env id (Served.serve_all codec cache svc cs s)).0 ≡ ok u
        → let users =
            (Cached.get codec cache svc env id
              (Served.serve_all codec cache svc cs s)).1.base.users in
          (lookup id users ≡ some u) × (u.deleted_at ≡ none) × (u.id ≡ id) × IsWellFormed mail u
    unfolding new_in_memory
    cached_in_memory-get cs s env id u start fresh h =
        let store = in_memory-IsUserStore in
        let valid : Valid s.base = subst Valid (sym start) ((λ j w e. cc), λ j w e. cc) in
        let answers = get-Answers codec json svc find Valid store cache Near Far near far env id _ (
          serve_all-Fresh codec json svc find Valid store cache Near Far near far cs s
            (valid, fresh)) in
        let (valid', fresh') =
          Answers-Fresh codec json svc find Valid store cache Near Far near far id _ answers in
        Valid-lookup id u _ valid' (
          serve_all-get codec json svc find Valid store cache Near Far near far cs s env id u
            (valid, fresh) h)
