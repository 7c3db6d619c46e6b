-- ===== src/Api/Users/Kept.antt =====
-- Requests that are not about a user leave it as it is, with the in-memory repository.
use mathlib.Core.Path.{subst}
use maxwell_go_spine.Prelude.{
  ℕ, ◌≡◌, refl, sym, ap, ◌∙◌, String, Option, List, [], ◌∷◌, All, Bool-cases, Option-cases, inl,
  inr,
}
use maxwell_go_spine.Prelude.Maps.Nat.{contains}
use maxwell_go_spine.Go.Error.{Result, ok, err, panic}
use maxwell_go_spine.Core.User.{Uuid, User, Env, UserRepository, UserService}
use maxwell_go_spine.Core.Service
use maxwell_go_spine.Core.Service.{
  Mail, build_user, change_user, store_new, store_changed, update_found, new_user_service,
}
use maxwell_go_spine.Core.Service.Stored.{build_user_ok, change_user_ok, find_live-lookup}
use maxwell_go_spine.Core.Memory
use maxwell_go_spine.Core.Memory.{InMemoryUserRepo, in_memory_repository, find_live}
use maxwell_go_spine.Core.Memory.Branches.{
  get_missing, get_found, update_missing, update_found as update_lem,
}
use maxwell_go_spine.Core.Cached.Fresh.{Same, SameOthers, Wrote, Found, Removed}
use maxwell_go_spine.Core.Cached.InMemory.{find, Valid, in_memory-IsUserStore}
use maxwell_go_spine.Api.Users.{Codec}
use maxwell_go_spine.Api.Users.Sequences.{
  ApiCall, create_request, get_request, list_request, update_request, delete_request, answer,
  answer_all, Spares, create-state, get-state, list-state, update-state, delete-state,
}

Wrote-SameOthers :
    (id : Uuid) (s : InMemoryUserRepo) (c : Result User × InMemoryUserRepo)
    → Wrote find s c
    → ((u : User) → c.0 ≡ ok u → u.id ≡ id)
    → SameOthers find id s c.1
Wrote-SameOthers id s (ok u, s') (h, same) named =
    subst (λ i. SameOthers find i s s') (named u refl) same
Wrote-SameOthers id s (err e, s') same named = λ j n. same j
Wrote-SameOthers id s (panic, s') same named = λ j n. same j

Found-Same :
    (s : InMemoryUserRepo) (c : Result User × InMemoryUserRepo) → Found find s c → Same find s c.1
Found-Same s (ok u, s') (h, same) = same
Found-Same s (err e, s') same = same
Found-Same s (panic, s') same = same

Removed-SameOthers :
    (id : Uuid) (s : InMemoryUserRepo) (c : Result (Unit {0}) × InMemoryUserRepo)
    → Removed find id s c
    → SameOthers find id s c.1
Removed-SameOthers id s (ok u, s') same = same
Removed-SameOthers id s (err e, s') same = λ j n. same j
Removed-SameOthers id s (panic, s') same = λ j n. same j

module _ (mail : Mail) (arrange : ℕ → List User → List User) where
  abbrev pub repo : UserRepository InMemoryUserRepo
  repo = in_memory_repository arrange

  abbrev pub svc : UserService InMemoryUserRepo
  svc = new_user_service mail repo

  -- The user that a repository call stored is the one that was built.
  store_new_ok :
      (x : Result User) (r : InMemoryUserRepo) (u : User)
      → (store_new mail repo x r).0 ≡ ok u
      → x ≡ ok u
  unfolding store_new in_memory_repository Memory.create
  store_new_ok (ok v) r u = elim (Bool-cases (contains v.id r.users)) [
    | inl e ↦ rw e (λ h. cc)
    | inr e ↦ rw e (λ h. h)
  ]
  store_new_ok (err e) r u = λ h. cc
  store_new_ok panic r u = λ h. cc

  store_changed_ok :
      (x : Result User) (r : InMemoryUserRepo) (u : User)
      → (store_changed mail repo x r).0 ≡ ok u
      → x ≡ ok u
  unfolding store_changed in_memory_repository
  store_changed_ok (ok v) r u = elim (Option-cases (find_live v.id r.users)) [
    | inl e ↦ rw (update_missing r v e) (λ h. cc)
    | inr (old, e) ↦ rw (update_lem r v old e) (λ h. h)
  ]
  store_changed_ok (err e) r u = λ h. cc
  store_changed_ok panic r u = λ h. cc

  created_id :
      (env : Env) (name email : String) (r : InMemoryUserRepo) (u : User)
      → (svc.create env name email r).0 ≡ ok u
      → u.id ≡ env.new_id
  unfolding new_user_service Service.create
  created_id env name email r u h =
      (build_user_ok mail env name email u (store_new_ok (build_user mail env name email) r u h)).1

  updated_id :
      (env : Env) (id : Uuid) (name email : Option String) (r : InMemoryUserRepo) (u : User)
      → Valid mail arrange r
      → (svc.update env id name email r).0 ≡ ok u
      → u.id ≡ id
  unfolding new_user_service Service.update update_found in_memory_repository
  updated_id env id name email r u (keyed, all) = elim (Option-cases (find_live id r.users)) [
    | inl e ↦ rw (get_missing r id e) (λ h. cc)
    | inr (v, e) ↦
        let (stored, live) = find_live-lookup id r.users v e in
        rw (get_found r id v e) (λ h.
          (change_user_ok mail env name email v u
            (store_changed_ok (change_user mail env name email v) r u h) (all id v stored)).1
          ∙ keyed id v stored)
  ]

  module _ (codec : Codec) (id : Uuid) where
    -- The state stays valid, and what it has under the identifier stays.
    abbrev pub Keeps : InMemoryUserRepo → InMemoryUserRepo → Type 0
    Keeps r r' = Valid mail arrange r' × (find id r' ≡ find id r)

    answer-Keeps :
        (c : ApiCall) (r : InMemoryUserRepo)
        → Valid mail arrange r
        → Spares codec id c
        → Keeps r (answer codec svc c r)
    unfolding answer
    answer-Keeps (create_request env req h) r v other =
        create-state codec svc (Keeps r) env req h r (v, refl)
          (λ name email.
            let (wrote, v') = (in_memory-IsUserStore mail arrange).creates env name email r v in
            (
              v',
              Wrote-SameOthers env.new_id r _ wrote (created_id env name email r) id
                  (λ same. other (sym same)),
            ))
    answer-Keeps (get_request env req h) r v spares =
        get-state codec svc (Keeps r) env req h r (v, refl)
          (λ i.
            let (found, v') = (in_memory-IsUserStore mail arrange).gets env i r v in
            (v', Found-Same r _ found id))
    answer-Keeps (list_request env req h) r v spares =
        list-state codec svc (Keeps r) env req h r (λ page size.
          let (same, v') = (in_memory-IsUserStore mail arrange).lists env page size r v in
          (v', same id))
    answer-Keeps (update_request env req h) r v other =
        update-state codec svc (Keeps r) env req h r (v, refl)
          (λ i name email parsed.
            let (wrote, v') = (in_memory-IsUserStore mail arrange).updates env i name email r v in
            (
              v',
              Wrote-SameOthers i r _ wrote (λ u. updated_id env i name email r u v) id
                  (λ same. other (parsed ∙ ap ok (sym same))),
            ))
    answer-Keeps (delete_request env req h) r v other =
        delete-state codec svc (Keeps r) env req h r (v, refl)
          (λ i parsed.
            let (removed, v') = (in_memory-IsUserStore mail arrange).deletes env i r v in
            (v', Removed-SameOthers i r _ removed id (λ same. other (parsed ∙ ap ok (sym same)))))

    pub answer_all-Keeps :
        (cs : List ApiCall) (r : InMemoryUserRepo)
        → Valid mail arrange r
        → All (Spares codec id) cs
        → Keeps r (answer_all codec svc cs r)
    unfolding answer_all
    answer_all-Keeps [] r v spares = (v, refl)
    answer_all-Keeps (c ∷ cs) r v (spares, rest) =
        let (v', same) = answer-Keeps c r v spares in
        let (v'', same') = answer_all-Keeps cs (answer codec svc c r) v' rest in (v'', same' ∙ same)
