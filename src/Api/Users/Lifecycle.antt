-- ===== src/Api/Users/Lifecycle.antt =====
-- What later requests see of a user that was created or deleted over HTTP, with the in-memory
-- repository.
use maxwell_go_spine.Prelude.{ℕ, ◌≡◌, refl, ap, ◌∙◌, false, none, some, List, [], ◌∷◌, All}
use maxwell_go_spine.Prelude.Maps.Nat.{insert, contains}
use maxwell_go_spine.Go.Error.{ok, message}
use maxwell_go_spine.Core.User.{Uuid, User, Env}
use maxwell_go_spine.Core.Service
use maxwell_go_spine.Core.Service.{
  Mail, build_user, change_user, store_new, store_changed, update_found, new_user_service,
}
use maxwell_go_spine.Core.Service.Stored.{build_user_ok}
use maxwell_go_spine.Core.Memory
use maxwell_go_spine.Core.Memory.{InMemoryUserRepo, in_memory_repository, find_live}
use maxwell_go_spine.Core.Memory.Branches.{get_missing, get_found, delete_found}
use maxwell_go_spine.Core.Cached.InMemory.{
  find, Valid, in_memory-IsUserStore, insert-find, insert-deleted,
}
use maxwell_go_spine.Http.{Header, Request, Outcome, write_header, respond}
use maxwell_go_spine.Api.Render.{http_status, json, problem}
use maxwell_go_spine.Api.Users.{
  Codec, CreateUserReq, parse_uuid_param, decode_json, to_dto, create, get, delete,
}
use maxwell_go_spine.Api.Users.Sequences.{
  ApiCall, answer, answer_all, Spares, create-state, delete-state,
}
use maxwell_go_spine.Api.Users.Kept.{svc, answer_all-Keeps}

module _ (mail : Mail) (arrange : ℕ → List User → List User) where
  module _ (codec : Codec) where
    -- What `GET /users/{id}` answers for a live user, and for none.
    get_shows :
        (env : Env) (id : Uuid) (req : Request) (h : Header) (r : InMemoryUserRepo) (u : User)
        → parse_uuid_param codec req "id" ≡ ok id
        → find id r ≡ some u
        → (get codec (svc mail arrange) env req h r).commands
          ≡ json codec.json_text 200 (to_dto codec u)
    unfolding get new_user_service Service.get in_memory_repository
    get_shows env id req h r u parsed found = rw (parsed, get_found r id u found) refl

    get_404 :
        (env : Env) (id : Uuid) (req : Request) (h : Header) (r : InMemoryUserRepo)
        → parse_uuid_param codec req "id" ≡ ok id
        → find id r ≡ none
        → (get codec (svc mail arrange) env req h r).commands
          ≡ problem codec.json_text 404 "Get Failed" "not found"
    unfolding get new_user_service Service.get in_memory_repository http_status message
    get_404 env id req h r parsed missing = rw (parsed, get_missing r id missing) refl

    create_201 :
        (env : Env) (req : Request) (h : Header) (r : InMemoryUserRepo) (body : CreateUserReq)
        (u : User)
        → decode_json codec codec.decode_create req ≡ ok body
        → codec.validate body ≡ ok tt
        → build_user mail env body.name body.email ≡ ok u
        → contains u.id r.users ≡ false
        → create codec (svc mail arrange) env req h r
          ≡ respond
              (json codec.json_text 201 (to_dto codec u))
              (record r { users = insert u.id u r.users })
    unfolding create new_user_service Service.create store_new in_memory_repository Memory.create
    create_201 env req h r body u decoded validated built free =
        rw (decoded, validated, built, free) refl

    delete_204 :
        (env : Env) (req : Request) (h : Header) (r : InMemoryUserRepo) (id : Uuid) (u : User)
        → parse_uuid_param codec req "id" ≡ ok id
        → find id r ≡ some u
        → delete codec (svc mail arrange) env req h r
          ≡ respond
              (write_header 204 ∷ [])
              (record r { users = insert id (record u { deleted_at = some env.now }) r.users })
    unfolding delete new_user_service Service.delete in_memory_repository
    delete_204 env req h r id u parsed found = rw (parsed, delete_found r env id u found) refl

    -- `POST /users` with a body that decodes, that the validator accepts and that the service turns
    -- into a user, under an identifier that the repository does not have, answers 201 with that user.
    -- After any requests that do not update or delete it, and that draw other identifiers for the
    -- users that they create, `GET /users/{id}` with its identifier answers 200 with the same user.
    -- The repository stores well-formed users under their own identifiers, as all calls leave it.
    pub created_user_stays :
        (env : Env) (req : Request) (h : Header) (r : InMemoryUserRepo) (body : CreateUserReq)
        (u : User) (cs : List ApiCall) (env' : Env) (req' : Request) (h' : Header)
        → Valid mail arrange r
        → decode_json codec codec.decode_create req ≡ ok body
        → codec.validate body ≡ ok tt
        → build_user mail env body.name body.email ≡ ok u
        → contains u.id r.users ≡ false
        → All (Spares codec u.id) cs
        → parse_uuid_param codec req' "id" ≡ ok u.id
        → ((create codec (svc mail arrange) env req h r).commands
            ≡ json codec.json_text 201 (to_dto codec u))
          × ((get codec (svc mail arrange) env' req' h' (
                answer_all codec
                  (svc mail arrange)
                  cs
                  (create codec (svc mail arrange) env req h r).state)).commands
              ≡ json codec.json_text 200 (to_dto codec u))
    unfolding answer
    created_user_stays env req h r body u cs env' req' h' v decoded validated built free spares
          parsed =
        let made = create_201 env req h r body u decoded validated built free in
        let store = in_memory-IsUserStore mail arrange in
        let r' = (create codec (svc mail arrange) env req h r).state in
        let (id, live) : (u.id ≡ env.new_id) × (u.deleted_at ≡ none) =
          let facts = build_user_ok mail env body.name body.email u built in (facts.1, facts.4) in
        let v' : Valid mail arrange r' =
          create-state codec (svc mail arrange) (Valid mail arrange) env req h r v
            (λ name email. (store.creates env name email r v).1) in
        let there : find u.id r' ≡ some u =
          ap (λ (o : Outcome InMemoryUserRepo). find u.id o.state) made
          ∙ insert-find u.id u r live in
        let (v'', same) = answer_all-Keeps mail arrange codec u.id cs r' v' spares in
        (
          ap (λ (o : Outcome InMemoryUserRepo). o.commands) made,
          get_shows env' u.id req' h' (answer_all codec (svc mail arrange) cs r') u parsed
              (same ∙ there),
        )

    -- `DELETE /users/{id}` for a user that is not deleted answers 204. After any requests that do not
    -- update or delete it, and that draw other identifiers for the users that they create,
    -- `GET /users/{id}` with its identifier answers 404. The repository
    -- stores well-formed users under their own identifiers, as all calls leave it.
    pub deleted_user_gone :
        (env : Env) (req : Request) (h : Header) (r : InMemoryUserRepo) (id : Uuid) (u : User)
        (cs : List ApiCall) (env' : Env) (req' : Request) (h' : Header)
        → Valid mail arrange r
        → parse_uuid_param codec req "id" ≡ ok id
        → find id r ≡ some u
        → All (Spares codec id) cs
        → parse_uuid_param codec req' "id" ≡ ok id
        → ((delete codec (svc mail arrange) env req h r).commands ≡ write_header 204 ∷ [])
          × ((get codec (svc mail arrange) env' req' h' (
                answer_all codec
                  (svc mail arrange)
                  cs
                  (delete codec (svc mail arrange) env req h r).state)).commands
              ≡ problem codec.json_text 404 "Get Failed" "not found")
    deleted_user_gone env req h r id u cs env' req' h' v parsed found spares parsed' =
        let r' = (delete codec (svc mail arrange) env req h r).state in
        let done = delete_204 env req h r id u parsed found in
        let store = in_memory-IsUserStore mail arrange in
        let v' : Valid mail arrange r' =
          delete-state codec (svc mail arrange) (Valid mail arrange) env req h r v
            (λ i e. (store.deletes env i r v).1) in
        let gone : find id r' ≡ none =
          ap (λ (o : Outcome InMemoryUserRepo). find id o.state) done
          ∙ insert-deleted id (record u { deleted_at = some env.now }) env.now r refl in
        let (v'', same) = answer_all-Keeps mail arrange codec id cs r' v' spares in
        (
          ap (λ (o : Outcome InMemoryUserRepo). o.commands) done,
          get_404 env' id req' h' (answer_all codec (svc mail arrange) cs r') parsed' (same ∙ gone),
        )
