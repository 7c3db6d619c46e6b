-- ===== src/Api/Users/Sequences.antt =====
-- Sequences of requests to the user handlers, over the user service over the in-memory repository.
use maxwell_go_spine.Prelude
use maxwell_go_spine.Prelude.{
  ◌≡◌, ◌≢◌, refl, sym, ap, ◌∙◌, String, Bool, true, false, Option, none, some, List, [], ◌∷◌, All,
  arith, Bool-cases, Option-cases, inl, inr,
}
use maxwell_go_spine.Go.Int.{ℤ}
use maxwell_go_spine.Go.Error.{Result, ok, err, panic}
use maxwell_go_spine.Core.User.{Uuid, User, Env, UserService}
use maxwell_go_spine.Http.{Header, Request}
use maxwell_go_spine.Api.Users.{
  Codec, CreateUserReq, UpdateUserReq, parse_uuid_param, parse_pagination, decode_json, update_body,
  create, get, list, update, delete, create_valid, create_decoded, get_parsed, user_reply,
  list_reply, update_decoded, update_parsed, delete_reply, delete_parsed,
}

pub data ApiCall : Type 0 where
  create_request get_request list_request : Env → Request → Header → ApiCall
  update_request delete_request : Env → Request → Header → ApiCall

module _ (codec : Codec) {S : Type 0} (svc : UserService S) where
  -- The state that a request leaves, and a sequence of requests.
  unfoldable pub answer : ApiCall → S → S
  answer (create_request env req h) s = (create codec svc env req h s).state
  answer (get_request env req h) s = (get codec svc env req h s).state
  answer (list_request env req h) s = (list codec svc env req h s).state
  answer (update_request env req h) s = (update codec svc env req h s).state
  answer (delete_request env req h) s = (delete codec svc env req h s).state

  unfoldable pub answer_all : List ApiCall → S → S
  unfolding answer
  answer_all [] s = s
  answer_all (c ∷ cs) s = answer_all cs (answer c s)

-- A request that is not about the user: no update or deletion of it, and another identifier for a
-- user that it creates.
abbrev pub Spares : Codec → Uuid → ApiCall → Type 0
Spares codec id (create_request env req h) = env.new_id ≢ id
Spares codec id (get_request env req h) = Unit
Spares codec id (list_request env req h) = Unit
Spares codec id (update_request env req h) = parse_uuid_param codec req "id" ≢ ok id
Spares codec id (delete_request env req h) = parse_uuid_param codec req "id" ≢ ok id

-- What the user handlers do to the state is what the service's calls do.
module _ (codec : Codec) {S : Type 0} (svc : UserService S) (P : S → Type 0) where
  user_reply-state :
      (env : Env) (n : Prelude.ℕ) (title : String) (x : Result User × S)
      → P x.1
      → P (user_reply codec svc env n title x).state
  user_reply-state env n title (ok u, s) p = p
  user_reply-state env n title (err e, s) p = p
  user_reply-state env n title (panic, s) p = p

  pub create-state :
      (env : Env) (req : Request) (h : Header) (s : S)
      → P s
      → ((name email : String) → P (svc.create env name email s).1)
      → P (create codec svc env req h s).state
  unfolding create
  create-state env req h s p q = decoded (decode_json codec codec.decode_create req)
    where
      valid :
          (body : CreateUserReq) (r : Result (Unit {0}))
          → P (create_valid codec svc env body r s).state
      valid body (ok u) = user_reply-state env 201 "Create Failed" _ (q body.name body.email)
      valid body (err e) = p
      valid body panic = p

      decoded : (r : Result CreateUserReq) → P (create_decoded codec svc env r s).state
      decoded (ok body) = valid body (codec.validate body)
      decoded (err e) = p
      decoded panic = p

  pub get-state :
      (env : Env) (req : Request) (h : Header) (s : S)
      → P s
      → ((id : Uuid) → P (svc.get env id s).1)
      → P (get codec svc env req h s).state
  unfolding get
  get-state env req h s p q = parsed (parse_uuid_param codec req "id")
    where
      parsed : (r : Result Uuid) → P (get_parsed codec svc env r s).state
      parsed (ok id) = user_reply-state env 200 "Get Failed" _ (q id)
      parsed (err e) = p
      parsed panic = p

  pub list-state :
      (env : Env) (req : Request) (h : Header) (s : S)
      → ((page size : ℤ) → P (svc.list env page size s).1)
      → P (list codec svc env req h s).state
  unfolding list
  list-state env req h s q =
      let (page, size) = parse_pagination codec req in
      listed page size (svc.list env page size s) (q page size)
    where
      listed :
          (page size : ℤ) (x : Result (List User × ℤ) × S)
          → P x.1
          → P (list_reply codec svc env page size x).state
      listed page size (ok p, s') q' = q'
      listed page size (err e, s') q' = q'
      listed page size (panic, s') q' = q'

  pub update-state :
      (env : Env) (req : Request) (h : Header) (s : S)
      → P s
      → ((id : Uuid) (name email : Option String)
          → parse_uuid_param codec req "id" ≡ ok id
          → P (svc.update env id name email s).1)
      → P (update codec svc env req h s).state
  unfolding update
  update-state env req h s p q = parsed (parse_uuid_param codec req "id") q
    where
      decoded :
          (id : Uuid) (x : Result UpdateUserReq × String)
          → ((name email : Option String) → P (svc.update env id name email s).1)
          → P (update_decoded codec svc env id x s).state
      decoded id (ok body, title) q' =
          user_reply-state env 200 "Update Failed" _ (q' body.name body.email)
      decoded id (err e, title) q' = p
      decoded id (panic, title) q' = p

      parsed :
          (r : Result Uuid)
          → ((id : Uuid) (name email : Option String)
              → r ≡ ok id
              → P (svc.update env id name email s).1)
          → P (update_parsed codec svc env req r s).state
      parsed (ok id) q' = decoded id (update_body codec req) (λ name email. q' id name email refl)
      parsed (err e) q' = p
      parsed panic q' = p

  pub delete-state :
      (env : Env) (req : Request) (h : Header) (s : S)
      → P s
      → ((id : Uuid) → parse_uuid_param codec req "id" ≡ ok id → P (svc.delete env id s).1)
      → P (delete codec svc env req h s).state
  unfolding delete
  delete-state env req h s p q = parsed (parse_uuid_param codec req "id") q
    where
      deleted : (x : Result (Unit {0}) × S) → P x.1 → P (delete_reply codec svc env x).state
      deleted (ok u, s') q' = q'
      deleted (err e, s') q' = q'
      deleted (panic, s') q' = q'

      parsed :
          (r : Result Uuid)
          → ((id : Uuid) → r ≡ ok id → P (svc.delete env id s).1)
          → P (delete_parsed codec svc env r s).state
      parsed (ok id) q' = deleted (svc.delete env id s) (q' id refl)
      parsed (err e) q' = p
      parsed panic q' = p
