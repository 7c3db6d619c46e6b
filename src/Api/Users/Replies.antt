-- ===== src/Api/Users/Replies.antt =====
-- How the user handlers answer.
use maxwell_go_spine.Prelude.{
  ℕ, zero, suc, ltb, ◌≤◌, ◌≡◌, refl, String, true, false, List, arith, Bool-cases, inl, inr,
}
use maxwell_go_spine.Prelude.Maps.Str.{lookup}
use maxwell_go_spine.Go.Int.{ℤ, pos, negsuc}
use maxwell_go_spine.Go.Text.Number.{atoi}
use maxwell_go_spine.Go.Error.{Err, Result, ok, err, panic}
use maxwell_go_spine.Core.User.{Uuid, User, Env, UserService}
use maxwell_go_spine.Http.{Header, Request, Outcome}
use maxwell_go_spine.Middleware.Etag.Bodies.{opens_with_header}
use maxwell_go_spine.Middleware.Wrappers.Statuses.{sends_once}
use maxwell_go_spine.Api.Render.{json, problem}
use maxwell_go_spine.Api.Users.{
  Codec, CreateUserReq, UpdateUserReq, parse_uuid_param, parse_pagination, decode_json,
  text_or_empty, clamp_page, clamp_size, create, get, list, update, delete, update_body, fails,
  user_reply, create_valid, create_decoded, get_parsed, list_reply, update_decoded, update_parsed,
  delete_reply, delete_parsed,
}

clamp_page_bounds : (x : ℤ) → (p : ℕ) × (clamp_page x ≡ pos p) × (1 ≤ p)
clamp_page_bounds (negsuc n) = (1, ground arith, omega arith)
clamp_page_bounds (pos zero) = (1, ground arith, omega arith)
clamp_page_bounds (pos (suc n)) = (suc n, ground arith, omega arith)

clamp_size_bounds : (x : ℤ) → (n : ℕ) × (clamp_size x ≡ pos n) × (1 ≤ n) × (n ≤ 100)
clamp_size_bounds (negsuc n) = (20, ground arith, omega arith, omega arith)
clamp_size_bounds (pos zero) = (20, ground arith, omega arith, omega arith)
clamp_size_bounds (pos (suc n)) = elim (Bool-cases (ltb 100 (suc n))) [
  | inl big ↦ (20, ground arith, omega arith, omega arith)
  | inr small ↦ (suc n, ground arith, omega arith, ground arith)
]

parse_pagination_bounds :
    (codec : Codec) (req : Request)
    → (p : ℕ) × (n : ℕ) × (parse_pagination codec req ≡ (pos p, pos n))
      × (1 ≤ p)
      × (1 ≤ n)
      × (n ≤ 100)
unfolding parse_pagination
parse_pagination_bounds codec req =
    let (p, ep, lp) = clamp_page_bounds (atoi (text_or_empty (lookup "page" req.query))).0 in
    let (n, en, ln, hn) =
      clamp_size_bounds (atoi (text_or_empty (lookup "page_size" req.query))).0 in
    (p, n, cc (ep, en), lp, ln, hn)

list_reply-same :
    (codec : Codec) {S : Type 0} (svc other : UserService S) (env : Env) (page size : ℤ)
    (x : Result (List User × ℤ) × S)
    → list_reply codec svc env page size x ≡ list_reply codec other env page size x
list_reply-same codec svc other env page size (ok (users, total), s) = refl
list_reply-same codec svc other env page size (err e, s) = refl
list_reply-same codec svc other env page size (panic, s) = refl

-- Whatever the query says, `list` asks the service only for a page from 1 up with a size from 1 to
-- 100: with two services that answer these calls alike, it has the same outcome.
pub list_bounded :
    (codec : Codec) {S : Type 0} (svc other : UserService S) (env : Env) (req : Request)
    (h : Header) (s : S)
    → ((p n : ℕ)
        → 1 ≤ p
        → 1 ≤ n
        → n ≤ 100
        → svc.list env (pos p) (pos n) s ≡ other.list env (pos p) (pos n) s)
    → list codec svc env req h s ≡ list codec other env req h s
unfolding list
list_bounded codec svc other env req h s alike =
    let (p, n, e, lp, ln, hn) = parse_pagination_bounds codec req in
    rw (e, alike p n lp ln hn)
      (list_reply-same codec svc other env (pos p) (pos n) (other.list env (pos p) (pos n) s))

-- The reply of a handler that does not panic: one `WriteHeader`, before any write.
abbrev pub IsReply : {S : Type 0} → Outcome S → Type 0
IsReply o =
    (o.panicked ≡ false) → (opens_with_header o.commands ≡ true) × (sends_once o.commands ≡ true)

module _ (codec : Codec) {S : Type 0} (svc : UserService S) (env : Env) where
  fails-IsReply :
      (status : ℕ) (title : String) (e : Err) (s : S)
      → IsReply (fails codec svc env status title e s)
  unfolding problem
  fails-IsReply status title e s = λ q. (refl, refl)

  user_reply-IsReply :
      (status : ℕ) (title : String) (x : Result User × S)
      → IsReply (user_reply codec svc env status title x)
  unfolding json problem
  user_reply-IsReply status title (ok u, s) = λ q. (refl, refl)
  user_reply-IsReply status title (err e, s) = λ q. (refl, refl)
  user_reply-IsReply status title (panic, s) = λ q. cc

  create_valid-IsReply :
      (body : CreateUserReq) (r : Result (Unit {0})) (s : S)
      → IsReply (create_valid codec svc env body r s)
  unfolding problem
  create_valid-IsReply body (ok u) s =
      user_reply-IsReply 201 "Create Failed" (svc.create env body.name body.email s)
  create_valid-IsReply body (err e) s = λ q. (refl, refl)
  create_valid-IsReply body panic s = λ q. cc

  create-IsReply : (r : Result CreateUserReq) (s : S) → IsReply (create_decoded codec svc env r s)
  unfolding problem
  create-IsReply (ok body) s = create_valid-IsReply body (codec.validate body) s
  create-IsReply (err e) s = λ q. (refl, refl)
  create-IsReply panic s = λ q. cc

  get-IsReply : (r : Result Uuid) (s : S) → IsReply (get_parsed codec svc env r s)
  unfolding problem
  get-IsReply (ok id) s = user_reply-IsReply 200 "Get Failed" (svc.get env id s)
  get-IsReply (err e) s = λ q. (refl, refl)
  get-IsReply panic s = λ q. cc

  list-IsReply :
      (page size : ℤ) (x : Result (List User × ℤ) × S)
      → IsReply (list_reply codec svc env page size x)
  unfolding json problem
  list-IsReply page size (ok (us, total), s) = λ q. (refl, refl)
  list-IsReply page size (err e, s) = λ q. (refl, refl)
  list-IsReply page size (panic, s) = λ q. cc

  update_decoded-IsReply :
      (id : Uuid) (x : Result UpdateUserReq × String) (s : S)
      → IsReply (update_decoded codec svc env id x s)
  unfolding problem
  update_decoded-IsReply id (ok body, title) s =
      user_reply-IsReply 200 "Update Failed" (svc.update env id body.name body.email s)
  update_decoded-IsReply id (err e, title) s = λ q. (refl, refl)
  update_decoded-IsReply id (panic, title) s = λ q. cc

  update-IsReply :
      (req : Request) (r : Result Uuid) (s : S) → IsReply (update_parsed codec svc env req r s)
  unfolding problem
  update-IsReply req (ok id) s = update_decoded-IsReply id (update_body codec req) s
  update-IsReply req (err e) s = λ q. (refl, refl)
  update-IsReply req panic s = λ q. cc

  delete_reply-IsReply : (x : Result (Unit {0}) × S) → IsReply (delete_reply codec svc env x)
  unfolding problem
  delete_reply-IsReply (ok u, s) = λ q. (refl, refl)
  delete_reply-IsReply (err e, s) = λ q. (refl, refl)
  delete_reply-IsReply (panic, s) = λ q. cc

  delete-IsReply : (r : Result Uuid) (s : S) → IsReply (delete_parsed codec svc env r s)
  unfolding problem
  delete-IsReply (ok id) s = delete_reply-IsReply (svc.delete env id s)
  delete-IsReply (err e) s = λ q. (refl, refl)
  delete-IsReply panic s = λ q. cc

  -- Each of the five handlers, unless it panics, calls `WriteHeader` once and before any write.
  pub handlers-IsReply :
      (req : Request) (h : Header) (s : S)
      → IsReply (create codec svc env req h s)
        × IsReply (get codec svc env req h s)
        × IsReply (list codec svc env req h s)
        × IsReply (update codec svc env req h s)
        × IsReply (delete codec svc env req h s)
  unfolding create get list update delete
  handlers-IsReply req h s =
      let (page, size) = parse_pagination codec req in
      (
        create-IsReply (decode_json codec codec.decode_create req) s,
        get-IsReply (parse_uuid_param codec req "id") s,
        list-IsReply page size (svc.list env page size s),
        update-IsReply req (parse_uuid_param codec req "id") s,
        delete-IsReply (parse_uuid_param codec req "id") s,
      )
