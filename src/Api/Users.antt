-- ===== src/Api/Users.antt =====
-- internal/http/handlers/users.go: `UserHandler`.
pub mod Replies
pub mod Sequences
pub mod Kept
pub mod Lifecycle
use maxwell_go_spine.Prelude.{
  ℕ, String, Bool, true, false, ◌||◌, Option, none, some, List, [], ◌∷◌, ◌==◌, if◌then◌else◌,
}
use maxwell_go_spine.Prelude.Maps.Str.{lookup}
use maxwell_go_spine.Go.Int.{ℤ, pos, ltb_ℤ, leb_ℤ}
use maxwell_go_spine.Go.Error.{Err, plain, Result, ok, err, panic, message}
use maxwell_go_spine.Go.Text.Number.{atoi}
use maxwell_go_spine.Core.User.{Uuid, Time, User, Env, UserService}
use maxwell_go_spine.Http.{
  Header, header_get, Request, Command, write_header, Outcome, Handler, respond,
}
use maxwell_go_spine.Api.Render.{
  Json, str, num, arr, obj, Items, nil, cons, Fields, end, field, http_status, json, problem,
}

pub record CreateUserReq : Type 0 where
  pub name : String
  pub email : String

pub record UpdateUserReq : Type 0 where
  pub name : Option String
  pub email : Option String

-- What the handlers call outside the repository and in encoding/json and time.
-- `decode_create limit body` reads one JSON value, without unknown fields, from what
-- `http.MaxBytesReader` lets through of the body, and tells whether more follows; so does
-- `decode_update`. `unmarshal_update` reads a whole text; `body_too_large limit body` and `too_large`
-- are when and with what `io.ReadAll` fails on such a reader.
pub record Codec : Type 0 where
  pub parse_uuid : String → Result Uuid
  pub uuid_text : Uuid → String
  pub rfc3339 : Time → String
  pub body_too_large : ℕ → String → Bool
  pub too_large : Err
  pub decode_create : ℕ → String → Result (CreateUserReq × Bool)
  pub decode_update : ℕ → String → Result (UpdateUserReq × Bool)
  pub unmarshal_update : String → Result UpdateUserReq
  pub validate : CreateUserReq → Result (Unit {0})
  pub json_text : Json → String

-- `q.Get(name)` and `chi.URLParam(r, name)`: empty where there is none.
abbrev text_or_empty : Option String → String
text_or_empty none = ""
text_or_empty (some s) = s

-- `if page < 1 { page = 1 }`
abbrev clamp_page : ℤ → ℤ
clamp_page page = if ltb_ℤ page (pos 1) then pos 1 else page

-- `if size <= 0 || size > 100 { size = 20 }`
abbrev clamp_size : ℤ → ℤ
clamp_size size = if leb_ℤ size (pos 0) || ltb_ℤ (pos 100) size then pos 20 else size

-- 1 << 20
abbrev max_body : ℕ
max_body = 1048576

module _ (codec : Codec) where
  open codec use {
    parse_uuid, uuid_text, rfc3339, body_too_large, too_large, decode_create, decode_update,
    unmarshal_update, validate, json_text,
  }

  unfoldable pub parse_uuid_param : Request → String → Result Uuid
  parse_uuid_param req name = parse_uuid (text_or_empty (lookup name req.url_params))

  -- The error of `strconv.Atoi` is dropped.
  unfoldable pub parse_pagination : Request → ℤ × ℤ
  parse_pagination req = (
    clamp_page (atoi (text_or_empty (lookup "page" req.query))).0,
    clamp_size (atoi (text_or_empty (lookup "page_size" req.query))).0,
  )

  unfoldable pub to_dto : User → Json
  to_dto u = obj (
      field "id" (str (uuid_text u.id)) (
        field "name" (str u.name) (
          field "email" (str u.email) (
            field "created_at" (str (rfc3339 u.created_at))
              (field "updated_at" (str (rfc3339 u.updated_at)) end)))))

  unfoldable pub to_dtos : List User → Items
  unfolding to_dto
  to_dtos [] = nil
  to_dtos (u ∷ us) = cons (to_dto u) (to_dtos us)

  -- `dec.Decode(dst)`, then `dec.More()`.
  abbrev one_value : {A : Type 0} → Result (A × Bool) → Result A
  one_value (ok (a, false)) = ok a
  one_value (ok (a, true)) = err (plain "unexpected data")
  one_value (err e) = err e
  one_value panic = panic

  unfoldable pub decode_json : {A : Type 0} → (ℕ → String → Result (A × Bool)) → Request → Result A
  decode_json decode req = one_value (decode max_body req.body)

  -- The two ways in which `update` reads its body.
  unfoldable pub update_body : Request → Result UpdateUserReq × String
  update_body req =
      if header_get "Content-Type" req.header == "application/merge-patch+json"
      then (if body_too_large max_body req.body
          then (err too_large, "Read Error")
          else (unmarshal_update req.body, "Invalid JSON"))
      else (decode_json decode_update req, "Invalid JSON")

  module _ {S : Type 0} (svc : UserService S) (env : Env) where
    abbrev fails : ℕ → String → Err → S → Outcome S
    fails status title e s = respond (problem json_text status title (message e)) s

    -- A panic that goes through a handler.
    abbrev crashes : S → Outcome S
    crashes s = record { commands = []; events = []; panicked = true; state = s }

    -- The end of `create`, `get` and `update`: the user, or the error under a title.
    abbrev user_reply : ℕ → String → Result User × S → Outcome S
    user_reply status title (ok u, s) = respond (json json_text status (to_dto u)) s
    user_reply status title (err e, s) = fails (http_status e) title e s
    user_reply status title (panic, s) = crashes s

    abbrev create_valid : CreateUserReq → Result (Unit {0}) → S → Outcome S
    create_valid body (ok u) s =
        user_reply 201 "Create Failed" (svc.create env body.name body.email s)
    create_valid body (err e) s = fails 400 "Validation Error" e s
    create_valid body panic s = crashes s

    abbrev create_decoded : Result CreateUserReq → S → Outcome S
    create_decoded (ok body) s = create_valid body (validate body) s
    create_decoded (err e) s = fails (http_status e) "Invalid JSON" e s
    create_decoded panic s = crashes s

    unfoldable pub create : Handler S
    create req h s = create_decoded (decode_json decode_create req) s

    abbrev get_parsed : Result Uuid → S → Outcome S
    get_parsed (ok id) s = user_reply 200 "Get Failed" (svc.get env id s)
    get_parsed (err e) s = fails 400 "Invalid ID" e s
    get_parsed panic s = crashes s

    unfoldable pub get : Handler S
    get req h s = get_parsed (parse_uuid_param req "id") s

    abbrev list_reply : ℤ → ℤ → Result (List User × ℤ) × S → Outcome S
    list_reply page page_size (ok (users, total), s) =
        respond
          (json json_text 200 (
            obj (
              field "data" (arr (to_dtos users)) (
                field "page" (num page)
                  (field "page_size" (num page_size) (field "total" (num total) end))))))
          s
    list_reply page page_size (err e, s) = fails (http_status e) "List Failed" e s
    list_reply page page_size (panic, s) = crashes s

    unfoldable pub list : Handler S
    list req h s =
        let (page, page_size) = parse_pagination req in
        list_reply page page_size (svc.list env page page_size s)

    abbrev update_decoded : Uuid → Result UpdateUserReq × String → S → Outcome S
    update_decoded id (ok body, title) s =
        user_reply 200 "Update Failed" (svc.update env id body.name body.email s)
    update_decoded id (err e, title) s = fails 400 title e s
    update_decoded id (panic, title) s = crashes s

    abbrev update_parsed : Request → Result Uuid → S → Outcome S
    update_parsed req (ok id) s = update_decoded id (update_body req) s
    update_parsed req (err e) s = fails 400 "Invalid ID" e s
    update_parsed req panic s = crashes s

    unfoldable pub update : Handler S
    update req h s = update_parsed req (parse_uuid_param req "id") s

    abbrev delete_reply : Result (Unit {0}) × S → Outcome S
    delete_reply (ok u, s) = respond (write_header 204 ∷ []) s
    delete_reply (err e, s) = fails (http_status e) "Delete Failed" e s
    delete_reply (panic, s) = crashes s

    abbrev delete_parsed : Result Uuid → S → Outcome S
    delete_parsed (ok id) s = delete_reply (svc.delete env id s)
    delete_parsed (err e) s = fails 400 "Invalid ID" e s
    delete_parsed panic s = crashes s

    unfoldable pub delete : Handler S
    delete req h s = delete_parsed (parse_uuid_param req "id") s
