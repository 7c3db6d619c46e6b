-- ===== src/Tests/Api.antt =====
-- The user handlers on small requests.
use maxwell_go_spine.Prelude.{
  Bool, ltb, ◌&&◌, if◌then◌else◌, arith, ◌≡◌, refl, true, false, none, [], ◌∷◌,
}
use maxwell_go_spine.Go.Int.{ℤ, pos}
use maxwell_go_spine.Go.Text.Number.{atoi}
use maxwell_go_spine.Go.Error.{plain, ok, err, panic}
use maxwell_go_spine.Core.User.{Env, UserService}
use maxwell_go_spine.Core.Memory.{InMemoryUserRepo, in_memory_repository, new_in_memory}
use maxwell_go_spine.Core.Memory.Sorting.{newest_first_order}
use maxwell_go_spine.Core.Service.{Mail, new_user_service}
use maxwell_go_spine.Http.{Request}
use maxwell_go_spine.Api.Users
use maxwell_go_spine.Api.Users.{Codec, parse_pagination, parse_uuid_param, decode_json}
use maxwell_go_spine.Api.Users.Replies.{IsReply, list_bounded, handlers-IsReply}

abbrev request : Request
request = record {
  method = "POST";
  path = "/v1/users";
  query = ("page", "-3") ∷ ("page_size", "1000") ∷ [];
  url_params = ("id", "7") ∷ [];
  header = ("Content-Type", "application/json" ∷ []) ∷ [];
  body = "{";
  request_id = none;
  deadline = none;
  remote_addr = "";
}

-- Every text is the identifier 7, and no body is JSON.
abbrev pub codec : Codec
codec = record {
  parse_uuid = λ s. ok 7;
  uuid_text = λ id. "7";
  rfc3339 = λ t. "2024-01-01T00:00:00Z";
  body_too_large = λ limit b. false;
  too_large = plain "http: request body too large";
  decode_create = λ limit b. err (plain "unexpected EOF");
  decode_update = λ limit b. err (plain "unexpected EOF");
  unmarshal_update = λ b. err (plain "unexpected end of JSON input");
  validate = λ req. ok tt;
  json_text = λ j. "{}";
}

abbrev pub mail : Mail
mail = record { unicode_lower = λ c. c; parse_address = λ e. true }

abbrev pub svc : UserService InMemoryUserRepo
svc = new_user_service mail (in_memory_repository (λ n. newest_first_order))

abbrev pub env : Env
env = record { now = 9; new_id = 7; range_order = 0 }

parse_pagination_run : parse_pagination codec request ≡ (pos 1, pos 20)
unfolding parse_pagination atoi
parse_pagination_run = refl

abbrev is_bounded : ℤ → ℤ → Bool
is_bounded (pos p) (pos n) = ltb 0 p && ltb n 101
is_bounded _ _ = false

-- A service that panics at every other page or size.
abbrev strict : UserService InMemoryUserRepo
strict = record svc {
  list = λ e page size s. if is_bounded page size then svc.list e page size s else (panic, s);
}

taken : {A : Type 0} (b : Bool) (x y : A) → b ≡ true → x ≡ (if b then x else y)
taken b x y e = rw e refl

list_bounded_example :
    Users.list codec svc env request [] new_in_memory
    ≡ Users.list codec strict env request [] new_in_memory
list_bounded_example =
    list_bounded codec svc strict env request [] new_in_memory
      (λ p n lp ln hn. taken (is_bounded (pos p) (pos n)) _ _ (ground arith))

handlers-IsReply_example :
    IsReply (Users.create codec svc env request [] new_in_memory)
    × IsReply (Users.get codec svc env request [] new_in_memory)
    × IsReply (Users.list codec svc env request [] new_in_memory)
    × IsReply (Users.update codec svc env request [] new_in_memory)
    × IsReply (Users.delete codec svc env request [] new_in_memory)
handlers-IsReply_example = handlers-IsReply codec svc env request [] new_in_memory
