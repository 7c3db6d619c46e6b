-- ===== src/Tests/Lifecycle.antt =====
-- A user's life over HTTP.
use maxwell_go_spine.Prelude.{
  ◌≡◌, refl, String, false, none, some, List, [], ◌∷◌, ◌==◌, if◌then◌else◌, arith,
}
use maxwell_go_spine.Go.Error.{ok}
use maxwell_go_spine.Go.Text.Trim.{trim_space}
use maxwell_go_spine.Go.Text.Split.{to_lower}
use maxwell_go_spine.Core.User.{User, Env}
use maxwell_go_spine.Core.Service
use maxwell_go_spine.Core.Service.{build_user, new_user_service}
use maxwell_go_spine.Core.Memory
use maxwell_go_spine.Core.Memory.{InMemoryUserRepo, new_in_memory, in_memory_repository, find_live}
use maxwell_go_spine.Core.Memory.Sorting.{newest_first_order}
use maxwell_go_spine.Core.Cached.InMemory.{Valid, in_memory-IsUserStore}
use maxwell_go_spine.Http.{Request, write_header}
use maxwell_go_spine.Api.Render.{json, problem}
use maxwell_go_spine.Api.Users
use maxwell_go_spine.Api.Users.{Codec, CreateUserReq, to_dto, decode_json, parse_uuid_param}
use maxwell_go_spine.Api.Users.Sequences.{
  ApiCall, create_request, get_request, list_request, update_request, delete_request, answer_all,
}
use maxwell_go_spine.Api.Users.Kept.{svc}
use maxwell_go_spine.Api.Users.Lifecycle.{created_user_stays, deleted_user_gone}
use maxwell_go_spine.Tests.Api
use maxwell_go_spine.Tests.Api.{mail}

abbrev body : CreateUserReq
body = record { name = " ann"; email = "A@b.c" }

abbrev codec : Codec
codec = record Api.codec {
  parse_uuid = λ t. if t == "7" then ok 7 else ok 8;
  decode_create = λ limit b. ok (body, false);
}

abbrev request : String → Request
request id = record {
  method = "GET";
  path = "/v1/users";
  query = [];
  url_params = ("id", id) ∷ [];
  header = [];
  body = "{}";
  request_id = none;
  deadline = none;
  remote_addr = "";
}

abbrev ann : User
ann = record {
  id = 7;
  name = "ann";
  email = "a@b.c";
  created_at = 9;
  updated_at = 9;
  deleted_at = none;
}

abbrev env : Env
env = record { now = 9; new_id = 7; range_order = 0 }

abbrev later : Env
later = record { now = 10; new_id = 8; range_order = 0 }

abbrev calls : List ApiCall
calls =
    create_request later (request "") []
    ∷ update_request later (request "8") []
    ∷ list_request later (request "") []
    ∷ get_request later (request "7") []
    ∷ delete_request later (request "8") []
    ∷ []

ann_built : build_user mail env body.name body.email ≡ ok ann
unfolding build_user trim_space to_lower
ann_built = refl

new_in_memory-Valid : Valid mail (λ n. newest_first_order) new_in_memory
unfolding new_in_memory
new_in_memory-Valid = ((λ j u e. cc), λ j u e. cc)

created_user_stays_example :
    ((Users.create codec
        (svc mail (λ n. newest_first_order))
        env
        (request "")
        []
        new_in_memory).commands
      ≡ json codec.json_text 201 (to_dto codec ann))
    × ((Users.get codec (svc mail (λ n. newest_first_order)) later (request "7") [] (
          answer_all codec
            (svc mail (λ n. newest_first_order))
            calls
            (Users.create codec
              (svc mail (λ n. newest_first_order))
              env
              (request "")
              []
              new_in_memory).state)).commands
        ≡ json codec.json_text 200 (to_dto codec ann))
unfolding decode_json parse_uuid_param new_in_memory
created_user_stays_example =
    created_user_stays mail (λ n. newest_first_order) codec env (request "") [] new_in_memory body
      ann calls later (request "7") [] new_in_memory-Valid refl refl ann_built refl
      ((omega arith), ((λ e. cc), (tt, (tt, ((λ e. cc), tt))))) refl

-- The repository that `Create` leaves.
abbrev stored : InMemoryUserRepo
stored = ((svc mail (λ n. newest_first_order)).create env " ann" "A@b.c" new_in_memory).1

stored-Valid : Valid mail (λ n. newest_first_order) stored
stored-Valid =
    ((in_memory-IsUserStore mail (λ n. newest_first_order)).creates env " ann" "A@b.c" new_in_memory
      new_in_memory-Valid).1

stored_ann : find_live 7 stored.users ≡ some ann
unfolding new_user_service Service.create in_memory_repository Memory.create new_in_memory find_live
    trim_space to_lower
stored_ann = refl

deleted_user_gone_example :
    ((Users.delete codec
        (svc mail (λ n. newest_first_order))
        later
        (request "7")
        []
        stored).commands
      ≡ write_header 204 ∷ [])
    × ((Users.get codec (svc mail (λ n. newest_first_order)) later (request "7") [] (
          answer_all codec
            (svc mail (λ n. newest_first_order))
            calls
            (Users.delete codec
              (svc mail (λ n. newest_first_order))
              later
              (request "7")
              []
              stored).state)).commands
        ≡ problem codec.json_text 404 "Get Failed" "not found")
unfolding parse_uuid_param find_live
deleted_user_gone_example =
    deleted_user_gone mail (λ n. newest_first_order) codec later (request "7") [] stored 7 ann calls
      later (request "7") [] stored-Valid refl stored_ann
      ((omega arith), ((λ e. cc), (tt, (tt, ((λ e. cc), tt))))) refl
