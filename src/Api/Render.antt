-- ===== src/Api/Render.antt =====
-- internal/errs/http.go and internal/http/render/json.go.
use maxwell_go_spine.Prelude.{ℕ, String, List, [], ◌∷◌, ◌==◌, if◌then◌else◌}
use maxwell_go_spine.Go.Int.{ℤ, pos}
use maxwell_go_spine.Go.Error.{Err, is_not_found, is_conflict, is_validation}
use maxwell_go_spine.Http.{Command, set_header, write_header, write}

-- The JSON values that the program encodes.
mutual
  pub data Json : Type 0 where
    str : String → Json
    num : ℤ → Json
    arr : Items → Json
    obj : Fields → Json

  pub data Items : Type 0 where
    nil : Items
    cons : Json → Items → Items

  pub data Fields : Type 0 where
    end : Fields
    field : String → Json → Fields → Fields

unfoldable pub http_status : Err → ℕ
unfolding is_not_found is_conflict is_validation
http_status e =
    if is_not_found e
    then 404
    else if is_conflict e
    then 409
    else if is_validation e
    then 400
    else 500

-- `json_text` is what `json.NewEncoder(w).Encode` writes.
module _ (json_text : Json → String) where
  unfoldable pub json : ℕ → Json → List Command
  json status v =
      set_header "Content-Type" "application/json" ∷ write_header status ∷ write (json_text v) ∷ []

  -- `Detail` has `omitempty`, and `Type` is never set.
  unfoldable pub problem_details : String → ℕ → String → Json
  problem_details title status detail = obj (
      field "title" (str title) (
        field "status" (num (pos status))
          (if detail == "" then end else field "detail" (str detail) end)))

  unfoldable pub problem : ℕ → String → String → List Command
  unfolding problem_details
  problem status title detail =
      set_header "Content-Type" "application/problem+json"
      ∷ write_header status
      ∷ write (json_text (problem_details title status detail))
      ∷ []
