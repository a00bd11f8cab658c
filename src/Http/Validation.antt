-- ===== src/Http/Validation.antt =====
-- internal/http/handlers/validate.go: the first failing field as an API error.
use Prim.Native.Char.{Char}
use tark.Common.{String, List, [], ◌∷◌, ◌||◌, ◌==◌, ◌<>◌, if◌then◌else◌}
use tark.Text.{to_lower}
use tark.Http.ApiError.{ApiError, bad_request, invalid_request_body, invalid_request_field}

-- One failed tag of a field, as the validator package reports it.
pub record FieldError : Type 0 where
  pub field : String
  pub tag : String
  pub param : String

-- The error of c.Validate.
pub data ValidateError : Type 0 where
  validation_errors : List FieldError → ValidateError
  other : ValidateError

-- The first character is lowered; field names begin with one byte.
unfoldable pub lower_first : (Char → Char) → String → String
lower_first lower_rune String.[] = String.[]
lower_first lower_rune (String.◌∷◌ c s) = to_lower lower_rune (String.◌∷◌ c String.[]) <> s

tag_message : String → FieldError → String
tag_message field fe =
    if fe.tag == "required"
    then field <> " is required"
    else if fe.tag == "min"
    then field <> " must be at least " <> fe.param <> " characters"
    else if fe.tag == "max"
    then field <> " must be at most " <> fe.param <> " characters"
    else if fe.tag == "oneof"
    then field <> " must be one of: " <> fe.param
    else if fe.tag == "url" || fe.tag == "http_url"
    then field <> " must be a valid URL"
    else if fe.tag == "uuid4" || fe.tag == "uuid"
    then field <> " must be a valid UUID"
    else field <> " failed validation: " <> fe.tag

unfoldable pub validation_error : (Char → Char) → ValidateError → ApiError
unfolding lower_first tag_message
validation_error lower_rune other = bad_request invalid_request_body "invalid request payload"
validation_error lower_rune (validation_errors []) =
    bad_request invalid_request_body "validation failed"
validation_error lower_rune (validation_errors (fe ∷ rest)) =
    bad_request invalid_request_field (tag_message (lower_first lower_rune fe.field) fe)
