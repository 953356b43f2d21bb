-- ===== src/Errors.antt =====
-- app/core/errors.py: the typed application errors, and the exception handlers that render every
-- failure in one JSON envelope.
pub mod Laws
use bookmarks_api.Prelude.{
  ℕ, Option, none, some, List, [], ◌∷◌, ◌++◌, Bool, true, false, ◌==◌, if◌then◌else◌,
}
use bookmarks_api.Text.{Text, codes, text_eq}
use bookmarks_api.Json.{Json, Items, Fields, text, arr, obj, nil, item, end, field}
use bookmarks_api.Dict.{Dict, get}

-- `AppError` and its subclasses.
pub data ErrorClass : Type 0 where
  app_error auth_error forbidden_error not_found_error conflict_error : ErrorClass
  validation_app_error precondition_required_error precondition_failed_error : ErrorClass
  too_many_attempts_error : ErrorClass

-- The class attribute `status_code`.
unfoldable pub class_status : ErrorClass → ℕ
class_status app_error = 500
class_status auth_error = 401
class_status forbidden_error = 403
class_status not_found_error = 404
class_status conflict_error = 409
class_status validation_app_error = 422
class_status precondition_required_error = 428
class_status precondition_failed_error = 412
class_status too_many_attempts_error = 429

-- The class attribute `code`.
unfoldable pub class_code : ErrorClass → Text
class_code app_error = codes "INTERNAL_ERROR"
class_code auth_error = codes "AUTHENTICATION_ERROR"
class_code forbidden_error = codes "PERMISSION_DENIED"
class_code not_found_error = codes "NOT_FOUND"
class_code conflict_error = codes "CONFLICT"
class_code validation_app_error = codes "VALIDATION_ERROR"
class_code precondition_required_error = codes "PRECONDITION_REQUIRED"
class_code precondition_failed_error = codes "PRECONDITION_FAILED"
class_code too_many_attempts_error = codes "TOO_MANY_ATTEMPTS"

abbrev pub Headers : Type 0
Headers = List (Text × Text)

pub record AppError : Type 0 where
  pub status_code : ℕ
  pub code : Text
  pub message : Text
  pub details : Option Fields
  pub headers : Option Headers

abbrev pub or_else {ℓ} : {A : Type ℓ} → Option A → A → A
or_else none a = a
or_else (some b) a = b

-- `AppError.__init__`: a code or status that is given replaces the class attribute.
unfoldable pub init_error :
    ErrorClass → Text → Option Fields → Option Text → Option ℕ → Option Headers → AppError
unfolding class_status class_code
init_error cls message details code status_code headers = record {
  status_code = or_else status_code (class_status cls);
  code = or_else code (class_code cls);
  message = message;
  details = details;
  headers = headers;
}

-- The calls of the program, which leave the class's own code and status.
abbrev pub make_error : ErrorClass → Text → Option Fields → Option Headers → AppError
make_error cls message details headers = init_error cls message details none none headers

-- `_STATUS_TO_CODE`
unfoldable pub status_to_code : ℕ → Option Text
status_to_code status =
    if status == 400
    then some (codes "BAD_REQUEST")
    else if status == 401
    then some (codes "AUTHENTICATION_ERROR")
    else if status == 403
    then some (codes "PERMISSION_DENIED")
    else if status == 404
    then some (codes "NOT_FOUND")
    else if status == 405
    then some (codes "METHOD_NOT_ALLOWED")
    else if status == 409
    then some (codes "CONFLICT")
    else if status == 412
    then some (codes "PRECONDITION_FAILED")
    else if status == 422
    then some (codes "VALIDATION_ERROR")
    else if status == 428
    then some (codes "PRECONDITION_REQUIRED")
    else if status == 429
    then some (codes "RATE_LIMITED")
    else none

details_field : Option Fields → Fields
details_field none = end
details_field (some details) = field (codes "details") (obj details) end

-- `_envelope`
unfoldable pub envelope : Text → Text → Option Fields → Json
unfolding details_field
envelope code message details = obj (
    field (codes "error")
      (obj (
        field (codes "code") (text code)
          (field (codes "message") (text message) (details_field details))))
      end)

-- `".".join(parts)`
unfoldable pub join_dots : List Text → Text
join_dots [] = []
join_dots (p ∷ []) = p
join_dots (p ∷ q ∷ ps) = p ++ b'.' ∷ join_dots (q ∷ ps)

unfoldable pub without_body : List Text → List Text
without_body [] = []
without_body (p ∷ ps) =
    let rest = without_body ps in if text_eq p (codes "body") then rest else p ∷ rest

path_of_parts : List Text → Text
path_of_parts [] = codes "(root)"
path_of_parts (p ∷ ps) = join_dots (p ∷ ps)

-- `_field_path`, over the segments as `str` writes them.
unfoldable pub field_path : List Text → Text
unfolding path_of_parts
field_path loc = path_of_parts (without_body loc)

-- One entry of Pydantic's error list; an absent key is `none`, an absent or empty `ctx` is `[]`.
pub record Issue : Type 0 where
  pub loc : List Text
  pub type : Option Text
  pub msg : Option Text
  pub ctx : Dict Json

-- The `for key in (…)` loop of `_humanize_validation`: the first key that `ctx` holds.
unfoldable pub first_limit : List Text → Dict Json → Option Json
first_limit [] ctx = none
first_limit (k ∷ ks) ctx = elim (get k ctx) [ some v ↦ some v | none ↦ first_limit ks ctx ]

abbrev pub limit_keys : List Text
limit_keys =
    codes "limit_value"
    ∷ codes "max_length"
    ∷ codes "min_length"
    ∷ codes "ge"
    ∷ codes "le"
    ∷ codes "gt"
    ∷ codes "lt"
    ∷ []

unfoldable pub issue_items : List Issue → Items
issue_items [] = nil
issue_items (e ∷ es) =
    item
      (obj (
        field (codes "field") (text (field_path e.loc))
          (field (codes "message") (text (or_else e.msg [])) end)))
      (issue_items es)

-- `if len(errors) > 1`
fields_field : Issue → List Issue → Fields
fields_field first [] = end
fields_field first (e ∷ es) = field (codes "fields") (arr (issue_items (first ∷ e ∷ es))) end

limit_field : Option Json → Fields → Fields
limit_field none rest = rest
limit_field (some v) rest = field (codes "limit") v rest

-- `_humanize_validation` of a list that begins with `first`; Pydantic reports one error at least.
unfoldable pub humanize_validation : Issue → List Issue → Text × Fields
unfolding fields_field limit_field
humanize_validation first others =
    let name = field_path first.loc in
    (
      name ++ codes ": " ++ or_else first.msg (codes "Invalid value."),
      field (codes "field") (text name) (
          field (codes "constraint") (text (or_else first.type (codes "invalid")))
            (limit_field (first_limit limit_keys first.ctx) (fields_field first others))),
    )

-- What an exception handler of the application is called with. The detail of an `HTTPException` is
-- `none` if it is no string.
pub data Failure : Type 0 where
  app : AppError → Failure
  validation : Issue → List Issue → Failure
  http : ℕ → Option Text → Option Headers → Failure
  unexpected : Failure

pub record JsonResponse : Type 0 where
  pub status_code : ℕ
  pub content : Json
  pub headers : Option Headers

-- The four handlers of `register_exception_handlers`.
unfoldable pub handle_exception : Failure → JsonResponse
handle_exception (app exc) = record {
  status_code = exc.status_code;
  content = envelope exc.code exc.message exc.details;
  headers = exc.headers;
}
handle_exception (validation first others) =
    let (message, details) = humanize_validation first others in
    record {
      status_code = 422;
      content = envelope (codes "VALIDATION_ERROR") message (some details);
      headers = none;
    }
handle_exception (http status_code detail headers) = record {
  status_code = status_code;
  content =
      envelope (or_else (status_to_code status_code) (codes "HTTP_ERROR"))
        (or_else detail (codes "Request could not be completed.")) none;
  headers = headers;
}
handle_exception unexpected = record {
  status_code = 500;
  content = envelope (codes "INTERNAL_ERROR") (codes "An unexpected error occurred.") none;
  headers = none;
}
