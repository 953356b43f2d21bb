-- ===== src/Errors/Laws.antt =====
-- On the exception handlers of app/core/errors.py.
use bookmarks_api.Prelude.{◌≡◌, ◌≢◌, refl, ◌⊎◌, inl, inr, Option, none, some}
use bookmarks_api.Text.{Text, codes}
use bookmarks_api.Json.{Json, Fields, text, obj, end, field}
use bookmarks_api.Errors.{
  ErrorClass, app_error, too_many_attempts_error, Failure, app, validation, http, unexpected,
  envelope, make_error, init_error, class_status, class_code, status_to_code, handle_exception,
}

-- `{"error": {"code": …, "message": …}}`, with `details` an object where there are any.
abbrev pub IsEnvelope : Json → Type 0
IsEnvelope j =
    (code message : Text) × (details : Fields) × (j
      ≡ obj (
          field (codes "error")
            (obj
              (field (codes "code") (text code) (field (codes "message") (text message) details)))
            end))
    × ((details ≡ end) ⊎ ((d : Fields) × (details ≡ field (codes "details") (obj d) end)))

envelope-IsEnvelope :
    (code message : Text) (details : Option Fields) → IsEnvelope (envelope code message details)
unfolding envelope
envelope-IsEnvelope code message none = (code, message, end, refl, inl refl)
envelope-IsEnvelope code message (some d) =
    (code, message, field (codes "details") (obj d) end, refl, inr (d, refl))

-- Whatever the failure, the response's body is the error envelope.
pub handle_exception-IsEnvelope : (e : Failure) → IsEnvelope (handle_exception e).content
unfolding handle_exception
handle_exception-IsEnvelope (app exc) = envelope-IsEnvelope exc.code exc.message exc.details
handle_exception-IsEnvelope (validation first others) = envelope-IsEnvelope _ _ _
handle_exception-IsEnvelope (http status detail headers) = envelope-IsEnvelope _ _ none
handle_exception-IsEnvelope unexpected = envelope-IsEnvelope _ _ none

pub handle_exception-app-http :
    (cls : ErrorClass) (message : Text)
    → cls ≢ app_error
    → cls ≢ too_many_attempts_error
    → handle_exception (app (make_error cls message none none))
      ≡ handle_exception (http (class_status cls) (some message) none)
unfolding handle_exception class_status class_code status_to_code init_error
handle_exception-app-http app_error message h k = absurd (h refl)
handle_exception-app-http too_many_attempts_error message h k = absurd (k refl)
handle_exception-app-http _ message h k = refl
