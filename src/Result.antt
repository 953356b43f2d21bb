-- ===== src/Result.antt =====
-- A call that returns or raises.
use bookmarks_api.Errors.{AppError}
use bookmarks_api.Text.{Text}

-- The exceptions that the program raises or catches by name.
pub data Exception : Type 0 where
  app : AppError → Exception
  value_error : Text → Exception
  stale_version_error integrity_error : Exception
  expired_signature_error invalid_token_error : Exception

pub data Result {ℓ} (A : Type ℓ) : Type ℓ where
  ok : A → Result A
  raise : Exception → Result A

infixl 5 ◌>>=◌
abbrev pub ◌>>=◌ {ℓ κ} : {A : Type ℓ} {B : Type κ} → Result A → (A → Result B) → Result B
ok a >>= f = f a
raise e >>= f = raise e
