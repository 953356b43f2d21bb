-- ===== src/Examples/Libraries.antt =====
-- Simple functions in the place of the libraries that sign tokens and hash passwords.
use bookmarks_api.Prelude.{
  ℕ, ◌≤◌, ◌<◌, ◌≡◌, refl, ap₂, ◌∙◌, false, ◌&&◌, Option, some, [], ◌∷◌, ◌++◌, ltb, leb, length,
  take, drop, if◌then◌else◌, lt→ltb, le→leb,
}
use bookmarks_api.Text.{Text, codes, text_eq, text_eq_refl, is_empty}
use bookmarks_api.Dict.{get}
use bookmarks_api.Json.{Json, num, text}
use bookmarks_api.Result.{Result, ok, raise, invalid_token_error, expired_signature_error}
use bookmarks_api.Security.{Payload, Jwt, Hasher, seconds, claims}

unfoldable pub text_claim : Option Json → Text
text_claim (some (text s)) = s
text_claim _ = []

unfoldable pub num_claim : Option Json → ℕ
num_claim (some (num n)) = n
num_claim _ = 0

-- A token that is the claims, each text behind its length.
unfoldable pub write_token : Payload → Text
unfolding text_claim num_claim
write_token payload =
    let sub = text_claim (get (codes "sub") payload) in
    let type = text_claim (get (codes "type") payload) in
    num_claim (get (codes "iat") payload)
    ∷ num_claim (get (codes "exp") payload)
    ∷ length sub
    ∷ (sub ++ (length type ∷ (type ++ text_claim (get (codes "jti") payload))))

unfoldable pub read_rest : ℕ → ℕ → ℕ → Text → Text → Result Payload
read_rest now iat exp sub [] = raise invalid_token_error
read_rest now iat exp sub (n ∷ s) =
    if leb iat (seconds now) && ltb (seconds now) exp
    then ok (claims sub iat exp (take n s) (drop n s))
    else raise expired_signature_error

unfoldable pub read_token : ℕ → Text → Result Payload
unfolding read_rest
read_token now (iat ∷ exp ∷ n ∷ s) = read_rest now iat exp (take n s) (drop n s)
read_token now _ = raise invalid_token_error

take-length : (s t : Text) → take (length s) (s ++ t) ≡ s
take-length [] t = refl
take-length (c ∷ s) t = ap₂ ◌∷◌ refl (take-length s t)

drop-length : (s t : Text) → drop (length s) (s ++ t) ≡ t
drop-length [] t = refl
drop-length (c ∷ s) t = drop-length s t

read_rest_lem :
    (now iat exp : ℕ) (sub type jti : Text)
    → iat ≤ seconds now
    → seconds now < exp
    → read_rest now iat exp sub (length type ∷ (type ++ jti)) ≡ ok (claims sub iat exp type jti)
unfolding read_rest
read_rest_lem now iat exp sub type jti h k =
    rw (le→leb iat (seconds now) h, lt→ltb (seconds now) exp k)
      (ap₂ (λ t j. ok (claims sub iat exp t j)) (take-length type jti) (drop-length type jti))

pub read-write :
    (sub type jti : Text) (iat exp now : ℕ)
    → iat ≤ seconds now
    → seconds now < exp
    → read_token now (write_token (claims sub iat exp type jti)) ≡ ok (claims sub iat exp type jti)
unfolding write_token read_token get text_eq codes text_claim num_claim
read-write sub type jti iat exp now h k =
    ap₂ (read_rest now iat exp) (take-length sub (length type ∷ (type ++ jti)))
      (drop-length sub (length type ∷ (type ++ jti)))
    ∙ read_rest_lem now iat exp sub type jti h k

pub write_token-nonempty : (payload : Payload) → is_empty (write_token payload) ≡ false
unfolding write_token is_empty
write_token-nonempty payload = refl

abbrev pub plain_jwt : Jwt
plain_jwt = record {
  encode = λ payload secret algorithm. write_token payload;
  encode-nonempty = λ payload secret algorithm. write_token-nonempty payload;
  decode = λ token secret algorithm now. read_token now token;
  decode-encode = λ secret algorithm sub type jti iat exp now. read-write sub type jti iat exp now;
}

abbrev pub plain_hasher : Hasher
plain_hasher = record {
  hash = λ salt password. password;
  verify = text_eq;
  verify-hash = λ salt password. text_eq_refl password;
}
