-- ===== src/Auth.antt =====
-- auth/auth.go and auth/validator.go: the rules for names and passwords, the stored form of a
-- password, and the session tokens. Argon2, base64 and JWT are other people's: they are parameters,
-- and what rand.Reader gives is an argument. Go's int is `ℤ`.
use mv_chat.Prelude.{
  ℕ, suc, ◌+◌, ◌*◌, ◌-◌, zero, List, [], ◌∷◌, ◌++◌, Option, none, some, Bool, true, false, ◌&&◌,
  ◌||◌, not, Text, ltb, ◌==◌, text_eq, is_empty, length, take, drop, codes, if◌then◌else◌, ℤ, pos,
  negsuc,
}
use mv_chat.Result.{Result, ok, err, ◌>>=◌}
use mv_chat.Crypto.{Base64}
use mv_chat.Store.Types.{second}
pub mod Passwords
mod Tests

pub data AuthError : Type 0 where
  invalid_token token_expired weak_password weak_username no_random not_signed : AuthError

pub record Config : Type 0 where
  pub token_key : Text
  pub token_expiry : ℤ
  pub min_username_length : ℤ
  pub min_password_length : ℤ

abbrev or_default : ℤ → ℕ → ℤ
or_default (pos zero) d = pos d
or_default other d = other

unfoldable pub new : Config → Config
new cfg = record cfg {
  token_expiry = or_default cfg.token_expiry (14 * (24 * (3600 * second)));
  min_username_length = or_default cfg.min_username_length 4;
  min_password_length = or_default cfg.min_password_length 6;
}

-- `n < m` of Go's ints, where `n` is a length.
abbrev pub below : ℕ → ℤ → Bool
below n (pos m) = ltb n m
below n (negsuc m) = false

unfoldable pub validate_username : Config → Text → Result AuthError (Unit {0})
validate_username a username =
    if below (length username) a.min_username_length then err weak_username else ok tt

unfoldable pub validate_password : Config → Text → Result AuthError (Unit {0})
validate_password a password =
    if below (length password) a.min_password_length then err weak_password else ok tt

-- The stretch since the last `$` and what is still to be read; the last one counts if not empty.
unfoldable pub segments : Text → Text → List Text
segments seg [] = if is_empty seg then [] else seg ∷ []
segments seg (c ∷ rest) = elim (c == b'$') [
  | true ↦ seg ∷ segments [] rest
  | false ↦ segments (seg ++ c ∷ []) rest
]

unfoldable pub split_argon2_hash : Text → List Text
split_argon2_hash encoded = elim encoded [
  | [] ↦ []
  | c ∷ rest ↦ if ltb (suc (length rest)) 10 || not (c == b'$') then [] else segments [] rest
]

-- `argon` is argon2.IDKey(password, salt, 1, 64 * 1024, 4, 32).
unfoldable pub hash_password :
    (Text → Text → Text) → Base64 → Option Text → Text → Result AuthError Text
hash_password argon base64 none password = err no_random
hash_password argon base64 (some salt) password =
    ok (codes "$argon2id$" ++ (base64.encode salt ++ (b'$' ∷ base64.encode (argon password salt))))

-- The comparison of VerifyPassword, once the parts are there.
unfoldable pub check_parts : (Text → Text → Text) → Base64 → Text → List Text → Bool
check_parts argon base64 password (name ∷ salt_code ∷ hash_code ∷ []) =
    text_eq name (codes "argon2id") && elim (base64.decode salt_code) [
      | none ↦ false
      | some salt ↦ elim (base64.decode hash_code) [
        | none ↦ false
        | some hash ↦ text_eq hash (argon password salt)
      ]
    ]
check_parts argon base64 password _ = false

unfoldable pub verify_password : (Text → Text → Text) → Base64 → Text → Text → Bool
verify_password argon base64 password encoded =
    check_parts argon base64 password (split_argon2_hash encoded)

-- jwt.RegisteredClaims with the user's id; times are nanoseconds.
pub record Claims : Type 0 where
  pub user_id : ℕ
  pub expires_at : ℤ
  pub issued_at : ℕ
  pub issuer : Text

-- What jwt.ParseWithClaims gives: the claims and `token.Valid`, or an error.
pub data Parsed : Type 0 where
  token : Claims → Bool → Parsed
  expired failed : Parsed

-- `parse` is given the function that looks at the token's method, whether it is an HMAC, and says
-- which key to use; then the time and the token.
pub record Jwt : Type 0 where
  pub signed_string : Text → Claims → Option Text
  pub parse : (Bool → Option Text) → ℕ → Text → Parsed

infixl 65 ◌after◌
abbrev pub ◌after◌ : ℕ → ℤ → ℤ
now after (pos d) = pos (now + d)
now after (negsuc d) = if ltb d now then pos (now - suc d) else negsuc (d - now)

unfoldable pub generate_token : Jwt → Config → ℕ → ℕ → Result AuthError (Text × ℤ)
generate_token jwt a now user_id =
    let expires_at = now after a.token_expiry in
    let claims : Claims = record {
      user_id = user_id;
      expires_at = expires_at;
      issued_at = now;
      issuer = codes "mvchat2";
    } in
    elim (jwt.signed_string a.token_key claims) [
      | none ↦ err not_signed
      | some text ↦ ok (text, expires_at)
    ]

abbrev pub key_of : Config → Bool → Option Text
key_of a is_hmac = if is_hmac then some a.token_key else none

unfoldable pub validate_token : Jwt → Config → ℕ → Text → Result AuthError Claims
validate_token jwt a now text = elim (jwt.parse (key_of a) now text) [
  | expired ↦ err token_expired
  | failed ↦ err invalid_token
  | token claims valid ↦ if valid then ok claims else err invalid_token
]

-- Validator.ValidateToken
unfoldable pub validated_user : Jwt → Config → ℕ → Text → Result AuthError ℕ
validated_user jwt a now text = validate_token jwt a now text >>= λ claims. ok claims.user_id
