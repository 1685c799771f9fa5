-- ===== src/Crypto/InviteToken.antt =====
-- crypto/invite.go: the invite tokens. HMAC-SHA256 and base64 are the Go library's, and the random
-- bytes are an argument. A time is a number of nanoseconds since 1970.
use mv_chat.Prelude.{
  ℕ, suc, ◌+◌, ◌-◌, ◌*◌, ◌/◌, ◌%◌, ◌^◌, ◌≡◌, List, [], ◌∷◌, ◌++◌, Option, none, some, Bool, true,
  false, Text, ltb, ◌==◌, text_eq, length, take, drop, if◌then◌else◌,
}
use mv_chat.Result.{Result, ok, err, ◌>>=◌}
use mv_chat.Crypto.{Aead, Base64, CryptoError, new_encryptor, encrypt_string, decrypt_string}
use mv_chat.Store.Types.{second}
pub mod Fields
pub mod Verify

pub record InviteTokenData : Type 0 where
  pub inviter_email : Text
  pub invitee_email : Text
  pub created_at : ℕ

pub data InviteError : Type 0 where
  invalid_invite_token invite_token_expired invite_key_too_short no_random : InviteError
  no_cipher : CryptoError → InviteError

-- `hmac` takes the key and the message; `base64` is RawURLEncoding.
pub record Generator : Type 0 where
  pub key : Text
  pub ttl : ℕ
  pub encryptor : Aead
  pub hmac : Text → Text → Text
  pub base64 : Base64

unfoldable pub new_invite_token_generator :
    (Text → Aead) → (Text → Text → Text) → Base64 → Text → ℕ → Result InviteError Generator
new_invite_token_generator gcm hmac base64 key ttl =
    if ltb (length key) 32
    then err invite_key_too_short
    else elim (new_encryptor gcm (take 32 key)) [
      | err e ↦ err (no_cipher e)
      | ok e ↦ ok (record { key = key; ttl = ttl; encryptor = e; hmac = hmac; base64 = base64 })
    ]

-- binary.BigEndian.PutUint32 of a number below 2 ^ 32.
abbrev pub put_uint32 : ℕ → Text
put_uint32 n = (n / 2 ^ 24 % 256) ∷ (n / 2 ^ 16 % 256) ∷ (n / 2 ^ 8 % 256) ∷ (n % 256) ∷ []

-- binary.BigEndian.Uint32 of the first four bytes.
abbrev pub uint32 : Text → ℕ
uint32 (a ∷ b ∷ c ∷ d ∷ rest) = a * 2 ^ 24 + b * 2 ^ 16 + c * 2 ^ 8 + d
uint32 _ = 0

abbrev pub signature : Generator → Text → Text
signature g payload = take 16 (g.hmac g.key payload)

abbrev pub cut_name : Text → Text
cut_name name = if ltb 255 (length name) then take 255 name else name

unfoldable pub payload_of : Text → ℕ → Text → Text → Text
payload_of entropy seconds inviter invitee =
    entropy ++ (put_uint32 (seconds % 2 ^ 32) ++ ((length inviter % 256) ∷ (inviter ++ invitee)))

unfoldable pub generate : Generator → Option Text → ℕ → Text → Text → Result InviteError Text
generate g none now inviter invitee = err no_random
generate g (some entropy) now inviter invitee =
    let payload = payload_of entropy (now / second) (cut_name inviter) invitee in
    ok (g.base64.encode (payload ++ signature g payload))

-- The byte at an index below the length.
abbrev pub byte_at : ℕ → Text → ℕ
byte_at i t = elim (drop i t) [ [] ↦ 0 | b ∷ rest ↦ b ]

-- What the payload says, once its signature has been checked.
unfoldable pub read_payload : Generator → ℕ → Text → Result InviteError InviteTokenData
read_payload g now payload =
    let created_at = uint32 (drop 8 payload) * second in
    let inviter_len = byte_at 12 payload in
    if ltb (created_at + g.ttl) now
    then err invite_token_expired
    else if ltb (length payload) (13 + inviter_len)
    then err invalid_invite_token
    else ok (record {
      inviter_email = take inviter_len (drop 13 payload);
      invitee_email = drop (13 + inviter_len) payload;
      created_at = created_at;
    })

unfoldable pub verify : Generator → ℕ → Text → Result InviteError InviteTokenData
verify g now token = elim (g.base64.decode token) [
  | none ↦ err invalid_invite_token
  | some bytes ↦
      let payload = take (length bytes - 16) bytes in
      let sig = drop (length bytes - 16) bytes in
      if ltb (length bytes) 29
      then err invalid_invite_token
      else if text_eq sig (signature g payload)
      then read_payload g now payload
      else err invalid_invite_token
]

unfoldable pub verify_for_recipient :
    Generator → ℕ → Text → Text → Result InviteError InviteTokenData
verify_for_recipient g now token recipient = verify g now token >>= λ d.
    if text_eq d.invitee_email recipient then ok d else err invalid_invite_token

unfoldable pub short_code : Generator → Text → Text
short_code g token =
    let encoded = g.base64.encode (take 8 (g.hmac g.key token)) in
    if ltb 10 (length encoded) then take 10 encoded else encoded

-- `storage` is the base64 of crypto.go, and the nonce is what was read for it.
unfoldable pub encrypt_for_storage :
    Generator → Base64 → Option Text → Text → Result CryptoError Text
encrypt_for_storage g storage nonce token = encrypt_string storage g.encryptor nonce token

unfoldable pub decrypt_from_storage : Generator → Base64 → Text → Result CryptoError Text
decrypt_from_storage g storage encrypted = decrypt_string storage g.encryptor encrypted
