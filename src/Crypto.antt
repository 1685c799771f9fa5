-- ===== src/Crypto.antt =====
-- crypto/crypto.go: encryption at rest. AES-GCM, base64 and the random numbers are the Go library's:
-- `Aead` and `Base64` are parameters, and what rand.Reader gives is an argument.
use mv_chat.Prelude.{
  ℕ, ◌≡◌, ◌≤◌, ◌++◌, Option, none, some, Bool, true, false, Text, ltb, ◌==◌, ◌||◌, length, take,
  drop, if◌then◌else◌,
}
use mv_chat.Result.{Result, ok, err, ◌>>=◌}
pub mod Sealing
pub mod InviteToken
pub mod Fixture
mod Tests

-- cipher.AEAD: the key is inside.
pub record Aead : Type 0 where
  pub nonce_size : ℕ
  pub seal : Text → Text → Text
  pub unseal : Text → Text → Option Text

pub record Base64 : Type 0 where
  pub encode : Text → Text
  pub decode : Text → Option Text

pub data CryptoError : Type 0 where
  invalid_key invalid_ciphertext decryption_failed no_entropy : CryptoError

-- aes.NewCipher and cipher.NewGCM take any key of these lengths.
unfoldable pub new_encryptor : (Text → Aead) → Text → Result CryptoError Aead
new_encryptor gcm key =
    if length key == 16 || length key == 24 || length key == 32
    then ok (gcm key)
    else err invalid_key

unfoldable pub new_encryptor_from_base64 : Base64 → (Text → Aead) → Text → Result CryptoError Aead
new_encryptor_from_base64 b64 gcm key = elim (b64.decode key) [
  | none ↦ err invalid_key
  | some bytes ↦ new_encryptor gcm bytes
]

-- The first argument is the nonce that was read, of the nonce's size, or `none` if reading failed.
unfoldable pub encrypt : Aead → Option Text → Text → Result CryptoError Text
encrypt e none plaintext = err no_entropy
encrypt e (some nonce) plaintext = ok (nonce ++ e.seal nonce plaintext)

unfoldable pub decrypt : Aead → Text → Result CryptoError Text
decrypt e ciphertext =
    if ltb (length ciphertext) e.nonce_size
    then err invalid_ciphertext
    else elim (e.unseal (take e.nonce_size ciphertext) (drop e.nonce_size ciphertext)) [
      | none ↦ err decryption_failed
      | some plaintext ↦ ok plaintext
    ]

unfoldable pub encrypt_string : Base64 → Aead → Option Text → Text → Result CryptoError Text
encrypt_string b64 e nonce plaintext = encrypt e nonce plaintext >>= λ c. ok (b64.encode c)

unfoldable pub decrypt_string : Base64 → Aead → Text → Result CryptoError Text
decrypt_string b64 e ciphertext = elim (b64.decode ciphertext) [
  | none ↦ err invalid_ciphertext
  | some bytes ↦ decrypt e bytes
]
