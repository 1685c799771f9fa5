-- ===== src/Crypto/Fixture.antt =====
-- A cipher, a code and a base64 that are easy to follow, for the examples.
use mv_chat.Prelude.{◌+◌, ◌*◌, ◌%◌, [], ◌∷◌, ◌++◌, none, some, Text, length, drop, codes}
use mv_chat.Store.Types.{second}
use mv_chat.Crypto.{Aead, Base64}
use mv_chat.Crypto.InviteToken.{Generator}

abbrev pub plain : Base64
plain = record { encode = λ t. 7 ∷ t; decode = λ t. some (drop 1 t) }

abbrev pub tagged : Aead
tagged = record {
  nonce_size = 2;
  seal = λ nonce t. 9 ∷ t;
  unseal = λ nonce t. elim t [ [] ↦ none | x ∷ rest ↦ some rest ];
}

abbrev pub mac : Text → Text → Text
mac key message =
    ((length key + length message) % 256)
    ∷ 5
    ∷ 5
    ∷ 5
    ∷ 5
    ∷ 5
    ∷ 5
    ∷ 5
    ∷ 5
    ∷ 5
    ∷ 5
    ∷ 5
    ∷ 5
    ∷ 5
    ∷ 5
    ∷ 5
    ∷ 5
    ∷ 5
    ∷ 5
    ∷ 5
    ∷ 5
    ∷ 5
    ∷ 5
    ∷ 5
    ∷ 5
    ∷ 5
    ∷ 5
    ∷ 5
    ∷ 5
    ∷ 5
    ∷ 5
    ∷ 5
    ∷ []

abbrev pub generator : Generator
generator = record {
  key = codes "key";
  ttl = 5 * second;
  encryptor = tagged;
  hmac = mac;
  base64 = plain;
}

abbrev pub entropy : Text
entropy = 1 ∷ 2 ∷ 3 ∷ 4 ∷ 5 ∷ 6 ∷ 7 ∷ 8 ∷ []

abbrev pub signed_payload : Text
signed_payload = entropy ++ (0 ∷ 0 ∷ 0 ∷ 100 ∷ 1 ∷ b'a' ∷ b'b' ∷ [])
