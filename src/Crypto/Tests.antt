-- ===== src/Crypto/Tests.antt =====
-- Examples of encryption and of invite tokens, with a cipher, a code and a base64 that are easy to
-- follow.
use mv_chat.Prelude.{
  ℕ, ◌+◌, ◌*◌, ◌/◌, ◌≡◌, ◌≤◌, refl, [], ◌∷◌, ◌++◌, some, Text, arith, drop, take, codes, ltb,
  if◌then◌else◌,
}
use mv_chat.Result.{ok, err, ◌>>=◌}
use mv_chat.Store.Types.{second}
use mv_chat.Crypto.{
  encrypt, decrypt, encrypt_string, decrypt_string, invalid_key, new_encryptor, decryption_failed,
  invalid_ciphertext,
}
use mv_chat.Crypto.Fixture.{plain, tagged, generator, entropy, signed_payload}
use mv_chat.Crypto.Sealing.{decrypt_string-encrypt_string}
use mv_chat.Crypto.InviteToken.{
  InviteTokenData, signature, generate, verify, invite_token_expired, byte_at, uint32, cut_name,
  payload_of, read_payload, invalid_invite_token,
}
use mv_chat.Crypto.InviteToken.Verify.{verify-generate, verify_sound}

short_key : new_encryptor (λ k. tagged) (codes "short") ≡ err invalid_key
unfolding new_encryptor
short_key = refl

too_short : decrypt tagged (1 ∷ []) ≡ err invalid_ciphertext
unfolding decrypt
too_short = refl

untagged : decrypt tagged (1 ∷ 2 ∷ []) ≡ err decryption_failed
unfolding decrypt
untagged = refl

decrypt_string-encrypt_string_example :
    ((encrypt tagged (some (1 ∷ 2 ∷ [])) (codes "hi") >>= decrypt tagged) ≡ ok (codes "hi"))
    × ((encrypt_string plain tagged (some (1 ∷ 2 ∷ [])) (codes "hi")
          >>= decrypt_string plain tagged)
        ≡ ok (codes "hi"))
decrypt_string-encrypt_string_example =
    decrypt_string-encrypt_string plain tagged (1 ∷ 2 ∷ []) (codes "hi") (λ t. refl)
      (λ nonce t. refl) refl

-- Made at second 100, and read at second 103, and at second 106.
verify-generate_example :
    (generate generator (some entropy) (100 * second) (codes "a@b") (codes "c@d")
      >>= verify generator (103 * second))
    ≡ (if ltb (100 * second / second * second + 5 * second) (103 * second)
        then err invite_token_expired
        else ok (record {
          inviter_email = cut_name (codes "a@b");
          invitee_email = codes "c@d";
          created_at = 100 * second / second * second;
        }))
verify-generate_example =
    verify-generate generator (103 * second) entropy (100 * second) (codes "a@b") (codes "c@d")
      (λ t. refl) (λ message. refl) refl (omega arith)

late :
    (generate generator (some entropy) (100 * second) (codes "a@b") (codes "c@d")
      >>= verify generator (106 * second))
    ≡ err invite_token_expired
unfolding generate verify read_payload payload_of
late = refl

abbrev read_back : InviteTokenData
read_back = record {
  inviter_email = codes "a";
  invitee_email = codes "b";
  created_at = 100 * second;
}

reads :
    verify generator (103 * second) (7 ∷ (signed_payload ++ signature generator signed_payload))
    ≡ ok read_back
unfolding verify read_payload
reads = refl

verify_sound_example :
    (payload : Text) × (plain.decode (7 ∷ (signed_payload ++ signature generator signed_payload))
      ≡ some (payload ++ signature generator payload))
    × (103 * second ≤ 100 * second + 5 * second)
    × (payload ≡ take 13 payload ++ codes "ab")
    × (◌≡◌ {A = ℕ} 1 (byte_at 12 payload))
    × (100 * second ≡ uint32 (drop 8 payload) * second)
verify_sound_example =
    verify_sound generator (103 * second)
      (7 ∷ (signed_payload ++ signature generator signed_payload)) read_back reads

forged :
    verify generator (103 * second) (7 ∷ (signed_payload ++ signature generator entropy))
    ≡ err invalid_invite_token
unfolding verify read_payload
forged = refl
