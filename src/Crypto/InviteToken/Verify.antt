-- ===== src/Crypto/InviteToken/Verify.antt =====
-- `Verify` of crypto/invite.go against `Generate`.
use mv_chat.Prelude.{
  ℕ, ◌+◌, ◌-◌, ◌*◌, ◌/◌, ◌^◌, ◌≡◌, ◌≤◌, ◌<◌, refl, sym, ap, subst, ◌∙◌, inl, inr, ◌++◌, some, false,
  Text, ltb, arith, text_eq, text_eq_refl, text_eq_sound, length, take, drop, take-append_of,
  drop-append_of, take-append-drop, drop-add, length-drop, length-append, length-take,
  if◌then◌else◌, Bool-cases, Option-cases,
}
use mv_chat.Result.{ok, err, ◌>>=◌, ok-injective}
use mv_chat.Store.Types.{second}
use mv_chat.Crypto.Sealing.{Decodes}
use mv_chat.Crypto.InviteToken.{
  InviteTokenData, Generator, signature, cut_name, payload_of, byte_at, uint32, generate,
  read_payload, verify, invite_token_expired,
}
use mv_chat.Crypto.InviteToken.Fields.{
  length-cut_name, seconds_read, inviter_len_read, inviter_read, invitee_read, length-payload,
  ltb_ge,
}

-- What crypto/hmac documents for SHA-256.
abbrev pub Is32 : Generator → Type 0
Is32 g = (message : Text) → length (g.hmac g.key message) ≡ 32

module _ (g : Generator) (now : ℕ) where
  -- A token that is signed is read.
  verify-signed :
      (payload : Text)
      → Decodes g.base64
      → Is32 g
      → 13 ≤ length payload
      → verify g now (g.base64.encode (payload ++ signature g payload)) ≡ read_payload g now payload
  unfolding verify
  verify-signed payload decodes is_32 long =
      let sig = signature g payload in
      let size : length sig ≡ 16 =
        length-take 16 (g.hmac g.key payload) (omega (arith, is_32 payload)) in
      let whole : length (payload ++ sig) - 16 ≡ length payload =
        omega (arith, size, length-append payload sig) in
      let enough : ltb (length (payload ++ sig)) 29 ≡ false =
        ground (arith, size, length-append payload sig, long) in
      rw (decodes (payload ++ sig), verify)
        (rw (enough, whole)
          (rw
            (
              take-append_of (length payload) payload sig refl,
              drop-append_of (length payload) payload sig refl,
            )
            (rw (text_eq_refl sig) refl)))

  read_payload-payload_of :
      (entropy : Text) (seconds : ℕ) (inviter invitee : Text)
      → length entropy ≡ 8
      → length inviter ≤ 255
      → seconds < 2 ^ 32
      → read_payload g now (payload_of entropy seconds inviter invitee) ≡ (
          if ltb (seconds * second + g.ttl) now
          then err invite_token_expired
          else ok (record {
            inviter_email = inviter;
            invitee_email = invitee;
            created_at = seconds * second;
          }))
  unfolding read_payload
  read_payload-payload_of entropy seconds inviter invitee eight short fits =
      let payload = payload_of entropy seconds inviter invitee in
      let size = length-payload entropy seconds inviter invitee eight in
      let enough : ltb (length payload) (13 + length inviter) ≡ false = ground (arith, size) in
      rw
        (
          seconds_read entropy seconds inviter invitee eight fits,
          inviter_len_read entropy seconds inviter invitee eight short,
        )
        (rw
          (
            enough,
            inviter_read entropy seconds inviter invitee eight,
            invitee_read entropy seconds inviter invitee eight,
          )
          refl)

  -- Provided that base64 decodes its own codes, that the code has 32 bytes and the time since 1970
  -- fits 32 bits of seconds: a token that was generated with 8 random bytes verifies, under the same
  -- generator, until its lifetime is over, and then it is an expired one. What is read back is the
  -- inviter's address, cut at 255 bytes, the invitee's address, and the second of its creation.
  pub verify-generate :
      (entropy : Text) (created : ℕ) (inviter invitee : Text)
      → Decodes g.base64
      → Is32 g
      → length entropy ≡ 8
      → created / second < 2 ^ 32
      → (generate g (some entropy) created inviter invitee >>= verify g now) ≡ (
          if ltb (created / second * second + g.ttl) now
          then err invite_token_expired
          else ok (record {
            inviter_email = cut_name inviter;
            invitee_email = invitee;
            created_at = created / second * second;
          }))
  unfolding generate
  verify-generate entropy created inviter invitee decodes is_32 eight fits =
      let seconds = created / second in
      let name = cut_name inviter in
      verify-signed (payload_of entropy seconds name invitee) decodes is_32
        (omega (arith, length-payload entropy seconds name invitee eight))
      ∙ read_payload-payload_of entropy seconds name invitee eight (length-cut_name inviter) fits

  -- What `read_payload` answers holds of the payload.
  abbrev Reads : Text → InviteTokenData → Type 0
  Reads payload d =
      (now ≤ d.created_at + g.ttl)
      × (payload ≡ take 13 payload ++ (d.inviter_email ++ d.invitee_email))
      × (length d.inviter_email ≡ byte_at 12 payload)
      × (d.created_at ≡ uint32 (drop 8 payload) * second)

  halves :
      (payload : Text) (len : ℕ)
      → payload ≡ take 13 payload ++ (take len (drop 13 payload) ++ drop (13 + len) payload)
  halves payload len =
      rw (drop-add 13 len payload)
        (rw (take-append-drop len (drop 13 payload)) (sym (take-append-drop 13 payload)))

  read_payload_sound :
      (payload : Text) (d : InviteTokenData) → read_payload g now payload ≡ ok d → Reads payload d
  unfolding read_payload
  read_payload_sound payload d h =
      let late = uint32 (drop 8 payload) * second + g.ttl in
      let len = byte_at 12 payload in
      elim (Bool-cases (ltb late now)) [
        | inl expired ↦ absurd (ground (arith, expired))
        | inr alive ↦ elim (Bool-cases (ltb (length payload) (13 + len))) [
          | inl short ↦ absurd (ground (arith, alive, short))
          | inr long ↦ subst (Reads payload) (ok-injective _ d (rw (alive, long) at h)) (
            ltb_ge late now alive,
            halves payload len,
            length-take len (drop 13 payload)
                (omega (arith, length-drop 13 payload, ltb_ge _ _ long)),
            refl,
          )
        ]
      ]

  -- A token that verifies was not older than its lifetime, and it was signed: its bytes are a
  -- payload and that payload's code under the key of the generator, and the data that is returned
  -- are the payload's: the addresses are what follows its first 13 bytes, the first one with the
  -- length that the payload gives, and the time is the payload's.
  pub verify_sound :
      (token : Text) (d : InviteTokenData)
      → verify g now token ≡ ok d
      → (payload : Text) × (g.base64.decode token ≡ some (payload ++ signature g payload))
        × (now ≤ d.created_at + g.ttl)
        × (payload ≡ take 13 payload ++ (d.inviter_email ++ d.invitee_email))
        × (length d.inviter_email ≡ byte_at 12 payload)
        × (d.created_at ≡ uint32 (drop 8 payload) * second)
  unfolding verify
  verify_sound token d h = elim (Option-cases (g.base64.decode token)) [
    | inl gone ↦ absurd (ground (arith, gone))
    | inr (bytes, found) ↦
        let payload = take (length bytes - 16) bytes in
        let sig = drop (length bytes - 16) bytes in
        elim (Bool-cases (ltb (length bytes) 29)) [
          | inl short ↦ absurd (ground (arith, found, short))
          | inr long ↦ elim (Bool-cases (text_eq sig (signature g payload))) [
            | inl signed ↦
                let read = read_payload_sound payload d (ground (arith, found, long, signed)) in
                let whole : bytes ≡ payload ++ signature g payload =
                  sym (take-append-drop (length bytes - 16) bytes)
                  ∙ ap (◌++◌ payload) (text_eq_sound sig (signature g payload) signed) in
                (payload, found ∙ ap some whole, read.0, read.1, read.2, read.3)
            | inr forged ↦ absurd (ground (arith, found, long, forged))
          ]
        ]
  ]
