-- ===== src/Crypto/InviteToken/Fields.antt =====
-- The fields of an invite token's payload (crypto/invite.go), written and read back.
use mv_chat.Prelude.{
  ℕ, ◌+◌, ◌%◌, ◌^◌, ◌≡◌, ◌≤◌, ◌<◌, refl, ◌∙◌, [], ◌∷◌, ◌++◌, true, false, Text, ltb, arith, length,
  take, drop, take-append, drop-append, length-append, length-take, Bool-cases, drop-append_more,
  inl, inr,
}
use mv_chat.Crypto.InviteToken.{put_uint32, uint32, payload_of, byte_at, cut_name}

pub uint32-put_uint32 : (n : ℕ) (rest : Text) → n < 2 ^ 32 → uint32 (put_uint32 n ++ rest) ≡ n
uint32-put_uint32 n rest h = omega arith

ltb_le : (n m : ℕ) → ltb n m ≡ true → n ≤ m
ltb_le n m h = ground arith

pub ltb_ge : (n m : ℕ) → ltb n m ≡ false → m ≤ n
ltb_ge n m h = ground arith

pub length-cut_name : (name : Text) → length (cut_name name) ≤ 255
length-cut_name name = elim (Bool-cases (ltb 255 (length name))) [
  | inl long ↦ rw long (omega (arith, length-take 255 name (ltb_le 255 (length name) long)))
  | inr short ↦ rw short (ltb_ge 255 (length name) short)
]

module _ (entropy : Text) (seconds : ℕ) (inviter invitee : Text) (eight : length entropy ≡ 8) where
  body : Text
  body = (length inviter % 256) ∷ (inviter ++ invitee)

  abbrev pub payload : Text
  payload = payload_of entropy seconds inviter invitee

  drop-payload :
      (n m : ℕ) → 8 + m ≡ n → drop n payload ≡ drop m (put_uint32 (seconds % 2 ^ 32) ++ body)
  unfolding payload_of body
  drop-payload n m h = drop-append_more n m entropy _ (omega (arith, eight, h))

  pub seconds_read : seconds < 2 ^ 32 → uint32 (drop 8 payload) ≡ seconds
  seconds_read fits =
      rw (drop-payload 8 0 refl)
        (omega (arith, uint32-put_uint32 (seconds % 2 ^ 32) body (omega arith)))

  pub inviter_len_read : length inviter ≤ 255 → byte_at 12 payload ≡ length inviter
  unfolding body
  inviter_len_read short = rw (drop-payload 12 4 refl, byte_at) (omega (arith, short))

  pub inviter_read : take (length inviter) (drop 13 payload) ≡ inviter
  unfolding body
  inviter_read = rw (drop-payload 13 5 refl) (take-append inviter invitee)

  pub invitee_read : drop (13 + length inviter) payload ≡ invitee
  unfolding payload_of body
  invitee_read =
      drop-payload (13 + length inviter) (5 + length inviter) (omega arith)
      ∙ drop-append_more (5 + length inviter) (length inviter)
          (put_uint32 (seconds % 2 ^ 32) ++ (length inviter % 256) ∷ []) (inviter ++ invitee)
          (omega arith)
      ∙ drop-append inviter invitee

  pub length-payload : length payload ≡ 13 + length inviter + length invitee
  unfolding payload_of body
  length-payload = omega (
    arith,
    eight,
    length-append entropy (put_uint32 (seconds % 2 ^ 32) ++ body),
    length-append inviter invitee,
  )
