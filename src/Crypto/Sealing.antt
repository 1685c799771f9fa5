-- ===== src/Crypto/Sealing.antt =====
-- The round trip of crypto/crypto.go.
use mv_chat.Prelude.{
  ◌≡◌, refl, ◌++◌, some, false, Text, ltb, arith, length, take-append_of, drop-append_of,
  length-append,
}
use mv_chat.Result.{ok, ◌>>=◌}
use mv_chat.Crypto.{Aead, Base64, encrypt, decrypt, encrypt_string, decrypt_string}

-- What the Go library documents: what was sealed opens under its nonce, and base64 decodes its codes.
abbrev pub Opens : Aead → Type 0
Opens e = (nonce plaintext : Text) → e.unseal nonce (e.seal nonce plaintext) ≡ some plaintext

abbrev pub Decodes : Base64 → Type 0
Decodes b64 = (t : Text) → b64.decode (b64.encode t) ≡ some t

decrypt-sealed :
    (e : Aead) (nonce plaintext : Text)
    → Opens e
    → length nonce ≡ e.nonce_size
    → decrypt e (nonce ++ e.seal nonce plaintext) ≡ ok plaintext
unfolding decrypt
decrypt-sealed e nonce plaintext opens size =
    let sealed = e.seal nonce plaintext in
    let front = take-append_of e.nonce_size nonce sealed size in
    let back = drop-append_of e.nonce_size nonce sealed size in
    let opened = opens nonce plaintext in
    let long_enough : ltb (length (nonce ++ sealed)) e.nonce_size ≡ false =
      ground (arith, length-append nonce sealed) in
    rw long_enough (rw (front, back, opened) refl)

-- A text that was encrypted under a nonce of the cipher's size decrypts to itself, as bytes and as
-- base64, provided that the cipher opens what it sealed and that base64 decodes its own codes.
pub decrypt_string-encrypt_string :
    (b64 : Base64) (e : Aead) (nonce plaintext : Text)
    → Decodes b64
    → Opens e
    → length nonce ≡ e.nonce_size
    → ((encrypt e (some nonce) plaintext >>= decrypt e) ≡ ok plaintext)
      × ((encrypt_string b64 e (some nonce) plaintext >>= decrypt_string b64 e) ≡ ok plaintext)
unfolding encrypt encrypt_string decrypt_string
decrypt_string-encrypt_string b64 e nonce plaintext decodes opens size =
    let back = decrypt-sealed e nonce plaintext opens size in
    (back, rw (decodes (nonce ++ e.seal nonce plaintext), decrypt_string) back)
