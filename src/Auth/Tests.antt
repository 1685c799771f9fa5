-- ===== src/Auth/Tests.antt =====
-- Examples of names, passwords and session tokens.
use mv_chat.Prelude.{
  ◌≡◌, ◌≤◌, refl, ap, arith, ◌==◌, [], ◌∷◌, ◌++◌, some, true, false, Text, text_eq, codes, drop,
  pos, length, contains_byte,
}
use mv_chat.Result.{ok, err}
use mv_chat.Crypto.{Base64}
use mv_chat.Crypto.Sealing.{Decodes}
use mv_chat.Auth.{
  Config, new, validate_username, validate_password, hash_password, verify_password,
  split_argon2_hash, segments, check_parts, weak_username, weak_password,
}
use mv_chat.Auth.Passwords.{dollar, IsCode, verify_password-hash_password, verify_password_sound}

-- A code that has no `$`: every byte as two, the second of which says whether it was one.
abbrev escape : Text → Text
escape [] = []
escape (c ∷ rest) = elim (c == b'$') [
  | true ↦ b'd' ∷ b'1' ∷ escape rest
  | false ↦ c ∷ b'0' ∷ escape rest
]

abbrev unescape : Text → Text
unescape (c ∷ mark ∷ rest) = elim (mark == b'1') [
  | true ↦ b'$' ∷ unescape rest
  | false ↦ c ∷ unescape rest
]
unescape _ = []

abbrev escaped : Base64
escaped = record { encode = λ t. b'x' ∷ escape t; decode = λ t. some (unescape (drop 1 t)) }

unescape-escape : (t : Text) → unescape (escape t) ≡ t
unescape-escape [] = refl
unescape-escape (c ∷ rest) = ground (arith, unescape-escape rest)

escape_clean : (t : Text) → contains_byte dollar (escape t) ≡ false
unfolding contains_byte
escape_clean [] = refl
escape_clean (c ∷ rest) = ground (arith, escape_clean rest)

abbrev argon : Text → Text → Text
argon password salt = password ++ salt

escaped-Decodes : Decodes escaped
escaped-Decodes t = ap some (unescape-escape t)

escaped-IsCode : IsCode argon escaped
unfolding contains_byte
escaped-IsCode = record { no_dollar = escape_clean; not_empty = λ password salt. refl }

abbrev salt : Text
salt = 36 ∷ 2 ∷ []

verify_password-hash_password_example :
    (stored : Text) × (hash_password argon escaped (some salt) (codes "secret") ≡ ok stored)
    × (verify_password argon escaped (codes "Secret") stored
        ≡ text_eq (argon (codes "secret") salt) (argon (codes "Secret") salt))
verify_password-hash_password_example =
    verify_password-hash_password argon escaped salt (codes "secret") (codes "Secret")
      escaped-Decodes escaped-IsCode

abbrev stored : Text
stored = codes "$argon2id$xs0$xp0s0$"

fits : verify_password argon escaped (codes "p") stored ≡ true
unfolding verify_password check_parts split_argon2_hash segments
fits = refl

verify_password_sound_example :
    (salt_code hash_code used tail : Text) × (stored ++ tail
      ≡ codes "$argon2id$" ++ (salt_code ++ (dollar ∷ (hash_code ++ (dollar ∷ [])))))
    × (length tail ≤ 1)
    × (escaped.decode salt_code ≡ some used)
    × (escaped.decode hash_code ≡ some (argon (codes "p") used))
verify_password_sound_example = verify_password_sound argon escaped (codes "p") stored fits

abbrev config : Config
config = new (record {
  token_key = codes "key";
  token_expiry = pos 0;
  min_username_length = pos 0;
  min_password_length = pos 8;
})

bob : validate_username config (codes "bob") ≡ err weak_username
unfolding validate_username new
bob = refl

hunter2 : validate_password config (codes "hunter2") ≡ err weak_password
unfolding validate_password new
hunter2 = refl
