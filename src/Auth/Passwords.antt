-- ===== src/Auth/Passwords.antt =====
-- The stored form of a password (auth/auth.go), written and read.
use mv_chat.Prelude.{
  ℕ, ◌≡◌, refl, sym, ap, ◌∙◌, inl, inr, List, [], ◌∷◌, ◌++◌, some, true, false, not, ◌||◌, &&-true,
  suc, Text, arith, ◌==◌, ==_iff, ◌≤◌, text_eq, text_eq_sound, is_empty, length, codes,
  contains_byte, Bool-cases, Option-cases, ltb,
}
use mathlib.Core.List.{append_assoc, append-nil}
use mv_chat.Result.{ok}
use mv_chat.Crypto.{Base64}
use mv_chat.Crypto.Sealing.{Decodes}
use mv_chat.Auth.{segments, split_argon2_hash, hash_password, check_parts, verify_password}

abbrev pub dollar : ℕ
dollar = b'$'

segments-dollar :
    (seg : Text) (x : ℕ) (xs : Text)
    → (x == dollar) ≡ true
    → segments seg (x ∷ xs) ≡ seg ∷ segments [] xs
unfolding segments
segments-dollar seg x xs e = rw (e, segments) refl

segments-other :
    (seg : Text) (x : ℕ) (xs : Text)
    → (x == dollar) ≡ false
    → segments seg (x ∷ xs) ≡ segments (seg ++ x ∷ []) xs
unfolding segments
segments-other seg x xs e = rw (e, segments) refl

segments-end : (seg : Text) → is_empty seg ≡ false → segments seg [] ≡ seg ∷ []
unfolding segments
segments-end seg e = rw e refl

contains-there : (x : ℕ) (xs : Text) → contains_byte dollar (x ∷ xs) ≡ false → (x == dollar) ≡ false
unfolding contains_byte
contains-there x xs clean = ground (arith, clean)

contains-rest :
    (x : ℕ) (xs : Text) → contains_byte dollar (x ∷ xs) ≡ false → contains_byte dollar xs ≡ false
unfolding contains_byte
contains-rest x xs clean = ground (arith, clean)

segments-before :
    (seg xs rest : Text)
    → contains_byte dollar xs ≡ false
    → segments seg (xs ++ (dollar ∷ rest)) ≡ (seg ++ xs) ∷ segments [] rest
segments-before seg [] rest clean = rw append-nil (segments-dollar seg dollar rest refl)
segments-before seg (x ∷ xs) rest clean =
    segments-other seg x (xs ++ (dollar ∷ rest)) (contains-there x xs clean)
    ∙ segments-before (seg ++ x ∷ []) xs rest (contains-rest x xs clean)
    ∙ ap (λ s. s ∷ segments [] rest) (append_assoc seg (x ∷ []) xs)

segments-last :
    (seg xs : Text)
    → contains_byte dollar xs ≡ false
    → is_empty (seg ++ xs) ≡ false
    → segments seg xs ≡ (seg ++ xs) ∷ []
segments-last seg [] clean more =
    let more' = rw append-nil at more in rw append-nil (segments-end seg more')
segments-last seg (x ∷ xs) clean more =
    let regroup = append_assoc seg (x ∷ []) xs in
    segments-other seg x xs (contains-there x xs clean)
    ∙ segments-last (seg ++ x ∷ []) xs (contains-rest x xs clean) (rw regroup more)
    ∙ ap (λ s. s ∷ []) regroup

split-dollar :
    (rest : Text) → 9 ≤ length rest → split_argon2_hash (dollar ∷ rest) ≡ segments [] rest
unfolding split_argon2_hash
split-dollar rest long =
    let enough : ltb (suc (length rest)) 10 ≡ false = ground arith in rw enough refl

-- The segments, each closed by a `$`.
closed : List Text → Text
closed [] = []
closed (s ∷ rest) = s ++ (dollar ∷ closed rest)

-- Nothing is lost between the segments: read with a `$` at the end, if there is none, the text is
-- the segments closed.
segments-closed :
    (seg xs : Text)
    → (tail : Text) × (length tail ≤ 1) × (seg ++ (xs ++ tail) ≡ closed (segments seg xs))
unfolding segments closed
segments-closed [] [] = ([], omega arith, refl)
segments-closed (s ∷ seg) [] = (dollar ∷ [], omega arith, refl)
segments-closed seg (x ∷ xs) = elim (Bool-cases (x == dollar)) [
  | inl e ↦
      let ih = segments-closed [] xs in
      (
        ih.0,
        ih.1,
        ap (λ r. seg ++ (x ∷ r)) ih.2
            ∙ ap (λ y. seg ++ (y ∷ closed (segments [] xs))) ((==_iff x dollar).0 e)
            ∙ ap closed (sym (segments-dollar seg x xs e)),
      )
  | inr e ↦
      let ih = segments-closed (seg ++ x ∷ []) xs in
      (
        ih.0,
        ih.1,
        sym (append_assoc seg (x ∷ []) (xs ++ ih.0))
            ∙ ih.2
            ∙ ap closed (sym (segments-other seg x xs e)),
      )
]

-- What argon2 and base64 document of the codes: they have no `$`, and that of a password's hash is
-- not empty.
pub record IsCode (argon : Text → Text → Text) (base64 : Base64) : Type 0 where
  pub no_dollar : (t : Text) → contains_byte dollar (base64.encode t) ≡ false
  pub not_empty : (password salt : Text) → is_empty (base64.encode (argon password salt)) ≡ false

module _ (argon : Text → Text → Text) (base64 : Base64) where
  split-hash :
      (salt password : Text)
      → IsCode argon base64
      → split_argon2_hash (
          codes "$argon2id$"
          ++ (base64.encode salt ++ (dollar ∷ base64.encode (argon password salt))))
        ≡ codes "argon2id" ∷ base64.encode salt ∷ base64.encode (argon password salt) ∷ []
  unfolding contains_byte
  split-hash salt password c =
      let hash = base64.encode (argon password salt) in
      let rest = base64.encode salt ++ (dollar ∷ hash) in
      let name = segments-before [] (codes "argon2id") rest refl in
      let second = segments-before [] (base64.encode salt) hash (c.no_dollar salt) in
      let third =
        segments-last [] hash (c.no_dollar (argon password salt)) (c.not_empty password salt) in
      split-dollar (codes "argon2id" ++ (dollar ∷ rest)) (omega arith)
      ∙ name
      ∙ ap (◌∷◌ (codes "argon2id")) (second ∙ ap (◌∷◌ (base64.encode salt)) third)

  -- Provided that base64 decodes its own codes, and that these are free of `$` and, for a hash, not
  -- empty: a password verifies against the stored form of another one exactly if Argon2 hashes both
  -- to the same bytes under the stored salt.
  pub verify_password-hash_password :
      (salt password attempt : Text)
      → Decodes base64
      → IsCode argon base64
      → (stored : Text) × (hash_password argon base64 (some salt) password ≡ ok stored)
        × (verify_password argon base64 attempt stored
            ≡ text_eq (argon password salt) (argon attempt salt))
  unfolding hash_password verify_password check_parts
  verify_password-hash_password salt password attempt decodes c = (
    codes "$argon2id$" ++ (base64.encode salt ++ (dollar ∷ base64.encode (argon password salt))),
    refl,
    rw (split-hash salt password c)
        (rw (decodes salt, check_parts) (rw (decodes (argon password salt)) refl)),
  )

  check_parts_sound :
      (attempt : Text) (parts : List Text)
      → check_parts argon base64 attempt parts ≡ true
      → (salt_code hash_code salt : Text) × (parts ≡ codes "argon2id" ∷ salt_code ∷ hash_code ∷ [])
        × (base64.decode salt_code ≡ some salt)
        × (base64.decode hash_code ≡ some (argon attempt salt))
  unfolding check_parts
  check_parts_sound attempt (name ∷ salt_code ∷ hash_code ∷ []) h =
      let parts = &&-true (text_eq name (codes "argon2id")) _ h in
      elim (Option-cases (base64.decode salt_code)) [
        | inl gone ↦ absurd (ground (arith, gone))
        | inr (salt, found) ↦ elim (Option-cases (base64.decode hash_code)) [
          | inl gone ↦ absurd (ground (arith, found, gone))
          | inr (hash, stored) ↦
              let same = text_eq_sound hash (argon attempt salt) (rw (found, stored) at parts.1) in
              (
                salt_code,
                hash_code,
                salt,
                ap (λ n. n ∷ salt_code ∷ hash_code ∷ [])
                    (text_eq_sound name (codes "argon2id") parts.0),
                found,
                stored ∙ ap some same,
              )
        ]
      ]
  check_parts_sound attempt parts h = cc

  split_sound :
      (encoded : Text) (s : Text) (parts : List Text)
      → split_argon2_hash encoded ≡ s ∷ parts
      → (tail : Text) × (length tail ≤ 1) × (encoded ++ tail ≡ dollar ∷ closed (s ∷ parts))
  unfolding split_argon2_hash
  split_sound [] s parts h = cc
  split_sound (c ∷ rest) s parts h =
      elim (Bool-cases (ltb (suc (length rest)) 10 || not (c == b'$'))) [
        | inl bad ↦ absurd (ground (arith, bad))
        | inr good ↦
            let whole = segments-closed [] rest in
            let same : segments [] rest ≡ s ∷ parts = rw good at h in
            let head : c ≡ dollar = ground (arith, good) in
            (
              whole.0,
              whole.1,
              ap (λ x. x ∷ (rest ++ whole.0)) head ∙ ap (◌∷◌ dollar) (whole.2 ∙ ap closed same),
            )
      ]

  -- A password verifies only against a text that, up to one `$` at its end, is
  -- `$argon2id$<salt>$<hash>` with two codes that base64 decodes, and where the second one decodes
  -- to what Argon2 makes of the password under the first.
  pub verify_password_sound :
      (attempt encoded : Text)
      → verify_password argon base64 attempt encoded ≡ true
      → (salt_code hash_code salt tail : Text) × (encoded ++ tail
          ≡ codes "$argon2id$" ++ (salt_code ++ (dollar ∷ (hash_code ++ (dollar ∷ [])))))
        × (length tail ≤ 1)
        × (base64.decode salt_code ≡ some salt)
        × (base64.decode hash_code ≡ some (argon attempt salt))
  unfolding verify_password closed
  verify_password_sound attempt encoded h =
      let c = check_parts_sound attempt (split_argon2_hash encoded) h in
      let s = split_sound encoded (codes "argon2id") (c.0 ∷ c.1 ∷ []) c.3 in
      (c.0, c.1, c.2, s.0, s.2, s.1, c.4, c.5)
