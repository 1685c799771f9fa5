-- ===== src/Cors/Agree.antt =====
-- The two tests of an origin in middleware/cors.go, for HTTP requests and for websockets.
use mv_chat.Prelude.{
  ◌≡◌, refl, inl, inr, List, [], ◌∷◌, none, some, Bool, false, not, Text, arith, text_eq, is_empty,
  contains_byte, if◌then◌else◌, Bool-cases,
}
use mv_chat.Cors.{
  CorsConfig, match_wildcard_origin, listed, find_allowed, is_star, check_origin, allowed_origin,
  cors,
}

-- The loop of the middleware finds the origin exactly if the loop of CheckOrigin does.
find_allowed-listed :
    (origins : List Text) (origin : Text)
    → find_allowed origins origin ≡ (if listed origins origin then origin else [])
unfolding find_allowed listed
find_allowed-listed [] origin = refl
find_allowed-listed (allowed ∷ rest) origin =
    let ih = find_allowed-listed rest origin in
    elim (Bool-cases (text_eq allowed origin)) [
      | inl same ↦ rw same refl
      | inr other ↦ rw other (elim (Bool-cases (contains_byte b'*' allowed)) [
        | inl star ↦ rw star (elim (Bool-cases (match_wildcard_origin allowed origin)) [
          | inl hit ↦ rw hit refl
          | inr miss ↦ rw miss ih
        ])
        | inr plain ↦ rw plain ih
      ])
    ]

allowed_origin-check_origin :
    (cfg : CorsConfig) (origin : Text)
    → is_empty cfg.allowed_origins ≡ false
    → is_empty origin ≡ false
    → allowed_origin cfg origin ≡ (if check_origin cfg.allowed_origins origin then origin else [])
unfolding allowed_origin check_origin
allowed_origin-check_origin cfg origin some_origin named =
    elim (Bool-cases (is_star cfg.allowed_origins)) [
      | inl star ↦ rw (named, some_origin, star) refl
      | inr list ↦ rw (named, some_origin, list) (find_allowed-listed cfg.allowed_origins origin)
    ]

-- Where some origins are configured and a request names its origin: the middleware allows the
-- origin, with credentials, exactly if the check for websockets lets it pass, and otherwise it
-- sets neither header; it answers preflight requests itself, those of an allowed origin by 204, the
-- others by 403, and all other requests go on to the next handler.
pub cors-check_origin :
    (cfg : CorsConfig) (is_options : Bool) (origin : Text)
    → is_empty cfg.allowed_origins ≡ false
    → is_empty origin ≡ false
    → let allowed = check_origin cfg.allowed_origins origin in
      let reply = cors cfg is_options origin in
      (reply.allow_origin ≡ (if allowed then some origin else none))
      × (reply.allow_credentials ≡ allowed)
      × (reply.goes_on ≡ not is_options)
      × (reply.status ≡ (if is_options then some (if allowed then 204 else 403) else none))
unfolding cors
cors-check_origin cfg is_options origin some_origin named =
    let same = allowed_origin-check_origin cfg origin some_origin named in
    elim (Bool-cases (check_origin cfg.allowed_origins origin)) [
      | inl passes ↦
          let found : allowed_origin cfg origin ≡ origin = rw passes at same in
          ground (arith, found, passes, named)
      | inr barred ↦
          let found : allowed_origin cfg origin ≡ [] = rw barred at same in
          ground (arith, found, barred, named)
    ]
