-- ===== src/Cors.antt =====
-- middleware/cors.go: which origins a browser's request may come from. An empty `Origin` header is
-- the same as none. Of the response, the model has the headers that the middleware sets, the status
-- if it answers itself, and whether the next handler runs.
use mv_chat.Prelude.{
  ℕ, suc, zero, ◌+◌, ◌-◌, ◌/◌, ◌%◌, ◌^◌, ◌≡◌, List, [], ◌∷◌, ◌++◌, Option, none, some, Bool, true,
  false, ◌&&◌, ◌||◌, not, Text, ltb, leb, ◌==◌, text_eq, is_empty, length, drop, codes, has_prefix,
  split_in_two, before_byte, contains_byte, if◌then◌else◌, ℤ, pos, negsuc,
}
pub mod Wildcard
pub mod Agree
pub mod Decimal
mod Tests

pub record CorsConfig : Type 0 where
  pub allowed_origins : List Text
  pub allowed_methods : List Text
  pub allowed_headers : List Text
  pub max_age : ℤ

-- strings.HasSuffix
abbrev pub has_suffix : Text → Text → Bool
has_suffix t suffix =
    leb (length suffix) (length t) && text_eq (drop (length t - length suffix) t) suffix

-- The comparison of the hosts, without their ports.
unfoldable pub match_host : Text → Text → Bool
match_host pattern_host origin_host =
    has_prefix pattern_host (codes "*.")
    && (has_suffix origin_host (drop 1 pattern_host)
        && ltb (length (drop 1 pattern_host)) (length origin_host))

unfoldable pub match_wildcard_origin : Text → Text → Bool
match_wildcard_origin pattern origin =
    if not (contains_byte b'*' pattern)
    then text_eq pattern origin
    else elim (split_in_two (codes "://") pattern) [
      | none ↦ false
      | some (pattern_scheme, pattern_host) ↦ elim (split_in_two (codes "://") origin) [
        | none ↦ false
        | some (origin_scheme, origin_host) ↦
            text_eq pattern_scheme origin_scheme
            && match_host (before_byte b':' pattern_host) (before_byte b':' origin_host)
      ]
    ]

-- One round of the loop of CheckOrigin, and the loop.
abbrev pub allows : Text → Text → Bool
allows allowed origin =
    text_eq allowed origin || (contains_byte b'*' allowed && match_wildcard_origin allowed origin)

unfoldable pub listed : List Text → Text → Bool
listed [] origin = false
listed (allowed ∷ rest) origin = if allows allowed origin then true else listed rest origin

-- The loop of CORS: `allowedOrigin` after it, which is empty before it.
unfoldable pub find_allowed : List Text → Text → Text
find_allowed [] origin = []
find_allowed (allowed ∷ rest) origin =
    let later = find_allowed rest origin in
    if text_eq allowed origin
    then origin
    else if contains_byte b'*' allowed
    then (if match_wildcard_origin allowed origin then origin else later)
    else later

abbrev pub is_star : List Text → Bool
is_star (only ∷ []) = text_eq only (codes "*")
is_star _ = false

unfoldable pub check_origin : List Text → Text → Bool
check_origin allowed_origins origin =
    if is_empty origin
    then true
    else if is_empty allowed_origins || is_star allowed_origins
    then true
    else listed allowed_origins origin

-- The digits of `n`, written to the left of what is in the buffer, which has room for `room` more
-- bytes: `none` is the panic of an index below 0.
unfoldable pub itoa_loop : ℕ → ℕ → Text → Option (ℕ × Text)
itoa_loop zero n buf = if n == 0 then some (0, buf) else none
itoa_loop (suc room) n buf = elim (n == 0) [
  | true ↦ some (suc room, buf)
  | false ↦ itoa_loop room (n / 10) ((b'0' + n % 10) ∷ buf)
]

-- The least int is its own negative, and no digits of it are written.
abbrev pub magnitude : ℕ → ℕ
magnitude n = if suc n == 2 ^ 63 then 0 else suc n

unfoldable pub itoa : ℤ → Option Text
itoa (pos zero) = some (codes "0")
itoa (pos (suc n)) = elim (itoa_loop 20 (suc n) []) [ none ↦ none | some (room, buf) ↦ some buf ]
itoa (negsuc n) = elim (itoa_loop 20 (magnitude n) []) [
  | none ↦ none
  | some (zero, buf) ↦ none
  | some (suc room, buf) ↦ some (b'-' ∷ buf)
]

-- strings.Join
abbrev pub join : Text → List Text → Text
join sep [] = []
join sep (t ∷ []) = t
join sep (t ∷ u ∷ rest) = t ++ (sep ++ join sep (u ∷ rest))

abbrev default_list : List Text → List Text → List Text
default_list [] d = d
default_list (t ∷ rest) d = t ∷ rest

abbrev default_age : ℤ → ℤ
default_age (pos zero) = pos 86400
default_age other = other

pub record Preflight : Type 0 where
  pub methods : Text
  pub headers : Text
  pub max_age : Option Text

pub record CorsReply : Type 0 where
  pub vary : Text
  pub allow_origin : Option Text
  pub allow_credentials : Bool
  pub preflight : Option Preflight
  pub status : Option ℕ
  pub goes_on : Bool

-- `allowedOrigin`
unfoldable pub allowed_origin : CorsConfig → Text → Text
allowed_origin cfg origin =
    if is_empty origin
    then []
    else if is_star cfg.allowed_origins
    then origin
    else find_allowed cfg.allowed_origins origin

abbrev preflight_of : CorsConfig → Preflight
preflight_of cfg = record {
  methods = join (codes ", ") (
      default_list cfg.allowed_methods
        (codes "GET" ∷ codes "POST" ∷ codes "PUT" ∷ codes "DELETE" ∷ codes "OPTIONS" ∷ []));
  headers = join (codes ", ") (
      default_list cfg.allowed_headers
        (codes "Content-Type" ∷ codes "Authorization" ∷ codes "X-Requested-With" ∷ []));
  max_age = itoa (default_age cfg.max_age);
}

-- `is_options` says whether the method is OPTIONS.
unfoldable pub cors : CorsConfig → Bool → Text → CorsReply
cors cfg is_options origin =
    let allow = allowed_origin cfg origin in
    let plain : CorsReply = record {
      vary = codes "Origin";
      allow_origin = none;
      allow_credentials = false;
      preflight = none;
      status = none;
      goes_on = true;
    } in
    if is_empty allow && not (is_empty origin)
    then (if is_options then record plain { status = some 403; goes_on = false } else plain)
    else let with_origin = record plain {
      allow_origin = if is_empty allow then none else some allow;
      allow_credentials = not (is_empty allow);
    } in
      if is_options
      then record with_origin {
        preflight = some (preflight_of cfg);
        status = some 204;
        goes_on = false;
      }
      else with_origin
