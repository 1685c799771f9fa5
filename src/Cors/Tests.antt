-- ===== src/Cors/Tests.antt =====
-- Examples of origins, those of the source's own tests among them.
use mv_chat.Prelude.{
  ◌-◌, ◌^◌, ◌≡◌, ◌⊎◌, refl, List, [], ◌∷◌, ◌++◌, some, none, true, false, Text, codes, split_in_two,
  before_byte, contains_byte, if◌then◌else◌, pos, negsuc,
}
use mv_chat.Cors.{
  CorsConfig, match_wildcard_origin, match_host, listed, check_origin, cors, itoa, itoa_loop,
}
use mv_chat.Cors.Agree.{cors-check_origin}
use mv_chat.Cors.Wildcard.{IsSubdomain, check_origin_sound}

abbrev app : Text
app = codes "https://app.example.com:8080"

abbrev origins : List Text
origins = codes "https://a.org" ∷ codes "https://*.example.com" ∷ []

abbrev config : CorsConfig
config = record {
  allowed_origins = origins;
  allowed_methods = [];
  allowed_headers = [];
  max_age = pos 0;
}

subdomain : match_wildcard_origin (codes "https://*.example.com") app ≡ true
unfolding match_wildcard_origin match_host contains_byte split_in_two before_byte
subdomain = refl

no_subdomain :
    match_wildcard_origin (codes "https://*.example.com") (codes "https://example.com") ≡ false
unfolding match_wildcard_origin match_host contains_byte split_in_two before_byte
no_subdomain = refl

other_scheme :
    match_wildcard_origin (codes "https://*.example.com") (codes "http://a.example.com") ≡ false
unfolding match_wildcard_origin match_host contains_byte split_in_two before_byte
other_scheme = refl

passes : check_origin origins app ≡ true
unfolding check_origin listed match_wildcard_origin match_host contains_byte split_in_two
    before_byte
passes = refl

no_list : check_origin [] app ≡ true
unfolding check_origin
no_list = refl

least : itoa (negsuc (2 ^ 63 - 1)) ≡ some (codes "-")
unfolding itoa itoa_loop
least = refl

age : itoa (pos 86400) ≡ some (codes "86400")
unfolding itoa itoa_loop
age = refl

cors-check_origin_example :
    let allowed = check_origin origins app in
    let reply = cors config true app in
    (reply.allow_origin ≡ (if allowed then some app else none))
    × (reply.allow_credentials ≡ allowed)
    × (reply.goes_on ≡ false)
    × (reply.status ≡ some (if allowed then 204 else 403))
cors-check_origin_example = cors-check_origin config true app refl refl

check_origin_sound_example :
    (entry : Text) × (front back : List Text) × (origins ≡ front ++ (entry ∷ back))
    × ((entry ≡ app) ⊎ IsSubdomain entry app)
check_origin_sound_example = check_origin_sound origins app refl refl refl passes
