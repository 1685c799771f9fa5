-- ===== src/Cors/Wildcard.antt =====
-- Which origins the configured ones let pass (middleware/cors.go).
use mv_chat.Prelude.{
  ◌-◌, ◌≡◌, ◌<◌, refl, sym, ap, ◌∙◌, ◌⊎◌, inl, inr, List, [], ◌∷◌, ◌++◌, true, false, &&-true, Text,
  ltb→lt, leb, arith, text_eq, text_eq_sound, is_empty, length, take, drop, take-append-drop,
  length-append, codes, has_prefix, has_prefix_sound, split_in_two, split_in_two_sound, before_byte,
  contains_byte, Bool-cases, Option-cases,
}
use mv_chat.Cors.{
  has_suffix, match_host, match_wildcard_origin, allows, listed, is_star, check_origin,
}

-- `origin` has the scheme of `pattern`, and its host, without the port, is a proper subdomain of
-- the domain behind `*.` in the pattern's host, without the port.
pub record IsSubdomain (pattern origin : Text) : Type 0 where
  pub scheme : Text
  pub pattern_host : Text
  pub origin_host : Text
  pub sub : Text
  pub domain : Text
  pub pattern_is : pattern ≡ scheme ++ (codes "://" ++ pattern_host)
  pub origin_is : origin ≡ scheme ++ (codes "://" ++ origin_host)
  pub pattern_host_is : before_byte b':' pattern_host ≡ b'*' ∷ b'.' ∷ domain
  pub origin_host_is : before_byte b':' origin_host ≡ sub ++ (b'.' ∷ domain)
  pub proper : 0 < length sub

has_suffix_sound :
    (t suffix : Text) → has_suffix t suffix ≡ true → t ≡ take (length t - length suffix) t ++ suffix
has_suffix_sound t suffix h =
    let n = length t - length suffix in
    let same = text_eq_sound (drop n t) suffix (&&-true (leb (length suffix) (length t)) _ h).1 in
    sym (take-append-drop n t) ∙ ap (◌++◌ (take n t)) same

match_host_sound :
    (pattern_host origin_host : Text)
    → match_host pattern_host origin_host ≡ true
    → (domain sub : Text) × (pattern_host ≡ b'*' ∷ b'.' ∷ domain)
      × (origin_host ≡ sub ++ (b'.' ∷ domain))
      × (0 < length sub)
unfolding match_host
match_host_sound pattern_host origin_host h =
    let star = &&-true (has_prefix pattern_host (codes "*.")) _ h in
    let suffix = drop 1 pattern_host in
    let rest = &&-true (has_suffix origin_host suffix) _ star.1 in
    let domain = drop 2 pattern_host in
    let sub = take (length origin_host - length suffix) origin_host in
    let whole : pattern_host ≡ b'*' ∷ b'.' ∷ domain =
      has_prefix_sound pattern_host (codes "*.") star.0 in
    let split = has_suffix_sound origin_host suffix rest.0 in
    let suffix_is : suffix ≡ b'.' ∷ domain = ap (drop 1) whole in
    (
      domain,
      sub,
      whole,
      split ∙ ap (◌++◌ sub) suffix_is,
      omega (
        arith,
        ltb→lt (length suffix) (length origin_host) rest.1,
        ap length split,
        length-append sub suffix,
      ),
    )

match_wildcard_origin_sound :
    (pattern origin : Text)
    → contains_byte b'*' pattern ≡ true
    → match_wildcard_origin pattern origin ≡ true
    → IsSubdomain pattern origin
unfolding match_wildcard_origin
match_wildcard_origin_sound pattern origin star h =
    elim (Option-cases (split_in_two (codes "://") pattern)) [
      | inl gone ↦ absurd (ground (arith, star, gone))
      | inr ((p_scheme, p_host), p) ↦ elim (Option-cases (split_in_two (codes "://") origin)) [
        | inl gone ↦ absurd (ground (arith, star, p, gone))
        | inr ((o_scheme, o_host), o) ↦
            let both = &&-true (text_eq p_scheme o_scheme) _ (rw (star, p, o) at h) in
            let hosts =
              match_host_sound (before_byte b':' p_host) (before_byte b':' o_host) both.1 in
            let same = text_eq_sound p_scheme o_scheme both.0 in
            record {
              scheme = p_scheme;
              pattern_host = p_host;
              origin_host = o_host;
              sub = hosts.1;
              domain = hosts.0;
              pattern_is = split_in_two_sound (codes "://") pattern p_scheme p_host p;
              origin_is =
                  split_in_two_sound (codes "://") origin o_scheme o_host o
                  ∙ ap (λ s. s ++ (codes "://" ++ o_host)) (sym same);
              pattern_host_is = hosts.2;
              origin_host_is = hosts.3;
              proper = hosts.4;
            }
      ]
    ]

allows_sound :
    (allowed origin : Text)
    → allows allowed origin ≡ true
    → (allowed ≡ origin) ⊎ IsSubdomain allowed origin
allows_sound allowed origin h = elim (Bool-cases (text_eq allowed origin)) [
  | inl same ↦ inl (text_eq_sound allowed origin same)
  | inr other ↦
      let both = &&-true (contains_byte b'*' allowed) _ (rw other at h) in
      inr (match_wildcard_origin_sound allowed origin both.0 both.1)
]

listed_sound :
    (origins : List Text) (origin : Text)
    → listed origins origin ≡ true
    → (entry : Text) × (front back : List Text) × (origins ≡ front ++ (entry ∷ back))
      × ((entry ≡ origin) ⊎ IsSubdomain entry origin)
unfolding listed
listed_sound [] origin h = cc
listed_sound (allowed ∷ rest) origin h = elim (Bool-cases (allows allowed origin)) [
  | inl here ↦ (allowed, [], rest, refl, allows_sound allowed origin here)
  | inr there ↦
      let ih = listed_sound rest origin (rw there at h) in
      (ih.0, allowed ∷ ih.1, ih.2, ap (◌∷◌ allowed) ih.3, ih.4)
]

-- Where some origins are configured, and not just `*`, an origin that is named and passes is one of
-- them, or is matched by a pattern among them: it has the pattern's scheme, and its host, without
-- the port, is a proper subdomain of what follows `*.` in the pattern.
pub check_origin_sound :
    (origins : List Text) (origin : Text)
    → is_empty origins ≡ false
    → is_star origins ≡ false
    → is_empty origin ≡ false
    → check_origin origins origin ≡ true
    → (entry : Text) × (front back : List Text) × (origins ≡ front ++ (entry ∷ back))
      × ((entry ≡ origin) ⊎ IsSubdomain entry origin)
unfolding check_origin
check_origin_sound origins origin some_origin no_star named h =
    listed_sound origins origin (rw (named, some_origin, no_star) at h)
