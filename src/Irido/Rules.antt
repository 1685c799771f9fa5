-- ===== src/Irido/Rules.antt =====
-- What irido/irido.go promises of contents that validate and of previews.
use mv_chat.Prelude.{
  ℕ, suc, ◌-◌, ◌≡◌, ◌≤◌, refl, ap, ◌∙◌, ◌⊎◌, inl, inr, List, [], ◌∷◌, ◌++◌, Option, none, some,
  Bool, true, false, not, Text, arith, leb, ◌==◌, is_empty, length, take, codes, if◌then◌else◌,
  Bool-cases, Option-cases, ℤ, pos, negsuc,
}
use mv_chat.Result.{ok, Result-cases}
use mv_chat.Irido.Graphemes.{StepString, Graphemes, new_graphemes, cluster_count, slice}
use mv_chat.Irido.Content.{
  Value, Irido, Media, Mention, Reply, Content, float, int_of_float, float_one, is_irido, parse,
  version_of,
}
use mv_chat.Irido.Preview.{
  Library, ellipsis, shortened, shortened_text, preview_media, preview_reply, preview_irido,
  non_empty, media_refs, user_ids, get_file_refs, get_mentioned_users, has_media, check_irido,
  validate,
}
use mv_chat.Irido.RoundTrip.{parse_map-one, parse-of_map}
use mv_chat.Irido.Clusters.{Splits, IsClusters, concat, slice-IsClusters}

-- `u` is `t`, or its first `n` clusters and an ellipsis if it has more. The clusters are those that
-- the steps give.
abbrev pub ShortOf : StepString → ℕ → Text → Text → Type 0
ShortOf step n t u =
    (clusters : List Text) × (concat clusters ≡ t)
    × IsClusters step t (negsuc 0) clusters
    × (u ≡ (if leb (length clusters) n then t else concat (take n clusters) ++ ellipsis))

abbrev pub ReplyShortOf : StepString → Option Reply → Option Reply → Type 0
ReplyShortOf step none none = Unit {0}
ReplyShortOf step (some r) (some r') =
    (r'.seq ≡ r.seq) × (r'.from ≡ r.from) × ShortOf step 50 r.preview r'.preview
ReplyShortOf step none (some r') = ⊥
ReplyShortOf step (some r) none = ⊥

if-some : (b : Bool) (t u : Text) → (if b then some t else some u) ≡ some (if b then t else u)
if-some true t u = refl
if-some false t u = refl

module _ (step : StepString) (s : Splits step) where
  shortened-of :
      (t : Text) (n : ℕ) (g : Graphemes)
      → new_graphemes step t ≡ some g
      → shortened step t (pos n)
        ≡ some (if leb (cluster_count g) n then t else slice g (pos 0) (pos n) ++ ellipsis)
  unfolding shortened
  shortened-of t n g h = rw (h, shortened) (if-some (leb (cluster_count g) n) t _)

  shortened-ShortOf :
      (t : Text) (n : ℕ) → (u : Text) × (shortened step t (pos n) ≡ some u) × ShortOf step n t u
  shortened-ShortOf t n =
      let c = slice-IsClusters step t s in
      let u = if leb (cluster_count c.0) n then t else slice c.0 (pos 0) (pos n) ++ ellipsis in
      let all : n - 0 ≡ n = omega arith in
      let text = c.6 0 n ∙ ap (λ k. concat (take k c.1)) all in
      (u, shortened-of t n c.0 c.2, (c.1, c.3, c.4, rw (c.5, text) refl))

  shortened_text-ShortOf :
      (t : Text) (n : ℕ)
      → (u : Text) × (shortened_text step t (pos n) ≡ some u) × ShortOf step n t u
  shortened_text-ShortOf [] n = ([], refl, ([], refl, refl, ground arith))
  shortened_text-ShortOf (c ∷ t) n = shortened-ShortOf (c ∷ t) n

  preview_reply-of :
      (r : Reply) (t : Text)
      → shortened step r.preview (pos 50) ≡ some t
      → preview_reply step (some r) ≡ some (some (record r { preview = t }))
  unfolding preview_reply
  preview_reply-of r t h = rw (h, preview_reply) refl

  preview_reply-ReplyShortOf :
      (r : Option Reply)
      → (r' : Option Reply) × (preview_reply step r ≡ some r') × ReplyShortOf step r r'
  unfolding preview_reply
  preview_reply-ReplyShortOf none = (none, refl, tt)
  preview_reply-ReplyShortOf (some r) =
      let short = shortened-ShortOf r.preview 50 in
      (
        some (record r { preview = short.0 }),
        preview_reply-of r short.0 short.1,
        (refl, refl, short.2),
      )

length-preview_media : (m : List Media) → length (preview_media m) ≤ 1
length-preview_media [] = omega arith
length-preview_media (m ∷ rest) = omega arith

preview_irido-of :
    (lib : Library) (content : Content) (n : ℤ) (i : Irido) (text : Text) (reply : Option Reply)
    → parse lib.unmarshal content ≡ ok (some i)
    → shortened_text lib.step i.text n ≡ some text
    → preview_reply lib.step i.reply ≡ some reply
    → preview_irido lib content n
      ≡ some (
          ok (
            some (record {
              v = pos 1;
              text = text;
              media = preview_media i.media;
              reply = reply;
              mentions = [];
            })))
unfolding preview_irido
preview_irido-of lib content n i text reply p t r = rw (p, preview_irido) (rw (t, r) refl)

-- Provided that a step takes a cluster off any text that is not empty: a content that is read has a
-- preview, and it has the text, or its first `n` clusters, as the steps give them, and an ellipsis if
-- there are more; at most
-- one medium, and no mentions; and a reply, with the same number and sender, exactly if the content
-- is one, of which the text is cut after 50 clusters in the same way.
pub preview_irido_bounds :
    (lib : Library) (content : Content) (n : ℕ) (i : Irido)
    → Splits lib.step
    → parse lib.unmarshal content ≡ ok (some i)
    → (p : Irido) × (preview_irido lib content (pos n) ≡ some (ok (some p)))
      × ShortOf lib.step n i.text p.text
      × (length p.media ≤ 1)
      × (p.mentions ≡ [])
      × ReplyShortOf lib.step i.reply p.reply
preview_irido_bounds lib content n i s p =
    let t = shortened_text-ShortOf lib.step s i.text n in
    let r = preview_reply-ReplyShortOf lib.step s i.reply in
    (
      record { v = pos 1; text = t.0; media = preview_media i.media; reply = r.0; mentions = [] },
      preview_irido-of lib content (pos n) i t.0 r.0 p t.1 r.1,
      t.2,
      length-preview_media i.media,
      refl,
      r.2,
    )

length-non_empty : (ts : List Text) → length (non_empty ts) ≤ length ts
length-non_empty [] = omega arith
length-non_empty ([] ∷ rest) = omega (arith, length-non_empty rest)
length-non_empty ((c ∷ t) ∷ rest) = omega (arith, length-non_empty rest)

length-media_refs : (m : List Media) → length (media_refs m) ≡ length m
length-media_refs [] = refl
length-media_refs (m ∷ rest) = ap suc (length-media_refs rest)

check_irido_sound :
    (i : Irido)
    → check_irido i ≡ ok tt
    → (length i.media ≤ 10)
      × ((is_empty i.text ≡ false) ⊎ ((is_empty i.media ≡ false) × (is_empty i.mentions ≡ true)))
unfolding check_irido
check_irido_sound i h =
    let few : length i.media ≤ 10 = ground (arith, h) in
    elim (Bool-cases (is_empty i.text)) [
      | inr text ↦ (few, inl text)
      | inl no_text ↦ elim (Bool-cases (is_empty i.media)) [
        | inl no_media ↦ absurd (ground (arith, no_text, no_media))
        | inr media ↦ (few, inr (media, ground (arith, no_text, media)))
      ]
    ]

validate-read :
    (lib : Library) (content : Content)
    → validate lib content ≡ ok tt
    → (i : Irido) × (parse lib.unmarshal content ≡ ok (some i)) × (check_irido i ≡ ok tt)
unfolding validate
validate-read lib content h = elim (Result-cases (parse lib.unmarshal content)) [
  | inl (e, p) ↦ absurd (ground (arith, p))
  | inr (read, p) ↦ elim (Option-cases read) [
    | inl gone ↦ absurd (ground (arith, p, gone))
    | inr (i, found) ↦ let whole = p ∙ ap ok found in (i, whole, rw (whole, validate) at h)
  ]
]

module _ (lib : Library) (content : Content) (i : Irido)
    (p : parse lib.unmarshal content ≡ ok (some i)) where
  file_refs-read : get_file_refs lib content ≡ non_empty (media_refs i.media)
  unfolding get_file_refs
  file_refs-read = rw (p, get_file_refs) refl

  mentioned-read : get_mentioned_users lib content ≡ non_empty (user_ids i.mentions)
  unfolding get_mentioned_users
  mentioned-read = rw (p, get_mentioned_users) refl

  has_media-read : has_media lib content ≡ not (is_empty i.media)
  unfolding has_media
  has_media-read = rw (p, has_media) refl

no_user_ids : (ms : List Mention) → is_empty ms ≡ true → non_empty (user_ids ms) ≡ []
no_user_ids [] h = refl
no_user_ids (m ∷ rest) h = cc

-- What a content that validates was read as: it has text or media, at most 10 media and no more
-- references to files, and where it mentions anyone it has text; and HasMedia says whether it has
-- media.
pub validate_sound :
    (lib : Library) (content : Content)
    → validate lib content ≡ ok tt
    → (i : Irido) × (parse lib.unmarshal content ≡ ok (some i))
      × (length i.media ≤ 10)
      × (length (get_file_refs lib content) ≤ 10)
      × (has_media lib content ≡ not (is_empty i.media))
      × ((is_empty i.text ≡ false)
          ⊎ ((has_media lib content ≡ true) × (get_mentioned_users lib content ≡ [])))
validate_sound lib content h =
    let v = validate-read lib content h in
    let i = v.0 in
    let checked = check_irido_sound i v.2 in
    let refs = file_refs-read lib content i v.1 in
    let media = has_media-read lib content i v.1 in
    (
      i,
      v.1,
      checked.0,
      rw refs (
          omega
            (arith, length-non_empty (media_refs i.media), length-media_refs i.media, checked.0)),
      media,
      elim checked.1 [
        | inl text ↦ inl text
        | inr rest ↦ inr (
          media ∙ ap not rest.0,
          mentioned-read lib content i v.1 ∙ no_user_ids i.mentions rest.1,
        )
      ],
    )

-- Parse reads a map with any version that is 1 without its fraction, such as 1.5, but IsIrido
-- refuses each such version other than 1.0.
pub is_irido-ne-parse :
    (unmarshal : Text → Option Irido) (c : Text → Value) (bits : ℕ)
    → c (codes "v") ≡ float bits
    → int_of_float bits ≡ pos 1
    → (bits == float_one) ≡ false
    → (is_irido (Content.map c) ≡ false)
      × ((i : Irido) × (parse unmarshal (Content.map c) ≡ ok (some i)))
unfolding is_irido version_of
is_irido-ne-parse unmarshal c bits v one other =
    let version : version_of (c (codes "v")) ≡ ok (pos 1) = ap version_of v ∙ ap ok one in
    (rw v other, (_, parse-of_map unmarshal c _ (parse_map-one c version)))
