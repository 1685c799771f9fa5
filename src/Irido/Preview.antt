-- ===== src/Irido/Preview.antt =====
-- irido/irido.go: what is made of a content that has been read. strings.ToUpper and
-- strings.TrimSpace depend on the tables of Unicode, which are not code of this repository: they
-- are fields of `Library`, with runeseg.StepString and json.Unmarshal. A result `none` would be a
-- text that never ends to be split into clusters.
use mv_chat.Prelude.{
  List, [], ◌∷◌, ◌++◌, Option, none, some, Bool, false, ◌&&◌, not, Text, ltb, text_eq, is_empty,
  length, codes, if◌then◌else◌, ℤ, pos, positive, is_some,
}
use mv_chat.Result.{Result, ok, err, ◌>>=◌}
use mv_chat.Irido.Graphemes.{StepString, new_graphemes, cluster_count, slice, at_most}
use mv_chat.Irido.Content.{
  Irido, Media, Reply, Mention, Embed, Content, IridoError, invalid_content, no_text_or_media,
  too_many_media, mentions_without_text, parse,
}

pub record Library : Type 0 where
  pub step : StepString
  pub unmarshal : Text → Option Irido
  pub to_upper : Text → Text
  pub trim_space : Text → Text

unfoldable pub type_name : Library → Text → Text
type_name lib kind =
    if text_eq kind (codes "image")
    then codes "IMAGE"
    else if text_eq kind (codes "video")
    then codes "VIDEO"
    else if text_eq kind (codes "audio")
    then codes "AUDIO"
    else if text_eq kind (codes "file")
    then codes "FILE"
    else if text_eq kind (codes "embed")
    then codes "LINK"
    else lib.to_upper kind

-- The first of two texts that is not empty.
abbrev pub or_text : Text → Text → Text
or_text [] u = u
or_text (c ∷ t) u = c ∷ t

abbrev pub embed_name : Option Embed → Text
embed_name none = []
embed_name (some e) = or_text e.title e.url

unfoldable pub media_description : Library → Media → Text
media_description lib m =
    codes "["
    ++ (type_name lib m.kind
        ++ (codes " '"
            ++ (or_text (or_text m.name (embed_name m.embed)) (codes "attachment") ++ codes "']")))

-- strings.Join(parts, " ")
abbrev pub join_spaced : List Text → Text
join_spaced [] = []
join_spaced (t ∷ []) = t
join_spaced (t ∷ u ∷ rest) = t ++ (b' ' ∷ join_spaced (u ∷ rest))

-- The texts of a list that are not empty.
abbrev pub non_empty : List Text → List Text
non_empty [] = []
non_empty ([] ∷ rest) = non_empty rest
non_empty ((c ∷ t) ∷ rest) = (c ∷ t) ∷ non_empty rest

abbrev pub descriptions : Library → List Media → List Text
descriptions lib [] = []
descriptions lib (m ∷ rest) = media_description lib m ∷ descriptions lib rest

unfoldable pub plain_text : Library → Content → Result IridoError Text
plain_text lib content = parse lib.unmarshal content >>= λ read. elim read [
  | none ↦ ok []
  | some i ↦ ok (lib.trim_space (join_spaced (non_empty (i.text ∷ descriptions lib i.media))))
]

-- The character `…` in UTF-8.
abbrev pub ellipsis : Text
ellipsis = 0xe2 ∷ 0x80 ∷ 0xa6 ∷ []

-- The text, or its first clusters and an ellipsis if there are more.
unfoldable pub shortened : StepString → Text → ℤ → Option Text
shortened step text max_length = elim (new_graphemes step text) [
  | none ↦ none
  | some g ↦
      if at_most (cluster_count g) max_length
      then some text
      else some (slice g (pos 0) max_length ++ ellipsis)
]

abbrev pub shortened_text : StepString → Text → ℤ → Option Text
shortened_text step text max_length =
    if is_empty text then some [] else shortened step text max_length

abbrev pub first_described : Library → Text → List Media → Text
first_described lib result [] = result
first_described lib result (m ∷ rest) = if is_empty result then media_description lib m else result

unfoldable pub preview : Library → Content → ℤ → Option (Result IridoError Text)
preview lib content max_length = elim (parse lib.unmarshal content) [
  | err e ↦ some (err e)
  | ok none ↦ some (ok [])
  | ok (some i) ↦ elim (shortened_text lib.step i.text max_length) [
    | none ↦ none
    | some result ↦ some (ok (lib.trim_space (first_described lib result i.media)))
  ]
]

-- The first medium, without its size, its duration and its embedded page.
abbrev pub preview_media : List Media → List Media
preview_media [] = []
preview_media (m ∷ rest) = record m { size = pos 0; duration = 0; embed = none } ∷ []

unfoldable pub preview_reply : StepString → Option Reply → Option (Option Reply)
preview_reply step none = some none
preview_reply step (some r) = elim (shortened step r.preview (pos 50)) [
  | none ↦ none
  | some t ↦ some (some (record r { preview = t }))
]

unfoldable pub preview_irido : Library → Content → ℤ → Option (Result IridoError (Option Irido))
preview_irido lib content max_length = elim (parse lib.unmarshal content) [
  | err e ↦ some (err e)
  | ok none ↦ some (ok none)
  | ok (some i) ↦ elim (shortened_text lib.step i.text max_length) [
    | none ↦ none
    | some text ↦ elim (preview_reply lib.step i.reply) [
      | none ↦ none
      | some reply ↦ some (
          ok (
            some (record {
              v = pos 1;
              text = text;
              media = preview_media i.media;
              reply = reply;
              mentions = [];
            })))
    ]
  ]
]

abbrev pub media_refs : List Media → List Text
media_refs [] = []
media_refs (m ∷ rest) = m.ref ∷ media_refs rest

abbrev pub user_ids : List Mention → List Text
user_ids [] = []
user_ids (m ∷ rest) = m.user_id ∷ user_ids rest

unfoldable pub get_file_refs : Library → Content → List Text
get_file_refs lib content = elim (parse lib.unmarshal content) [
  | err e ↦ []
  | ok none ↦ []
  | ok (some i) ↦ non_empty (media_refs i.media)
]

unfoldable pub get_mentioned_users : Library → Content → List Text
get_mentioned_users lib content = elim (parse lib.unmarshal content) [
  | err e ↦ []
  | ok none ↦ []
  | ok (some i) ↦ non_empty (user_ids i.mentions)
]

unfoldable pub has_media : Library → Content → Bool
has_media lib content = elim (parse lib.unmarshal content) [
  | err e ↦ false
  | ok none ↦ false
  | ok (some i) ↦ not (is_empty i.media)
]

abbrev pub answers : Option Reply → Bool
answers none = false
answers (some r) = is_some (positive r.seq)

unfoldable pub is_reply : Library → Content → Bool
is_reply lib content = elim (parse lib.unmarshal content) [
  | err e ↦ false
  | ok none ↦ false
  | ok (some i) ↦ answers i.reply
]

unfoldable pub check_irido : Irido → Result IridoError (Unit {0})
check_irido i =
    if is_empty i.text && is_empty i.media
    then err no_text_or_media
    else if ltb 10 (length i.media)
    then err too_many_media
    else if not (is_empty i.mentions) && is_empty i.text
    then err mentions_without_text
    else ok tt

unfoldable pub validate : Library → Content → Result IridoError (Unit {0})
validate lib content = elim (parse lib.unmarshal content) [
  | err e ↦ err e
  | ok none ↦ err invalid_content
  | ok (some i) ↦ check_irido i
]
