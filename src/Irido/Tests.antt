-- ===== src/Irido/Tests.antt =====
-- Examples of message contents, with clusters of one byte.
use mv_chat.Prelude.{
  ℕ, ◌+◌, ◌*◌, ◌^◌, ◌≡◌, ◌≤◌, ◌⊎◌, refl, List, [], ◌∷◌, none, some, true, false, not, Text, arith,
  ◌==◌, is_empty, length, ltb, codes, ℤ, pos, negsuc, if◌then◌else◌,
}
use mv_chat.Result.{ok}
use mv_chat.Irido.Graphemes.{
  StepString, Graphemes, new_graphemes, offsets_from, cluster_count, slice, truncate,
}
use mv_chat.Irido.Content.{
  Value, Irido, Media, Content, float, float_one, int_of_float, float_magnitude, is_irido, parse,
}
use mv_chat.Irido.Preview.{
  Library, media_description, type_name, plain_text, preview_irido, get_file_refs,
  get_mentioned_users, has_media, check_irido, validate,
}
use mv_chat.Irido.Clusters.{Splits, IsClusters, concat, range, slice-IsClusters}
use mv_chat.Irido.Written.{to_map}
use mv_chat.Irido.RoundTrip.{IridoIsExact, parse-to_map}
use mv_chat.Irido.Rules.{
  ShortOf, ReplyShortOf, preview_irido_bounds, validate_sound, is_irido-ne-parse,
}

abbrev step : StepString
step [] state = ([], [], state)
step (c ∷ text) state = (c ∷ [], text, state)

step-Splits : Splits step
step-Splits = record { whole = λ c text state. refl; progress = λ c text state. omega arith }

abbrev lib : Library
lib = record { step = step; unmarshal = λ t. none; to_upper = λ t. t; trim_space = λ t. t }

abbrev photo : Media
photo = record {
  kind = codes "image";
  ref = codes "f1";
  name = codes "cat.jpg";
  mime = codes "image/jpeg";
  size = pos 0;
  width = pos 2;
  height = pos 1;
  duration = 0;
  embed = none;
}

abbrev message : Irido
message = record {
  v = pos 1;
  text = codes "look";
  media = photo ∷ [];
  reply = some (record { seq = pos 2; preview = codes "where?"; from = codes "u7" });
  mentions =
      record { user_id = codes "u7"; username = codes "Ann"; offset = pos 0; span = pos 1 } ∷ [];
}

-- 0, 1 and 2 as float64s.
abbrev float_of : ℤ → ℕ
float_of z = elim z [
  | pos n ↦ if n == 1 then float_one else if n == 2 then 1024 * 2 ^ 52 else 0
  | negsuc n ↦ 0
]

sliced : truncate step (codes "hello") (pos 3) (codes "-") ≡ some (codes "hel-")
unfolding truncate new_graphemes offsets_from cluster_count slice
sliced = refl

described : media_description lib photo ≡ codes "[IMAGE 'cat.jpg']"
unfolding media_description type_name
described = refl

as_text : plain_text lib (Content.struct message) ≡ ok (codes "look [IMAGE 'cat.jpg']")
unfolding plain_text parse media_description type_name
as_text = refl

slice-IsClusters_example :
    (g : Graphemes) × (clusters : List Text) × (new_graphemes step (codes "hello") ≡ some g)
    × (concat clusters ≡ codes "hello")
    × IsClusters step (codes "hello") (negsuc 0) clusters
    × (cluster_count g ≡ length clusters)
    × ((a b : ℕ) → slice g (pos a) (pos b) ≡ concat (range a b clusters))
slice-IsClusters_example = slice-IsClusters step (codes "hello") step-Splits

-- U+FFFD in place of each byte that is not ASCII.
abbrev ascii_in : Text → Text
ascii_in [] = []
ascii_in (c ∷ t) =
    let rest = ascii_in t in if ltb c 128 then c ∷ rest else 0xef ∷ 0xbf ∷ 0xbd ∷ rest

message-IridoIsExact : IridoIsExact float_of ascii_in message
unfolding int_of_float float_magnitude
message-IridoIsExact = record {
  version_is = refl;
  one_is = refl;
  text_is = refl;
  media_are = (
    record {
      kind_is = refl;
      ref_is = refl;
      name_is = refl;
      mime_is = refl;
      size_is = refl;
      width_is = refl;
      height_is = refl;
      not_minus_zero = refl;
      finite = refl;
      embed_is = tt;
    },
    tt,
  );
  reply_is = record { seq_is = refl; preview_is = refl; from_is = refl };
  mentions_are =
      (record { user_id_is = refl; username_is = refl; offset_is = refl; span_is = refl }, tt);
}

parse-to_map_example :
    (written : Text → Value) × (to_map float_of ascii_in message ≡ some written)
    × (parse (λ t. none) (Content.map written) ≡ ok (some message))
parse-to_map_example = parse-to_map float_of ascii_in (λ t. none) message message-IridoIsExact

-- A duration that is infinite has no JSON.
unwritable :
    to_map float_of ascii_in
      (record message { media = record photo { duration = 2047 * 2 ^ 52 } ∷ [] })
    ≡ none
unfolding to_map
unwritable = refl

read_message : parse lib.unmarshal (Content.struct message) ≡ ok (some message)
unfolding parse
read_message = refl

preview_irido_bounds_example :
    (p : Irido) × (preview_irido lib (Content.struct message) (pos 2) ≡ some (ok (some p)))
    × ShortOf step 2 (codes "look") p.text
    × (length p.media ≤ 1)
    × (p.mentions ≡ [])
    × ReplyShortOf step message.reply p.reply
preview_irido_bounds_example =
    preview_irido_bounds lib (Content.struct message) 2 message step-Splits read_message

valid : validate lib (Content.struct message) ≡ ok tt
unfolding validate parse check_irido
valid = refl

validate_sound_example :
    (i : Irido) × (parse lib.unmarshal (Content.struct message) ≡ ok (some i))
    × (length i.media ≤ 10)
    × (length (get_file_refs lib (Content.struct message)) ≤ 10)
    × (has_media lib (Content.struct message) ≡ not (is_empty i.media))
    × ((is_empty i.text ≡ false)
        ⊎ ((has_media lib (Content.struct message) ≡ true)
            × (get_mentioned_users lib (Content.struct message) ≡ [])))
validate_sound_example = validate_sound lib (Content.struct message) valid

-- 1.5
abbrev half_more : ℕ
half_more = 1023 * 2 ^ 52 + 2 ^ 51

whole_part : int_of_float half_more ≡ pos 1
unfolding int_of_float float_magnitude
whole_part = refl

is_irido-ne-parse_example :
    (is_irido (Content.map (λ k. float half_more)) ≡ false)
    × ((i : Irido) × (parse (λ t. none) (Content.map (λ k. float half_more)) ≡ ok (some i)))
is_irido-ne-parse_example =
    is_irido-ne-parse (λ t. none) (λ k. float half_more) half_more refl whole_part refl
