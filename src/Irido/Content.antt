-- ===== src/Irido/Content.antt =====
-- irido/irido.go: the content of a message, and how the forms in which it comes are read. A
-- float64 is its 64 bits as a number. What encoding/json reads from bytes is a parameter.
use mv_chat.Prelude.{
  ℕ, suc, zero, ◌+◌, ◌-◌, ◌*◌, ◌/◌, ◌%◌, ◌^◌, List, [], ◌∷◌, Option, none, some, Bool, false, ◌||◌,
  Text, ltb, leb, ◌==◌, codes, if◌then◌else◌, ℤ, pos, negsuc,
}
use mv_chat.Result.{Result, ok, err}

-- A value of type `any` as encoding/json makes it, or built in Go; `absent` is a missing key of a
-- map, and `other` a value of any other type.
mutual
  pub data Value : Type 0 where
    absent null other : Value
    int : ℤ → Value
    float : ℕ → Value
    string : Text → Value
    list : Values → Value
    object : (Text → Value) → Value

  pub data Values : Type 0 where
    nothing : Values
    followed : Value → Values → Values

pub record Embed : Type 0 where
  pub url : Text
  pub title : Text
  pub description : Text
  pub thumbnail : Text
  pub site_name : Text
  pub embed_type : Text

pub record Media : Type 0 where
  pub kind : Text
  pub ref : Text
  pub name : Text
  pub mime : Text
  pub size : ℤ
  pub width : ℤ
  pub height : ℤ
  pub duration : ℕ
  pub embed : Option Embed

pub record Reply : Type 0 where
  pub seq : ℤ
  pub preview : Text
  pub from : Text

pub record Mention : Type 0 where
  pub user_id : Text
  pub username : Text
  pub offset : ℤ
  pub span : ℤ

pub record Irido : Type 0 where
  pub v : ℤ
  pub text : Text
  pub media : List Media
  pub reply : Option Reply
  pub mentions : List Mention

-- The dynamic types that Parse distinguishes; a `*Irido` is not a nil pointer.
pub data Content : Type 0 where
  nil unknown : Content
  plain : Text → Content
  bytes : Text → Content
  pointer struct : Irido → Content
  map : (Text → Value) → Content

pub data IridoError : Type 0 where
  invalid_content not_irido no_text_or_media too_many_media mentions_without_text : IridoError

unfoldable pub new : Text → Irido
new text = record { v = pos 1; text = text; media = []; reply = none; mentions = [] }

unfoldable pub new_with_media : Text → List Media → Irido
new_with_media text media = record {
  v = pos 1;
  text = text;
  media = media;
  reply = none;
  mentions = [];
}

-- The bits of 1.0.
abbrev pub float_one : ℕ
float_one = 1023 * 2 ^ 52

-- int(f): the number without its fraction. What does not fit 64 bits becomes the least int, as on
-- amd64.
unfoldable pub float_magnitude : ℕ → ℕ
float_magnitude bits =
    let exponent = bits / 2 ^ 52 % 2048 in
    let mantissa = 2 ^ 52 + bits % 2 ^ 52 in
    if ltb exponent 1023
    then 0
    else if ltb exponent 1075
    then mantissa / 2 ^ (1075 - exponent)
    else if ltb exponent 1086
    then mantissa * 2 ^ (exponent - 1075)
    else 2 ^ 63

abbrev pub negated : ℕ → ℤ
negated zero = pos 0
negated (suc n) = negsuc n

unfoldable pub int_of_float : ℕ → ℤ
int_of_float bits =
    let n = float_magnitude bits in
    if leb (2 ^ 63) n || bits / 2 ^ 63 % 2 == 1 then negated n else pos n

-- `x, ok := v.(string)`, where the field keeps its zero value if the type is another one.
abbrev pub text_of : Value → Text
text_of (string t) = t
text_of _ = []

abbrev pub int_at : Value → ℤ
int_at (float bits) = int_of_float bits
int_at _ = pos 0

abbrev pub float_at : Value → ℕ
float_at (float bits) = bits
float_at _ = 0

unfoldable pub parse_embed : (Text → Value) → Embed
parse_embed e = record {
  url = text_of (e (codes "url"));
  title = text_of (e (codes "title"));
  description = text_of (e (codes "description"));
  thumbnail = text_of (e (codes "thumbnail"));
  site_name = text_of (e (codes "siteName"));
  embed_type = text_of (e (codes "embedType"));
}

abbrev pub embed_of : Value → Option Embed
embed_of (object e) = some (parse_embed e)
embed_of _ = none

unfoldable pub parse_media : (Text → Value) → Media
parse_media m = record {
  kind = text_of (m (codes "type"));
  ref = text_of (m (codes "ref"));
  name = text_of (m (codes "name"));
  mime = text_of (m (codes "mime"));
  size = int_at (m (codes "size"));
  width = int_at (m (codes "width"));
  height = int_at (m (codes "height"));
  duration = float_at (m (codes "duration"));
  embed = embed_of (m (codes "embed"));
}

unfoldable pub parse_reply : (Text → Value) → Reply
parse_reply r = record {
  seq = int_at (r (codes "seq"));
  preview = text_of (r (codes "preview"));
  from = text_of (r (codes "from"));
}

unfoldable pub parse_mention : (Text → Value) → Mention
parse_mention m = record {
  user_id = text_of (m (codes "userId"));
  username = text_of (m (codes "username"));
  offset = int_at (m (codes "offset"));
  span = int_at (m (codes "length"));
}

-- The loops of parseMap: entries that are no maps are skipped.
unfoldable pub parse_each : {A : Type 0} → ((Text → Value) → A) → Values → List A
parse_each f nothing = []
parse_each f (followed (object m) rest) = f m ∷ parse_each f rest
parse_each f (followed _ rest) = parse_each f rest

abbrev pub each_of : {A : Type 0} → ((Text → Value) → A) → Value → List A
each_of f (list values) = parse_each f values
each_of f _ = []

abbrev pub reply_of : Value → Option Reply
reply_of (object r) = some (parse_reply r)
reply_of _ = none

-- The version, as parseMap reads it.
unfoldable pub version_of : Value → Result IridoError ℤ
version_of absent = err not_irido
version_of (int n) = ok n
version_of (float bits) = ok (int_of_float bits)
version_of _ = err invalid_content

abbrev pub is_one : ℤ → Bool
is_one (pos n) = n == 1
is_one (negsuc n) = false

unfoldable pub parse_map : (Text → Value) → Result IridoError Irido
parse_map c = elim (version_of (c (codes "v"))) [
  | err e ↦ err e
  | ok version ↦
      if is_one version
      then ok (record {
        v = pos 1;
        text = text_of (c (codes "text"));
        media = each_of parse_media (c (codes "media"));
        reply = reply_of (c (codes "reply"));
        mentions = each_of parse_mention (c (codes "mentions"));
      })
      else err invalid_content
]

-- What is read, or nil, or an error; `unmarshal` is json.Unmarshal into an Irido.
unfoldable pub parse : (Text → Option Irido) → Content → Result IridoError (Option Irido)
parse unmarshal nil = ok none
parse unmarshal (plain t) = ok (some (new t))
parse unmarshal (bytes t) = elim (unmarshal t) [
  | none ↦ ok (some (new t))
  | some i ↦ if is_one i.v then ok (some i) else err invalid_content
]
parse unmarshal (pointer i) = ok (some i)
parse unmarshal (struct i) = ok (some i)
parse unmarshal (map c) = elim (parse_map c) [ err e ↦ err e | ok i ↦ ok (some i) ]
parse unmarshal unknown = err invalid_content

abbrev pub is_version_one : Value → Bool
is_version_one (int n) = is_one n
is_version_one (float bits) = bits == float_one
is_version_one _ = false

unfoldable pub is_irido : Content → Bool
is_irido (map c) = is_version_one (c (codes "v"))
is_irido (pointer i) = is_one i.v
is_irido (struct i) = is_one i.v
is_irido _ = false
