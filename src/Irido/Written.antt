-- ===== src/Irido/Written.antt =====
-- What ToJSON (irido/irido.go) gives, when its JSON is read back as a map, or its error: the tags of
-- the structs name the keys and say which empty fields are left out.
use mv_chat.Prelude.{
  ℕ, suc, zero, ◌/◌, ◌%◌, ◌^◌, List, [], ◌∷◌, Option, none, some, Bool, false, ◌||◌, Text, ◌==◌,
  text_eq, codes, if◌then◌else◌, ℤ, pos, negsuc,
}
use mv_chat.Irido.Content.{
  Value, Values, Embed, Media, Reply, Mention, Irido, absent, string, float, list, object, nothing,
  followed,
}

-- A map with these entries.
abbrev pub entries : List (Text × Value) → Text → Value
entries [] key = absent
entries ((k, v) ∷ rest) key = if text_eq k key then v else entries rest key

abbrev pub opt_float : ℕ → Value
opt_float bits = if bits == 0 || bits == 2 ^ 63 then absent else float bits

abbrev pub opt_list : Values → Value
opt_list nothing = absent
opt_list (followed v rest) = list (followed v rest)

abbrev pub values_of : {A : Type 0} → (A → Text → Value) → List A → Values
values_of f [] = nothing
values_of f (a ∷ rest) = followed (object (f a)) (values_of f rest)

-- The bits of NaN or of an infinite number, for which json.Marshal fails.
abbrev pub is_unwritable : ℕ → Bool
is_unwritable bits = bits / 2 ^ 52 % 2048 == 2047

abbrev pub has_unwritable : List Media → Bool
has_unwritable [] = false
has_unwritable (m ∷ rest) = is_unwritable m.duration || has_unwritable rest

-- `float_of` is the float64 as which a JSON number is read, and `text_in` the text as which a JSON
-- string is read that was written of a text: encoding/json puts U+FFFD for what is not UTF-8.
module _ (float_of : ℤ → ℕ) (text_in : Text → Text) where
  -- The fields with `omitempty`. A float is empty if it is 0.0 or -0.0.
  abbrev pub opt_text : Text → Value
  opt_text [] = absent
  opt_text (c ∷ t) = string (text_in (c ∷ t))

  abbrev pub opt_int : ℤ → Value
  opt_int (pos zero) = absent
  opt_int (pos (suc n)) = float (float_of (pos (suc n)))
  opt_int (negsuc n) = float (float_of (negsuc n))

  unfoldable pub embed_map : Embed → Text → Value
  embed_map e = entries (
      (codes "url", string (text_in e.url))
      ∷ (codes "title", opt_text e.title)
      ∷ (codes "description", opt_text e.description)
      ∷ (codes "thumbnail", opt_text e.thumbnail)
      ∷ (codes "siteName", opt_text e.site_name)
      ∷ (codes "embedType", opt_text e.embed_type)
      ∷ [])

  abbrev pub opt_embed : Option Embed → Value
  opt_embed none = absent
  opt_embed (some e) = object (embed_map e)

  unfoldable pub media_map : Media → Text → Value
  media_map m = entries (
      (codes "type", string (text_in m.kind))
      ∷ (codes "ref", opt_text m.ref)
      ∷ (codes "name", opt_text m.name)
      ∷ (codes "mime", opt_text m.mime)
      ∷ (codes "size", opt_int m.size)
      ∷ (codes "width", opt_int m.width)
      ∷ (codes "height", opt_int m.height)
      ∷ (codes "duration", opt_float m.duration)
      ∷ (codes "embed", opt_embed m.embed)
      ∷ [])

  unfoldable pub reply_map : Reply → Text → Value
  reply_map r = entries (
      (codes "seq", float (float_of r.seq))
      ∷ (codes "preview", opt_text r.preview)
      ∷ (codes "from", opt_text r.from)
      ∷ [])

  abbrev pub opt_reply : Option Reply → Value
  opt_reply none = absent
  opt_reply (some r) = object (reply_map r)

  unfoldable pub mention_map : Mention → Text → Value
  mention_map m = entries (
      (codes "userId", string (text_in m.user_id))
      ∷ (codes "username", string (text_in m.username))
      ∷ (codes "offset", float (float_of m.offset))
      ∷ (codes "length", float (float_of m.span))
      ∷ [])

  unfoldable pub fields_map : Irido → Text → Value
  fields_map i = entries (
      (codes "v", float (float_of i.v))
      ∷ (codes "text", opt_text i.text)
      ∷ (codes "media", opt_list (values_of media_map i.media))
      ∷ (codes "reply", opt_reply i.reply)
      ∷ (codes "mentions", opt_list (values_of mention_map i.mentions))
      ∷ [])

  -- `none` is the error of json.Marshal.
  unfoldable pub to_map : Irido → Option (Text → Value)
  to_map i = if has_unwritable i.media then none else some (fields_map i)
