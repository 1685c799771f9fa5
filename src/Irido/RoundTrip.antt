-- ===== src/Irido/RoundTrip.antt =====
-- What irido/irido.go writes is read as what it was.
use mv_chat.Prelude.{
  ℕ, suc, zero, ◌^◌, ◌≡◌, refl, sym, ap, ◌∙◌, inl, inr, List, [], ◌∷◌, Option, none, some, false,
  Text, ◌==◌, ==_iff, codes, All, Bool-cases, ℤ, pos, negsuc,
}
use mv_chat.Result.{ok}
use mv_chat.Irido.Content.{
  Value, Embed, Media, Reply, Mention, Irido, Content, int_of_float, text_of, int_at, float_at,
  parse_embed, embed_of, parse_media, parse_reply, parse_mention, parse_each, each_of, reply_of,
  version_of, parse_map, parse,
}
use mv_chat.Irido.Written.{
  is_unwritable, values_of, opt_text, opt_int, opt_float, opt_list, embed_map, opt_embed, media_map,
  reply_map, opt_reply, mention_map, has_unwritable, fields_map, to_map,
}

pub parse_map-one :
    (c : Text → Value)
    → version_of (c (codes "v")) ≡ ok (pos 1)
    → parse_map c
      ≡ ok (record {
        v = pos 1;
        text = text_of (c (codes "text"));
        media = each_of parse_media (c (codes "media"));
        reply = reply_of (c (codes "reply"));
        mentions = each_of parse_mention (c (codes "mentions"));
      })
unfolding parse_map
parse_map-one c h = rw (h, parse_map) refl

pub parse-of_map :
    (unmarshal : Text → Option Irido) (c : Text → Value) (i : Irido)
    → parse_map c ≡ ok i
    → parse unmarshal (Content.map c) ≡ ok (some i)
unfolding parse
parse-of_map unmarshal c i h = rw (h, parse) refl

-- The parameters of `to_map`.
module _ (float_of : ℤ → ℕ) (text_in : Text → Text) where
  -- A text that is UTF-8, and an int that is the same as a float64.
  abbrev pub IsClean : Text → Type 0
  IsClean t = text_in t ≡ t

  abbrev pub IsExact : ℤ → Type 0
  IsExact z = int_of_float (float_of z) ≡ z

  pub record EmbedIsExact (e : Embed) : Type 0 where
    pub url_is : IsClean e.url
    pub title_is : IsClean e.title
    pub description_is : IsClean e.description
    pub thumbnail_is : IsClean e.thumbnail
    pub site_name_is : IsClean e.site_name
    pub embed_type_is : IsClean e.embed_type

  abbrev pub OptEmbedIsExact : Option Embed → Type 0
  OptEmbedIsExact none = Unit
  OptEmbedIsExact (some e) = EmbedIsExact e

  pub record MediaIsExact (m : Media) : Type 0 where
    pub kind_is : IsClean m.kind
    pub ref_is : IsClean m.ref
    pub name_is : IsClean m.name
    pub mime_is : IsClean m.mime
    pub size_is : IsExact m.size
    pub width_is : IsExact m.width
    pub height_is : IsExact m.height
    pub not_minus_zero : (m.duration == 2 ^ 63) ≡ false
    pub finite : is_unwritable m.duration ≡ false
    pub embed_is : OptEmbedIsExact m.embed

  pub record MentionIsExact (m : Mention) : Type 0 where
    pub user_id_is : IsClean m.user_id
    pub username_is : IsClean m.username
    pub offset_is : IsExact m.offset
    pub span_is : IsExact m.span

  pub record ReplyIsExact (r : Reply) : Type 0 where
    pub seq_is : IsExact r.seq
    pub preview_is : IsClean r.preview
    pub from_is : IsClean r.from

  abbrev pub OptReplyIsExact : Option Reply → Type 0
  OptReplyIsExact none = Unit
  OptReplyIsExact (some r) = ReplyIsExact r

  pub record IridoIsExact (i : Irido) : Type 0 where
    pub version_is : i.v ≡ pos 1
    pub one_is : IsExact (pos 1)
    pub text_is : IsClean i.text
    pub media_are : All MediaIsExact i.media
    pub reply_is : OptReplyIsExact i.reply
    pub mentions_are : All MentionIsExact i.mentions

  text_of-opt_text : (t : Text) → IsClean t → text_of ((opt_text float_of text_in) t) ≡ t
  text_of-opt_text [] h = refl
  text_of-opt_text (c ∷ t) h = h

  int_at-opt_int : (z : ℤ) → IsExact z → int_at ((opt_int float_of text_in) z) ≡ z
  int_at-opt_int (pos zero) h = refl
  int_at-opt_int (pos (suc n)) h = h
  int_at-opt_int (negsuc n) h = h

  float_at-opt_float : (d : ℕ) → (d == 2 ^ 63) ≡ false → float_at (opt_float d) ≡ d
  float_at-opt_float d h = elim (Bool-cases (d == 0)) [
    | inl empty ↦ rw empty (sym ((==_iff d 0).0 empty))
    | inr full ↦ rw (full, h) refl
  ]

  parse_embed-embed_map :
      (e : Embed) → EmbedIsExact e → parse_embed ((embed_map float_of text_in) e) ≡ e
  unfolding parse_embed embed_map
  parse_embed-embed_map e x =
      rw
        (
          x.url_is,
          text_of-opt_text e.title x.title_is,
          text_of-opt_text e.description x.description_is,
          text_of-opt_text e.thumbnail x.thumbnail_is,
          text_of-opt_text e.site_name x.site_name_is,
          text_of-opt_text e.embed_type x.embed_type_is,
        )
        refl

  embed_of-opt_embed :
      (e : Option Embed) → OptEmbedIsExact e → embed_of ((opt_embed float_of text_in) e) ≡ e
  embed_of-opt_embed none x = refl
  embed_of-opt_embed (some e) x = ap some (parse_embed-embed_map e x)

  parse_media-media_map :
      (m : Media) → MediaIsExact m → parse_media ((media_map float_of text_in) m) ≡ m
  unfolding parse_media media_map
  parse_media-media_map m x =
      rw
        (
          x.kind_is,
          text_of-opt_text m.ref x.ref_is,
          text_of-opt_text m.name x.name_is,
          text_of-opt_text m.mime x.mime_is,
          int_at-opt_int m.size x.size_is,
          int_at-opt_int m.width x.width_is,
          int_at-opt_int m.height x.height_is,
          float_at-opt_float m.duration x.not_minus_zero,
          embed_of-opt_embed m.embed x.embed_is,
        )
        refl

  parse_mention-mention_map :
      (m : Mention) → MentionIsExact m → parse_mention ((mention_map float_of text_in) m) ≡ m
  unfolding parse_mention mention_map
  parse_mention-mention_map m x = rw (x.user_id_is, x.username_is, x.offset_is, x.span_is) refl

  reply_of-opt_reply :
      (r : Option Reply) → OptReplyIsExact r → reply_of ((opt_reply float_of text_in) r) ≡ r
  unfolding parse_reply reply_map
  reply_of-opt_reply none x = refl
  reply_of-opt_reply (some r) x =
      rw (x.seq_is, text_of-opt_text r.preview x.preview_is, text_of-opt_text r.from x.from_is) refl

  module _ {A : Type 0} {P : A → Type 0} (read : (Text → Value) → A) (write : A → Text → Value)
      (back : (a : A) → P a → read (write a) ≡ a) where
    parse_each-values_of :
        (items : List A) → All P items → parse_each read (values_of write items) ≡ items
    unfolding parse_each
    parse_each-values_of [] h = refl
    parse_each-values_of (a ∷ items) h =
        rw (back a h.0) (ap (◌∷◌ a) (parse_each-values_of items h.1))

    each_of-opt_list :
        (items : List A) → All P items → each_of read (opt_list (values_of write items)) ≡ items
    each_of-opt_list [] h = refl
    each_of-opt_list (a ∷ items) h = parse_each-values_of (a ∷ items) h

  parse-fields_map :
      (unmarshal : Text → Option Irido) (i : Irido)
      → IridoIsExact i
      → parse unmarshal (Content.map ((fields_map float_of text_in) i)) ≡ ok (some i)
  unfolding version_of fields_map
  parse-fields_map unmarshal i x =
      let version = ap (λ z. int_of_float (float_of z)) x.version_is ∙ x.one_is in
      parse-of_map unmarshal ((fields_map float_of text_in) i) i (
        parse_map-one ((fields_map float_of text_in) i) (ap ok version)
        ∙ rw
            (
              text_of-opt_text i.text x.text_is,
              each_of-opt_list parse_media (media_map float_of text_in) parse_media-media_map
                  i.media x.media_are,
              reply_of-opt_reply i.reply x.reply_is,
              each_of-opt_list parse_mention (mention_map float_of text_in)
                  parse_mention-mention_map i.mentions x.mentions_are,
            )
            (ap (λ z. ok (record i { v = z })) (sym x.version_is)))

  has_unwritable-none : (ms : List Media) → All MediaIsExact ms → has_unwritable ms ≡ false
  has_unwritable-none [] h = refl
  has_unwritable-none (m ∷ rest) h = rw (h.0.finite) (has_unwritable-none rest h.1)

  -- Provided that the texts of a content are UTF-8, that its ints are the same as float64s, that no
  -- duration is -0.0, NaN or infinite, and that the version is 1: ToJSON succeeds, and what it writes
  -- of the content is read, from a map, as the same content, with all its media, embedded pages,
  -- mentions and its reply.
  pub parse-to_map :
      (unmarshal : Text → Option Irido) (i : Irido)
      → IridoIsExact i
      → (written : Text → Value) × ((to_map float_of text_in) i ≡ some written)
        × (parse unmarshal (Content.map written) ≡ ok (some i))
  unfolding to_map
  parse-to_map unmarshal i x = (
    (fields_map float_of text_in) i,
    rw (has_unwritable-none i.media x.media_are) refl,
    parse-fields_map unmarshal i x,
  )
