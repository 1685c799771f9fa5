-- ===== src/Conv/Shown.antt =====
-- handlers_conv.go: how a message and a user are told to a client.
use mv_chat.Prelude.{ℕ, Option, none, some, Text}
use mv_chat.Store.Types.{User, Message}
use mv_chat.Handler.World.{MessageItem, UserItem, Env}

-- The plain content, or the stored bytes where they do not decrypt.
abbrev or_stored : Text → Option Text → Text
or_stored stored none = stored
or_stored stored (some plain) = plain

abbrev pub found_user : Option (Option User) → Option User
found_user none = none
found_user (some u) = u

module _ (env : Env) where
  shown_content : Message → Option ℕ → Option Text
  shown_content m none = some (or_stored m.content (env.decrypt m.content))
  shown_content m (some t) = none

  unfoldable pub item_of : Message → MessageItem
  unfolding shown_content
  item_of m = record {
    seq = m.seq;
    from = m.from_user_id;
    ts = m.created_at;
    content = shown_content m m.deleted_at;
    head = m.head;
    view_once = m.view_once;
  }

  unfoldable pub member_item : User → UserItem
  member_item u = record {
    id = u.id;
    public = u.public;
    online = env.is_online u.id;
    last_seen = u.last_seen;
  }
