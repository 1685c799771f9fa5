-- ===== src/Handler/World.antt =====
-- What a handler reads and changes: the session, the database behind a connection that may fail, and
-- what has been sent (types.go, session_interface.go, the helpers of handlers.go).
use mv_chat.Prelude.{ℕ, ℤ, List, [], ◌∷◌, Option, Bool, String, Text}
use mv_chat.Store.Types.{Database, Mention, Head, Status, Kind}

pub data Value : Type 0 where
  uuid number time : ℕ → Value
  flag : Bool → Value
  text : Text → Value
  raw : Option Text → Value
  ttl : Option ℕ → Value
  user_info : ℕ → Option Text → Bool → Value

pub record MessageItem : Type 0 where
  pub seq : ℕ
  pub from : ℕ
  pub ts : ℕ
  pub content : Option Text  -- `none` where the item says that it is deleted
  pub head : Option Head
  pub view_once : Bool

pub record ReceiptItem : Type 0 where
  pub user : ℕ
  pub read_seq : ℕ
  pub recv_seq : ℕ

pub record UserItem : Type 0 where
  pub id : ℕ
  pub public : Option Text
  pub online : Bool
  pub last_seen : Option ℕ

pub record InviteItem : Type 0 where
  pub id : ℕ
  pub email : Text
  pub status : Status
  pub created_at : ℕ
  pub expires_at : ℕ
  pub name : Option Text
  pub code : Option Text
  pub used_at : Option ℕ
  pub used_by : Option ℕ

pub record ContactItem : Type 0 where
  pub user : ℕ
  pub source : Text
  pub created_at : ℕ
  pub nickname : Option Text
  pub known : Option UserItem

pub record MentionItem : Type 0 where
  pub conv : ℕ
  pub item : MessageItem

-- The part of a conversation's item that comes from the membership.
pub record OwnItem : Type 0 where
  pub read_seq : ℕ
  pub unread : ℤ
  pub favorite : Bool
  pub muted : Bool
  pub private : Option Text

pub record PinItem : Type 0 where
  pub pinned_seq : ℕ
  pub pinned_at : Option ℕ
  pub pinned_by : Option ℕ

pub record ConversationItem : Type 0 where
  pub id : ℕ
  pub kind : Kind
  pub last_seq : ℕ
  pub own : Option OwnItem
  pub last_msg_at : Option ℕ
  pub disappearing_ttl : Option ℕ
  pub pin : Option PinItem
  pub user : Option UserItem
  pub public : Option Text  -- of a room
  pub no_screenshots : Bool

pub data Params : Type 0 where
  no_params : Params
  fields : List (String × Value) → Params
  messages : List MessageItem → Params
  members : List UserItem → Params
  receipts : List ReceiptItem → Params
  invites : List InviteItem → Params
  contacts : List ContactItem → Params
  one_user : UserItem → Params
  mentioning : List MentionItem → Params
  conversation : ConversationItem → Params
  conversations : List ConversationItem → Params

pub record Ctrl : Type 0 where
  pub id : Text
  pub code : ℕ
  pub text : String
  pub params : Params
  pub ts : ℕ

pub record Info : Type 0 where
  pub conversation_id : ℕ
  pub from : ℕ
  pub what : String
  pub seq : ℕ
  pub content : Option Text
  pub emoji : Text
  pub user : Option ℕ
  pub ttl : Option ℕ
  pub ts : ℕ

pub record Data : Type 0 where
  pub conversation_id : ℕ
  pub seq : ℕ
  pub from : ℕ
  pub content : Text
  pub head : Option Head
  pub ts : ℕ

pub data ServerMessage : Type 0 where
  info : Info → ServerMessage
  data_message : Data → ServerMessage

-- `deliver` is a call of `Hub.SendToUsers`.
pub data Output : Type 0 where
  reply : Ctrl → Output
  deliver : List ℕ → ServerMessage → Text → Output

abbrev pub replies : List Output → List Ctrl
replies [] = []
replies (reply c ∷ os) = c ∷ replies os
replies (deliver us m skip ∷ os) = replies os

pub record Session : Type 0 where
  pub id : Text
  pub user_id : ℕ

-- What the handlers call of other packages: uuid.Parse and the texts of UUIDs, the encryptor, json.Unmarshal of the mentions
-- of a content, and the hub's view of who is online.
pub record Env : Type 0 where
  pub parse_uuid : Text → Option ℕ
  pub uuid_text : ℕ → Text
  pub encrypt : Text → Option Text
  pub decrypt : Text → Option Text
  pub mentions_of : Text → Option (List Mention)
  pub has_hub : Bool
  pub is_online : ℕ → Bool

-- `faults k` says whether the connection fails at the k-th call of the database, and `uuids k` is what
-- `uuid.New` gives there. One handler sees one reading of the clock.
-- `sent` is newest first.
pub record World : Type 0 where
  pub db : Database
  pub now : ℕ
  pub calls : ℕ
  pub faults : ℕ → Bool
  pub uuids : ℕ → ℕ
  pub sent : List Output
