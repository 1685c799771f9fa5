-- ===== src/Store/Types.antt =====
-- The rows of the database: store/conversations.go, store/messages.go, store/users.go and the tables
-- of store/schema.sql with its migrations.
-- A UUID is its 128-bit value, so that `uuid.Nil` is 0 and the order of the hexadecimal texts is the
-- order of the numbers. A time is a number of nanoseconds. A nullable column is an `Option`.
use mv_chat.Prelude.{ℕ, ◌*◌, List, Option, none, Bool, false, [], Text, ℤ}

abbrev pub uuid_nil : ℕ
uuid_nil = 0

abbrev pub second : ℕ
second = 1000000000

abbrev pub minute : ℕ
minute = 60 * second

pub data Role : Type 0 where
  owner admin member : Role

pub data Kind : Type 0 where
  dm room : Kind

pub record Mention : Type 0 where
  pub user_id : Text
  pub username : Text
  pub offset : ℤ
  pub len : ℤ

-- The JSON object `head` of a message, by the keys that the code writes. A key that is absent is
-- `none`, 0, `false` or the empty list: the code never stores those values under a key.
pub record Head : Type 0 where
  pub reply_to : Option ℕ
  pub view_once : Bool
  pub view_once_ttl : Option ℕ
  pub mentions : List Mention
  pub edit_count : ℕ
  pub edited_at : Option ℕ
  pub unsent : Bool
  pub reactions : List (Text × List ℕ)

abbrev pub empty_head : Head
empty_head = record {
  reply_to = none;
  view_once = false;
  view_once_ttl = none;
  mentions = [];
  edit_count = 0;
  edited_at = none;
  unsent = false;
  reactions = [];
}

pub record User : Type 0 where
  pub id : ℕ
  pub is_deleted : Bool  -- state = 'deleted'
  pub public : Option Text
  pub last_seen : Option ℕ

pub record Conversation : Type 0 where
  pub id : ℕ
  pub created_at : ℕ
  pub updated_at : ℕ
  pub kind : Kind
  pub owner_id : Option ℕ
  pub public : Option Text
  pub last_seq : ℕ
  pub last_msg_at : Option ℕ
  pub disappearing_ttl : Option ℕ
  pub pinned_message_id : Option ℕ
  pub pinned_at : Option ℕ
  pub pinned_by : Option ℕ
  pub no_screenshots : Bool

pub record DmParticipants : Type 0 where
  pub conversation_id : ℕ
  pub user1_id : ℕ
  pub user2_id : ℕ

pub record Member : Type 0 where
  pub conversation_id : ℕ
  pub user_id : ℕ
  pub created_at : ℕ
  pub updated_at : ℕ
  pub role : Role
  pub read_seq : ℕ
  pub recv_seq : ℕ
  pub clear_seq : ℕ
  pub favorite : Bool
  pub muted : Bool
  pub blocked : Bool
  pub private : Option Text
  pub deleted_at : Option ℕ

pub record Message : Type 0 where
  pub id : ℕ
  pub conversation_id : ℕ
  pub seq : ℕ
  pub from_user_id : ℕ
  pub created_at : ℕ
  pub updated_at : ℕ
  pub content : Text
  pub head : Option Head
  pub deleted_at : Option ℕ
  pub view_once : Bool
  pub view_once_ttl : Option ℤ

pub record MessageDeletion : Type 0 where
  pub message_id : ℕ
  pub user_id : ℕ
  pub deleted_at : ℕ

pub record MessageRead : Type 0 where
  pub message_id : ℕ
  pub user_id : ℕ
  pub read_at : ℕ
  pub expires_at : Option ℕ
  pub expired : Bool

pub record Contact : Type 0 where
  pub user_id : ℕ
  pub contact_id : ℕ
  pub source : Text
  pub nickname : Option Text
  pub invite_id : Option ℕ
  pub created_at : ℕ

pub data Status : Type 0 where
  pending used expired revoked : Status

pub record InviteCode : Type 0 where
  pub id : ℕ
  pub inviter_id : ℕ
  pub code : Text
  pub token : Text
  pub email : Text
  pub invitee_name : Option Text
  pub status : Status
  pub used_at : Option ℕ
  pub used_by : Option ℕ
  pub created_at : ℕ
  pub expires_at : ℕ

pub record Database : Type 0 where
  pub users : List User
  pub conversations : List Conversation
  pub dm_participants : List DmParticipants
  pub members : List Member
  pub messages : List Message
  pub message_deletions : List MessageDeletion
  pub message_reads : List MessageRead
  pub contacts : List Contact
  pub invite_codes : List InviteCode
