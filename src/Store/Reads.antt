-- ===== src/Store/Reads.antt =====
-- The reads of store/messages.go: when a message was read, and when it expires for its reader.
use mv_chat.Prelude.{
  ℕ, suc, ◌+◌, ◌-◌, ◌*◌, ℤ, pos, negsuc, ◌∷◌, Option, none, some, Bool, true, false, not, ◌&&◌, leb,
  ◌==◌, if◌then◌else◌, length, select, find?, any, update_where,
}
use mv_chat.Store.Types.{Database, Conversation, Message, MessageRead, second}
use mv_chat.Store.Conversations.{get_conversation_by_id}
use mv_chat.Store.Messages.{get_message_by_id}

-- That many seconds after `now`, where there is a TTL. A time before the epoch would read 0.
abbrev pub after_ttl : ℕ → Option ℤ → Option ℕ
after_ttl now none = none
after_ttl now (some (pos t)) = some (now + t * second)
after_ttl now (some (negsuc t)) = some (now - suc t * second)

-- A view-once message with a TTL goes by its own, any other by that of its conversation.
abbrev pub ttl_of : Bool → Option ℤ → Option ℕ → Option ℤ
ttl_of true (some t) conv_ttl = some t
ttl_of true none none = none
ttl_of true none (some t) = some (pos t)
ttl_of false ttl none = none
ttl_of false ttl (some t) = some (pos t)

unfoldable pub expires_at : ℕ → Message → Conversation → Option ℕ
expires_at now m c = after_ttl now (ttl_of m.view_once m.view_once_ttl c.disappearing_ttl)

abbrev pub is_read_row : ℕ → ℕ → MessageRead → Bool
is_read_row id user r = r.message_id == id && r.user_id == user

-- ON CONFLICT DO NOTHING
unfoldable pub insert_read : MessageRead → Database → Database
insert_read r db =
    if any (is_read_row r.message_id r.user_id) db.message_reads
    then db
    else record db { message_reads = r ∷ db.message_reads }

read_of : ℕ → ℕ → ℕ → Message → Conversation → MessageRead
read_of now id user m c = record {
  message_id = id;
  user_id = user;
  read_at = now;
  expires_at = expires_at now m c;
  expired = false;
}

-- The sender's own read is not recorded. No message under the id is an error.
unfoldable pub record_message_read : ℕ → ℕ → ℕ → Database → Option (Option MessageRead × Database)
unfolding read_of
record_message_read now id user db = elim (get_message_by_id id db) [
  | none ↦ none
  | some m ↦ elim (get_conversation_by_id m.conversation_id db) [
    | none ↦ none
    | some c ↦
        let r = read_of now id user m c in
        if m.from_user_id == user then some (none, db) else some (some r, insert_read r db)
  ]
]

unfoldable pub get_message_read : ℕ → ℕ → Database → Option MessageRead
get_message_read id user db = find? (is_read_row id user) db.message_reads

abbrev is_due : ℕ → Option ℕ → Bool
is_due now none = false
is_due now (some t) = leb t now

abbrev pub must_expire : ℕ → MessageRead → Bool
must_expire now r = is_due now r.expires_at && not r.expired

-- The number of rows that expired, and the tables.
unfoldable pub expire_read_messages : ℕ → Database → ℕ × Database
expire_read_messages now db = (
  length (select (must_expire now) db.message_reads),
  record db {
    message_reads =
        update_where (must_expire now) (λ r. record r { expired = true }) db.message_reads;
  },
)

unfoldable pub is_message_expired_for_user : ℕ → ℕ → Database → Bool
is_message_expired_for_user id user db = elim (get_message_read id user db) [
  | none ↦ false
  | some r ↦ r.expired
]
