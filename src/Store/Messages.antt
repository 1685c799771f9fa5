-- ===== src/Store/Messages.antt =====
-- store/messages.go: creating, reading, editing and removing messages.
use mv_chat.Prelude.{
  ℕ, zero, suc, ◌+◌, List, ◌∷◌, Option, none, some, Bool, true, false, not, ◌&&◌, ◌||◌, Text, ltb,
  leb, ◌==◌, ℤ, pos, negsuc, is_some, or_else, if◌then◌else◌, page, find?, any, update_where,
}
use mv_chat.Store.Types.{Database, Message, Head, empty_head}
use mv_chat.Store.Conversations.{get_conversation_by_id, update_conversation}

abbrev pub is_message : ℕ → ℕ → Message → Bool
is_message conv seq m = m.conversation_id == conv && m.seq == seq

abbrev pub update_message : ℕ → ℕ → (Message → Message) → Database → Database
update_message conv seq f db = record db {
  messages = update_where (is_message conv seq) f db.messages;
}

abbrev pub new_message : ℕ → ℕ → ℕ → ℕ → ℕ → Text → Option Head → Bool → Option ℤ → Message
new_message id conv seq from now content head view_once ttl = record {
  id = id;
  conversation_id = conv;
  seq = seq;
  from_user_id = from;
  created_at = now;
  updated_at = now;
  content = content;
  head = head;
  deleted_at = none;
  view_once = view_once;
  view_once_ttl = ttl;
}

-- INSERT INTO messages: the id must be new, and the sequence number within its conversation.
unfoldable pub insert_message : Message → Database → Option Database
insert_message m db =
    if any (λ n. n.id == m.id || is_message m.conversation_id m.seq n) db.messages
    then none
    else some (record db { messages = m ∷ db.messages })

-- The transaction: take the next number of the conversation, then insert under it.
unfoldable pub create_message_with_view_once :
    ℕ → ℕ → ℕ → ℕ → Text → Option Head → Bool → Option ℤ → Database → Option (Message × Database)
create_message_with_view_once id now conv from content head view_once ttl db =
    elim (get_conversation_by_id conv db) [
      | none ↦ none
      | some c ↦
          let m = new_message id conv (c.last_seq + 1) from now content head view_once ttl in
          let counted =
            update_conversation conv
              (λ d. record d {
                last_seq = d.last_seq + 1;
                last_msg_at = some now;
                updated_at = now;
              })
              db in
          elim (insert_message m counted) [ none ↦ none | some db' ↦ some (m, db') ]
    ]

-- The columns `view_once` and `view_once_ttl` take their defaults.
unfoldable pub create_message :
    ℕ → ℕ → ℕ → ℕ → Text → Option Head → Database → Option (Message × Database)
create_message id now conv from content head db =
    create_message_with_view_once id now conv from content head false none db

-- limit <= 0 || limit > 100 gives 50
unfoldable pub page_size : ℤ → ℕ
page_size (pos zero) = 50
page_size (pos (suc n)) = if leb (suc n) 100 then suc n else 50
page_size (negsuc n) = 50

abbrev pub below : ℤ → ℕ → Bool
below (pos zero) seq = true
below (pos (suc n)) seq = ltb seq (suc n)
below (negsuc n) seq = true

abbrev pub is_deleted_for : ℕ → ℕ → Database → Bool
is_deleted_for id user db = any (λ d. d.message_id == id && d.user_id == user) db.message_deletions

abbrev pub is_expired_for : ℕ → ℕ → Database → Bool
is_expired_for id user db =
    any (λ r. r.message_id == id && r.user_id == user && r.expired) db.message_reads

-- The WHERE clause of both queries.
unfoldable pub is_visible : ℕ → ℕ → ℤ → ℕ → Database → Message → Bool
is_visible conv user before clear_seq db m =
    m.conversation_id == conv
    && ltb clear_seq m.seq
    && below before m.seq
    && not (is_deleted_for m.id user db)
    && not (is_expired_for m.id user db)

unfoldable pub get_messages : ℕ → ℕ → ℤ → ℤ → ℕ → Database → List Message
get_messages conv user before limit clear_seq db =
    page (λ (m : Message). m.seq) (page_size limit) (is_visible conv user before clear_seq db)
      db.messages

-- No row has a negative number.
unfoldable pub get_message_by_seq : ℕ → ℤ → Database → Option Message
get_message_by_seq conv (pos seq) db = find? (is_message conv seq) db.messages
get_message_by_seq conv (negsuc n) db = none

unfoldable pub get_message_by_id : ℕ → Database → Option Message
get_message_by_id id db = find? (λ m. m.id == id) db.messages

-- COALESCE(head, '{}')
abbrev pub head_of : Message → Head
head_of m = or_else m.head empty_head

unfoldable pub edit_message : ℕ → ℕ → ℕ → Text → Database → Database
edit_message now conv seq content db = record db {
  messages =
      update_where (λ m. is_message conv seq m && not (is_some m.deleted_at))
        (λ m. record m {
          content = content;
          updated_at = now;
          head =
              let h = head_of m in
              some (record h { edit_count = h.edit_count + 1; edited_at = some now });
        })
        db.messages;
}

unfoldable pub unsend_message : ℕ → ℕ → ℕ → Database → Database
unsend_message now conv seq = update_message conv seq λ m. record m {
  deleted_at = some now;
  updated_at = now;
  head = let h = head_of m in some (record h { unsent = true });
}

unfoldable pub delete_message_for_everyone : ℕ → ℕ → ℕ → Database → Database
delete_message_for_everyone now conv seq =
    update_message conv seq λ m. record m { deleted_at = some now; updated_at = now }

-- ON CONFLICT DO NOTHING
unfoldable pub delete_message_for_user : ℕ → ℕ → ℕ → Database → Database
delete_message_for_user now id user db = if is_deleted_for id user db then db else record db {
  message_deletions =
      (record { message_id = id; user_id = user; deleted_at = now }) ∷ db.message_deletions;
}

-- A message that is not there is an error.
unfoldable pub get_edit_count : ℕ → ℕ → Database → Option ℕ
get_edit_count conv seq db = elim (find? (is_message conv seq) db.messages) [
  | none ↦ none
  | some m ↦ some (head_of m).edit_count
]
