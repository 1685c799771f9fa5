-- ===== src/Conv/Step.antt =====
-- The contract of the conversation handlers: what one request of a user may do to the database, and
-- under which conditions on the database as the request finds it.
use mv_chat.Prelude.{
  ℕ, ◌+◌, ◌*◌, ◌≤◌, ◌<◌, ◌≡◌, ◌≢◌, ◌⊎◌, Option, none, some, Bool, true, false, Text, codes, ℤ, pos,
  ◌&&◌,
}
use mv_chat.Store.Types.{
  Database, Role, member, Conversation, User, dm, room, Message, MessageRead, Member, minute, Head,
}
use mv_chat.Store.Conversations.{
  get_user_by_id, get_conversation_by_id, create_dm, create_room, get_dm_other_user,
  update_room_public, set_pinned_message, update_disappearing_ttl, update_no_screenshots,
}
use mv_chat.Store.Members.{
  get_member, get_member_role, is_member, is_blocked, MemberSettings, update_member_settings,
  update_read_seq, update_recv_seq, update_clear_seq, add_room_member, remove_member,
}
use mv_chat.Store.Contacts.{add_contact, remove_contact, update_contact_nickname}
use mv_chat.Store.Messages.{
  create_message_with_view_once, get_message_by_seq, get_edit_count, edit_message, unsend_message,
  delete_message_for_everyone, delete_message_for_user,
}
use mv_chat.Store.Reactions.{add_reaction}
use mv_chat.Store.Reads.{record_message_read}
use mv_chat.Conv.Room.{is_owner, is_admin, is_privileged}

-- Some calls of the store fail open: their error counts as "no edits yet" or "not blocked".
abbrev pub Fault : (ℕ → Bool) → Type 0
Fault faults = (k : ℕ) × (faults k ≡ true)

-- A run of recorded reads.
pub data Marks (u now : ℕ) (db : Database) : Database → Type 0 where
  unmarked : Marks u now db db
  marked :
      {db' db'' : Database} (id : ℕ) (r : Option MessageRead)
      → Marks u now db db'
      → record_message_read now id u db' ≡ some (r, db'')
      → Marks u now db db''

pub data CanManage (u conv : ℕ) (db : Database) : Type 0 where
  by_role :
      (r : Role) → get_member_role conv u db ≡ some r → is_privileged r ≡ true → CanManage u conv db

-- Who may remove another member.
pub data CanKick (u conv target : ℕ) (db : Database) : Type 0 where
  by_rank :
      (r t : Role)
      → get_member_role conv u db ≡ some r
      → get_member_role conv target db ≡ some t
      → is_privileged r ≡ true
      → is_owner t ≡ false
      → (is_admin r && is_admin t) ≡ false
      → CanKick u conv target db

-- The DM is not blocked by its other user.
abbrev pub NotBlocked : ℕ → ℕ → (ℕ → Bool) → Conversation → Database → Type 0
NotBlocked u conv faults c db =
    (c.kind ≡ room)
    ⊎ Fault faults
    ⊎ (get_dm_other_user conv u db ≡ none)
    ⊎ (get_dm_other_user conv u db ≡ some none)
    ⊎ ((o : User) × (get_dm_other_user conv u db ≡ some (some o))
        × (is_blocked conv o.id db ≡ false))

-- A pin names a message of the conversation, or none.
abbrev pub PinTarget : ℕ → Option ℕ → Database → Type 0
PinTarget conv id db =
    (id ≡ none)
    ⊎ ((seq : ℤ) × (m : Message) × (get_message_by_seq conv seq db ≡ some m) × (id ≡ some m.id))

pub data Step (u now : ℕ) (faults : ℕ → Bool) (db : Database) : Database → Type 0 where
  same : Step u now faults db db
  made_dm :
      {db' : Database} (id other : ℕ) (user : User) (made : Conversation × Bool)
      → other ≢ u
      → get_user_by_id other db ≡ some user
      → create_dm id now u other db ≡ some (made, db')
      → Step u now faults db db'
  made_room :
      {db' : Database} (id : ℕ) (public : Option Text) (c : Conversation)
      → create_room id now u public db ≡ some (c, db')
      → Step u now faults db db'
  set_ttl :
      (conv : ℕ) (ttl : Option ℕ)
      → is_member conv u db ≡ true
      → Step u now faults db (update_disappearing_ttl now conv ttl db)
  set_ttl_managed :
      (conv : ℕ) (ttl : Option ℕ)
      → CanManage u conv db
      → Step u now faults db (update_disappearing_ttl now conv ttl db)
  set_settings :
      (conv : ℕ) (settings : MemberSettings)
      → is_member conv u db ≡ true
      → Step u now faults db (update_member_settings now conv u settings db)
  set_screenshots :
      (conv : ℕ) (flag : Bool)
      → CanManage u conv db
      → Step u now faults db (update_no_screenshots now conv flag db)
  set_public :
      (conv : ℕ) (public : Option Text)
      → CanManage u conv db
      → Step u now faults db (update_room_public now conv public db)
  invited :
      (conv target : ℕ) (user : User)
      → CanManage u conv db
      → get_user_by_id target db ≡ some user
      → Step u now faults db (add_room_member now conv target member db)
  left :
      (conv : ℕ) (r : Role)
      → get_member_role conv u db ≡ some r
      → is_owner r ≡ false
      → Step u now faults db (remove_member now conv u db)
  kicked :
      (conv target : ℕ)
      → CanKick u conv target db
      → Step u now faults db (remove_member now conv target db)
  sent :
      {db' : Database} (id conv : ℕ) (content : Text) (head : Option Head) (view_once : Bool)
      (ttl : Option ℤ) (row : Member) (c : Conversation) (m : Message)
      → get_member conv u db ≡ some row
      → get_conversation_by_id conv db ≡ some c
      → NotBlocked u conv faults c db
      → create_message_with_view_once id now conv u content head view_once ttl db ≡ some (m, db')
      → Step u now faults db db'
  edited :
      (conv seq : ℕ) (content : Text) (m : Message)
      → get_message_by_seq conv (pos seq) db ≡ some m
      → m.from_user_id ≡ u
      → now ≤ m.created_at + 15 * minute
      → ((k : ℕ) × (get_edit_count conv seq db ≡ some k) × (k < 10)) ⊎ Fault faults
      → Step u now faults db (edit_message now conv seq content db)
  unsent :
      (conv seq : ℕ) (m : Message)
      → get_message_by_seq conv (pos seq) db ≡ some m
      → m.from_user_id ≡ u
      → now ≤ m.created_at + 5 * minute
      → Step u now faults db (unsend_message now conv seq db)
  deleted_for_everyone :
      (conv seq : ℕ) (m : Message)
      → get_message_by_seq conv (pos seq) db ≡ some m
      → m.from_user_id ≡ u
      → Step u now faults db (delete_message_for_everyone now conv seq db)
  deleted_for_user :
      (conv seq : ℕ) (m : Message)
      → get_message_by_seq conv (pos seq) db ≡ some m
      → Step u now faults db (delete_message_for_user now m.id u db)
  reacted :
      {db' : Database} (conv seq : ℕ) (emoji : Text)
      → is_member conv u db ≡ true
      → add_reaction now conv seq u emoji db ≡ some db'
      → Step u now faults db db'
  read_to :
      {db' : Database} (conv seq : ℕ)
      → Marks u now (update_read_seq now conv u seq db) db'
      → Step u now faults db db'
  made_contact :
      (other : ℕ) (user : User)
      → other ≢ u
      → get_user_by_id other db ≡ some user
      → Step u now faults db (add_contact now u other (codes "manual") none db)
  dropped_contact : (other : ℕ) → Step u now faults db (remove_contact u other db)
  named_contact :
      (other : ℕ) (nickname : Option Text)
      → Step u now faults db (update_contact_nickname u other nickname db)
  received_to : (conv seq : ℕ) → Step u now faults db (update_recv_seq now conv u seq db)
  cleared_to :
      (conv seq : ℕ)
      → is_member conv u db ≡ true
      → Step u now faults db (update_clear_seq now conv u seq db)
  pinned :
      (conv : ℕ) (id : Option ℕ) (c : Conversation) (r : Role)
      → get_conversation_by_id conv db ≡ some c
      → get_member_role conv u db ≡ some r
      → (c.kind ≡ dm) ⊎ (is_privileged r ≡ true)
      → PinTarget conv id db
      → Step u now faults db (set_pinned_message now conv id u db)
