-- ===== src/Conv/Safety/Untouched.antt =====
-- Statements of the store against the tables that they do not write.
use mv_chat.Prelude.{ℕ, ◌≡◌, refl, ◌∙◌, Option, none, some, Bool, Text, arith}
use mv_chat.Store.Types.{Database, Conversation, Message, MessageRead}
use mv_chat.Store.Conversations.{create_dm, create_room, insert_dm, set_pinned_message}
use mv_chat.Store.Members.{add_room_member}
use mv_chat.Store.Messages.{insert_message, create_message_with_view_once, delete_message_for_user}
use mv_chat.Store.Reactions.{add_reaction}
use mv_chat.Store.Reads.{record_message_read, insert_read}
use mv_chat.Conv.Step.{Marks, unmarked, marked}

-- The statements that leave the messages alone.

pub create_dm-messages :
    (i now a b : ℕ) (x : Conversation × Bool) (db db' : Database)
    → create_dm i now a b db ≡ some (x, db')
    → db'.messages ≡ db.messages
unfolding create_dm insert_dm
create_dm-messages i now a b x db db' h = ground arith

pub create_room-messages :
    (i now a : ℕ) (p : Option Text) (c : Conversation) (db db' : Database)
    → create_room i now a p db ≡ some (c, db')
    → db'.messages ≡ db.messages
unfolding create_room
create_room-messages i now a p c db db' h = ground arith

pub record_read-messages :
    (now id u : ℕ) (r : Option MessageRead) (db db' : Database)
    → record_message_read now id u db ≡ some (r, db')
    → db'.messages ≡ db.messages
unfolding record_message_read insert_read
record_read-messages now id u r db db' h = ground arith

pub Marks-messages :
    {u now : ℕ} {db db' : Database} → Marks u now db db' → db'.messages ≡ db.messages
Marks-messages unmarked = refl
Marks-messages (marked {db' = d} id r marks e) =
    record_read-messages _ id _ r d _ e ∙ Marks-messages marks

pub delete_for_user-messages :
    (now id u : ℕ) (db : Database) → (delete_message_for_user now id u db).messages ≡ db.messages
unfolding delete_message_for_user
delete_for_user-messages now id u db = ground arith

pub add_room_member-messages :
    (now conv u : ℕ) (r : _) (db : Database)
    → (add_room_member now conv u r db).messages ≡ db.messages
unfolding add_room_member
add_room_member-messages now conv u r db = ground arith

pub pinned-messages :
    (now conv u : ℕ) (id : Option ℕ) (db : Database)
    → (set_pinned_message now conv id u db).messages ≡ db.messages
unfolding set_pinned_message
pinned-messages now conv u none db = refl
pinned-messages now conv u (some id) db = refl

pub sent-members :
    (id now conv u : ℕ) (content : Text) (head : _) (once : Bool) (ttl : _) (m : Message)
    (db db' : Database)
    → create_message_with_view_once id now conv u content head once ttl db ≡ some (m, db')
    → db'.members ≡ db.members
unfolding create_message_with_view_once insert_message
sent-members id now conv u content head once ttl m db db' h = ground arith

pub react-members :
    (now conv seq u : ℕ) (e : Text) (db db' : Database)
    → add_reaction now conv seq u e db ≡ some db'
    → db'.members ≡ db.members
unfolding add_reaction
react-members now conv seq u e db db' h = ground arith

pub record_read-members :
    (now id u : ℕ) (r : Option MessageRead) (db db' : Database)
    → record_message_read now id u db ≡ some (r, db')
    → db'.members ≡ db.members
unfolding record_message_read insert_read
record_read-members now id u r db db' h = ground arith

pub Marks-members : {u now : ℕ} {db db' : Database} → Marks u now db db' → db'.members ≡ db.members
Marks-members unmarked = refl
Marks-members (marked {db' = d} id r marks e) =
    record_read-members _ id _ r d _ e ∙ Marks-members marks

pub delete_for_user-members :
    (now id u : ℕ) (db : Database) → (delete_message_for_user now id u db).members ≡ db.members
unfolding delete_message_for_user
delete_for_user-members now id u db = ground arith

pub pinned-members :
    (now conv u : ℕ) (id : Option ℕ) (db : Database)
    → (set_pinned_message now conv id u db).members ≡ db.members
unfolding set_pinned_message
pinned-members now conv u none db = refl
pinned-members now conv u (some id) db = refl
