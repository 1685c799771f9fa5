-- ===== src/Store/Tests.antt =====
-- The theorems of the store applied to a small database.
use mv_chat.Prelude.{
  ℕ, List, update_where, ◌≡◌, ◌≢◌, refl, inl, inr, [], ◌∷◌, none, some, true, false, not, or_else,
  page, sort_desc, insert_desc, select, ◌&&◌, Text, ◌*◌, ◌==◌, text_eq, pos, All, find?, any, arith,
  if◌then◌else◌,
}
use mv_chat.Store.Types.{
  owner, Database, Message, MessageRead, empty_head, InviteCode, pending, second, dm, member,
}
use mv_chat.Store.Invites.{is_open, taken, use_invite}
use mv_chat.Store.Redeeming.{Operation, row, run, use_invite_once}
use mv_chat.Store.Conversations.{
  get_conversation_by_id, create_dm, create_dm_sorted, find_dm, insert_dm, new_conversation,
  new_member,
}
use mv_chat.Store.Dm.{create_dm_again}
use mv_chat.Store.Messages.{
  create_message_with_view_once, get_messages, get_message_by_seq, get_message_by_id, head_of,
}
use mv_chat.Store.Reactions.{add_reaction}
use mv_chat.Store.Reads.{
  get_message_read, record_message_read, insert_read, expire_read_messages, expires_at,
}
use mv_chat.Store.Numbering.{IsNumbered, last_seq, create_message-next}
use mv_chat.Store.Toggles.{reacted, add_reaction-toggles}
use mv_chat.Store.Visible.{Visible, Mentioned}
use mv_chat.Store.Pages.{
  IsPage, IsTold, get_messages-IsPage, get_messages_complete, get_messages_mentioning_user-IsPage,
  get_messages_mentioning_user_complete,
}
use mv_chat.Store.Queries.{get_messages_mentioning_user}
use mv_chat.Store.Expiry.{record_message_read-first, expire-hides}
use mv_chat.Conv.Fixture.{db, the_room, a_member, a_message}

db-IsNumbered : IsNumbered db
unfolding last_seq get_conversation_by_id find?
db-IsNumbered = record {
  unique = ((refl, tt), (tt, tt));
  bounded = (omega arith, (omega arith, tt));
}

room_found : get_conversation_by_id 9 db ≡ some the_room
unfolding get_conversation_by_id find?
room_found = refl

fresh_id : any (λ (m : Message). m.id == 60) db.messages ≡ false
unfolding any
fresh_id = refl

create_message-next_example :
    (m : Message) × (db' : Database) × (create_message_with_view_once 60 5 9 3
        (1 ∷ [])
        none
        false
        none
        db
      ≡ some (m, db'))
    × (m.seq ≡ 3)
    × (last_seq 9 db' ≡ 3)
create_message-next_example =
    create_message-next 60 5 9 3 (1 ∷ []) none false none db the_room db-IsNumbered room_found
      fresh_id

message_found : get_message_by_seq 9 (pos 2) db ≡ some (a_message 52 2 3)
unfolding get_message_by_seq find?
message_found = refl

add_reaction-toggles_example :
    (db' : Database) × (m' : Message) × (add_reaction 5 9 2 1 (8 ∷ []) db ≡ some db')
    × (get_message_by_seq 9 (pos 2) db' ≡ some m')
    × ((f : Text) (v : ℕ)
        → reacted v f (head_of m').reactions ≡ (
            if text_eq (8 ∷ []) f && v == 1
            then not (reacted 1 (8 ∷ []) (head_of (a_message 52 2 3)).reactions)
            else reacted v f (head_of (a_message 52 2 3)).reactions))
add_reaction-toggles_example =
    add_reaction-toggles 5 9 2 1 (8 ∷ []) db (a_message 52 2 3) message_found

get_messages-IsPage_example :
    IsPage
      (λ m. m.seq)
      (pos 500)
      (Visible 9 1 (pos 0) 0 db)
      db.messages
      (get_messages 9 1 (pos 0) (pos 500) 0 db)
get_messages-IsPage_example = get_messages-IsPage 9 1 (pos 0) (pos 500) 0 db

visible : Visible 9 1 (pos 0) 0 db (a_message 51 1 2)
visible = record {
  of_conversation = refl;
  after_clear = omega arith;
  is_before = tt;
  not_deleted = λ d i. elim i [ ];
  not_expired = λ r i. elim i [ ];
}

get_messages_complete_example :
    IsTold (λ k. k.seq) (pos 1) (a_message 51 1 2) (get_messages 9 1 (pos 0) (pos 1) 0 db)
get_messages_complete_example =
    get_messages_complete 9 1 (pos 0) (pos 1) 0 db (a_message 51 1 2) (inr (inl refl)) visible

-- The owner has read the message 51, which expires 10 seconds later.
abbrev a_read : MessageRead
a_read = record {
  message_id = 51;
  user_id = 1;
  read_at = second;
  expires_at = some (11 * second);
  expired = false;
}

abbrev read_db : Database
read_db = record db { message_reads = a_read ∷ [] }

read_found : get_message_read 51 1 read_db ≡ some a_read
unfolding get_message_read find?
read_found = refl

expire-hides_example :
    All
      (λ m. m.id ≢ 51)
      (get_messages 9 1 (pos 0) (pos 50) 0 (expire_read_messages (12 * second) read_db).1)
expire-hides_example =
    expire-hides (12 * second) 51 1 (11 * second) read_db a_read 9 (pos 0) (pos 50) 0 read_found
      refl (omega arith)

read_again :
    record_message_read (5 * second) 51 1 read_db
    ≡ some (some (record a_read { read_at = 5 * second; expires_at = none }), read_db)
unfolding record_message_read get_message_by_id get_conversation_by_id find? insert_read any
    expires_at
read_again = refl

record_message_read-first_example :
    let r : MessageRead = record a_read { read_at = 5 * second; expires_at = none } in
    (r.read_at ≡ 5 * second)
    × (r.expired ≡ false)
    × (get_message_read 51 1 read_db ≡ some (or_else (get_message_read 51 1 read_db) r))
record_message_read-first_example =
    record_message_read-first (5 * second) 51 1 51 1 read_db read_db
      (record a_read { read_at = 5 * second; expires_at = none }) read_again

-- The tables after the first two users have opened a DM.
abbrev dm_db : Database
dm_db = record db {
  conversations = new_conversation 70 5 dm none none ∷ the_room ∷ [];
  dm_participants = (record { conversation_id = 70; user1_id = 1; user2_id = 2 }) ∷ [];
  members = new_member 70 1 5 member ∷ new_member 70 2 5 member ∷ db.members;
}

first_dm : create_dm 70 5 1 2 db ≡ some ((new_conversation 70 5 dm none none, true), dm_db)
unfolding create_dm create_dm_sorted find_dm insert_dm find? any
first_dm = refl

create_dm_again_example :
    create_dm 71 6 2 1 dm_db ≡ some ((new_conversation 70 5 dm none none, false), dm_db)
create_dm_again_example =
    create_dm_again 70 71 5 6 1 2 db dm_db (new_conversation 70 5 dm none none, true) first_dm

abbrev an_invite : InviteCode
an_invite = record {
  id = 70;
  inviter_id = 1;
  code = 5 ∷ [];
  token = [];
  email = [];
  invitee_name = none;
  status = pending;
  used_at = none;
  used_by = none;
  created_at = 0;
  expires_at = 9;
}

abbrev invite_db : Database
invite_db = record db { invite_codes = an_invite ∷ [] }

abbrev used_db : Database
used_db = record db { invite_codes = taken 4 3 an_invite ∷ [] }

uses : use_invite false 4 70 3 invite_db ≡ some (some (taken 4 3 an_invite), used_db)
unfolding use_invite find? update_where
uses = refl

use_invite_once_example :
    (i : InviteCode) × (row 70 invite_db ≡ some i)
    × (is_open 4 i ≡ true)
    × (taken 4 3 an_invite ≡ taken 4 3 i)
    × ((ops : List (ℕ × Operation)) (now' user' : ℕ) (y : InviteCode) (db'' : Database)
        → (row 70 (run false ops used_db) ≡ some (taken 4 3 an_invite))
          × (use_invite false now' 70 user' (run false ops used_db) ≢ some (some y, db'')))
use_invite_once_example = use_invite_once false 4 70 3 invite_db used_db (taken 4 3 an_invite) uses

too_late : use_invite true 9 70 3 invite_db ≡ some (none, invite_db)
unfolding use_invite find?
too_late = refl

-- The admin's message, with a mention of the owner.
abbrev a_mention : Message
a_mention =
    let m = a_message 53 3 2 in
    record m {
      created_at = 4;
      head = some (record empty_head {
        mentions = record { user_id = 1 ∷ []; username = []; offset = pos 0; len = pos 2 } ∷ [];
      });
    }

abbrev mention_db : Database
mention_db = record db { messages = a_mention ∷ db.messages }

mentioned : Mentioned 1 (1 ∷ []) mention_db a_mention
mentioned = record {
  membership = a_member 1 owner;
  is_row = inl refl;
  of_conversation = refl;
  of_user = refl;
  not_left = refl;
  head = record empty_head {
    mentions = record { user_id = 1 ∷ []; username = []; offset = pos 0; len = pos 2 } ∷ [];
  };
  has_head = refl;
  mention = record { user_id = 1 ∷ []; username = []; offset = pos 0; len = pos 2 };
  in_head = inl refl;
  names_user = refl;
  not_deleted = refl;
}

get_messages_mentioning_user-IsPage_example :
    IsPage
      (λ m. m.created_at)
      (pos 20)
      (Mentioned 1 (1 ∷ []) mention_db)
      mention_db.messages
      (get_messages_mentioning_user 1 (1 ∷ []) (pos 20) mention_db)
get_messages_mentioning_user-IsPage_example =
    get_messages_mentioning_user-IsPage 1 (1 ∷ []) (pos 20) mention_db

get_messages_mentioning_user_complete_example :
    IsTold
      (λ k. k.created_at)
      (pos 20)
      a_mention
      (get_messages_mentioning_user 1 (1 ∷ []) (pos 20) mention_db)
get_messages_mentioning_user_complete_example =
    get_messages_mentioning_user_complete 1 (1 ∷ []) (pos 20) mention_db a_mention (inl refl)
      mentioned

mention_listed : get_messages_mentioning_user 1 (1 ∷ []) (pos 20) mention_db ≡ a_mention ∷ []
unfolding get_messages_mentioning_user page sort_desc insert_desc select any
mention_listed = refl
