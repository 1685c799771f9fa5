-- ===== src/Store/Conversations.antt =====
-- store/conversations.go and `GetUserByID` of store/users.go: each SQL statement as a function on the
-- tables. A function that returns `none` is one whose error is not nil whatever the connection does.
use mv_chat.Prelude.{
  ℕ, ◌∷◌, Option, none, some, Bool, true, false, not, ◌&&◌, ◌||◌, Text, ltb, ◌==◌, if◌then◌else◌,
  find?, any, update_where,
}
use mv_chat.Store.Types.{
  Database, User, Conversation, DmParticipants, Member, Role, owner, member, Kind, dm, room,
}

-- users

unfoldable pub get_user_by_id : ℕ → Database → Option User
get_user_by_id id db = find? (λ u. u.id == id && not u.is_deleted) db.users

-- conversations

unfoldable pub get_conversation_by_id : ℕ → Database → Option Conversation
get_conversation_by_id id db = find? (λ c. c.id == id) db.conversations

abbrev pub update_conversation : ℕ → (Conversation → Conversation) → Database → Database
update_conversation id f db = record db {
  conversations = update_where (λ c. c.id == id) f db.conversations;
}

-- INSERT INTO conversations: the primary key must be new.
abbrev pub insert_conversation : Conversation → Database → Option Database
insert_conversation c db =
    if any (λ d. d.id == c.id) db.conversations
    then none
    else some (record db { conversations = c ∷ db.conversations })

abbrev pub new_conversation : ℕ → ℕ → Kind → Option ℕ → Option Text → Conversation
new_conversation id now kind owner_id public = record {
  id = id;
  created_at = now;
  updated_at = now;
  kind = kind;
  owner_id = owner_id;
  public = public;
  last_seq = 0;
  last_msg_at = none;
  disappearing_ttl = none;
  pinned_message_id = none;
  pinned_at = none;
  pinned_by = none;
  no_screenshots = false;
}

abbrev pub new_member : ℕ → ℕ → ℕ → Role → Member
new_member conv user now role = record {
  conversation_id = conv;
  user_id = user;
  created_at = now;
  updated_at = now;
  role = role;
  read_seq = 0;
  recv_seq = 0;
  clear_seq = 0;
  favorite = false;
  muted = false;
  blocked = false;
  private = none;
  deleted_at = none;
}

-- The transaction that makes a new DM, for `user1 < user2`, with the checks of `dm_participants`.
unfoldable pub insert_dm : ℕ → ℕ → ℕ → ℕ → Database → Option (Conversation × Database)
insert_dm conv now user1 user2 db =
    let c = new_conversation conv now dm none none in
    if any (λ d. d.id == conv) db.conversations || not (ltb user1 user2)
    then none
    else some (
      c,
      record db {
        conversations = c ∷ db.conversations;
        dm_participants =
            (record { conversation_id = conv; user1_id = user1; user2_id = user2 })
            ∷ db.dm_participants;
        members = new_member conv user1 now member ∷ new_member conv user2 now member ∷ db.members;
      },
    )

unfoldable pub find_dm : ℕ → ℕ → Database → Option DmParticipants
find_dm user1 user2 db = find? (λ p. p.user1_id == user1 && p.user2_id == user2) db.dm_participants

-- The two users in order; then an existing DM, or a new one. A DM whose conversation row is missing
-- comes back as a nil conversation, which the schema's foreign key rules out: it is an error here.
unfoldable pub create_dm_sorted :
    ℕ → ℕ → ℕ → ℕ → Database → Option ((Conversation × Bool) × Database)
create_dm_sorted conv now user1 user2 db = elim (find_dm user1 user2 db) [
  | some p ↦ elim (get_conversation_by_id p.conversation_id db) [
    | none ↦ none
    | some c ↦ some ((c, false), db)
  ]
  | none ↦ elim (insert_dm conv now user1 user2 db) [
    | none ↦ none
    | some (c, db') ↦ some ((c, true), db')
  ]
]

unfoldable pub create_dm : ℕ → ℕ → ℕ → ℕ → Database → Option ((Conversation × Bool) × Database)
unfolding create_dm_sorted find_dm
create_dm conv now user1 user2 db =
    if ltb user2 user1
    then create_dm_sorted conv now user2 user1 db
    else create_dm_sorted conv now user1 user2 db

unfoldable pub create_room : ℕ → ℕ → ℕ → Option Text → Database → Option (Conversation × Database)
create_room conv now owner_id public db =
    let c = new_conversation conv now room (some owner_id) public in
    if any (λ d. d.id == conv) db.conversations
    then none
    else some (
      c,
      record db {
        conversations = c ∷ db.conversations;
        members = new_member conv owner_id now owner ∷ db.members;
      },
    )

-- The statement names the one row of the conversation; no row is an error.
unfoldable pub get_dm_other_user : ℕ → ℕ → Database → Option (Option User)
get_dm_other_user conv user db = elim (find? (λ p. p.conversation_id == conv) db.dm_participants) [
  | none ↦ none
  | some p ↦ some (get_user_by_id (if p.user1_id == user then p.user2_id else p.user1_id) db)
]

unfoldable pub update_room_public : ℕ → ℕ → Option Text → Database → Database
update_room_public now conv public =
    update_conversation conv
      λ c. elim c.kind [ room ↦ record c { public = public; updated_at = now } | dm ↦ c ]

unfoldable pub set_pinned_message : ℕ → ℕ → Option ℕ → ℕ → Database → Database
set_pinned_message now conv none by =
    update_conversation conv λ c. record c {
      pinned_message_id = none;
      pinned_at = none;
      pinned_by = none;
      updated_at = now;
    }
set_pinned_message now conv (some id) by = update_conversation conv λ c. record c {
  pinned_message_id = some id;
  pinned_at = some now;
  pinned_by = some by;
  updated_at = now;
}

unfoldable pub update_disappearing_ttl : ℕ → ℕ → Option ℕ → Database → Database
update_disappearing_ttl now conv ttl =
    update_conversation conv λ c. record c { disappearing_ttl = ttl; updated_at = now }

unfoldable pub update_no_screenshots : ℕ → ℕ → Bool → Database → Database
update_no_screenshots now conv flag =
    update_conversation conv λ c. record c { no_screenshots = flag; updated_at = now }
