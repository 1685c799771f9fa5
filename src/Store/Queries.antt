-- ===== src/Store/Queries.antt =====
-- The queries of store/messages.go and store/conversations.go that only the get requests make.
use mv_chat.Prelude.{
  ℕ, List, [], ◌∷◌, or_else, sort_desc, Option, none, some, Bool, false, not, ◌&&◌, ◌||◌, Text,
  ◌==◌, ltb, text_eq, is_some, page, ℤ, pos, negsuc, if◌then◌else◌, find?, any,
}
use mv_chat.Store.Types.{
  Database, Message, Member, Mention, Head, Conversation, User, Kind, dm, room,
}
use mv_chat.Store.Conversations.{get_conversation_by_id, get_user_by_id}

-- m.head->'mentions' @> [{"userId": text}]
abbrev pub mentions_user : Text → Option Head → Bool
mentions_user text none = false
mentions_user text (some h) = any (λ (m : Mention). text_eq m.user_id text) h.mentions

abbrev pub mention_limit : ℤ → ℕ
mention_limit (pos n) = if n == 0 || ltb 100 n then 50 else n
mention_limit (negsuc n) = 50

-- A member that has not left.
abbrev pub is_present : ℕ → ℕ → Member → Bool
is_present conv user r =
    r.conversation_id == conv && (r.user_id == user && not (is_some r.deleted_at))

-- The row of a message is joined with those of the user's membership, of which there is one at most.
-- The text is that of the user's id.
abbrev pub is_mention : ℕ → Text → Database → Message → Bool
is_mention user text db m =
    any (is_present m.conversation_id user) db.members
    && (mentions_user text m.head && not (is_some m.deleted_at))

unfoldable pub get_messages_mentioning_user : ℕ → Text → ℤ → Database → List Message
get_messages_mentioning_user user text limit db =
    page (λ (m : Message). m.created_at) (mention_limit limit) (is_mention user text db) db.messages

abbrev pub seq_of : Option Message → Option ℕ
seq_of none = none
seq_of (some m) = some m.seq

pub record UserConversation : Type 0 where
  pub conversation : Conversation
  pub membership : Member
  pub other_user : Option User
  pub pinned_seq : Option ℕ

-- The LEFT JOIN with dm_participants and users. A conversation has one row of participants at most.
abbrev pub dm_partner : Kind → ℕ → ℕ → Database → Option User
dm_partner room conv user db = none
dm_partner dm conv user db = elim (find? (λ p. p.conversation_id == conv) db.dm_participants) [
  | none ↦ none
  | some p ↦ get_user_by_id (if p.user1_id == user then p.user2_id else p.user1_id) db
]

-- The LEFT JOIN with messages.
abbrev pub pinned_in : Option ℕ → Database → Option ℕ
pinned_in none db = none
pinned_in (some id) db = seq_of (find? (λ m. m.id == id) db.messages)

-- The rows of the join, by the rows of members.
unfoldable pub joined_rows : ℕ → Database → List Member → List UserConversation
joined_rows user db [] = []
joined_rows user db (r ∷ rest) =
    let others = joined_rows user db rest in
    if r.user_id == user && not (is_some r.deleted_at)
    then elim (get_conversation_by_id r.conversation_id db) [
      | none ↦ others
      | some c ↦
          record {
            conversation = c;
            membership = r;
            other_user = dm_partner c.kind c.id user db;
            pinned_seq = pinned_in c.pinned_message_id db;
          }
          ∷ others
    ]
    else others

-- COALESCE(c.last_msg_at, c.created_at)
abbrev pub last_activity : UserConversation → ℕ
last_activity r = or_else r.conversation.last_msg_at r.conversation.created_at

unfoldable pub get_user_conversations : ℕ → Database → List UserConversation
get_user_conversations user db = sort_desc last_activity (joined_rows user db db.members)

-- The number of the pinned message.
unfoldable pub get_pinned_message_seq : ℕ → Database → Option ℕ
get_pinned_message_seq conv db = elim (get_conversation_by_id conv db) [
  | none ↦ none
  | some c ↦ elim c.pinned_message_id [
    | none ↦ none
    | some id ↦ seq_of (find? (λ m. m.id == id) db.messages)
  ]
]

unfoldable pub get_conversation_disappearing_ttl : ℕ → Database → Option ℕ
get_conversation_disappearing_ttl conv db = elim (get_conversation_by_id conv db) [
  | none ↦ none
  | some c ↦ c.disappearing_ttl
]
