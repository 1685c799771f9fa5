-- ===== src/Conv/Ask.antt =====
-- handlers_conv.go: `handleGetContacts`, `handleGetUser`, `handleGetMentions`,
-- `handleGetConversation` and `handleGetConversations`.
use mv_chat.Prelude.{
  ℕ, zero, suc, ◌-◌, List, [], ◌∷◌, map, Option, none, some, Bool, true, false, not, Text, leb,
  is_empty, is_some, if◌then◌else◌, ℤ, pos, negsuc,
}
use mv_chat.Store.Types.{User, Message, Member, Contact, Conversation, Kind, dm, room}
use mv_chat.Store.Conversations.{get_user_by_id, get_conversation_by_id, get_dm_other_user}
use mv_chat.Store.Members.{get_member}
use mv_chat.Store.Contacts.{get_contacts}
use mv_chat.Store.Queries.{
  UserConversation, get_user_conversations, get_messages_mentioning_user, get_pinned_message_seq,
}
use mv_chat.Handler.World.{
  UserItem, ContactItem, MentionItem, OwnItem, PinItem, contacts, one_user, mentioning,
  conversation, conversations, ConversationItem, Session, Env,
}
use mv_chat.Handler.Monad.{
  Handler, M, Statement, pure, stop, need, call, must, success, reading, ◌>>=◌, ◌>>◌, parse_uuid,
  require_member, code_ok, code_bad_request, code_not_found, code_internal_error,
}
use mv_chat.Conv.Requests.{MsgGet}
use mv_chat.Conv.Shown.{item_of, member_item, found_user}

module _ (env : Env) where
  abbrev pub known_item : Option User → Option UserItem
  known_item none = none
  known_item (some u) = some (member_item env u)

  abbrev pub contact_item : Contact → Option User → ContactItem
  contact_item c u = record {
    user = c.contact_id;
    source = c.source;
    created_at = c.created_at;
    nickname = c.nickname;
    known = known_item u;
  }

  -- The loop over the contacts, with a look at the user of each.
  unfoldable pub contact_items : List Contact → M (List ContactItem)
  contact_items [] = pure []
  contact_items (c ∷ rest) = call (reading (get_user_by_id c.contact_id)) >>= λ r.
      contact_items rest >>= λ items. pure (contact_item c (found_user r) ∷ items)

  abbrev pub mention_item : Message → MentionItem
  mention_item m = record {
    conv = m.conversation_id;
    item = record (item_of env m) { view_once = false };
  }

-- `conv.LastSeq - member.ReadSeq`
abbrev pub minus : ℕ → ℕ → ℤ
minus a b = if leb b a then pos (a - b) else negsuc (b - suc a)

abbrev pub own_item : ℕ → Option (Option Member) → Option OwnItem
own_item last_seq (some (some r)) = some (record {
  read_seq = r.read_seq;
  unread = minus last_seq r.read_seq;
  favorite = r.favorite;
  muted = r.muted;
  private = r.private;
})
own_item last_seq _ = none

abbrev pub pin_item : Conversation → Option (Option ℕ) → Option PinItem
pin_item c (some (some seq)) =
    some (record { pinned_seq = seq; pinned_at = c.pinned_at; pinned_by = c.pinned_by })
pin_item c _ = none

abbrev pub other_of : Option (Option (Option User)) → Option User
other_of (some (some u)) = u
other_of _ = none

abbrev pub public_in : Kind → Option Text → Option Text
public_in dm public = none
public_in room public = public

abbrev pub is_dm : Kind → Bool
is_dm dm = true
is_dm room = false

-- A call that is made only if the test holds.
unfoldable pub call_if : {A : Type 0} → Bool → Statement A → M (Option A)
call_if true st = call st
call_if false st = pure none

-- A conversation of the list, of which the membership's `private` is not told.
abbrev pub listed_item : Env → UserConversation → ConversationItem
listed_item env r =
    let c = r.conversation in
    let own : OwnItem = record {
      read_seq = r.membership.read_seq;
      unread = minus c.last_seq r.membership.read_seq;
      favorite = r.membership.favorite;
      muted = r.membership.muted;
      private = none;
    } in
    record {
      id = c.id;
      kind = c.kind;
      last_seq = c.last_seq;
      own = some own;
      last_msg_at = c.last_msg_at;
      disappearing_ttl = c.disappearing_ttl;
      pin = pin_item c (some r.pinned_seq);
      user = known_item env r.other_user;
      public = public_in c.kind c.public;
      no_screenshots = c.no_screenshots;
    }

module _ (env : Env) (s : Session) (id : Text) where
  unfoldable pub handle_get_conversations : Handler
  handle_get_conversations = do
    rows ←
        must (reading (get_user_conversations s.user_id)) id code_internal_error
          "failed to get conversations"
    success id code_ok (conversations (map (listed_item env) rows))

  unfoldable pub handle_get_contacts : Handler
  handle_get_contacts = do
    rows ← must (reading (get_contacts s.user_id)) id code_internal_error "failed to get contacts"
    items ← contact_items env rows
    success id code_ok (contacts items)

  -- A user who is not found is a nil pointer that the code reads: a panic.
  unfoldable pub tell_user : Option User → Handler
  tell_user none = stop
  tell_user (some u) = success id code_ok (one_user (member_item env u))

  unfoldable pub handle_get_user : MsgGet → Handler
  handle_get_user m = do
    need (not (is_empty m.user)) id code_bad_request "missing user id"
    user ← parse_uuid env id m.user "invalid user id"
    found ← must (reading (get_user_by_id user)) id code_not_found "user not found"
    tell_user found

  abbrev pub handler_limit : ℤ → ℤ
  handler_limit (pos zero) = pos 50
  handler_limit (pos (suc n)) = pos (suc n)
  handler_limit (negsuc n) = pos 50

  unfoldable pub handle_get_mentions : MsgGet → Handler
  handle_get_mentions m = do
    rows ←
        must
          (reading (
            get_messages_mentioning_user s.user_id (env.uuid_text s.user_id)
              (handler_limit m.limit)))
          id code_internal_error "failed to get mentions"
    success id code_ok (mentioning (map (mention_item env) rows))

  unfoldable pub tell_conversation : ℕ → Option Conversation → Handler
  tell_conversation conv none = stop
  tell_conversation conv (some c) = do
    row ← call (reading (get_member conv s.user_id))
    pinned ← call_if (is_some c.pinned_message_id) (reading (get_pinned_message_seq conv))
    other ← call_if (is_dm c.kind) (reading (get_dm_other_user conv s.user_id))
    success id code_ok (
        conversation (record {
          id = c.id;
          kind = c.kind;
          last_seq = c.last_seq;
          own = own_item c.last_seq row;
          last_msg_at = c.last_msg_at;
          disappearing_ttl = c.disappearing_ttl;
          pin = pin_item c pinned;
          user = known_item env (other_of other);
          public = public_in c.kind c.public;
          no_screenshots = c.no_screenshots;
        }))

  unfoldable pub handle_get_conversation : MsgGet → Handler
  handle_get_conversation m = do
    need (not (is_empty m.conversation_id)) id code_bad_request "missing conv id"
    conv ← parse_uuid env id m.conversation_id "invalid conv id"
    require_member s id conv
    found ← must (reading (get_conversation_by_id conv)) id code_not_found "conversation not found"
    tell_conversation conv found
