-- ===== src/Conv/Send.antt =====
-- handlers_conv.go: `handleSend`.
use mv_chat.Prelude.{
  ℕ, zero, suc, List, [], ◌∷◌, Option, none, some, Bool, true, false, not, ◌||◌, Text, ℤ, pos,
  negsuc, positive, is_empty, is_some, if◌then◌else◌,
}
use mv_chat.Store.Types.{User, Kind, dm, room, Message, Mention, Head, empty_head}
use mv_chat.Store.Conversations.{get_conversation_by_id, get_dm_other_user}
use mv_chat.Store.Members.{get_member, get_conversation_members, is_blocked}
use mv_chat.Store.Messages.{create_message, create_message_with_view_once}
use mv_chat.Handler.World.{uuid, number, time, flag, fields, data_message, Session, Env}
use mv_chat.Handler.Monad.{
  Handler, Statement, pure, need, some_or, call, must, success, reading, send_to_users, member_list,
  ◌>>=◌, ◌>>◌, parse_uuid, require_auth, code_accepted, code_bad_request, code_forbidden,
  code_not_found, code_internal_error,
}
use mv_chat.Conv.Requests.{MsgSend}
use mv_chat.Conv.Dm.{is_ttl}

-- The mentions of the content, if it can be decoded.
abbrev pub mentions_in : Option (List Mention) → List Mention
mentions_in none = []
mentions_in (some ms) = ms

unfoldable pub head_map : MsgSend → List Mention → Head
head_map m ms = record empty_head {
  reply_to = positive m.reply_to;
  view_once = m.view_once;
  view_once_ttl = if m.view_once then positive m.view_once_ttl else none;
  mentions = ms;
}

-- `nil` if the map has no key
unfoldable pub head_json : Head → Option Head
head_json h =
    if is_some h.reply_to || h.view_once || not (is_empty h.mentions) then some h else none

-- A TTL above 0 must be one of the list.
unfoldable pub is_view_once_ttl : ℤ → Bool
is_view_once_ttl (pos zero) = true
is_view_once_ttl (pos (suc n)) = is_ttl (suc n)
is_view_once_ttl (negsuc n) = true

abbrev pub default_ttl : ℤ → ℤ
default_ttl (pos zero) = pos 10
default_ttl (pos (suc n)) = pos (suc n)
default_ttl (negsuc n) = negsuc n

unfoldable pub creating_message : ℕ → ℕ → Text → Head → MsgSend → Statement Message
creating_message conv user content h m id t =
    if m.view_once
    then create_message_with_view_once id t conv user content (head_json h) true
        (some (default_ttl m.view_once_ttl))
    else create_message id t conv user content (head_json h)

-- The user's side of a DM, where the call succeeds and finds one.
abbrev pub other_of : Option (Option User) → Option User
other_of none = none
other_of (some u) = u

abbrev pub succeeded : Option Bool → Bool
succeeded none = false
succeeded (some b) = b

abbrev pub finding_other : Session → ℕ → Statement (Option User)
finding_other s conv i t db = elim (get_dm_other_user conv s.user_id db) [
  | none ↦ none
  | some u ↦ some (u, db)
]

module _ (env : Env) (s : Session) (id : Text) where
  -- The block of the other user of a DM; errors of the two calls count as no block.
  unfoldable pub check_blocked : ℕ → Option User → Handler
  check_blocked conv none = pure tt
  check_blocked conv (some other) = do
    blocked ← call (reading (is_blocked conv other.id))
    need (not (succeeded blocked)) id code_forbidden "blocked"

  unfoldable pub check_dm : ℕ → Kind → Handler
  check_dm conv dm = do other ← call (finding_other s conv); check_blocked conv (other_of other)
  check_dm conv room = pure tt

  unfoldable pub send_reply : ℕ → MsgSend → Message → Handler
  send_reply conv m message = success id code_accepted (
      fields (
        ("conv", uuid conv)
        ∷ ("seq", number message.seq)
        ∷ ("ts", time message.created_at)
        ∷ (if m.view_once then ("viewOnce", flag true) ∷ [] else [])))

  unfoldable pub send_data : ℕ → Text → Head → Message → Handler
  send_data conv content h message = do
    members ← call (reading (get_conversation_members conv))
    if env.has_hub
        then send_to_users (member_list members)
            (data_message (record {
              conversation_id = conv;
              seq = message.seq;
              from = s.user_id;
              content = content;
              head = head_json h;
              ts = message.created_at;
            }))
            s.id
        else pure tt

  -- From the validation of the TTL to the end.
  unfoldable pub send_content : ℕ → MsgSend → Text → Handler
  unfolding creating_message
  send_content conv m content =
      let h = head_map m (mentions_in (env.mentions_of content)) in
      do
        need (not m.view_once || is_view_once_ttl m.view_once_ttl) id code_bad_request
            "invalid view-once TTL"
        sealed ← some_or (env.encrypt content) id code_internal_error "encryption failed"
        message ←
            must (creating_message conv s.user_id sealed h m) id code_internal_error
              "failed to send"
        send_reply conv m message
        send_data conv content h message

  unfoldable pub send_to : MsgSend → Text → Handler
  send_to m content = do
    conv ← parse_uuid env id m.conversation_id "invalid conv id"
    found ← must (reading (get_member conv s.user_id)) id code_internal_error "database error"
    _ ← some_or found id code_forbidden "not a member"
    row ← must (reading (get_conversation_by_id conv)) id code_not_found "conversation not found"
    c ← some_or row id code_not_found "conversation not found"
    check_dm conv c.kind
    send_content conv m content

  unfoldable pub handle_send : Option MsgSend → Handler
  handle_send req = do
    require_auth s id
    m ← some_or req id code_bad_request "missing send data"
    need (not (is_empty m.conversation_id)) id code_bad_request "missing send data"
    content ← some_or m.content id code_bad_request "missing send data"
    send_to m content
