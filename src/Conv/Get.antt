-- ===== src/Conv/Get.antt =====
-- handlers_conv.go: `handleGet` with `handleGetMessages`, `handleGetMembers`, `handleGetReceipts`.
use mv_chat.Prelude.{
  ℕ, List, [], ◌∷◌, map, Option, none, some, Bool, true, false, not, Text, is_empty,
}
use mv_chat.Store.Types.{User}
use mv_chat.Store.Conversations.{get_user_by_id}
use mv_chat.Store.Members.{get_member, get_conversation_members, get_read_receipts, ReadReceipt}
use mv_chat.Store.Messages.{get_messages}
use mv_chat.Handler.World.{ReceiptItem, UserItem, messages, members, receipts, Session, Env}
use mv_chat.Handler.Monad.{
  Handler, M, pure, fail, need, some_or, call, must, success, reading, ◌>>=◌, ◌>>◌, parse_uuid,
  require_auth, require_member, code_ok, code_bad_request, code_forbidden, code_internal_error,
}
use mv_chat.Conv.Requests.{
  MsgGet, What, what_messages, what_members, what_receipts, what_contacts, what_user, what_mentions,
  what_conversations, what_unknown, what_conversation,
}
use mv_chat.Conv.Shown.{found_user, item_of, member_item}
use mv_chat.Conv.Ask.{
  handle_get_conversations, handle_get_contacts, handle_get_user, handle_get_mentions,
  handle_get_conversation,
}

module _ (env : Env) where
  abbrev pub cons_some : Option User → List UserItem → List UserItem
  cons_some none us = us
  cons_some (some u) us = member_item env u ∷ us

  -- The loop over the members; one that is not found is left out.
  unfoldable pub member_items : List ℕ → M (List UserItem)
  member_items [] = pure []
  member_items (u ∷ us) = call (reading (get_user_by_id u)) >>= λ r.
      member_items us >>= λ items. pure (cons_some (found_user r) items)

-- The queries that read a row through a pointer without a test.
abbrev pub may_panic : What → Bool
may_panic what_user = true
may_panic what_conversation = true
may_panic _ = false

abbrev receipt_item : ReadReceipt → ReceiptItem
receipt_item r = record { user = r.user_id; read_seq = r.read_seq; recv_seq = r.recv_seq }

module _ (env : Env) (s : Session) (id : Text) where
  unfoldable pub handle_get_messages : MsgGet → Handler
  handle_get_messages m = do
    need (not (is_empty m.conversation_id)) id code_bad_request "missing conv"
    conv ← parse_uuid env id m.conversation_id "invalid conv id"
    found ← must (reading (get_member conv s.user_id)) id code_internal_error "database error"
    row ← some_or found id code_forbidden "not a member"
    ms ←
        must (reading (get_messages conv s.user_id m.before m.limit row.clear_seq)) id
          code_internal_error "failed to get messages"
    success id code_ok (messages (map (item_of env) ms))

  unfoldable pub handle_get_members : MsgGet → Handler
  handle_get_members m = do
    need (not (is_empty m.conversation_id)) id code_bad_request "missing conv"
    conv ← parse_uuid env id m.conversation_id "invalid conv id"
    require_member s id conv
    us ←
        must (reading (get_conversation_members conv)) id code_internal_error
          "failed to get members"
    items ← member_items env us
    success id code_ok (members items)

  unfoldable pub handle_get_receipts : MsgGet → Handler
  handle_get_receipts m = do
    need (not (is_empty m.conversation_id)) id code_bad_request "missing conv"
    conv ← parse_uuid env id m.conversation_id "invalid conv id"
    require_member s id conv
    rs ← must (reading (get_read_receipts conv)) id code_internal_error "failed to get receipts"
    success id code_ok (receipts (map receipt_item rs))

  -- The cases of `get.What`.
  unfoldable pub dispatch_get : What → MsgGet → Handler
  dispatch_get what_messages m = handle_get_messages m
  dispatch_get what_members m = handle_get_members m
  dispatch_get what_receipts m = handle_get_receipts m
  dispatch_get what_contacts m = handle_get_contacts env s id
  dispatch_get what_user m = handle_get_user env s id m
  dispatch_get what_mentions m = handle_get_mentions env s id m
  dispatch_get what_conversation m = handle_get_conversation env s id m
  dispatch_get what_conversations m = handle_get_conversations env s id
  dispatch_get what_unknown m = fail id code_bad_request "unknown what"

  unfoldable pub handle_get : What → Option MsgGet → Handler
  handle_get what req = do
    require_auth s id
    m ← some_or req id code_bad_request "missing get data"
    dispatch_get what m
