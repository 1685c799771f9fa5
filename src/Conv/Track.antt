-- ===== src/Conv/Track.antt =====
-- handlers_conv.go: `handleRead`, `handleRecv`, `handleClear`, `handleTyping`, `handlePin`.
use mv_chat.Prelude.{
  ℕ, zero, suc, ◌+◌, List, [], ◌∷◌, Option, none, some, Bool, true, false, not, Text, ℤ, pos,
  negsuc, positive, is_empty, ◌==◌, if◌then◌else◌,
}
use mv_chat.Store.Types.{Message, MessageRead, Kind, dm, room, Role}
use mv_chat.Store.Conversations.{get_conversation_by_id, set_pinned_message}
use mv_chat.Store.Members.{is_member, update_read_seq, update_recv_seq, update_clear_seq}
use mv_chat.Store.Messages.{get_messages}
use mv_chat.Store.Reads.{record_message_read}
use mv_chat.Handler.World.{uuid, number, time, fields, Session, Env}
use mv_chat.Handler.Monad.{
  Handler, Statement, pure, stop, need, some_or, now, call, must, success, reading, writing, ◌>>=◌,
  ◌>>◌, broadcast, parse_uuid, require_auth, require_member, info_of, code_ok, code_bad_request,
  code_forbidden, code_not_found, code_internal_error,
}
use mv_chat.Conv.Requests.{MsgSeq}
use mv_chat.Conv.Room.{is_privileged, require_role}
use mv_chat.Conv.Change.{require_message}

abbrev pub recording : ℕ → ℕ → Statement (Option MessageRead)
recording message user i t = record_message_read t message user

-- The result of a query whose error skips the loop.
abbrev pub found_messages : Option (List Message) → List Message
found_messages none = []
found_messages (some ms) = ms

abbrev pub may_pin : Kind → Role → Bool
may_pin dm r = true
may_pin room r = is_privileged r

module _ (s : Session) where
  -- The loop over the messages; an error of a call is dropped.
  unfoldable pub record_reads : List Message → Handler
  record_reads [] = pure tt
  record_reads (m ∷ ms) =
      let rest = record_reads ms in
      if not (m.from_user_id == s.user_id)
      then (call (recording m.id s.user_id) >>= λ _. rest)
      else rest

module _ (env : Env) (s : Session) (id : Text) where
  -- The end of `handleRead`.
  unfoldable pub reply_read : ℕ → ℕ → Handler
  reply_read conv seq = do
    n ← now
    success id code_ok (fields (("conv", uuid conv) ∷ ("seq", number seq) ∷ ("ts", time n) ∷ []))
    broadcast env conv (let i = info_of conv s.user_id "read" n in record i { seq = seq }) s.id

  unfoldable pub read_at : ℕ → ℕ → Handler
  read_at conv seq = do
    _ ←
        must (writing (λ t. update_read_seq t conv s.user_id seq)) id code_internal_error
          "failed to update"
    found ← call (reading (get_messages conv s.user_id (pos (seq + 1)) (pos seq) 0))
    record_reads s (found_messages found)
    reply_read conv seq

  unfoldable pub handle_read : Option MsgSeq → Handler
  handle_read req = do
    require_auth s id
    m ← some_or req id code_bad_request "missing read data"
    need (not (is_empty m.conversation_id)) id code_bad_request "missing read data"
    seq ← some_or (positive m.seq) id code_bad_request "missing read data"
    conv ← parse_uuid env id m.conversation_id "invalid conv id"
    read_at conv seq

  unfoldable pub recv_at : ℕ → ℕ → Handler
  recv_at conv seq = do
    _ ←
        must (writing (λ t. update_recv_seq t conv s.user_id seq)) id code_internal_error
          "failed to update"
    n ← now
    success id code_ok (fields (("conv", uuid conv) ∷ ("seq", number seq) ∷ ("ts", time n) ∷ []))
    broadcast env conv (let i = info_of conv s.user_id "recv" n in record i { seq = seq }) s.id

  unfoldable pub handle_recv : Option MsgSeq → Handler
  handle_recv req = do
    require_auth s id
    m ← some_or req id code_bad_request "missing recv data"
    need (not (is_empty m.conversation_id)) id code_bad_request "missing recv data"
    seq ← some_or (positive m.seq) id code_bad_request "missing recv data"
    conv ← parse_uuid env id m.conversation_id "invalid conv id"
    recv_at conv seq

  unfoldable pub handle_clear : Option MsgSeq → Handler
  handle_clear req = do
    require_auth s id
    m ← some_or req id code_bad_request "missing clear data"
    need (not (is_empty m.conversation_id)) id code_bad_request "missing clear data"
    seq ← some_or (positive m.seq) id code_bad_request "missing clear data"
    conv ← parse_uuid env id m.conversation_id "invalid conv id"
    require_member s id conv
    _ ←
        must (writing (λ t. update_clear_seq t conv s.user_id seq)) id code_internal_error
          "failed to update"
    n ← now
    success id code_ok (fields (("conv", uuid conv) ∷ ("seq", number seq) ∷ ("ts", time n) ∷ []))

  unfoldable pub notify_typing : ℕ → Option Bool → Handler
  notify_typing conv none = stop
  notify_typing conv (some false) = stop
  notify_typing conv (some true) = do
    n ← now
    broadcast env conv (info_of conv s.user_id "typing" n) s.id

  -- A conversation that does not parse, an error and a user who is no member are all ignored.
  unfoldable pub typing_in : Option ℕ → Handler
  typing_in none = stop
  typing_in (some conv) = do
    found ← call (reading (is_member conv s.user_id))
    notify_typing conv found

  -- The request carries the conversation alone.
  unfoldable pub handle_typing : Option Text → Handler
  handle_typing req = do
    require_auth s id
    conversation_id ← some_or req id code_bad_request "missing typing data"
    need (not (is_empty conversation_id)) id code_bad_request "missing typing data"
    typing_in (env.parse_uuid conversation_id)

  unfoldable pub unpin : ℕ → Handler
  unpin conv = do
    n ← now
    _ ←
        must (writing (λ t. set_pinned_message t conv none s.user_id)) id code_internal_error
          "failed to unpin"
    success id code_ok (fields (("conv", uuid conv) ∷ ("unpinnedAt", time n) ∷ []))
    broadcast env conv (info_of conv s.user_id "unpin" n) []

  -- The number of the message that was found is the request's.
  unfoldable pub pin : ℕ → ℤ → Handler
  pin conv seq = do
    n ← now
    message ← require_message env s id conv seq
    _ ←
        must (writing (λ t. set_pinned_message t conv (some message.id) s.user_id)) id
          code_internal_error "failed to pin"
    success id code_ok (fields (("seq", number message.seq) ∷ ("pinnedAt", time n) ∷ []))
    broadcast env conv (let i = info_of conv s.user_id "pin" n in record i { seq = message.seq }) []

  -- The sequence number 0 removes the pin.
  unfoldable pub pin_or_unpin : ℕ → ℤ → Handler
  pin_or_unpin conv (pos zero) = unpin conv
  pin_or_unpin conv (pos (suc n)) = pin conv (pos (suc n))
  pin_or_unpin conv (negsuc n) = pin conv (negsuc n)

  unfoldable pub handle_pin : Option MsgSeq → Handler
  handle_pin req = do
    require_auth s id
    m ← some_or req id code_bad_request "missing pin data"
    need (not (is_empty m.conversation_id)) id code_bad_request "missing pin data"
    conv ← parse_uuid env id m.conversation_id "invalid conv id"
    row ← must (reading (get_conversation_by_id conv)) id code_internal_error "database error"
    c ← some_or row id code_not_found "conversation not found"
    role ← require_role env s id conv
    need (may_pin c.kind role) id code_forbidden "only owner or admin can pin"
    pin_or_unpin conv m.seq
