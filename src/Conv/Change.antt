-- ===== src/Conv/Change.antt =====
-- handlers_conv.go: `handleEdit`, `handleUnsend`, `handleDelete`, `handleReact`.
use mv_chat.Prelude.{
  ℕ, ◌+◌, ◌*◌, [], ◌∷◌, Option, none, some, Bool, not, Text, ℤ, pos, positive, is_empty, ltb, ◌==◌,
  if◌then◌else◌,
}
use mv_chat.Store.Types.{Message, minute}
use mv_chat.Store.Messages.{
  get_message_by_seq, edit_message, unsend_message, delete_message_for_everyone,
  delete_message_for_user, get_edit_count,
}
use mv_chat.Store.Reactions.{add_reaction}
use mv_chat.Handler.World.{uuid, number, time, text, fields, Session, Env}
use mv_chat.Handler.Monad.{
  Handler, M, Statement, need, some_or, now, call, must, success, reading, writing, ◌>>=◌, ◌>>◌,
  broadcast, parse_uuid, require_auth, require_member, info_of, code_ok, code_bad_request,
  code_forbidden, code_not_found, code_internal_error,
}
use mv_chat.Conv.Requests.{MsgEdit, MsgDelete, MsgReact, MsgSeq}

-- time.Since(created) > window
unfoldable pub has_passed : ℕ → ℕ → ℕ → Bool
has_passed window created n = ltb (created + window) n

abbrev pub counting_edits : ℕ → ℕ → Statement ℕ
counting_edits conv seq i t db = elim (get_edit_count conv seq db) [
  | none ↦ none
  | some k ↦ some (k, db)
]

-- An error of the call counts as no edit.
abbrev pub edit_count : Option ℕ → ℕ
edit_count none = 0
edit_count (some k) = k

abbrev pub reacting : ℕ → ℕ → ℕ → Text → Statement (Unit {0})
reacting conv seq user e i t db = elim (add_reaction t conv seq user e db) [
  | none ↦ none
  | some db' ↦ some (tt, db')
]

module _ (env : Env) (s : Session) (id : Text) where
  -- The message under a positive number.
  unfoldable pub require_message : ℕ → ℤ → M Message
  require_message conv seq = do
    found ← must (reading (get_message_by_seq conv seq)) id code_internal_error "database error"
    some_or found id code_not_found "message not found"

  unfoldable pub edit_at : ℕ → ℕ → Text → Handler
  edit_at conv seq content = do
    orig ← require_message conv (pos seq)
    need (orig.from_user_id == s.user_id) id code_forbidden "not your message"
    n ← now
    need (not (has_passed (15 * minute) orig.created_at n)) id code_forbidden "edit window expired"
    counted ← call (counting_edits conv seq)
    need (ltb (edit_count counted) 10) id code_forbidden "max edits reached"
    sealed ← some_or (env.encrypt content) id code_internal_error "encryption failed"
    _ ← must (writing (λ t. edit_message t conv seq sealed)) id code_internal_error "failed to edit"
    success id code_ok
        (fields (("conv", uuid conv) ∷ ("seq", number seq) ∷ ("editedAt", time n) ∷ []))
    broadcast env conv
        (let i = info_of conv s.user_id "edit" n in record i { seq = seq; content = some content })
        s.id

  unfoldable pub handle_edit : Option MsgEdit → Handler
  handle_edit req = do
    require_auth s id
    m ← some_or req id code_bad_request "missing edit data"
    need (not (is_empty m.conversation_id)) id code_bad_request "missing edit data"
    seq ← some_or (positive m.seq) id code_bad_request "missing edit data"
    content ← some_or m.content id code_bad_request "missing edit data"
    conv ← parse_uuid env id m.conversation_id "invalid conv id"
    edit_at conv seq content

  unfoldable pub unsend_at : ℕ → ℕ → Handler
  unsend_at conv seq = do
    orig ← require_message conv (pos seq)
    need (orig.from_user_id == s.user_id) id code_forbidden "not your message"
    n ← now
    need (not (has_passed (5 * minute) orig.created_at n)) id code_forbidden "unsend window expired"
    _ ← must (writing (λ t. unsend_message t conv seq)) id code_internal_error "failed to unsend"
    success id code_ok (fields (("conv", uuid conv) ∷ ("seq", number seq) ∷ ("ts", time n) ∷ []))
    broadcast env conv (let i = info_of conv s.user_id "unsend" n in record i { seq = seq }) s.id

  unfoldable pub handle_unsend : Option MsgSeq → Handler
  handle_unsend req = do
    require_auth s id
    m ← some_or req id code_bad_request "missing unsend data"
    need (not (is_empty m.conversation_id)) id code_bad_request "missing unsend data"
    seq ← some_or (positive m.seq) id code_bad_request "missing unsend data"
    conv ← parse_uuid env id m.conversation_id "invalid conv id"
    unsend_at conv seq

  unfoldable pub delete_for_everyone : ℕ → ℕ → Message → Handler
  delete_for_everyone conv seq orig = do
    need (orig.from_user_id == s.user_id) id code_forbidden "not your message"
    _ ←
        must (writing (λ t. delete_message_for_everyone t conv seq)) id code_internal_error
          "failed to delete"
    n ← now
    success id code_ok (fields (("conv", uuid conv) ∷ ("seq", number seq) ∷ ("ts", time n) ∷ []))
    broadcast env conv (let i = info_of conv s.user_id "delete" n in record i { seq = seq }) s.id

  unfoldable pub delete_for_me : ℕ → ℕ → Message → Handler
  delete_for_me conv seq orig = do
    _ ←
        must (writing (λ t. delete_message_for_user t orig.id s.user_id)) id code_internal_error
          "failed to delete"
    n ← now
    success id code_ok (fields (("conv", uuid conv) ∷ ("seq", number seq) ∷ ("ts", time n) ∷ []))

  unfoldable pub handle_delete : Option MsgDelete → Handler
  handle_delete req = do
    require_auth s id
    m ← some_or req id code_bad_request "missing delete data"
    need (not (is_empty m.conversation_id)) id code_bad_request "missing delete data"
    seq ← some_or (positive m.seq) id code_bad_request "missing delete data"
    conv ← parse_uuid env id m.conversation_id "invalid conv id"
    orig ← require_message conv (pos seq)
    if m.for_everyone then delete_for_everyone conv seq orig else delete_for_me conv seq orig

  unfoldable pub handle_react : Option MsgReact → Handler
  handle_react req = do
    require_auth s id
    m ← some_or req id code_bad_request "missing react data"
    need (not (is_empty m.conversation_id)) id code_bad_request "missing react data"
    seq ← some_or (positive m.seq) id code_bad_request "missing react data"
    need (not (is_empty m.emoji)) id code_bad_request "missing react data"
    conv ← parse_uuid env id m.conversation_id "invalid conv id"
    require_member s id conv
    _ ← must (reacting conv seq s.user_id m.emoji) id code_internal_error "failed to react"
    n ← now
    success id code_ok (
        fields (
          ("conv", uuid conv)
          ∷ ("seq", number seq)
          ∷ ("emoji", text m.emoji)
          ∷ ("ts", time n)
          ∷ []))
    broadcast env conv
        (let i = info_of conv s.user_id "react" n in record i { seq = seq; emoji = m.emoji }) s.id
