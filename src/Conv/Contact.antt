-- ===== src/Conv/Contact.antt =====
-- handlers_contact.go.
use mv_chat.Prelude.{
  [], ◌∷◌, Option, none, not, ◌&&◌, Text, codes, ◌==◌, is_empty, is_some, if◌then◌else◌,
}
use mv_chat.Store.Conversations.{get_user_by_id}
use mv_chat.Store.Contacts.{add_contact, remove_contact, update_contact_nickname}
use mv_chat.Handler.World.{uuid, raw, fields, Session, Env}
use mv_chat.Handler.Monad.{
  Handler, fail, need, some_or, must, success, reading, writing, ◌>>=◌, ◌>>◌, require_auth,
  parse_uuid, code_ok, code_bad_request, code_not_found, code_internal_error,
}
use mv_chat.Conv.Requests.{MsgContact}
use mv_chat.Conv.Dm.{with_raw}

module _ (env : Env) (s : Session) (id : Text) where
  unfoldable pub handle_add_contact : Text → Handler
  handle_add_contact user_id = do
    contact ← parse_uuid env id user_id "invalid user id"
    need (not (contact == s.user_id)) id code_bad_request "cannot add yourself as contact"
    found ← must (reading (get_user_by_id contact)) id code_internal_error "database error"
    user ← some_or found id code_not_found "user not found"
    _ ←
        must (writing (λ n. add_contact n s.user_id contact (codes "manual") none)) id
          code_internal_error "failed to add contact"
    success id code_ok (fields (("user", uuid contact) ∷ ("public", raw user.public) ∷ []))

  unfoldable pub handle_remove_contact : Text → Handler
  handle_remove_contact user_id = do
    contact ← parse_uuid env id user_id "invalid user id"
    _ ←
        must (writing (λ n. remove_contact s.user_id contact)) id code_internal_error
          "failed to remove contact"
    success id code_ok (fields (("user", uuid contact) ∷ []))

  unfoldable pub handle_update_contact_nickname : Text → Option Text → Handler
  handle_update_contact_nickname user_id nickname = do
    contact ← parse_uuid env id user_id "invalid user id"
    _ ←
        must (writing (λ n. update_contact_nickname s.user_id contact nickname)) id
          code_internal_error "failed to update nickname"
    success id code_ok (fields (("user", uuid contact) ∷ with_raw "nickname" nickname []))

  unfoldable pub choose_contact : MsgContact → Handler
  choose_contact m =
      if not (is_empty m.add)
      then handle_add_contact m.add
      else if not (is_empty m.remove)
      then handle_remove_contact m.remove
      else if not (is_empty m.user) && is_some m.nickname
      then handle_update_contact_nickname m.user m.nickname
      else fail id code_bad_request "invalid contact request"

  unfoldable pub handle_contact : Option MsgContact → Handler
  handle_contact req = do
    require_auth s id
    m ← some_or req id code_bad_request "missing contact data"
    choose_contact m
