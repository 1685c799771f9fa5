-- ===== src/Conv/Refines/Contact.antt =====
-- handlers_contact.go against the contract.
use mv_chat.Prelude.{Option, Bool, not, ◌&&◌, Text, arith, ◌==◌, is_empty, is_some}
use mv_chat.Handler.World.{Session, Env, World}
use mv_chat.Conv.Requests.{MsgContact}
use mv_chat.Conv.Contact.{
  choose_contact, handle_add_contact, handle_remove_contact, handle_update_contact_nickname,
  handle_contact,
}
use mv_chat.Conv.Step.{made_contact, dropped_contact, named_contact}
use mv_chat.Conv.Outcome.{Runs, Runs-fail, Runs-if, Runs-some_or, Runs-need, Runs-fetch, Runs-write}
use mv_chat.Conv.Reply.{Runs-success, Runs-parse_uuid, Runs-require_auth}

module _ {q : Bool} {w0 : World} (env : Env) (s : Session) (id : Text) where
  Runs-add : (t : Text) → Runs q s.user_id w0 w0.db (handle_add_contact env s id t)
  unfolding handle_add_contact
  Runs-add t = Runs-parse_uuid env id t _ _ λ other _.
      Runs-need id 400 _ (omega arith) (not (other == s.user_id)) _ λ differs.
        Runs-fetch id 500 _ (omega arith) _ _ (
          Runs-some_or id 404 _ (omega arith) _ _ λ user found.
            Runs-write id 500 _ (omega arith) _ _
              (Runs-success id 200 _ (omega arith) (made_contact other user (ground arith) found)))

  Runs-remove : (t : Text) → Runs q s.user_id w0 w0.db (handle_remove_contact env s id t)
  unfolding handle_remove_contact
  Runs-remove t = Runs-parse_uuid env id t _ _ λ other _.
      Runs-write id 500 _ (omega arith) _ _
        (Runs-success id 200 _ (omega arith) (dropped_contact other))

  Runs-nickname :
      (t : Text) (n : Option Text)
      → Runs q s.user_id w0 w0.db (handle_update_contact_nickname env s id t n)
  unfolding handle_update_contact_nickname
  Runs-nickname t n = Runs-parse_uuid env id t _ _ λ other _.
      Runs-write id 500 _ (omega arith) _ _
        (Runs-success id 200 _ (omega arith) (named_contact other n))

  pub Runs-contact :
      (req : Option MsgContact) → Runs q s.user_id w0 w0.db (handle_contact env s id req)
  unfolding handle_contact choose_contact
  Runs-contact req = Runs-require_auth s id _ λ _. Runs-some_or id 400 _ (omega arith) req _ λ m _.
      Runs-if (not (is_empty m.add)) _ _ (λ _. Runs-add m.add)
        λ _.
          Runs-if (not (is_empty m.remove)) _ _ (λ _. Runs-remove m.remove)
            λ _.
              Runs-if (not (is_empty m.user) && is_some m.nickname) _ _
                (λ _. Runs-nickname m.user m.nickname) λ _. Runs-fail id 400 _ (omega arith)
