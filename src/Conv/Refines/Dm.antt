-- ===== src/Conv/Refines/Dm.antt =====
-- handlers_conv.go against the contract: the DM handlers.
use mv_chat.Prelude.{
  ℕ, ◌<◌, ◌≡◌, Option, none, some, Bool, true, false, not, Text, ℤ, arith, ◌==◌, is_empty,
  if◌then◌else◌,
}
use mv_chat.Store.Members.{is_member}
use mv_chat.Handler.World.{Session, Env, World}
use mv_chat.Conv.Requests.{MsgDm}
use mv_chat.Conv.Dm.{
  handle_start_dm, update_settings, settings_of, has_settings, ttl_value, manage_member,
  handle_manage_dm, handle_dm,
}
use mv_chat.Conv.Step.{same, made_dm, set_ttl, set_settings}
use mv_chat.Conv.Outcome.{
  Runs, Runs-fail, Runs-if, Runs-some_or, Runs-need, Runs-must, Runs-fetch, Runs-write,
}
use mv_chat.Conv.Reply.{Runs-success, Runs-parse_uuid, Runs-require_auth, Runs-require_member}
use mv_chat.Conv.Refines.Room.{Runs-update_ttl}

module _ {q : Bool} {w0 : World} (env : Env) (s : Session) (id : Text) where
  Runs-start : (m : MsgDm) → Runs q s.user_id w0 w0.db (handle_start_dm env s id m)
  unfolding handle_start_dm
  Runs-start m = Runs-parse_uuid env id m.user _ _ λ other _.
      Runs-need id 400 _ (omega arith) (not (other == s.user_id)) _ λ differs.
        Runs-fetch id 500 _ (omega arith) _ _ (
          Runs-some_or id 404 _ (omega arith) _ _ λ user found.
            Runs-must id 500 _ (omega arith) _ _ λ i made db' e.
              Runs-success id _ _ (made_code made.1)
                (made_dm i other user made (ground arith) found e))
    where
      made_code : (b : Bool) → (if b then 201 else 200) < 300
      made_code true = omega arith
      made_code false = omega arith

  module _ (conv : ℕ) (m : MsgDm) (joined : is_member conv s.user_id w0.db ≡ true) where
    Runs-settings : Runs q s.user_id w0 w0.db (update_settings env s id conv m)
    unfolding update_settings
    Runs-settings =
        Runs-write id 500 _ (omega arith) _ _
          (Runs-success id 200 _ (omega arith) (set_settings conv (settings_of m) joined))

    Runs-manage_member :
        (t : Option ℤ) → Runs q s.user_id w0 w0.db (manage_member env s id conv m t)
    unfolding manage_member
    Runs-manage_member (some t) =
        Runs-update_ttl env s id conv t λ now. set_ttl conv (ttl_value t) joined
    Runs-manage_member none =
        Runs-if (has_settings m) _ _ (λ _. Runs-settings)
          λ _. Runs-success id 200 _ (omega arith) same

  Runs-manage : (m : MsgDm) → Runs q s.user_id w0 w0.db (handle_manage_dm env s id m)
  unfolding handle_manage_dm
  Runs-manage m = Runs-parse_uuid env id m.conversation_id _ _ λ conv _.
      Runs-require_member s id conv _ λ joined. Runs-manage_member conv m joined m.disappearing_ttl

  pub Runs-dm : (req : Option MsgDm) → Runs q s.user_id w0 w0.db (handle_dm env s id req)
  unfolding handle_dm
  Runs-dm req = Runs-require_auth s id _ λ _. Runs-some_or id 400 _ (omega arith) req _ λ m _.
      Runs-if (not (is_empty m.user)) _ _ (λ _. Runs-start m)
        λ _.
          Runs-if (not (is_empty m.conversation_id)) _ _ (λ _. Runs-manage m)
            λ _. Runs-fail id 400 _ (omega arith)
