-- ===== src/Conv/Refines/Room.antt =====
-- handlers_conv.go against the contract: the room handlers.
use Prim.Native.String.{String}
use text.Mathlib.Text.{◌==◌ as str_eq}
use mv_chat.Prelude.{ℕ, ◌≡◌, Option, none, some, Bool, not, ◌&&◌, Text, ℤ, arith, not-true}
use mv_chat.Store.Types.{Role}
use mv_chat.Store.Conversations.{update_disappearing_ttl}
use mv_chat.Store.Members.{get_member_role}
use mv_chat.Handler.World.{Session, Env, World}
use mv_chat.Handler.Monad.{Handler, ◌>>=◌}
use mv_chat.Conv.Requests.{MsgRoom}
use mv_chat.Conv.Room.{
  is_owner, is_admin, is_privileged, require_role, handle_create_room, handle_invite_to_room,
  handle_leave_room, handle_kick_from_room, update_screenshots, update_public, update_fields,
  handle_update_room, dispatch_room, handle_room,
}
use mv_chat.Conv.Dm.{update_ttl, ttl_value, is_ttl_or_off}
use mv_chat.Conv.Step.{
  Step, CanManage, by_role, by_rank, made_room, set_ttl_managed, set_screenshots, set_public,
  invited, left, kicked,
}
use mv_chat.Conv.Outcome.{
  Runs, Runs-assoc, Runs-fail, Runs-now, Runs-if, Runs-some_or, Runs-need, Runs-must, Runs-fetch,
  Runs-write,
}
use mv_chat.Conv.Reply.{
  Ends-broadcast, Runs-success, Runs-success_then, Runs-parse_uuid, Runs-require_auth,
}

module _ {q : Bool} {w0 : World} (env : Env) (s : Session) (id : Text) where
  pub Runs-require_role :
      (conv : ℕ) (k : Role → Handler)
      → ((r : Role)
          → get_member_role conv s.user_id w0.db ≡ some r
          → Runs q s.user_id w0 w0.db (k r))
      → Runs q s.user_id w0 w0.db (require_role env s id conv >>= k)
  unfolding require_role
  Runs-require_role conv k f =
      Runs-assoc _ _ k
        (Runs-fetch id 500 _ (omega arith) _ _ (Runs-some_or id 403 _ (omega arith) _ k f))

  Runs-create : (m : MsgRoom) → Runs q s.user_id w0 w0.db (handle_create_room env s id m)
  unfolding handle_create_room
  Runs-create m =
      Runs-must id 500 _ (omega arith) _ _
        λ i c db' e. Runs-success id 201 _ (omega arith) (made_room i m.desc c e)

  Runs-invite : (m : MsgRoom) → Runs q s.user_id w0 w0.db (handle_invite_to_room env s id m)
  unfolding handle_invite_to_room
  Runs-invite m = Runs-parse_uuid env id m.id _ _ λ conv _.
      Runs-parse_uuid env id m.user _ _ λ target _. Runs-require_role conv _ λ r is.
        Runs-need id 403 _ (omega arith) (is_privileged r) _ λ may.
          Runs-fetch id 500 _ (omega arith) _ _ (
            Runs-some_or id 404 _ (omega arith) _ _ λ user found.
              Runs-write id 500 _ (omega arith) _ _ (
                Runs-now _ (
                  Runs-success_then id 200 _ (omega arith) _
                    (invited conv target user (by_role r is may) found)
                    (Ends-broadcast env conv _ _))))

  Runs-leave : (m : MsgRoom) → Runs q s.user_id w0 w0.db (handle_leave_room env s id m)
  unfolding handle_leave_room
  Runs-leave m = Runs-parse_uuid env id m.id _ _ λ conv _. Runs-require_role conv _ λ r is.
      Runs-need id 403 _ (omega arith) (not (is_owner r)) _ λ may.
        Runs-write id 500 _ (omega arith) _ _ (
          Runs-now _ (
            Runs-success_then id 200 _ (omega arith) _ (left conv r is (not-true _ may))
              (Ends-broadcast env conv _ _)))

  Runs-kick : (m : MsgRoom) → Runs q s.user_id w0 w0.db (handle_kick_from_room env s id m)
  unfolding handle_kick_from_room
  Runs-kick m = Runs-parse_uuid env id m.id _ _ λ conv _.
      Runs-parse_uuid env id m.user _ _ λ target _. Runs-require_role conv _ λ r is.
        Runs-need id 403 _ (omega arith) (is_privileged r) _ λ may.
          Runs-fetch id 500 _ (omega arith) _ _ (
            Runs-some_or id 404 _ (omega arith) _ _ λ t found.
              Runs-need id 403 _ (omega arith) (not (is_owner t)) _ λ low.
                Runs-need id 403 _ (omega arith) (not (is_admin r && is_admin t)) _ λ lower.
                  Runs-write id 500 _ (omega arith) _ _ (
                    Runs-now _ (
                      Runs-success_then id 200 _ (omega arith) _
                        (kicked conv target
                          (by_rank r t is found may (not-true _ low) (not-true _ lower)))
                        (Ends-broadcast env conv _ _))))

  -- The TTL of a conversation, for a caller that may set it.
  pub Runs-update_ttl :
      (conv : ℕ) (t : ℤ)
      → ((now : ℕ)
          → Step s.user_id now w0.faults w0.db
              (update_disappearing_ttl now conv (ttl_value t) w0.db))
      → Runs q s.user_id w0 w0.db (update_ttl env s id conv t)
  unfolding update_ttl
  Runs-update_ttl conv t st = Runs-need id 400 _ (omega arith) (is_ttl_or_off t) _ λ _.
      Runs-write id 500 _ (omega arith) _ _ (
        Runs-now _
          (Runs-success_then id 200 _ (omega arith) _ (st w0.now) (Ends-broadcast env conv _ _)))

  module _ (conv : ℕ) (m : MsgRoom) (may : CanManage s.user_id conv w0.db) where
    Runs-screenshots : (b : Bool) → Runs q s.user_id w0 w0.db (update_screenshots env s id conv b)
    unfolding update_screenshots
    Runs-screenshots b = Runs-write id 500 _ (omega arith) _ _ (
        Runs-now _ (
          Runs-success_then id 200 _ (omega arith) _ (set_screenshots conv b may)
            (Ends-broadcast env conv _ _)))

    Runs-public : (p : Option Text) → Runs q s.user_id w0 w0.db (update_public env s id conv p)
    unfolding update_public
    Runs-public p = Runs-write id 500 _ (omega arith) _ _ (
        Runs-now _ (
          Runs-success_then id 200 _ (omega arith) _ (set_public conv p may)
            (Ends-broadcast env conv _ _)))

    Runs-update_fields :
        (t : Option ℤ) (shots : Option Bool)
        → Runs q s.user_id w0 w0.db (update_fields env s id conv m t shots)
    unfolding update_fields
    Runs-update_fields (some t) shots =
        Runs-update_ttl conv t λ now. set_ttl_managed conv (ttl_value t) may
    Runs-update_fields none (some b) = Runs-screenshots b
    Runs-update_fields none none = Runs-public m.desc

  Runs-update : (m : MsgRoom) → Runs q s.user_id w0 w0.db (handle_update_room env s id m)
  unfolding handle_update_room
  Runs-update m = Runs-parse_uuid env id m.id _ _ λ conv _. Runs-require_role conv _ λ r is.
      Runs-need id 403 _ (omega arith) (is_privileged r) _
        λ may. Runs-update_fields conv m (by_role r is may) m.disappearing_ttl m.no_screenshots

  Runs-dispatch_room :
      (action : String) (m : MsgRoom) → Runs q s.user_id w0 w0.db (dispatch_room env s id action m)
  unfolding dispatch_room
  Runs-dispatch_room action m =
      Runs-if (str_eq action "create") _ _ (λ _. Runs-create m)
        λ _.
          Runs-if (str_eq action "invite") _ _ (λ _. Runs-invite m)
            λ _.
              Runs-if (str_eq action "leave") _ _ (λ _. Runs-leave m)
                λ _.
                  Runs-if (str_eq action "kick") _ _ (λ _. Runs-kick m)
                    λ _.
                      Runs-if (str_eq action "update") _ _ (λ _. Runs-update m)
                        λ _. Runs-fail id 400 _ (omega arith)

  pub Runs-room : (req : Option MsgRoom) → Runs q s.user_id w0 w0.db (handle_room env s id req)
  unfolding handle_room
  Runs-room req =
      Runs-require_auth s id _
        λ _. Runs-some_or id 400 _ (omega arith) req _ λ m _. Runs-dispatch_room m.action m
