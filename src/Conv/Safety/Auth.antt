-- ===== src/Conv/Safety/Auth.antt =====
-- The handlers of handlers_conv.go and handlers_contact.go in a session without a user.
use mv_chat.Prelude.{◌≡◌, refl, ◌∷◌, Text}
use mv_chat.Store.Types.{uuid_nil}
use mv_chat.Handler.World.{Session, Env, World, reply}
use mv_chat.Handler.Monad.{Handler, ◌>>=◌, need, fail, require_auth, ctrl_error, code_unauthorized}
use mv_chat.Conv.Requests.{Request}
use mv_chat.Conv.Dm.{handle_dm}
use mv_chat.Conv.Room.{handle_room}
use mv_chat.Conv.Get.{handle_get}
use mv_chat.Conv.Send.{handle_send}
use mv_chat.Conv.Change.{handle_edit, handle_unsend, handle_delete, handle_react}
use mv_chat.Conv.Track.{handle_typing, handle_read, handle_recv, handle_clear, handle_pin}
use mv_chat.Conv.Contact.{handle_contact}
use mv_chat.Conv.Dispatch.{dispatch}

-- The world after the answer 401.
abbrev pub turned_away : Text → World → World
turned_away id w = record w {
  sent = reply (ctrl_error id code_unauthorized "authentication required" w.now) ∷ w.sent;
}

module _ (s : Session) (id : Text) (anonymous : s.user_id ≡ uuid_nil) (w : World) where
  pub auth-barred : (k : Unit {0} → Handler) → ((require_auth s id >>= k) w).1 ≡ turned_away id w
  unfolding require_auth need fail ◌>>=◌
  auth-barred k = rw anonymous refl

-- A session without a user gets the answer 401 to every conversation and contact request, and nothing else happens: no statement
-- reaches the database and nothing is sent to anybody.
pub dispatch-unauthenticated :
    (env : Env) (s : Session) (id : Text) (r : Request) (w : World)
    → s.user_id ≡ uuid_nil
    → (dispatch env s id r w).1 ≡ turned_away id w
unfolding dispatch handle_dm handle_room handle_get handle_send handle_edit handle_unsend
    handle_delete handle_react handle_typing handle_read handle_recv handle_clear handle_pin
    handle_contact
dispatch-unauthenticated env s id (Request.dm m) w h = auth-barred s id h w _
dispatch-unauthenticated env s id (Request.room m) w h = auth-barred s id h w _
dispatch-unauthenticated env s id (Request.get what m) w h = auth-barred s id h w _
dispatch-unauthenticated env s id (Request.send m) w h = auth-barred s id h w _
dispatch-unauthenticated env s id (Request.edit m) w h = auth-barred s id h w _
dispatch-unauthenticated env s id (Request.unsend m) w h = auth-barred s id h w _
dispatch-unauthenticated env s id (Request.delete m) w h = auth-barred s id h w _
dispatch-unauthenticated env s id (Request.react m) w h = auth-barred s id h w _
dispatch-unauthenticated env s id (Request.typing m) w h = auth-barred s id h w _
dispatch-unauthenticated env s id (Request.read m) w h = auth-barred s id h w _
dispatch-unauthenticated env s id (Request.recv m) w h = auth-barred s id h w _
dispatch-unauthenticated env s id (Request.clear m) w h = auth-barred s id h w _
dispatch-unauthenticated env s id (Request.pin m) w h = auth-barred s id h w _
dispatch-unauthenticated env s id (Request.contact m) w h = auth-barred s id h w _
