-- ===== src/Server/Auth.antt =====
-- Messages of a session without a user (session.go, handlers_invite.go).
use mv_chat.Prelude.{◌≡◌, Text}
use mv_chat.Store.Types.{uuid_nil}
use mv_chat.Handler.World.{Session, Env, World}
use mv_chat.Invites.{InviteEnv, handle_invite}
use mv_chat.Conv.Safety.Auth.{turned_away, auth-barred, dispatch-unauthenticated}
use mv_chat.Server.{ClientMessage, handle_message}

-- A session without a user gets the answer 401 to each of the messages dm, room, send, get, edit,
-- unsend, delete, react, typing, read, recv, clear, pin, contact and invite, and nothing else happens:
-- no statement reaches the database and nothing is sent to anybody. Nothing is said of the messages
-- hi, login, acc and search.
pub handle_message-unauthenticated :
    (env : Env) (e : InviteEnv) (s : Session) (id : Text) (m : ClientMessage) (w : World)
    → s.user_id ≡ uuid_nil
    → (handle_message env e s id m w).1 ≡ turned_away id w
unfolding handle_message handle_invite
handle_message-unauthenticated env e s id (ClientMessage.conversation r) w h =
    dispatch-unauthenticated env s id r w h
handle_message-unauthenticated env e s id (ClientMessage.invite m) w h = auth-barred s id h w _
