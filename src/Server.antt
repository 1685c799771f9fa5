-- ===== src/Server.antt =====
-- The `switch` of `Session.dispatch` (session.go) over the messages that handlers_conv.go,
-- handlers_contact.go and handlers_invite.go handle, and histories of them, with the codes that new
-- accounts redeem. Not among them are hi, login, acc and search.
use mv_chat.Prelude.{ℕ, List, [], ◌∷◌, Option, Text}
use mv_chat.Handler.World.{Session, Env, World}
use mv_chat.Handler.Monad.{Handler}
use mv_chat.Conv.Requests.{Request}
use mv_chat.Conv.Dispatch.{dispatch, at_time}
use mv_chat.Invites.{InviteEnv, MsgInvite, handle_invite, redeem_invite_code}
pub mod Keeps
pub mod Contacts
pub mod Auth
mod Tests

pub data ClientMessage : Type 0 where
  conversation : Request → ClientMessage
  invite : Option MsgInvite → ClientMessage

unfoldable pub handle_message : Env → InviteEnv → Session → Text → ClientMessage → Handler
handle_message env e s id (ClientMessage.conversation r) = dispatch env s id r
handle_message env e s id (ClientMessage.invite m) = handle_invite env e s id m

-- A message from a session under a message id, or a new account of a user, made with an invite code
-- and an e-mail address, each at a time. Of the making of an account, only the redeeming is here.
pub data Event : Type 0 where
  message : Session → Text → ℕ → ClientMessage → Event
  joined : ℕ → ℕ → Text → Text → Event

unfoldable pub handle_event : Env → InviteEnv → Event → World → World
handle_event env e (message s id time m) w = (handle_message env e s id m (at_time time w)).1
handle_event env e (joined user time code email) w =
    (redeem_invite_code e user code email (at_time time w)).1

-- One event after another.
unfoldable pub serve_all : Env → InviteEnv → List Event → World → World
serve_all env e [] w = w
serve_all env e (v ∷ rest) w = serve_all env e rest (handle_event env e v w)
