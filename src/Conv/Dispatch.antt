-- ===== src/Conv/Dispatch.antt =====
-- The `switch` of `Session.dispatch` (session.go) over the conversation and contact messages, and a history of
-- requests against one server.
use mv_chat.Prelude.{Bool, true, false, ℕ, List, [], ◌∷◌, Text}
use mv_chat.Handler.World.{Session, Env, World}
use mv_chat.Handler.Monad.{Handler}
use mv_chat.Conv.Requests.{Request}
use mv_chat.Conv.Dm.{handle_dm}
use mv_chat.Conv.Room.{handle_room}
use mv_chat.Conv.Get.{may_panic, handle_get}
use mv_chat.Conv.Send.{handle_send}
use mv_chat.Conv.Change.{handle_edit, handle_unsend, handle_delete, handle_react}
use mv_chat.Conv.Contact.{handle_contact}
use mv_chat.Conv.Track.{handle_typing, handle_read, handle_recv, handle_clear, handle_pin}

unfoldable pub dispatch : Env → Session → Text → Request → Handler
dispatch env s id (Request.dm m) = handle_dm env s id m
dispatch env s id (Request.room m) = handle_room env s id m
dispatch env s id (Request.get what m) = handle_get env s id what m
dispatch env s id (Request.send m) = handle_send env s id m
dispatch env s id (Request.edit m) = handle_edit env s id m
dispatch env s id (Request.unsend m) = handle_unsend env s id m
dispatch env s id (Request.delete m) = handle_delete env s id m
dispatch env s id (Request.react m) = handle_react env s id m
dispatch env s id (Request.typing m) = handle_typing env s id m
dispatch env s id (Request.read m) = handle_read env s id m
dispatch env s id (Request.recv m) = handle_recv env s id m
dispatch env s id (Request.clear m) = handle_clear env s id m
dispatch env s id (Request.pin m) = handle_pin env s id m
dispatch env s id (Request.contact m) = handle_contact env s id m

-- The requests that may end without a reply: typing notices, and the two queries that panic where a
-- row is missing.
abbrev pub may_end_silently : Request → Bool
may_end_silently (Request.typing m) = true
may_end_silently (Request.get what m) = may_panic what
may_end_silently _ = false

-- A request as it arrives: from a session, under a message id, at a time.
pub record Arrival : Type 0 where
  pub session : Session
  pub id : Text
  pub time : ℕ
  pub request : Request

abbrev pub at_time : ℕ → World → World
at_time t w = record w { now = t }

-- One request after another.
unfoldable pub serve : Env → List Arrival → World → World
serve env [] w = w
serve env (a ∷ rest) w = serve env rest (dispatch env a.session a.id a.request (at_time a.time w)).1
