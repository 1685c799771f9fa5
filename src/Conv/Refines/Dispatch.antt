-- ===== src/Conv/Refines/Dispatch.antt =====
-- handlers_conv.go against the contract: all conversation and contact requests.
use mv_chat.Prelude.{refl, Text}
use mv_chat.Handler.World.{Session, Env, World}
use mv_chat.Conv.Requests.{Request}
use mv_chat.Conv.Dispatch.{dispatch, may_end_silently}
use mv_chat.Conv.Outcome.{Outcome, Runs}
use mv_chat.Conv.Refines.Dm.{Runs-dm}
use mv_chat.Conv.Refines.Room.{Runs-room}
use mv_chat.Conv.Refines.Get.{Runs-get}
use mv_chat.Conv.Refines.Send.{Runs-send}
use mv_chat.Conv.Refines.Change.{Runs-edit, Runs-unsend, Runs-delete, Runs-react}
use mv_chat.Conv.Refines.Contact.{Runs-contact}
use mv_chat.Conv.Refines.Track.{Runs-typing, Runs-read, Runs-recv, Runs-clear, Runs-pin_request}

module _ {w0 : World} (env : Env) (s : Session) (id : Text) where
  Runs-dispatch : (r : Request) → Runs (may_end_silently r) s.user_id w0 w0.db (dispatch env s id r)
  unfolding dispatch
  Runs-dispatch (Request.dm m) = Runs-dm env s id m
  Runs-dispatch (Request.room m) = Runs-room env s id m
  Runs-dispatch (Request.get what m) = Runs-get env s id what m (λ h. h)
  Runs-dispatch (Request.send m) = Runs-send env s id m
  Runs-dispatch (Request.edit m) = Runs-edit env s id m
  Runs-dispatch (Request.unsend m) = Runs-unsend env s id m
  Runs-dispatch (Request.delete m) = Runs-delete env s id m
  Runs-dispatch (Request.react m) = Runs-react env s id m
  Runs-dispatch (Request.typing m) = Runs-typing env s id refl m
  Runs-dispatch (Request.read m) = Runs-read env s id m
  Runs-dispatch (Request.recv m) = Runs-recv env s id m
  Runs-dispatch (Request.clear m) = Runs-clear env s id m
  Runs-dispatch (Request.pin m) = Runs-pin_request env s id m
  Runs-dispatch (Request.contact m) = Runs-contact env s id m

-- A conversation or contact request ends in one of three ways: with one error reply, nothing else sent and
-- no change of the database; with exactly one reply of success after a step that the contract `Step`
-- allows to the session's user; or without a reply and without a change, which is so only for typing
-- notices and for the queries of a user and of a conversation.
pub dispatch-Outcome :
    (env : Env) (s : Session) (id : Text) (r : Request) (w : World)
    → Outcome (may_end_silently r) s.user_id w (dispatch env s id r w).1
dispatch-Outcome env s id r w =
    (Runs-dispatch env s id r).at w
      (record { db_is = refl; sent_is = refl; now_is = refl; faults_is = refl })
