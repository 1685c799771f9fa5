-- ===== src/Conv/Safety/Content.antt =====
-- The messages before and after a request (handlers_conv.go).
use mv_chat.Prelude.{Bool, ℕ, Text}
use mv_chat.Store.Unique.{Unique}
use mv_chat.Handler.World.{Session, Env, World}
use mv_chat.Conv.Requests.{Request}
use mv_chat.Conv.Outcome.{Outcome, silent, refused, done}
use mv_chat.Conv.Dispatch.{dispatch}
use mv_chat.Conv.Refines.Dispatch.{dispatch-Outcome}
use mv_chat.Conv.Safety.Messages.{Evolves, Evolves-refl, Step-Evolves}

Outcome-Evolves :
    {q : Bool} {u : ℕ} {w w' : World}
    → Unique w.db.messages
    → Outcome q u w w'
    → Evolves u w.db.messages w'.db.messages
Outcome-Evolves {u = u} {w = w} q (silent _ e _) = rw e (Evolves-refl u w.db.messages)
Outcome-Evolves {u = u} {w = w} q (refused _ _ e _) = rw e (Evolves-refl u w.db.messages)
Outcome-Evolves q (done d) = Step-Evolves q d.step

-- Where no two messages of a conversation share a number, a conversation or contact request of a session adds only messages of
-- the session's user, removes no row of the table, moves no message and changes nobody's authorship;
-- and the content and the deletion mark of a message of another user stay as they were.
pub dispatch-Evolves :
    (env : Env) (s : Session) (id : Text) (r : Request) (w : World)
    → Unique w.db.messages
    → Evolves s.user_id w.db.messages (dispatch env s id r w).1.db.messages
dispatch-Evolves env s id r w q = Outcome-Evolves q (dispatch-Outcome env s id r w)
