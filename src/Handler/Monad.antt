-- ===== src/Handler/Monad.antt =====
-- A handler as an action on the world. An action that has no value is a handler that has returned.
use mv_chat.Prelude.{
  ℕ, suc, List, [], ◌∷◌, Option, none, some, Bool, true, false, not, String, Text, ◌==◌,
  if◌then◌else◌,
}
use mv_chat.Store.Types.{Database, uuid_nil}
use mv_chat.Store.Members.{get_conversation_members, is_member}
use mv_chat.Handler.World.{
  Params, no_params, Ctrl, Info, ServerMessage, info, reply, deliver, Session, Env, World,
}

abbrev pub code_ok : ℕ
code_ok = 200

abbrev pub code_created : ℕ
code_created = 201

abbrev pub code_accepted : ℕ
code_accepted = 202

abbrev pub code_bad_request : ℕ
code_bad_request = 400

abbrev pub code_unauthorized : ℕ
code_unauthorized = 401

abbrev pub code_forbidden : ℕ
code_forbidden = 403

abbrev pub code_not_found : ℕ
code_not_found = 404

abbrev pub code_internal_error : ℕ
code_internal_error = 500

abbrev pub M : Type 0 → Type 0
M A = World → Option A × World

abbrev pub Handler : Type 0
Handler = M (Unit {0})

unfoldable pub pure : {A : Type 0} → A → M A
pure a w = (some a, w)

-- return
unfoldable pub stop : {A : Type 0} → M A
stop w = (none, w)

abbrev pub continue : {A B : Type 0} → Option A → (A → M B) → World → Option B × World
continue none f w = (none, w)
continue (some a) f w = f a w

infixl 5 ◌>>=◌ ◌>>◌
unfoldable pub ◌>>=◌ : {A B : Type 0} → M A → (A → M B) → M B
◌>>=◌ m f w = continue (m w).0 f (m w).1

abbrev pub ◌>>◌ : {B : Type 0} → Handler → M B → M B
m >> k = m >>= λ _. k

abbrev pub ctrl_success : Text → ℕ → Params → ℕ → Ctrl
ctrl_success id code params ts = record {
  id = id;
  code = code;
  text = "ok";
  params = params;
  ts = ts;
}

abbrev pub ctrl_error : Text → ℕ → String → ℕ → Ctrl
ctrl_error id code text ts = record {
  id = id;
  code = code;
  text = text;
  params = no_params;
  ts = ts;
}

unfoldable pub success : Text → ℕ → Params → Handler
success id code params w =
    (some tt, record w { sent = reply (ctrl_success id code params w.now) ∷ w.sent })

-- s.Send(CtrlError(…)); return
unfoldable pub fail : {A : Type 0} → Text → ℕ → String → M A
fail id code text w = (none, record w { sent = reply (ctrl_error id code text w.now) ∷ w.sent })

-- A guard clause: the handler goes on only if the test holds.
unfoldable pub need : Bool → Text → ℕ → String → Handler
need true id code text = pure tt
need false id code text = fail id code text

unfoldable pub some_or : {A : Type 0} → Option A → Text → ℕ → String → M A
some_or none id code text = fail id code text
some_or (some a) id code text = pure a

unfoldable pub now : M ℕ
now w = (some w.now, w)

-- A statement of the store gets a fresh UUID and the time.
abbrev pub Statement : Type 0 → Type 0
Statement A = ℕ → ℕ → Database → Option (A × Database)

abbrev pub reading : {A : Type 0} → (Database → A) → Statement A
reading f id t db = some (f db, db)

abbrev pub writing : (ℕ → Database → Database) → Statement (Unit {0})
writing f id t db = some (tt, f t db)

abbrev pub settle : {A : Type 0} → Bool → Option (A × Database) → World → Option A × World
settle true r w = (none, w)
settle false none w = (none, w)
settle false (some (a, db)) w = (some a, record w { db = db })

abbrev pub called : World → World
called w = record w { calls = suc w.calls }

-- A call of the store whose error the handler looks at. A call that fails changes nothing.
unfoldable pub call : {A : Type 0} → Statement A → M (Option A)
call st w =
    let (a, w') = settle (w.faults w.calls) (st (w.uuids w.calls) w.now w.db) (called w) in
    (some a, w')

-- if err != nil { s.Send(CtrlError(…)); return }
unfoldable pub must : {A : Type 0} → Statement A → Text → ℕ → String → M A
must st id code text = call st >>= λ r. some_or r id code text

abbrev pub member_list : Option (List ℕ) → List ℕ
member_list none = []
member_list (some us) = us

unfoldable pub send_to_users : List ℕ → ServerMessage → Text → Handler
send_to_users us m skip w = (some tt, record w { sent = deliver us m skip ∷ w.sent })

module _ (env : Env) where
  -- broadcastToConv
  unfoldable pub broadcast : ℕ → Info → Text → Handler
  broadcast conv i skip =
      if env.has_hub
      then (call (reading (get_conversation_members conv)) >>= λ r.
          send_to_users (member_list r) (info i) skip)
      else pure tt

  -- parseUUID
  unfoldable pub parse_uuid : Text → Text → String → M ℕ
  parse_uuid id s complaint = some_or (env.parse_uuid s) id code_bad_request complaint

-- RequireAuth
unfoldable pub require_auth : Session → Text → Handler
require_auth s id =
    need (not (s.user_id == uuid_nil)) id code_unauthorized "authentication required"

unfoldable pub require_member : Session → Text → ℕ → Handler
require_member s id conv = do
  found ← must (reading (is_member conv s.user_id)) id code_internal_error "database error"
  need found id code_forbidden "not a member"

abbrev pub info_of : ℕ → ℕ → String → ℕ → Info
info_of conv from what ts = record {
  conversation_id = conv;
  from = from;
  what = what;
  seq = 0;
  content = none;
  emoji = [];
  user = none;
  ttl = none;
  ts = ts;
}
