-- ===== src/Conv/Reply.antt =====
-- The end of a handler: the reply of success, and the deliveries after it.
use mv_chat.Prelude.{
  ℕ, ◌<◌, ◌≡◌, refl, sym, ap, subst, ◌∙◌, List, ◌∷◌, Option, none, some, Bool, true, false, not,
  String, Text, arith, ◌==◌, if◌then◌else◌,
}
use mv_chat.Store.Types.{Database, uuid_nil}
use mv_chat.Store.Members.{is_member}
use mv_chat.Handler.World.{Params, Info, ServerMessage, replies, Session, Env, World}
use mv_chat.Handler.Monad.{
  Handler, pure, ◌>>=◌, success, reading, settle, called, call, send_to_users, broadcast,
  parse_uuid, require_auth, require_member, ctrl_success, code_bad_request, code_unauthorized,
  code_forbidden, code_internal_error,
}
use mv_chat.Conv.Step.{Step}
use mv_chat.Conv.Outcome.{Done, done, Runs, Ends, Runs-assoc, Runs-some_or, Runs-need, Runs-fetch}

module _ {u : ℕ} {w0 : World} where
  -- A change of the call counter does not show.
  Done-cong :
      (v w : World) → w.db ≡ v.db → replies w.sent ≡ replies v.sent → Done u w0 v → Done u w0 w
  Done-cong v w d s r = record {
    answer = r.answer;
    success_code = r.success_code;
    one_reply = s ∙ r.one_reply;
    step = subst (Step u w0.now w0.faults w0.db) (sym d) r.step;
  }

  pub Ends-pure : Ends u w0 (pure tt)
  unfolding pure
  Ends-pure = record { at = λ w r. r }

  pub Ends-send :
      (us : List ℕ) (m : ServerMessage) (skip : Text) → Ends u w0 (send_to_users us m skip)
  unfolding send_to_users
  Ends-send us m skip = record { at = λ w r. Done-cong w _ refl refl r }

  settle-Done :
      {A : Type 0} (k : Option A → Handler) (b : Bool) (a : A) (w : World)
      → ((r : Option A) → Ends u w0 (k r))
      → Done u w0 w
      → Done u w0 (k (settle b (some (a, w.db)) w).0 (settle b (some (a, w.db)) w).1).1
  settle-Done k true a w e r = (e none).at w r
  settle-Done k false a w e r = (e (some a)).at w r

  pub Ends-call :
      {A : Type 0} (f : Database → A) (k : Option A → Handler)
      → ((r : Option A) → Ends u w0 (k r))
      → Ends u w0 (call (reading f) >>= k)
  unfolding call ◌>>=◌
  Ends-call f k e = record {
    at = λ w r.
        settle-Done k (w.faults w.calls) (f w.db) (called w) e (Done-cong w (called w) refl refl r);
  }

  pub Ends-if :
      (b : Bool) (m n : Handler) → Ends u w0 m → Ends u w0 n → Ends u w0 (if b then m else n)
  Ends-if true m n f g = f
  Ends-if false m n f g = g

  pub Ends-broadcast :
      (env : Env) (conv : ℕ) (i : Info) (skip : Text) → Ends u w0 (broadcast env conv i skip)
  unfolding broadcast
  Ends-broadcast env conv i skip =
      Ends-if env.has_hub _ _ (Ends-call _ _ (λ r. Ends-send _ _ skip)) Ends-pure

  module _ {q : Bool} {db : Database} (id : Text) (code : ℕ) (ps : Params) (h : code < 300) where
    pub Runs-success_then :
        (k : Unit {0} → Handler)
        → Step u w0.now w0.faults w0.db db
        → Ends u w0 (k tt)
        → Runs q u w0 db (success id code ps >>= k)
    unfolding success ◌>>=◌
    Runs-success_then k st e = record {
      at = λ w p. done (
          e.at _ (record {
            answer = ctrl_success id code ps w.now;
            success_code = h;
            one_reply = ap (λ s. ctrl_success id code ps w.now ∷ replies s) p.sent_is;
            step = subst (Step u w0.now w0.faults w0.db) (sym p.db_is) st;
          }));
    }

    pub Runs-success : Step u w0.now w0.faults w0.db db → Runs q u w0 db (success id code ps)
    unfolding success
    Runs-success st = record {
      at = λ w p. done (record {
        answer = ctrl_success id code ps w.now;
        success_code = h;
        one_reply = ap (λ s. ctrl_success id code ps w.now ∷ replies s) p.sent_is;
        step = subst (Step u w0.now w0.faults w0.db) (sym p.db_is) st;
      });
    }

-- The helpers of the handlers.
module _ {q : Bool} {u : ℕ} {w0 : World} where
  pub Runs-parse_uuid :
      (env : Env) (id s : Text) (complaint : String) (k : ℕ → Handler)
      → ((n : ℕ) → env.parse_uuid s ≡ some n → Runs q u w0 w0.db (k n))
      → Runs q u w0 w0.db (parse_uuid env id s complaint >>= k)
  unfolding parse_uuid
  Runs-parse_uuid env id s complaint k f =
      Runs-some_or id code_bad_request complaint (omega arith) (env.parse_uuid s) k f

  pub Runs-require_auth :
      (s : Session) (id : Text) (k : Unit {0} → Handler)
      → ((s.user_id == uuid_nil) ≡ false → Runs q u w0 w0.db (k tt))
      → Runs q u w0 w0.db (require_auth s id >>= k)
  unfolding require_auth
  Runs-require_auth s id k f =
      Runs-need id code_unauthorized _ (omega arith) (not (s.user_id == uuid_nil)) k
        (λ e. f (ground arith))

  pub Runs-require_member :
      (s : Session) (id : Text) (conv : ℕ) (k : Unit {0} → Handler)
      → (is_member conv s.user_id w0.db ≡ true → Runs q u w0 w0.db (k tt))
      → Runs q u w0 w0.db (require_member s id conv >>= k)
  unfolding require_member
  Runs-require_member s id conv k f = Runs-assoc _ _ k (
      Runs-fetch id code_internal_error _ (omega arith) (is_member conv s.user_id) _
        (Runs-need id code_forbidden _ (omega arith) (is_member conv s.user_id w0.db) k f))
