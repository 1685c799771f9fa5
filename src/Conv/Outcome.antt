-- ===== src/Conv/Outcome.antt =====
-- How a request can end, and one rule for each primitive of the action monad to show how a handler
-- ends, read along its `do` block.
use mv_chat.Prelude.{
  ℕ, ◌≤◌, ◌<◌, ◌≡◌, refl, sym, ap, subst, ◌∙◌, ◌⊎◌, inl, inr, ◌∷◌, Option, none, some, Bool, true,
  false, String, Text, arith, if◌then◌else◌,
}
use mathlib.Core.Path.{fun_ext, subst₂}
use mathlib.Core.Option.{some-injective}
use mv_chat.Store.Types.{Database}
use mv_chat.Handler.World.{Ctrl, reply, replies, World}
use mv_chat.Handler.Monad.{
  M, Handler, Statement, pure, stop, ◌>>=◌, fail, need, some_or, now, reading, writing, settle,
  called, call, must, ctrl_error,
}
use mv_chat.Conv.Step.{Step, Fault}

-- Exactly one reply, which tells of success, after a permitted step.
pub record Done (u : ℕ) (w0 w : World) : Type 0 where
  pub answer : Ctrl
  pub success_code : answer.code < 300
  pub one_reply : replies w.sent ≡ answer ∷ replies w0.sent
  pub step : Step u w0.now w0.faults w0.db w.db

-- `q` says that a request may end without a reply.
pub data Outcome (q : Bool) (u : ℕ) (w0 w : World) : Type 0 where
  silent : q ≡ true → w.db ≡ w0.db → replies w.sent ≡ replies w0.sent → Outcome q u w0 w
  refused : (c : Ctrl) → 400 ≤ c.code → w.db ≡ w0.db → w.sent ≡ reply c ∷ w0.sent → Outcome q u w0 w
  done : Done u w0 w → Outcome q u w0 w

-- What a world looks like while a handler has sent nothing.
pub record Pending (w0 : World) (db : Database) (w : World) : Type 0 where
  pub db_is : w.db ≡ db
  pub sent_is : w.sent ≡ w0.sent
  pub now_is : w.now ≡ w0.now
  pub faults_is : w.faults ≡ w0.faults

pub record Runs (q : Bool) (u : ℕ) (w0 : World) (db : Database) (m : Handler) : Type 0 where
  pub at : (w : World) → Pending w0 db w → Outcome q u w0 (m w).1

-- After the reply.
pub record Ends (u : ℕ) (w0 : World) (m : Handler) : Type 0 where
  pub at : (w : World) → Done u w0 w → Done u w0 (m w).1

bind-bind :
    {A B C : Type 0} (m : M A) (f : A → M B) (g : B → M C)
    → (m >>= f >>= g) ≡ (m >>= λ a. f a >>= g)
unfolding ◌>>=◌
bind-bind m f g = fun_ext λ w. ground arith

module _ {q : Bool} {u : ℕ} {w0 : World} where
  pub Runs-assoc :
      {A B : Type 0} {db : Database} (m : M A) (f : A → M B) (g : B → Handler)
      → Runs q u w0 db (m >>= λ a. f a >>= g)
      → Runs q u w0 db (m >>= f >>= g)
  Runs-assoc {db = db} m f g r = subst (Runs q u w0 db) (sym (bind-bind m f g)) r

  pub Runs-fail :
      (id : Text) (code : ℕ) (text : String) → 400 ≤ code → Runs q u w0 w0.db (fail id code text)
  unfolding fail
  Runs-fail id code text h = record {
    at = λ w p.
        refused (ctrl_error id code text w.now) h p.db_is
          (ap (◌∷◌ (reply (ctrl_error id code text w.now))) p.sent_is);
  }

  pub Runs-stop : q ≡ true → Runs q u w0 w0.db stop
  unfolding stop
  Runs-stop quiet = record { at = λ w p. silent quiet p.db_is (ap replies p.sent_is) }

  module _ {db : Database} where
    pub Runs-pure :
        {A : Type 0} (a : A) (k : A → Handler)
        → Runs q u w0 db (k a)
        → Runs q u w0 db (pure a >>= k)
    unfolding pure ◌>>=◌
    Runs-pure a k r = record { at = r.at }

    pub Runs-now : (k : ℕ → Handler) → Runs q u w0 db (k w0.now) → Runs q u w0 db (now >>= k)
    unfolding now ◌>>=◌
    Runs-now k r = record {
      at = λ w p. subst (λ t. Outcome q u w0 (k t w).1) (sym p.now_is) (r.at w p);
    }

    pub Runs-if :
        (b : Bool) (m n : Handler)
        → (b ≡ true → Runs q u w0 db m)
        → (b ≡ false → Runs q u w0 db n)
        → Runs q u w0 db (if b then m else n)
    Runs-if true m n f g = f refl
    Runs-if false m n f g = g refl

    settle-Outcome :
        {A : Type 0} (k : Option A → Handler) (b : Bool) (r : Option (A × Database)) (w : World)
        → Pending w0 db w
        → (b ≡ true → Runs q u w0 db (k none))
        → (r ≡ none → Runs q u w0 db (k none))
        → ((a : A) (db' : Database) → r ≡ some (a, db') → Runs q u w0 db' (k (some a)))
        → Outcome q u w0 (k (settle b r w).0 (settle b r w).1).1
    settle-Outcome k true r w p fault bad good = (fault refl).at w p
    settle-Outcome k false none w p fault bad good = (bad refl).at w p
    settle-Outcome k false (some (a, db')) w p fault bad good =
        (good a db' refl).at (record w { db = db' })
          (record { db_is = refl; sent_is = p.sent_is; now_is = p.now_is; faults_is = p.faults_is })

    -- A call whose error the handler looks at.
    pub Runs-call :
        {A : Type 0} (st : Statement A) (k : Option A → Handler)
        → (Fault w0.faults ⊎ ((i : ℕ) × (st i w0.now db ≡ none)) → Runs q u w0 db (k none))
        → ((i : ℕ) (a : A) (db' : Database)
            → st i w0.now db ≡ some (a, db')
            → Runs q u w0 db' (k (some a)))
        → Runs q u w0 db (call st >>= k)
    unfolding call ◌>>=◌
    Runs-call {A} st k bad good = record {
      at = λ w p.
          let same_call : st (w.uuids w.calls) w.now w.db ≡ st (w.uuids w.calls) w0.now db =
            cc (p.db_is, p.now_is) in
          settle-Outcome k (w.faults w.calls) (st (w.uuids w.calls) w.now w.db) (called w)
            (record {
              db_is = p.db_is;
              sent_is = p.sent_is;
              now_is = p.now_is;
              faults_is = p.faults_is;
            })
            (λ e. bad (inl (w.calls, subst (λ f. f w.calls ≡ true) p.faults_is e)))
            (λ e. bad (inr (w.uuids w.calls, sym same_call ∙ e)))
            (λ a db' e. good (w.uuids w.calls) a db' (sym same_call ∙ e));
    }

  module _ {A : Type 0} (id : Text) (code : ℕ) (text : String) (h : 400 ≤ code) where
    Runs-fail_bind : (k : A → Handler) → Runs q u w0 w0.db (fail id code text >>= k)
    unfolding ◌>>=◌ fail
    Runs-fail_bind k = record { at = (Runs-fail id code text h).at }

    pub Runs-some_or :
        (o : Option A) (k : A → Handler)
        → ((a : A) → o ≡ some a → Runs q u w0 w0.db (k a))
        → Runs q u w0 w0.db (some_or o id code text >>= k)
    unfolding some_or
    Runs-some_or none k f = Runs-fail_bind k
    Runs-some_or (some a) k f = Runs-pure a k (f a refl)

    -- A statement whose failure is answered. Its value and tables are those of the statement.
    pub Runs-must :
        (st : Statement A) (k : A → Handler)
        → ((i : ℕ) (a : A) (db' : Database)
            → st i w0.now w0.db ≡ some (a, db')
            → Runs q u w0 db' (k a))
        → Runs q u w0 w0.db (must st id code text >>= k)
    unfolding must some_or
    Runs-must st k f =
        Runs-assoc (call st) (λ r. some_or r id code text) k
          (Runs-call st _ (λ _. Runs-fail_bind k) (λ i a db' e. Runs-pure a k (f i a db' e)))

    pub Runs-fetch :
        (f : Database → A) (k : A → Handler)
        → Runs q u w0 w0.db (k (f w0.db))
        → Runs q u w0 w0.db (must (reading f) id code text >>= k)
    Runs-fetch f k r = Runs-must (reading f) k λ i a db' e.
        let p = some-injective (f w0.db, w0.db) (a, db') e in
        subst₂ (λ x d. Runs q u w0 d (k x)) (ap (λ q. q.0) p) (ap (λ q. q.1) p) r

  module _ (id : Text) (code : ℕ) (text : String) (h : 400 ≤ code) where
    pub Runs-need :
        (b : Bool) (k : Unit {0} → Handler)
        → (b ≡ true → Runs q u w0 w0.db (k tt))
        → Runs q u w0 w0.db (need b id code text >>= k)
    unfolding need
    Runs-need true k f = Runs-pure tt k (f refl)
    Runs-need false k f = Runs-fail_bind id code text h k

    pub Runs-write :
        (f : ℕ → Database → Database) (k : Unit {0} → Handler)
        → Runs q u w0 (f w0.now w0.db) (k tt)
        → Runs q u w0 w0.db (must (writing f) id code text >>= k)
    Runs-write f k r = Runs-must id code text h (writing f) k λ i a db' e.
        let p = some-injective (tt, f w0.now w0.db) (a, db') e in
        subst₂ (λ x d. Runs q u w0 d (k x)) (ap (λ q. q.0) p) (ap (λ q. q.1) p) r
