-- ===== src/Server/Keeps.antt =====
-- Actions that keep the contacts symmetric, one rule for each primitive of the action monad.
use mv_chat.Prelude.{
  ℕ, ◌≡◌, refl, subst, Option, none, some, Bool, true, false, Text, String, arith, if◌then◌else◌,
}
use mv_chat.Store.Types.{Database}
use mv_chat.Store.Symmetry.{IsSymmetric}
use mv_chat.Handler.World.{Params, World}
use mv_chat.Handler.Monad.{
  M, Statement, pure, fail, need, some_or, now, call, must, success, reading, settle, called,
  continue, ◌>>=◌,
}

-- An action that keeps the contacts symmetric.
pub record Keeps {A : Type 0} (m : M A) : Type 0 where
  pub at : (w : World) → IsSymmetric w.db → IsSymmetric (m w).1.db

pub record KeepsStatement {A : Type 0} (st : Statement A) : Type 0 where
  pub at :
      (i t : ℕ) (db db' : Database) (a : A)
      → st i t db ≡ some (a, db')
      → IsSymmetric db
      → IsSymmetric db'

module _ {A : Type 0} where
  pub Keeps-pure : (a : A) → Keeps (pure a)
  unfolding pure
  Keeps-pure a = record { at = λ w v. v }

  pub Keeps-fail : (id : Text) (code : ℕ) (text : String) → Keeps {A = A} (fail id code text)
  unfolding fail
  Keeps-fail id code text = record { at = λ w v. v }

  pub Keeps-some_or :
      (o : Option A) (id : Text) (code : ℕ) (text : String) → Keeps (some_or o id code text)
  unfolding some_or
  Keeps-some_or none id code text = Keeps-fail id code text
  Keeps-some_or (some a) id code text = Keeps-pure a

  pub Keeps-bind :
      {B : Type 0} {m : M A} {f : A → M B} → Keeps m → ((a : A) → Keeps (f a)) → Keeps (m >>= f)
  unfolding ◌>>=◌
  Keeps-bind {B} {m} {f} k g = record { at = λ w v. next (m w).0 (m w).1 (k.at w v) }
    where
      next : (o : Option A) (w : World) → IsSymmetric w.db → IsSymmetric (continue o f w).1.db
      next none w v = v
      next (some a) w v = (g a).at w v

  pub Keeps-call : {st : Statement A} → KeepsStatement st → Keeps (call st)
  unfolding call
  Keeps-call {st} k = record {
    at = λ w v.
        settled (w.faults w.calls) (st (w.uuids w.calls) w.now w.db) (called w)
          (λ a db' e. k.at _ _ w.db db' a e v) v;
  }
    where
      settled :
          (b : Bool) (r : Option (A × Database)) (w : World)
          → ((a : A) (db' : Database) → r ≡ some (a, db') → IsSymmetric db')
          → IsSymmetric w.db
          → IsSymmetric (settle b r w).1.db
      settled true r w h v = v
      settled false none w h v = v
      settled false (some (a, db')) w h v = h a db' refl

module _ {A : Type 0} where
  pub Keeps-must :
      {st : Statement A} (id : Text) (code : ℕ) (text : String)
      → KeepsStatement st
      → Keeps (must st id code text)
  unfolding must
  Keeps-must id code text k = Keeps-bind (Keeps-call k) λ r. Keeps-some_or r id code text

  pub KeepsStatement-reading : (f : Database → A) → KeepsStatement (reading f)
  KeepsStatement-reading f = record { at = λ i t db db' a e v. subst IsSymmetric (ground arith) v }

pub Keeps-now : Keeps now
unfolding now
Keeps-now = record { at = λ w v. v }

pub Keeps-need : (b : Bool) (id : Text) (code : ℕ) (text : String) → Keeps (need b id code text)
unfolding need
Keeps-need true id code text = Keeps-pure tt
Keeps-need false id code text = Keeps-fail id code text

pub Keeps-success : (id : Text) (code : ℕ) (told : Params) → Keeps (success id code told)
unfolding success
Keeps-success id code told = record { at = λ w v. v }

pub Keeps-if : {A : Type 0} (b : Bool) {m n : M A} → Keeps m → Keeps n → Keeps (if b then m else n)
Keeps-if true k l = k
Keeps-if false k l = l

pub Keeps-option :
    {A B : Type 0} (f : Option A → M B)
    → Keeps (f none)
    → ((a : A) → Keeps (f (some a)))
    → (o : Option A) → Keeps (f o)
Keeps-option f k l none = k
Keeps-option f k l (some a) = l a
