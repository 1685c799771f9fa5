-- ===== src/Conv/Refines/Change.antt =====
-- handlers_conv.go against the contract: editing, unsending, deleting and reacting.
use mv_chat.Prelude.{
  ℕ, ◌+◌, ◌*◌, ◌≤◌, ◌<◌, ◌≡◌, ◌≢◌, subst, ◌⊎◌, inl, inr, Option, none, some, Bool, true, not, Text,
  ℤ, pos, positive, arith, ltb, ltb→lt, ◌==◌, is_empty, ==_iff,
}
use mv_chat.Store.Types.{Database, Message, minute}
use mv_chat.Store.Messages.{get_message_by_seq, get_edit_count}
use mv_chat.Store.Reactions.{add_reaction}
use mv_chat.Handler.World.{Session, Env, World}
use mv_chat.Handler.Monad.{Handler, call, ◌>>=◌}
use mv_chat.Conv.Requests.{MsgEdit, MsgSeq, MsgDelete, MsgReact}
use mv_chat.Conv.Change.{
  has_passed, counting_edits, edit_count, reacting, require_message, edit_at, handle_edit,
  unsend_at, handle_unsend, delete_for_everyone, delete_for_me, handle_delete, handle_react,
}
use mv_chat.Conv.Step.{Fault, edited, unsent, deleted_for_everyone, deleted_for_user, reacted}
use mv_chat.Conv.Outcome.{
  Runs, Runs-assoc, Runs-now, Runs-if, Runs-call, Runs-some_or, Runs-need, Runs-must, Runs-fetch,
  Runs-write,
}
use mv_chat.Conv.Reply.{
  Ends-broadcast, Runs-success, Runs-success_then, Runs-parse_uuid, Runs-require_auth,
  Runs-require_member,
}

has_passed-le :
    (window created n : ℕ) → not (has_passed window created n) ≡ true → n ≤ created + window
unfolding has_passed
has_passed-le window created n h = ground arith

-- The edit limit holds, unless a call failed.
abbrev Counted : ℕ → ℕ → (ℕ → Bool) → Database → Type 0
Counted conv seq faults db =
    ((k : ℕ) × (get_edit_count conv seq db ≡ some k) × (k < 10)) ⊎ Fault faults

get_edit_count-found :
    (conv seq : ℕ) (db : Database) (m : Message)
    → get_message_by_seq conv (pos seq) db ≡ some m
    → get_edit_count conv seq db ≢ none
unfolding get_message_by_seq get_edit_count
get_edit_count-found conv seq db m h e = ground arith

counting_edits-some :
    (conv seq i t k : ℕ) (db db' : Database)
    → counting_edits conv seq i t db ≡ some (k, db')
    → (get_edit_count conv seq db ≡ some k) × (db ≡ db')
counting_edits-some conv seq i t k db db' h = ground arith

counting_edits-none :
    (conv seq i t : ℕ) (db : Database)
    → counting_edits conv seq i t db ≡ none
    → get_edit_count conv seq db ≡ none
counting_edits-none conv seq i t db h = ground arith

reacting-some :
    (conv seq u i t : ℕ) (e : Text) (x : Unit {0}) (db db' : Database)
    → reacting conv seq u e i t db ≡ some (x, db')
    → add_reaction t conv seq u e db ≡ some db'
reacting-some conv seq u i t e x db db' h = ground arith

module _ {q : Bool} {w0 : World} (env : Env) (s : Session) (id : Text) where
  pub Runs-require_message :
      (conv : ℕ) (seq : ℤ) (k : Message → Handler)
      → ((m : Message)
          → get_message_by_seq conv seq w0.db ≡ some m
          → Runs q s.user_id w0 w0.db (k m))
      → Runs q s.user_id w0 w0.db (require_message env s id conv seq >>= k)
  unfolding require_message
  Runs-require_message conv seq k f =
      Runs-assoc _ _ k
        (Runs-fetch id 500 _ (omega arith) _ _ (Runs-some_or id 404 _ (omega arith) _ k f))

  -- The query for the edit count, whose error counts as no edit.
  Runs-count :
      (conv seq : ℕ) (m : Message) (k : Option ℕ → Handler)
      → get_message_by_seq conv (pos seq) w0.db ≡ some m
      → ((o : Option ℕ)
          → (ltb (edit_count o) 10 ≡ true → Counted conv seq w0.faults w0.db)
          → Runs q s.user_id w0 w0.db (k o))
      → Runs q s.user_id w0 w0.db (call (counting_edits conv seq) >>= k)
  Runs-count conv seq m k found f =
      Runs-call (counting_edits conv seq) k (λ bad. f none λ _. inr (fault bad))
        λ i n db' e.
          let (is, same) = counting_edits-some conv seq i w0.now n w0.db db' e in
          subst (λ d. Runs q s.user_id w0 d (k (some n))) same
            (f (some n) λ few. inl (n, is, ltb→lt n 10 few))
    where
      fault :
          Fault w0.faults ⊎ ((i : ℕ) × (counting_edits conv seq i w0.now w0.db ≡ none))
          → Fault w0.faults
      fault (inl h) = h
      fault (inr (i, e)) = absurd (
          get_edit_count-found conv seq w0.db m found
            (counting_edits-none conv seq i w0.now w0.db e))

  Runs-edit_at :
      (conv seq : ℕ) (content : Text)
      → Runs q s.user_id w0 w0.db (edit_at env s id conv seq content)
  unfolding edit_at
  Runs-edit_at conv seq content = Runs-require_message conv (pos seq) _ λ m found.
      Runs-need id 403 _ (omega arith) (m.from_user_id == s.user_id) _ λ own. Runs-now _ (
        Runs-need id 403 _ (omega arith) (not (has_passed (15 * minute) m.created_at w0.now)) _
          λ soon. Runs-count conv seq m _ found λ o few.
            Runs-need id 403 _ (omega arith) (ltb (edit_count o) 10) _ λ lt.
              Runs-some_or id 500 _ (omega arith) (env.encrypt content) _ λ sealed _.
                Runs-write id 500 _ (omega arith) _ _ (
                  Runs-success_then id 200 _ (omega arith) _
                    (edited conv seq sealed m found ((==_iff _ _).0 own) (has_passed-le _ _ _ soon)
                      (few lt))
                    (Ends-broadcast env conv _ _)))

  pub Runs-edit : (req : Option MsgEdit) → Runs q s.user_id w0 w0.db (handle_edit env s id req)
  unfolding handle_edit
  Runs-edit req = Runs-require_auth s id _ λ _. Runs-some_or id 400 _ (omega arith) req _ λ m _.
      Runs-need id 400 _ (omega arith) (not (is_empty m.conversation_id)) _ λ _.
        Runs-some_or id 400 _ (omega arith) (positive m.seq) _ λ seq _.
          Runs-some_or id 400 _ (omega arith) m.content _ λ content _.
            Runs-parse_uuid env id m.conversation_id _ _ λ conv _. Runs-edit_at conv seq content

  Runs-unsend_at : (conv seq : ℕ) → Runs q s.user_id w0 w0.db (unsend_at env s id conv seq)
  unfolding unsend_at
  Runs-unsend_at conv seq = Runs-require_message conv (pos seq) _ λ m found.
      Runs-need id 403 _ (omega arith) (m.from_user_id == s.user_id) _ λ own. Runs-now _ (
        Runs-need id 403 _ (omega arith) (not (has_passed (5 * minute) m.created_at w0.now)) _
          λ soon. Runs-write id 500 _ (omega arith) _ _ (
            Runs-success_then id 200 _ (omega arith) _
              (unsent conv seq m found ((==_iff _ _).0 own) (has_passed-le _ _ _ soon))
              (Ends-broadcast env conv _ _)))

  pub Runs-unsend : (req : Option MsgSeq) → Runs q s.user_id w0 w0.db (handle_unsend env s id req)
  unfolding handle_unsend
  Runs-unsend req = Runs-require_auth s id _ λ _. Runs-some_or id 400 _ (omega arith) req _ λ m _.
      Runs-need id 400 _ (omega arith) (not (is_empty m.conversation_id)) _ λ _.
        Runs-some_or id 400 _ (omega arith) (positive m.seq) _
          λ seq _. Runs-parse_uuid env id m.conversation_id _ _ λ conv _. Runs-unsend_at conv seq

  module _ (conv seq : ℕ) (m : Message)
      (found : get_message_by_seq conv (pos seq) w0.db ≡ some m) where
    Runs-for_everyone : Runs q s.user_id w0 w0.db (delete_for_everyone env s id conv seq m)
    unfolding delete_for_everyone
    Runs-for_everyone = Runs-need id 403 _ (omega arith) (m.from_user_id == s.user_id) _ λ own.
        Runs-write id 500 _ (omega arith) _ _ (
          Runs-now _ (
            Runs-success_then id 200 _ (omega arith) _
              (deleted_for_everyone conv seq m found ((==_iff _ _).0 own))
              (Ends-broadcast env conv _ _)))

    Runs-for_me : Runs q s.user_id w0 w0.db (delete_for_me env s id conv seq m)
    unfolding delete_for_me
    Runs-for_me =
        Runs-write id 500 _ (omega arith) _ _
          (Runs-now _ (Runs-success id 200 _ (omega arith) (deleted_for_user conv seq m found)))

  pub Runs-delete :
      (req : Option MsgDelete) → Runs q s.user_id w0 w0.db (handle_delete env s id req)
  unfolding handle_delete
  Runs-delete req = Runs-require_auth s id _ λ _. Runs-some_or id 400 _ (omega arith) req _ λ m _.
      Runs-need id 400 _ (omega arith) (not (is_empty m.conversation_id)) _ λ _.
        Runs-some_or id 400 _ (omega arith) (positive m.seq) _ λ seq _.
          Runs-parse_uuid env id m.conversation_id _ _ λ conv _.
            Runs-require_message conv (pos seq) _ λ orig found.
              Runs-if m.for_everyone _ _ (λ _. Runs-for_everyone conv seq orig found)
                λ _. Runs-for_me conv seq orig found

  pub Runs-react : (req : Option MsgReact) → Runs q s.user_id w0 w0.db (handle_react env s id req)
  unfolding handle_react
  Runs-react req = Runs-require_auth s id _ λ _. Runs-some_or id 400 _ (omega arith) req _ λ m _.
      Runs-need id 400 _ (omega arith) (not (is_empty m.conversation_id)) _ λ _.
        Runs-some_or id 400 _ (omega arith) (positive m.seq) _ λ seq _.
          Runs-need id 400 _ (omega arith) (not (is_empty m.emoji)) _ λ _.
            Runs-parse_uuid env id m.conversation_id _ _ λ conv _.
              Runs-require_member s id conv _ λ joined.
                Runs-must id 500 _ (omega arith) _ _ λ i x db' e. Runs-now _ (
                  Runs-success_then id 200 _ (omega arith) _
                    (reacted conv seq m.emoji joined
                      (reacting-some conv seq s.user_id i w0.now m.emoji x w0.db db' e))
                    (Ends-broadcast env conv _ _))
