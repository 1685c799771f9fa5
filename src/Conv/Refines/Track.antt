-- ===== src/Conv/Refines/Track.antt =====
-- handlers_conv.go against the contract: receipts, clearing, typing and pinning.
use mv_chat.Prelude.{
  ℕ, zero, suc, ◌+◌, ◌≡◌, refl, subst, ap, ◌⊎◌, inl, inr, List, [], ◌∷◌, Option, none, some, Bool,
  true, false, not, Text, ℤ, pos, negsuc, positive, arith, ◌==◌, is_empty, Bool-cases,
}
use mv_chat.Store.Types.{Database, Message, Conversation, Kind, dm, room, Role}
use mv_chat.Store.Conversations.{get_conversation_by_id}
use mv_chat.Store.Members.{get_member_role, get_conversation_members, is_member, update_read_seq}
use mv_chat.Store.Messages.{get_messages}
use mv_chat.Handler.World.{Info, info, replies, Session, Env, World}
use mv_chat.Handler.Monad.{Handler, ◌>>=◌, reading, pure, broadcast, send_to_users}
use mv_chat.Conv.Requests.{MsgSeq}
use mv_chat.Conv.Room.{is_privileged}
use mv_chat.Conv.Track.{
  recording, record_reads, reply_read, notify_typing, read_at, handle_read, recv_at, handle_recv,
  handle_clear, typing_in, handle_typing, may_pin, unpin, pin, pin_or_unpin, handle_pin,
}
use mv_chat.Conv.Step.{Marks, unmarked, marked, read_to, received_to, cleared_to, pinned}
use mv_chat.Conv.Outcome.{
  silent, Runs, Runs-assoc, Runs-pure, Runs-stop, Runs-now, Runs-if, Runs-call, Runs-some_or,
  Runs-need, Runs-fetch, Runs-write,
}
use mv_chat.Conv.Reply.{
  Ends-broadcast, Runs-success, Runs-success_then, Runs-parse_uuid, Runs-require_auth,
  Runs-require_member,
}
use mv_chat.Conv.Refines.Room.{Runs-require_role}
use mv_chat.Conv.Refines.Change.{Runs-require_message}
use mv_chat.Conv.Refines.Send.{reading-some}

may_pin-cases : (k : Kind) (r : Role) → may_pin k r ≡ true → (k ≡ dm) ⊎ (is_privileged r ≡ true)
may_pin-cases dm r h = inl refl
may_pin-cases room r h = inr h

module _ {q : Bool} {w0 : World} (env : Env) (s : Session) (id : Text) where
  -- The loop records some of the messages, each as its read was taken.
  Runs-record_reads :
      (start db : Database) (ms : List Message) (k : Unit {0} → Handler)
      → Marks s.user_id w0.now start db
      → ((db' : Database) → Marks s.user_id w0.now start db' → Runs q s.user_id w0 db' (k tt))
      → Runs q s.user_id w0 db (record_reads s ms >>= k)
  unfolding record_reads
  Runs-record_reads start db [] k marks f = Runs-pure tt k (f db marks)
  Runs-record_reads start db (m ∷ ms) k marks f = elim (Bool-cases (m.from_user_id == s.user_id)) [
    | inl own ↦ rw own (Runs-record_reads start db ms k marks f)
    | inr other ↦ rw other (
        Runs-assoc _ _ k (
          Runs-call (recording m.id s.user_id) _ (λ _. Runs-record_reads start db ms k marks f)
            λ i r db' e. Runs-record_reads start db' ms k (marked m.id r marks e) f))
  ]

  Runs-reply_read :
      (conv seq : ℕ) (db : Database)
      → Marks s.user_id w0.now (update_read_seq w0.now conv s.user_id seq w0.db) db
      → Runs q s.user_id w0 db (reply_read env s id conv seq)
  unfolding reply_read
  Runs-reply_read conv seq db marks = Runs-now _ (
      Runs-success_then id 200 _ (omega arith) _ (read_to conv seq marks)
        (Ends-broadcast env conv _ _))

  Runs-read_at : (conv seq : ℕ) → Runs q s.user_id w0 w0.db (read_at env s id conv seq)
  unfolding read_at
  Runs-read_at conv seq =
      let start = update_read_seq w0.now conv s.user_id seq w0.db in
      let page = get_messages conv s.user_id (pos (seq + 1)) (pos seq) 0 in
      Runs-write id 500 _ (omega arith) _ _ (
        Runs-call (reading page) _
          (λ _. Runs-record_reads start start [] _ unmarked (Runs-reply_read conv seq))
          λ i ms db' e.
            Runs-record_reads start db' ms _
              (subst (Marks s.user_id w0.now start) (reading-some page i w0.now ms start db' e).1
                unmarked)
              (Runs-reply_read conv seq))

  pub Runs-read : (req : Option MsgSeq) → Runs q s.user_id w0 w0.db (handle_read env s id req)
  unfolding handle_read
  Runs-read req = Runs-require_auth s id _ λ _. Runs-some_or id 400 _ (omega arith) req _ λ m _.
      Runs-need id 400 _ (omega arith) (not (is_empty m.conversation_id)) _ λ _.
        Runs-some_or id 400 _ (omega arith) (positive m.seq) _
          λ seq _. Runs-parse_uuid env id m.conversation_id _ _ λ conv _. Runs-read_at conv seq

  Runs-recv_at : (conv seq : ℕ) → Runs q s.user_id w0 w0.db (recv_at env s id conv seq)
  unfolding recv_at
  Runs-recv_at conv seq = Runs-write id 500 _ (omega arith) _ _ (
      Runs-now _ (
        Runs-success_then id 200 _ (omega arith) _ (received_to conv seq)
          (Ends-broadcast env conv _ _)))

  pub Runs-recv : (req : Option MsgSeq) → Runs q s.user_id w0 w0.db (handle_recv env s id req)
  unfolding handle_recv
  Runs-recv req = Runs-require_auth s id _ λ _. Runs-some_or id 400 _ (omega arith) req _ λ m _.
      Runs-need id 400 _ (omega arith) (not (is_empty m.conversation_id)) _ λ _.
        Runs-some_or id 400 _ (omega arith) (positive m.seq) _
          λ seq _. Runs-parse_uuid env id m.conversation_id _ _ λ conv _. Runs-recv_at conv seq

  pub Runs-clear : (req : Option MsgSeq) → Runs q s.user_id w0 w0.db (handle_clear env s id req)
  unfolding handle_clear
  Runs-clear req = Runs-require_auth s id _ λ _. Runs-some_or id 400 _ (omega arith) req _ λ m _.
      Runs-need id 400 _ (omega arith) (not (is_empty m.conversation_id)) _ λ _.
        Runs-some_or id 400 _ (omega arith) (positive m.seq) _ λ seq _.
          Runs-parse_uuid env id m.conversation_id _ _ λ conv _.
            Runs-require_member s id conv _ λ joined.
              Runs-write id 500 _ (omega arith) _ _
                (Runs-now _ (Runs-success id 200 _ (omega arith) (cleared_to conv seq joined)))

  -- A notice that is delivered without a reply.
  Runs-notice :
      q ≡ true
      → (us : List ℕ) (i : Info) → Runs q s.user_id w0 w0.db (send_to_users us (info i) s.id)
  unfolding send_to_users
  Runs-notice quiet us i = record { at = λ w p. silent quiet p.db_is (ap replies p.sent_is) }

  Runs-broadcast :
      q ≡ true → (conv : ℕ) (i : Info) → Runs q s.user_id w0 w0.db (broadcast env conv i s.id)
  unfolding broadcast pure
  Runs-broadcast quiet conv i =
      Runs-if env.has_hub _ _
        (λ _.
          Runs-call (reading (get_conversation_members conv)) _ (λ _. Runs-notice quiet [] i)
            λ k us db' e.
              subst (λ d. Runs q s.user_id w0 d (send_to_users us (info i) s.id))
                (reading-some (get_conversation_members conv) k w0.now us w0.db db' e).1
                (Runs-notice quiet us i))
        λ _. Runs-silent
    where
      Runs-silent : Runs q s.user_id w0 w0.db (pure tt)
      Runs-silent = record { at = λ w p. silent quiet p.db_is (ap replies p.sent_is) }

  Runs-notify_typing :
      q ≡ true
      → (conv : ℕ) (o : Option Bool) → Runs q s.user_id w0 w0.db (notify_typing env s id conv o)
  unfolding notify_typing
  Runs-notify_typing quiet conv none = Runs-stop quiet
  Runs-notify_typing quiet conv (some false) = Runs-stop quiet
  Runs-notify_typing quiet conv (some true) = Runs-now _ (Runs-broadcast quiet conv _)

  Runs-typing_in : q ≡ true → (o : Option ℕ) → Runs q s.user_id w0 w0.db (typing_in env s id o)
  unfolding typing_in
  Runs-typing_in quiet none = Runs-stop quiet
  Runs-typing_in quiet (some conv) =
      Runs-call (reading (is_member conv s.user_id)) _ (λ _. Runs-notify_typing quiet conv none)
        λ i b db' e.
          subst (λ d. Runs q s.user_id w0 d (notify_typing env s id conv (some b)))
            (reading-some (is_member conv s.user_id) i w0.now b w0.db db' e).1
            (Runs-notify_typing quiet conv (some b))

  pub Runs-typing :
      q ≡ true → (req : Option Text) → Runs q s.user_id w0 w0.db (handle_typing env s id req)
  unfolding handle_typing
  Runs-typing quiet req = Runs-require_auth s id _ λ _.
      Runs-some_or id 400 _ (omega arith) req _ λ t _.
        Runs-need id 400 _ (omega arith) (not (is_empty t)) _
          λ _. Runs-typing_in quiet (env.parse_uuid t)

  module _ (conv : ℕ) (c : Conversation) (r : Role)
      (is_conv : get_conversation_by_id conv w0.db ≡ some c)
      (is_role : get_member_role conv s.user_id w0.db ≡ some r)
      (may : (c.kind ≡ dm) ⊎ (is_privileged r ≡ true)) where
    Runs-unpin : Runs q s.user_id w0 w0.db (unpin env s id conv)
    unfolding unpin
    Runs-unpin = Runs-now _ (
        Runs-write id 500 _ (omega arith) _ _ (
          Runs-success_then id 200 _ (omega arith) _
            (pinned conv none c r is_conv is_role may (inl refl)) (Ends-broadcast env conv _ _)))

    Runs-pin : (seq : ℤ) → Runs q s.user_id w0 w0.db (pin env s id conv seq)
    unfolding pin
    Runs-pin seq = Runs-now _ (
        Runs-require_message env s id conv seq _ λ m found. Runs-write id 500 _ (omega arith) _ _ (
          Runs-success_then id 200 _ (omega arith) _
            (pinned conv (some m.id) c r is_conv is_role may (inr (seq, m, found, refl)))
            (Ends-broadcast env conv _ _)))

    Runs-pin_or_unpin : (seq : ℤ) → Runs q s.user_id w0 w0.db (pin_or_unpin env s id conv seq)
    unfolding pin_or_unpin
    Runs-pin_or_unpin (pos zero) = Runs-unpin
    Runs-pin_or_unpin (pos (suc n)) = Runs-pin (pos (suc n))
    Runs-pin_or_unpin (negsuc n) = Runs-pin (negsuc n)

  pub Runs-pin_request : (req : Option MsgSeq) → Runs q s.user_id w0 w0.db (handle_pin env s id req)
  unfolding handle_pin
  Runs-pin_request req = Runs-require_auth s id _ λ _.
      Runs-some_or id 400 _ (omega arith) req _ λ m _.
        Runs-need id 400 _ (omega arith) (not (is_empty m.conversation_id)) _ λ _.
          Runs-parse_uuid env id m.conversation_id _ _ λ conv _.
            Runs-fetch id 500 _ (omega arith) _ _ (
              Runs-some_or id 404 _ (omega arith) _ _ λ c is_conv.
                Runs-require_role env s id conv _ λ r is_role.
                  Runs-need id 403 _ (omega arith) (may_pin c.kind r) _ λ may.
                    Runs-pin_or_unpin conv c r is_conv is_role (may_pin-cases c.kind r may) m.seq)
