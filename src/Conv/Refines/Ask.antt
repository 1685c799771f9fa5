-- ===== src/Conv/Refines/Ask.antt =====
-- handlers_conv.go against the contract: the queries for contacts, a user, mentions and
-- conversations.
use mv_chat.Prelude.{
  ℕ, Bool, true, false, ◌≡◌, subst, List, [], ◌∷◌, Option, none, some, not, Text, arith, is_empty,
  is_some,
}
use mv_chat.Store.Types.{Database, User, Contact, Conversation}
use mv_chat.Store.Conversations.{get_user_by_id, get_dm_other_user, get_conversation_by_id}
use mv_chat.Store.Members.{get_member}
use mv_chat.Store.Queries.{get_pinned_message_seq}
use mv_chat.Handler.World.{ContactItem, Session, Env, World}
use mv_chat.Handler.Monad.{Handler, ◌>>=◌, call, reading}
use mv_chat.Conv.Requests.{MsgGet}
use mv_chat.Conv.Ask.{
  contact_items, handle_get_conversations, is_dm, call_if, handle_get_contacts, tell_user,
  handle_get_user, handle_get_mentions, tell_conversation, handle_get_conversation,
}
use mv_chat.Conv.Step.{same}
use mv_chat.Conv.Outcome.{Runs, Runs-assoc, Runs-pure, Runs-stop, Runs-call, Runs-need, Runs-fetch}
use mv_chat.Conv.Reply.{Runs-success, Runs-parse_uuid, Runs-require_member}
use mv_chat.Conv.Refines.Send.{reading-some}

module _ {q : Bool} {w0 : World} (env : Env) (s : Session) (id : Text) where
  -- A query whose error is passed over.
  Runs-look :
      {A : Type 0} (f : Database → A) (k : Option A → Handler)
      → ((r : Option A) → Runs q s.user_id w0 w0.db (k r))
      → Runs q s.user_id w0 w0.db (call (reading f) >>= k)
  Runs-look f k h =
      Runs-call (reading f) k (λ _. h none)
        λ i a db' e.
          subst (λ d. Runs q s.user_id w0 d (k (some a))) (reading-some f i w0.now a w0.db db' e).1
            (h (some a))

  Runs-call_if :
      {A : Type 0} (b : Bool) (f : Database → A) (k : Option A → Handler)
      → ((r : Option A) → Runs q s.user_id w0 w0.db (k r))
      → Runs q s.user_id w0 w0.db (call_if b (reading f) >>= k)
  unfolding call_if
  Runs-call_if true f k h = Runs-look f k h
  Runs-call_if false f k h = Runs-pure none k (h none)

  Runs-contact_items :
      (cs : List Contact) (k : List ContactItem → Handler)
      → ((items : List ContactItem) → Runs q s.user_id w0 w0.db (k items))
      → Runs q s.user_id w0 w0.db (contact_items env cs >>= k)
  unfolding contact_items
  Runs-contact_items [] k f = Runs-pure [] k (f [])
  Runs-contact_items (c ∷ cs) k f = Runs-assoc _ _ k (
      Runs-look (get_user_by_id c.contact_id) _
        λ r. Runs-assoc _ _ k (Runs-contact_items cs _ λ items. Runs-pure _ k (f _)))

  pub Runs-contacts : Runs q s.user_id w0 w0.db (handle_get_contacts env s id)
  unfolding handle_get_contacts
  Runs-contacts =
      Runs-fetch id 500 _ (omega arith) _ _
        (Runs-contact_items _ _ λ items. Runs-success id 200 _ (omega arith) same)

  pub Runs-conversations : Runs q s.user_id w0 w0.db (handle_get_conversations env s id)
  unfolding handle_get_conversations
  Runs-conversations =
      Runs-fetch id 500 _ (omega arith) _ _ (Runs-success id 200 _ (omega arith) same)

  pub Runs-mentions : (m : MsgGet) → Runs q s.user_id w0 w0.db (handle_get_mentions env s id m)
  unfolding handle_get_mentions
  Runs-mentions m = Runs-fetch id 500 _ (omega arith) _ _ (Runs-success id 200 _ (omega arith) same)

  module _ (quiet : q ≡ true) where
    Runs-tell_user : (o : Option User) → Runs q s.user_id w0 w0.db (tell_user env s id o)
    unfolding tell_user
    Runs-tell_user none = Runs-stop quiet
    Runs-tell_user (some u) = Runs-success id 200 _ (omega arith) same

    pub Runs-user : (m : MsgGet) → Runs q s.user_id w0 w0.db (handle_get_user env s id m)
    unfolding handle_get_user
    Runs-user m = Runs-need id 400 _ (omega arith) (not (is_empty m.user)) _ λ _.
        Runs-parse_uuid env id m.user _ _ λ user _.
          Runs-fetch id 404 _ (omega arith) _ _ (Runs-tell_user (get_user_by_id user w0.db))

    Runs-tell_conversation :
        (conv : ℕ) (o : Option Conversation)
        → Runs q s.user_id w0 w0.db (tell_conversation env s id conv o)
    unfolding tell_conversation
    Runs-tell_conversation conv none = Runs-stop quiet
    Runs-tell_conversation conv (some c) = Runs-look (get_member conv s.user_id) _ λ row.
        Runs-call_if (is_some c.pinned_message_id) (get_pinned_message_seq conv) _ λ pinned.
          Runs-call_if (is_dm c.kind) (get_dm_other_user conv s.user_id) _
            λ other. Runs-success id 200 _ (omega arith) same

    pub Runs-conversation :
        (m : MsgGet) → Runs q s.user_id w0 w0.db (handle_get_conversation env s id m)
    unfolding handle_get_conversation
    Runs-conversation m = Runs-need id 400 _ (omega arith) (not (is_empty m.conversation_id)) _ λ _.
        Runs-parse_uuid env id m.conversation_id _ _ λ conv _. Runs-require_member s id conv _ λ _.
          Runs-fetch id 404 _ (omega arith) _ _
            (Runs-tell_conversation conv (get_conversation_by_id conv w0.db))
