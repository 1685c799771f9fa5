-- ===== src/Conv/Refines/Get.antt =====
-- handlers_conv.go against the contract: the queries.
use mv_chat.Prelude.{
  Bool, true, ◌≡◌, refl, ℕ, subst, List, [], ◌∷◌, Option, some, not, Text, arith, is_empty,
}
use mv_chat.Store.Conversations.{get_user_by_id}
use mv_chat.Handler.World.{UserItem, Session, Env, World}
use mv_chat.Handler.Monad.{Handler, ◌>>=◌, pure, reading}
use mv_chat.Conv.Requests.{
  MsgGet, What, what_messages, what_members, what_receipts, what_contacts, what_user, what_mentions,
  what_conversations, what_unknown, what_conversation,
}
use mv_chat.Conv.Get.{
  may_panic, cons_some, member_items, handle_get_messages, handle_get_members, handle_get_receipts,
  dispatch_get, handle_get,
}
use mv_chat.Conv.Shown.{found_user}
use mv_chat.Conv.Step.{same}
use mv_chat.Conv.Outcome.{
  Runs, Runs-fail, Runs-assoc, Runs-pure, Runs-call, Runs-some_or, Runs-need, Runs-fetch,
}
use mv_chat.Conv.Reply.{Runs-success, Runs-parse_uuid, Runs-require_auth, Runs-require_member}
use mv_chat.Conv.Refines.Send.{reading-some}
use mv_chat.Conv.Refines.Ask.{
  Runs-contacts, Runs-user, Runs-mentions, Runs-conversations, Runs-conversation,
}

module _ {q : Bool} {w0 : World} (env : Env) (s : Session) (id : Text) where
  Runs-member_items :
      (us : List ℕ) (k : List UserItem → Handler)
      → ((items : List UserItem) → Runs q s.user_id w0 w0.db (k items))
      → Runs q s.user_id w0 w0.db (member_items env us >>= k)
  unfolding member_items
  Runs-member_items [] k f = Runs-pure [] k (f [])
  Runs-member_items (u ∷ us) k f = Runs-assoc _ _ k (
      Runs-call (reading (get_user_by_id u)) _
        (λ _. Runs-assoc _ _ k (Runs-member_items us _ λ items. Runs-pure _ k (f _)))
        λ i r db' e.
          subst
            (λ d. Runs q s.user_id w0 d (
              member_items env us
              >>= (λ items. pure (cons_some env (found_user (some r)) items))
              >>= k))
            (reading-some (get_user_by_id u) i w0.now r w0.db db' e).1
            (Runs-assoc _ _ k (Runs-member_items us _ λ items. Runs-pure _ k (f _))))

  Runs-messages : (m : MsgGet) → Runs q s.user_id w0 w0.db (handle_get_messages env s id m)
  unfolding handle_get_messages
  Runs-messages m = Runs-need id 400 _ (omega arith) (not (is_empty m.conversation_id)) _ λ _.
      Runs-parse_uuid env id m.conversation_id _ _ λ conv _. Runs-fetch id 500 _ (omega arith) _ _ (
        Runs-some_or id 403 _ (omega arith) _ _
          λ row _. Runs-fetch id 500 _ (omega arith) _ _ (Runs-success id 200 _ (omega arith) same))

  Runs-members : (m : MsgGet) → Runs q s.user_id w0 w0.db (handle_get_members env s id m)
  unfolding handle_get_members
  Runs-members m = Runs-need id 400 _ (omega arith) (not (is_empty m.conversation_id)) _ λ _.
      Runs-parse_uuid env id m.conversation_id _ _ λ conv _. Runs-require_member s id conv _ λ _.
        Runs-fetch id 500 _ (omega arith) _ _
          (Runs-member_items _ _ λ items. Runs-success id 200 _ (omega arith) same)

  Runs-receipts : (m : MsgGet) → Runs q s.user_id w0 w0.db (handle_get_receipts env s id m)
  unfolding handle_get_receipts
  Runs-receipts m = Runs-need id 400 _ (omega arith) (not (is_empty m.conversation_id)) _ λ _.
      Runs-parse_uuid env id m.conversation_id _ _ λ conv _.
        Runs-require_member s id conv _
          λ _. Runs-fetch id 500 _ (omega arith) _ _ (Runs-success id 200 _ (omega arith) same)

  Runs-dispatch_get :
      (what : What) (m : MsgGet)
      → (may_panic what ≡ true → q ≡ true)
      → Runs q s.user_id w0 w0.db (dispatch_get env s id what m)
  unfolding dispatch_get
  Runs-dispatch_get what_messages m quiet = Runs-messages m
  Runs-dispatch_get what_members m quiet = Runs-members m
  Runs-dispatch_get what_receipts m quiet = Runs-receipts m
  Runs-dispatch_get what_contacts m quiet = Runs-contacts env s id
  Runs-dispatch_get what_user m quiet = Runs-user env s id (quiet refl) m
  Runs-dispatch_get what_mentions m quiet = Runs-mentions env s id m
  Runs-dispatch_get what_conversation m quiet = Runs-conversation env s id (quiet refl) m
  Runs-dispatch_get what_conversations m quiet = Runs-conversations env s id
  Runs-dispatch_get what_unknown m quiet = Runs-fail id 400 _ (omega arith)

  pub Runs-get :
      (what : What) (req : Option MsgGet)
      → (may_panic what ≡ true → q ≡ true)
      → Runs q s.user_id w0 w0.db (handle_get env s id what req)
  unfolding handle_get
  Runs-get what req quiet =
      Runs-require_auth s id _
        λ _. Runs-some_or id 400 _ (omega arith) req _ λ m _. Runs-dispatch_get what m quiet
