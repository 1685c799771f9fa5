-- ===== src/Conv/Refines/Send.antt =====
-- handlers_conv.go against the contract: sending.
use mv_chat.Prelude.{
  ℕ, ◌≡◌, refl, subst, ◌∙◌, ◌⊎◌, inl, inr, Option, none, some, Bool, true, false, not, ◌||◌, Text,
  ℤ, arith, not-true, is_empty, Bool-cases,
}
use mv_chat.Store.Types.{Database, User, Conversation, Kind, dm, room, Message, Member, Head}
use mv_chat.Store.Conversations.{get_conversation_by_id, get_dm_other_user}
use mv_chat.Store.Members.{get_member, is_blocked}
use mv_chat.Store.Messages.{create_message, create_message_with_view_once}
use mv_chat.Handler.World.{Session, Env, World}
use mv_chat.Handler.Monad.{Handler, ◌>>=◌, need, reading}
use mv_chat.Conv.Requests.{MsgSend}
use mv_chat.Conv.Send.{
  creating_message, finding_other, check_blocked, check_dm, head_map, head_json, mentions_in,
  is_view_once_ttl, default_ttl, other_of, send_reply, send_data, send_content, send_to,
  handle_send,
}
use mv_chat.Conv.Step.{Fault, NotBlocked, sent}
use mv_chat.Conv.Outcome.{
  Runs, Ends, Runs-assoc, Runs-pure, Runs-call, Runs-some_or, Runs-need, Runs-must, Runs-fetch,
}
use mv_chat.Conv.Reply.{
  Ends-pure, Ends-send, Ends-call, Ends-if, Runs-success_then, Runs-parse_uuid, Runs-require_auth,
}

finding_other-none :
    (s : Session) (conv i t : ℕ) (db : Database)
    → finding_other s conv i t db ≡ none
    → get_dm_other_user conv s.user_id db ≡ none
finding_other-none s conv i t db h = ground arith

finding_other-some :
    (s : Session) (conv i t : ℕ) (db db' : Database) (o : Option User)
    → finding_other s conv i t db ≡ some (o, db')
    → (get_dm_other_user conv s.user_id db ≡ some o) × (db ≡ db')
finding_other-some s conv i t db db' o h = ground arith

pub reading-some :
    {A : Type 0} (f : Database → A) (i t : ℕ) (a : A) (db db' : Database)
    → reading f i t db ≡ some (a, db')
    → (f db ≡ a) × (db ≡ db')
reading-some f i t a db db' h = ground arith

-- Both ways to create a message are the one with the two columns.
abbrev Created : ℕ → ℕ → ℕ → ℕ → Text → Option Head → Database → Message → Database → Type 0
Created i t conv u content head db m db' =
    (view_once : Bool) × (ttl : Option ℤ) × (create_message_with_view_once i t conv u content head
        view_once ttl db
      ≡ some (m, db'))

creating-Created :
    (conv u i t : ℕ) (content : Text) (h : Head) (m : MsgSend) (msg : Message) (db db' : Database)
    → creating_message conv u content h m i t db ≡ some (msg, db')
    → Created i t conv u content (head_json h) db msg db'
unfolding creating_message create_message
creating-Created conv u i t content h m msg db db' e = elim (Bool-cases m.view_once) [
  | inl once ↦ (true, some (default_ttl m.view_once_ttl), ground arith)
  | inr plain ↦ (false, none, ground arith)
]

module _ {w0 : World} (env : Env) (s : Session) (id : Text) where
  Ends-send_data :
      (conv : ℕ) (content : Text) (h : Head) (m : Message)
      → Ends s.user_id w0 (send_data env s id conv content h m)
  unfolding send_data
  Ends-send_data conv content h m =
      Ends-call _ _ λ r. Ends-if env.has_hub _ _ (Ends-send _ _ s.id) Ends-pure

module _ {q : Bool} {w0 : World} (env : Env) (s : Session) (id : Text) where
  Runs-check_blocked :
      (conv : ℕ) (o : User) (k : Unit {0} → Handler)
      → (Fault w0.faults ⊎ (is_blocked conv o.id w0.db ≡ false) → Runs q s.user_id w0 w0.db (k tt))
      → Runs q s.user_id w0 w0.db (check_blocked env s id conv (some o) >>= k)
  unfolding check_blocked
  Runs-check_blocked conv o k f = Runs-assoc _ _ k (
      Runs-call (reading (is_blocked conv o.id)) _
        (λ bad. Runs-need id 403 _ (omega arith) true k λ _. f (inl (fault bad)))
        λ i b db' e.
          let (is, same) = reading-some (is_blocked conv o.id) i w0.now b w0.db db' e in
          subst (λ d. Runs q s.user_id w0 d (need (not b) id 403 "blocked" >>= k)) same
            (Runs-need id 403 _ (omega arith) (not b) k λ h. f (inr (is ∙ not-true b h))))
    where
      fault :
          Fault w0.faults ⊎ ((i : ℕ) × (reading (is_blocked conv o.id) i w0.now w0.db ≡ none))
          → Fault w0.faults
      fault (inl h) = h
      fault (inr (i, e)) = cc

  Runs-check_dm :
      (conv : ℕ) (c : Conversation) (kind : Kind) (k : Unit {0} → Handler)
      → c.kind ≡ kind
      → (NotBlocked s.user_id conv w0.faults c w0.db → Runs q s.user_id w0 w0.db (k tt))
      → Runs q s.user_id w0 w0.db (check_dm env s id conv kind >>= k)
  unfolding check_dm check_blocked
  Runs-check_dm conv c room k is f = Runs-pure tt k (f (inl is))
  Runs-check_dm conv c dm k is f = Runs-assoc _ _ k (
      Runs-call (finding_other s conv) _ (λ bad. Runs-pure tt k (f (missing bad)))
        λ i o db' e.
          let (found, same) = finding_other-some s conv i w0.now w0.db db' o e in
          subst (λ d. Runs q s.user_id w0 d (check_blocked env s id conv (other_of (some o)) >>= k))
            same (look o found))
    where
      missing :
          Fault w0.faults ⊎ ((i : ℕ) × (finding_other s conv i w0.now w0.db ≡ none))
          → NotBlocked s.user_id conv w0.faults c w0.db
      missing (inl h) = inr (inl h)
      missing (inr (i, e)) = inr (inr (inl (finding_other-none s conv i w0.now w0.db e)))

      look :
          (o : Option User)
          → get_dm_other_user conv s.user_id w0.db ≡ some o
          → Runs q s.user_id w0 w0.db (check_blocked env s id conv (other_of (some o)) >>= k)
      look none found = Runs-pure tt k (f (inr (inr (inr (inl found)))))
      look (some o) found = Runs-check_blocked conv o k λ h. f (allowed o found h)
        where
          allowed :
              (o : User)
              → get_dm_other_user conv s.user_id w0.db ≡ some (some o)
              → Fault w0.faults ⊎ (is_blocked conv o.id w0.db ≡ false)
              → NotBlocked s.user_id conv w0.faults c w0.db
          allowed o found (inl h) = inr (inl h)
          allowed o found (inr h) = inr (inr (inr (inr (o, found, h))))

  Runs-send_content :
      (conv : ℕ) (m : MsgSend) (content : Text) (row : Member) (c : Conversation)
      → get_member conv s.user_id w0.db ≡ some row
      → get_conversation_by_id conv w0.db ≡ some c
      → NotBlocked s.user_id conv w0.faults c w0.db
      → Runs q s.user_id w0 w0.db (send_content env s id conv m content)
  unfolding send_content send_reply
  Runs-send_content conv m content row c is_row is_conv free =
      Runs-need id 400 _ (omega arith) (not m.view_once || is_view_once_ttl m.view_once_ttl) _ λ _.
        Runs-some_or id 500 _ (omega arith) (env.encrypt content) _ λ sealed _.
          Runs-must id 500 _ (omega arith) _ _ λ i msg db' e.
            let h = head_map m (mentions_in (env.mentions_of content)) in
            let (once, ttl, made) =
              creating-Created conv s.user_id i w0.now sealed h m msg w0.db db' e in
            Runs-success_then id 202 _ (omega arith) _
              (sent i conv sealed (head_json h) once ttl row c msg is_row is_conv free made)
              (Ends-send_data env s id conv content h msg)

  Runs-send_to :
      (m : MsgSend) (content : Text) → Runs q s.user_id w0 w0.db (send_to env s id m content)
  unfolding send_to
  Runs-send_to m content = Runs-parse_uuid env id m.conversation_id _ _ λ conv _.
      Runs-fetch id 500 _ (omega arith) _ _ (
        Runs-some_or id 403 _ (omega arith) _ _ λ row is_row.
          Runs-fetch id 404 _ (omega arith) _ _ (
            Runs-some_or id 404 _ (omega arith) _ _ λ c is_conv.
              Runs-check_dm conv c c.kind _ refl
                λ free. Runs-send_content conv m content row c is_row is_conv free))

  pub Runs-send : (req : Option MsgSend) → Runs q s.user_id w0 w0.db (handle_send env s id req)
  unfolding handle_send
  Runs-send req = Runs-require_auth s id _ λ _. Runs-some_or id 400 _ (omega arith) req _ λ m _.
      Runs-need id 400 _ (omega arith) (not (is_empty m.conversation_id)) _
        λ _. Runs-some_or id 400 _ (omega arith) m.content _ λ content _. Runs-send_to m content
