-- ===== src/Server/Contacts.antt =====
-- Contacts (handlers_contact.go, handlers_invite.go, store/contacts.go) under all that writes them.
use mv_chat.Prelude.{
  ℕ, ◌≡◌, subst, List, [], ◌∷◌, Option, none, some, Text, String, arith, not, is_empty, codes, ◌==◌,
}
use mv_chat.Store.Types.{InviteCode}
use mv_chat.Store.Contacts.{add_contact}
use mv_chat.Store.Invites.{use_invite, revoke_invite}
use mv_chat.Store.Symmetry.{IsSymmetric, add_contact-IsSymmetric}
use mv_chat.Handler.World.{Session, Env, World}
use mv_chat.Handler.Monad.{writing, parse_uuid, require_auth}
use mv_chat.Conv.Dispatch.{at_time}
use mv_chat.Conv.Refines.Dispatch.{dispatch-Outcome}
use mv_chat.Conv.Safety.Contacts.{IsSymmetric-same, create_dm-contacts, Outcome-IsSymmetric}
use mv_chat.Invites.{
  InviteEnv, MsgInvite, finding, using, revoking, opening_dm, check_token, require_token, connect,
  redeem_verified, redeem_row, handle_list_invites, handle_revoke_invite,
  handle_redeem_invite_existing, choose_invite, handle_invite, connect_new, redeem_others,
  redeem_found, redeem_invite_code,
}
use mv_chat.Server.{ClientMessage, Event, message, joined, handle_message, handle_event, serve_all}
use mv_chat.Server.Keeps.{
  Keeps, KeepsStatement, Keeps-bind, Keeps-call, Keeps-fail, Keeps-if, Keeps-must, Keeps-need,
  Keeps-now, Keeps-option, Keeps-pure, Keeps-some_or, Keeps-success, KeepsStatement-reading,
}

-- The statements of the invite handlers.
KeepsStatement-using : (e : InviteEnv) (invite user : ℕ) → KeepsStatement (using e invite user)
unfolding use_invite
KeepsStatement-using e invite user = record {
  at = λ i t db db' a h v. IsSymmetric-same db db' (ground arith) v;
}

KeepsStatement-revoking : (invite user : ℕ) → KeepsStatement (revoking invite user)
unfolding revoke_invite
KeepsStatement-revoking invite user = record {
  at = λ i t db db' a h v. IsSymmetric-same db db' (ground arith) v;
}

KeepsStatement-finding : (e : InviteEnv) (code : Text) → KeepsStatement (finding e code)
KeepsStatement-finding e code = record {
  at = λ i t db db' a h v. IsSymmetric-same db db' (ground arith) v;
}

KeepsStatement-opening_dm : (a b : ℕ) → KeepsStatement (opening_dm a b)
KeepsStatement-opening_dm a b = record {
  at = λ i t db db' x h v. IsSymmetric-same db db' (create_dm-contacts i t a b x db db' h) v;
}

KeepsStatement-contact :
    (u c : ℕ) (source : Text) (invite : Option ℕ)
    → KeepsStatement (writing (λ t. add_contact t u c source invite))
KeepsStatement-contact u c source invite = record {
  at = λ i t db db' x h v.
      let e : add_contact t u c source invite db ≡ db' = ground (arith, h) in
      subst IsSymmetric e (add_contact-IsSymmetric t u c source invite db v);
}

module _ (env : Env) (e : InviteEnv) (s : Session) (id : Text) where
  Keeps-connect : (i : InviteCode) → Keeps (connect env e s id i)
  unfolding connect
  Keeps-connect i =
      Keeps-bind (Keeps-must id 500 _ (KeepsStatement-opening_dm i.inviter_id s.user_id)) λ made.
        Keeps-bind
          (Keeps-call (KeepsStatement-contact i.inviter_id s.user_id (codes "invite") (some i.id)))
          λ _. Keeps-bind (Keeps-call (KeepsStatement-reading _)) λ inviter. Keeps-success id 200 _

  Keeps-redeem_verified : (i : InviteCode) → Keeps (redeem_verified env e s id i)
  unfolding redeem_verified
  Keeps-redeem_verified i =
      Keeps-bind (Keeps-must id 500 _ (KeepsStatement-using e i.id s.user_id))
        λ taken. Keeps-bind (Keeps-some_or taken id 404 _) λ _. Keeps-connect i

  Keeps-require_token : (o : Option String) → Keeps (require_token id o)
  unfolding require_token
  Keeps-require_token none = Keeps-pure tt
  Keeps-require_token (some text) = Keeps-fail id 404 text

  Keeps-redeem_row : (o : Option InviteCode) → Keeps (redeem_row env e s id o)
  unfolding redeem_row
  Keeps-redeem_row o = Keeps-bind (Keeps-some_or o id 404 _) λ i.
      Keeps-bind Keeps-now
        λ n. Keeps-bind (Keeps-require_token (check_token e n i)) λ _. Keeps-redeem_verified i

  Keeps-redeem : (code : Text) → Keeps (handle_redeem_invite_existing env e s id code)
  unfolding handle_redeem_invite_existing
  Keeps-redeem code =
      Keeps-bind (Keeps-must id 500 _ (KeepsStatement-finding e code)) λ o. Keeps-redeem_row o

  Keeps-list : Keeps (handle_list_invites env e s id)
  unfolding handle_list_invites
  Keeps-list =
      Keeps-bind (Keeps-must id 500 _ (KeepsStatement-reading _)) λ rows. Keeps-success id 200 _

  Keeps-revoke : (t : Text) → Keeps (handle_revoke_invite env e s id t)
  unfolding handle_revoke_invite parse_uuid
  Keeps-revoke t = Keeps-bind (Keeps-some_or (env.parse_uuid t) id 400 _) λ invite.
      Keeps-bind (Keeps-must id 404 _ (KeepsStatement-revoking invite s.user_id))
        λ _. Keeps-success id 200 _

  Keeps-choose : (m : MsgInvite) → Keeps (choose_invite env e s id m)
  unfolding choose_invite
  Keeps-choose m = Keeps-if m.list Keeps-list (
      Keeps-if (not (is_empty m.revoke)) (Keeps-revoke m.revoke)
        (Keeps-if (not (is_empty m.redeem)) (Keeps-redeem m.redeem) (Keeps-fail id 400 _)))

  Keeps-invite : (req : Option MsgInvite) → Keeps (handle_invite env e s id req)
  unfolding handle_invite require_auth
  Keeps-invite req =
      Keeps-bind (Keeps-need _ id 401 _)
        λ _. Keeps-bind (Keeps-some_or req id 400 _) λ m. Keeps-choose m

module _ (e : InviteEnv) (user : ℕ) where
  Keeps-connect_new : (i : InviteCode) → Keeps (connect_new e user i)
  unfolding connect_new
  Keeps-connect_new i = Keeps-bind (Keeps-call (KeepsStatement-opening_dm i.inviter_id user)) (
      Keeps-option _ (Keeps-pure []) λ dm.
        Keeps-bind
          (Keeps-call (KeepsStatement-contact i.inviter_id user (codes "invite") (some i.id)))
          λ _. Keeps-pure (i.inviter_id ∷ []))

  Keeps-redeem_others :
      (first : ℕ) (rows : List InviteCode) → Keeps (redeem_others e user first rows)
  unfolding redeem_others
  Keeps-redeem_others first [] = Keeps-pure []
  Keeps-redeem_others first (i ∷ rest) =
      let ih = Keeps-redeem_others first rest in
      Keeps-if (i.id == first) ih (
        Keeps-bind (Keeps-call (KeepsStatement-using e i.id user)) (
          Keeps-option _ ih
            λ _. Keeps-bind (Keeps-connect_new i) λ one. Keeps-bind ih λ others. Keeps-pure _))

  Keeps-redeem_found : (email : Text) (i : InviteCode) → Keeps (redeem_found e user email i)
  unfolding redeem_found
  Keeps-redeem_found email i = Keeps-bind (Keeps-call (KeepsStatement-using e i.id user)) (
      Keeps-option _ (Keeps-pure none) λ _. Keeps-bind (Keeps-connect_new i) λ one.
        Keeps-bind
          (Keeps-call
            (record { at = λ i t db db' a h v. IsSymmetric-same db db' (ground arith) v }))
          (Keeps-option _ (Keeps-pure (some one))
            λ rows. Keeps-bind (Keeps-redeem_others i.id rows) λ others. Keeps-pure _))

  Keeps-redeem_invite_code : (code email : Text) → Keeps (redeem_invite_code e user code email)
  unfolding redeem_invite_code
  Keeps-redeem_invite_code code email = Keeps-bind (Keeps-call (KeepsStatement-finding e code)) (
      Keeps-option _ (Keeps-bind Keeps-now λ n. Keeps-pure (some [])) (
        Keeps-option _ (Keeps-bind Keeps-now λ n. Keeps-pure (some [])) λ i.
          Keeps-bind Keeps-now λ n. Keeps-if _ (Keeps-redeem_found email i) (Keeps-pure (some []))))

handle_event-IsSymmetric :
    (env : Env) (e : InviteEnv) (v : Event) (w : World)
    → IsSymmetric w.db
    → IsSymmetric (handle_event env e v w).db
unfolding handle_event handle_message
handle_event-IsSymmetric env e (message s id time (ClientMessage.conversation r)) w h =
    Outcome-IsSymmetric h (dispatch-Outcome env s id r (at_time time w))
handle_event-IsSymmetric env e (message s id time (ClientMessage.invite m)) w h =
    (Keeps-invite env e s id m).at (at_time time w) h
handle_event-IsSymmetric env e (joined user time code email) w h =
    (Keeps-redeem_invite_code e user code email).at (at_time time w) h

-- Whatever messages for handlers_conv.go, handlers_contact.go and handlers_invite.go (but for the
-- making of an invite) arrive, in whatever order, from whatever sessions, whatever invite codes new
-- accounts redeem between them, and whatever calls of the store fail: if everybody is a contact of each
-- of their contacts, then so it is after all of that.
pub serve_all-IsSymmetric :
    (env : Env) (e : InviteEnv) (events : List Event) (w : World)
    → IsSymmetric w.db
    → IsSymmetric (serve_all env e events w).db
unfolding serve_all
serve_all-IsSymmetric env e [] w h = h
serve_all-IsSymmetric env e (v ∷ rest) w h =
    serve_all-IsSymmetric env e rest _ (handle_event-IsSymmetric env e v w h)
