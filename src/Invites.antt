-- ===== src/Invites.antt =====
-- handlers_invite.go: invite codes are listed, revoked and redeemed, by a user who is logged in or
-- with a new account. The making of an invite, which sends mail, is not modelled.
use mv_chat.Prelude.{
  ℕ, List, [], ◌∷◌, ◌++◌, Option, none, some, Bool, true, false, not, ◌&&◌, Text, String, codes,
  ◌==◌, is_empty, if◌then◌else◌,
}
use mv_chat.Result.{Result, ok, err}
use mv_chat.Crypto.{Base64, CryptoError}
use mv_chat.Crypto.InviteToken.{
  InviteTokenData, InviteError, Generator, verify, decrypt_from_storage, invite_token_expired,
}
use mv_chat.Store.Types.{Database, User, InviteCode, Conversation}
use mv_chat.Store.Conversations.{get_user_by_id, create_dm}
use mv_chat.Store.Contacts.{add_contact, get_pending_invites_by_email}
use mv_chat.Store.Invites.{
  is_pending, get_invite_by_code, use_invite, get_user_invites, revoke_invite,
}
use mv_chat.Handler.World.{Value, uuid, raw, fields, invites, InviteItem, Session, Env}
use mv_chat.Handler.Monad.{
  M, Handler, Statement, pure, fail, need, some_or, now, call, must, success, reading, writing,
  ◌>>=◌, ◌>>◌, parse_uuid, require_auth, code_ok, code_bad_request, code_not_found,
  code_internal_error,
}
pub mod Redeem
pub mod Fixture
mod Tests

-- What the handlers call of other packages: the driver's error for a missing row, as in
-- store/invites.go, and the tokens with the base64 of their storage.
pub record InviteEnv : Type 0 where
  pub is_sql : Bool
  pub tokens : Generator
  pub storage : Base64

-- MsgClientInvite, without `create`.
pub record MsgInvite : Type 0 where
  pub list : Bool
  pub revoke : Text
  pub redeem : Text

abbrev pub item_of_invite : InviteCode → InviteItem
item_of_invite i = record {
  id = i.id;
  email = i.email;
  status = i.status;
  created_at = i.created_at;
  expires_at = i.expires_at;
  name = i.invitee_name;
  code = if is_pending i.status && not (is_empty i.code) then some i.code else none;
  used_at = i.used_at;
  used_by = i.used_by;
}

abbrev pub invite_items : List InviteCode → List InviteItem
invite_items [] = []
invite_items (i ∷ rest) = item_of_invite i ∷ invite_items rest

abbrev pub public_of : Option (Option User) → Option Text
public_of (some (some u)) = u.public
public_of _ = none

abbrev pub finding : InviteEnv → Text → Statement (Option InviteCode)
finding e code id t db = elim (get_invite_by_code e.is_sql t code db) [
  | none ↦ none
  | some r ↦ some (r, db)
]

abbrev pub using : InviteEnv → ℕ → ℕ → Statement (Option InviteCode)
using e invite user id t db = use_invite e.is_sql t invite user db

abbrev pub revoking : ℕ → ℕ → Statement (Unit {0})
revoking invite user id t db = elim (revoke_invite invite user db) [
  | none ↦ none
  | some db' ↦ some (tt, db')
]

abbrev pub opening_dm : ℕ → ℕ → Statement (Conversation × Bool)
opening_dm inviter user id t db = create_dm id t inviter user db

-- The token of an invite, decrypted and verified: what the user is told where it is not valid.
unfoldable pub check_token : InviteEnv → ℕ → InviteCode → Option String
check_token e now i = elim (decrypt_from_storage e.tokens e.storage i.token) [
  | err c ↦ some "invalid invite code"
  | ok token ↦ elim (verify e.tokens now token) [
    | ok d ↦ none
    | err invite_token_expired ↦ some "invite code expired"
    | err _ ↦ some "invalid invite code"
  ]
]

unfoldable pub require_token : Text → Option String → Handler
require_token id none = pure tt
require_token id (some text) = fail id code_not_found text

module _ (env : Env) (e : InviteEnv) (s : Session) (id : Text) where
  unfoldable pub handle_list_invites : Handler
  handle_list_invites = do
    rows ←
        must (reading (get_user_invites s.user_id)) id code_internal_error "failed to get invites"
    success id code_ok (invites (invite_items rows))

  unfoldable pub handle_revoke_invite : Text → Handler
  handle_revoke_invite t = do
    invite ← parse_uuid env id t "invalid invite id"
    _ ← must (revoking invite s.user_id) id code_not_found "invite not found or already used"
    success id code_ok (fields (("id", uuid invite) ∷ []))

  -- After the invite has been marked as used.
  unfoldable pub connect : InviteCode → Handler
  connect i = do
    made ←
        must (opening_dm i.inviter_id s.user_id) id code_internal_error
          "failed to create conversation"
    _ ← call (writing (λ n. add_contact n i.inviter_id s.user_id (codes "invite") (some i.id)))
    inviter ← call (reading (get_user_by_id i.inviter_id))
    success id code_ok (
        fields (
          ("inviter", uuid i.inviter_id)
          ∷ ("inviterPublic", raw (public_of inviter))
          ∷ ("conv", uuid made.0.id)
          ∷ []))

  -- After the token has been verified.
  unfoldable pub redeem_verified : InviteCode → Handler
  redeem_verified i = do
    taken ← must (using e i.id s.user_id) id code_internal_error "failed to redeem invite"
    _ ← some_or taken id code_not_found "invite already used or expired"
    connect i

  -- After the look-up of the code.
  unfoldable pub redeem_row : Option InviteCode → Handler
  redeem_row found = do
    i ← some_or found id code_not_found "invite not found or already used"
    n ← now
    require_token id (check_token e n i)
    redeem_verified i

  unfoldable pub handle_redeem_invite_existing : Text → Handler
  handle_redeem_invite_existing code = do
    found ← must (finding e code) id code_internal_error "failed to verify invite"
    redeem_row found

  unfoldable pub choose_invite : MsgInvite → Handler
  choose_invite m =
      if m.list
      then handle_list_invites
      else if not (is_empty m.revoke)
      then handle_revoke_invite m.revoke
      else if not (is_empty m.redeem)
      then handle_redeem_invite_existing m.redeem
      else fail id code_bad_request "invalid invite request"

  unfoldable pub handle_invite : Option MsgInvite → Handler
  handle_invite req = do
    require_auth s id
    m ← some_or req id code_bad_request "missing invite data"
    choose_invite m

module _ (e : InviteEnv) (user : ℕ) where
  -- The inviter, if the DM with the new user could be opened.
  unfoldable pub connect_new : InviteCode → M (List ℕ)
  connect_new i = do
    made ← call (opening_dm i.inviter_id user)
    elim made [
      | none ↦ pure []
      | some dm ↦ do
        _ ← call (writing (λ n. add_contact n i.inviter_id user (codes "invite") (some i.id)))
        pure (i.inviter_id ∷ [])
    ]

  -- The loop over the other pending invites, after the one of the id `first`.
  unfoldable pub redeem_others : ℕ → List InviteCode → M (List ℕ)
  redeem_others first [] = pure []
  redeem_others first (i ∷ rest) =
      let later = redeem_others first rest in
      if i.id == first then later else (do
        taken ← call (using e i.id user)
        elim taken [
          | none ↦ later
          | some _ ↦ do one ← connect_new i; others ← later; pure (one ++ others)
        ])

  abbrev by_email : Text → Statement (List InviteCode)
  by_email email id t db = some (get_pending_invites_by_email t email db, db)

  -- The users that were connected, or `none` for an error.
  unfoldable pub redeem_found : Text → InviteCode → M (Option (List ℕ))
  redeem_found email i = do
    taken ← call (using e i.id user)
    elim taken [
      | none ↦ pure none
      | some _ ↦ do
        one ← connect_new i
        pending ← call (by_email email)
        elim pending [
          | none ↦ pure (some one)
          | some rows ↦ do others ← redeem_others i.id rows; pure (some (one ++ others))
        ]
    ]

  abbrev no_text : Option String → Bool
  no_text none = true
  no_text (some t) = false

  unfoldable pub redeem_invite_code : Text → Text → M (Option (List ℕ))
  redeem_invite_code code email = do
    found ← call (finding e code)
    n ← now
    elim found [
      | none ↦ pure (some [])
      | some none ↦ pure (some [])
      | some (some i) ↦ if no_text (check_token e n i) then redeem_found email i else pure (some [])
    ]
