-- ===== src/Invites/Tests.antt =====
-- Examples of the redeeming of an invite code.
use mv_chat.Prelude.{
  ℕ, text_eq, ◌&&◌, ◌==◌, suc, ◌≡◌, refl, [], ◌∷◌, none, some, true, false, codes, if◌then◌else◌,
  find?, any,
}
use mv_chat.Store.Types.{Conversation}
use mv_chat.Store.Conversations.{get_user_by_id, find_dm}
use mv_chat.Store.Redeeming.{row}
use mv_chat.Store.Dm.{HasConversations, IsDmOf}
use mv_chat.Store.Contacts.{is_contact}
use mv_chat.Store.Invites.{is_open, taken}
use mv_chat.Crypto.{decrypt_string, decrypt}
use mv_chat.Crypto.InviteToken.{decrypt_from_storage, verify, read_payload}
use mv_chat.Handler.World.{uuid, raw, fields, reply}
use mv_chat.Handler.Monad.{ctrl_error, ctrl_success}
use mv_chat.Conv.Fixture.{env, session, id, world}
use mv_chat.Invites.{public_of, check_token, handle_redeem_invite_existing}
use mv_chat.Invites.Fixture.{invite_env, an_invite, open_world}
use mv_chat.Invites.Redeem.{redeem_missing, redeem_works}

redeem_missing_example :
    (handle_redeem_invite_existing env invite_env (session 3) id (codes "none") world).1
    ≡ record world {
      calls = suc world.calls;
      sent =
          reply (
            if invite_env.is_sql
            then ctrl_error id 404 "invite not found or already used" world.now
            else ctrl_error id 500 "failed to verify invite" world.now)
          ∷ world.sent;
    }
unfolding find?
redeem_missing_example = redeem_missing env invite_env (session 3) id (codes "none") world refl refl

found :
    find? (λ k. text_eq k.code (codes "abc") && is_open world.now k) open_world.db.invite_codes
    ≡ some an_invite
unfolding find?
found = refl

valid : check_token invite_env world.now an_invite ≡ none
unfolding check_token decrypt_from_storage decrypt_string decrypt verify read_payload
valid = refl

known : HasConversations open_world.db
unfolding find_dm find?
known p x y h = cc

fresh : any (λ (d : Conversation). d.id == 100) open_world.db.conversations ≡ false
unfolding any
fresh = refl

only : row 70 open_world.db ≡ some an_invite
unfolding find?
only = refl

redeem_works_example :
    let w' =
      (handle_redeem_invite_existing env invite_env (session 3) id (codes "abc") open_world).1 in
    (conv : ℕ) × (row 70 w'.db ≡ some (taken world.now 3 an_invite))
    × IsDmOf conv 1 3 w'.db
    × (is_contact 1 3 w'.db ≡ true)
    × (is_contact 3 1 w'.db ≡ true)
    × (w'.sent
        ≡ reply (
            ctrl_success id 200
              (fields (
                ("inviter", uuid 1)
                ∷ ("inviterPublic", raw (public_of (some (get_user_by_id 1 w'.db))))
                ∷ ("conv", uuid conv)
                ∷ []))
              world.now)
          ∷ [])
redeem_works_example =
    redeem_works env invite_env (session 3) id (codes "abc") open_world an_invite (λ k. refl) found
      only valid refl fresh known
