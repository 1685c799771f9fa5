-- ===== src/Invites/Redeem.antt =====
-- How the redeeming of an invite code ends (handlers_invite.go).
use mv_chat.Prelude.{
  ℕ, suc, ◌≡◌, refl, ap, ◌∙◌, inl, inr, [], ◌∷◌, Option, none, some, Bool, true, false, ◌&&◌, Text,
  String, codes, arith, ==_refl, text_eq, Bool-cases, if◌then◌else◌, find?, find?-sound, any,
  update_where, ltb, ◌==◌, &&-true, subst, sym,
}
use mv_chat.Store.Types.{Database, InviteCode, Conversation}
use mv_chat.Store.Conversations.{get_user_by_id, get_conversation_by_id, find_dm, create_dm}
use mv_chat.Store.Contacts.{add_contact, is_contact}
use mv_chat.Store.Invites.{is_open, has_id, taken, get_invite_by_code, use_invite}
use mv_chat.Store.Redeeming.{row, use_invite-open, use_invite_sound}
use mv_chat.Store.Dm.{HasConversations, IsDmOf, create_dm-Opens}
use mv_chat.Store.Symmetry.{is_contact-add_contact}
use mv_chat.Handler.World.{uuid, raw, fields, reply, Session, Env, World}
use mv_chat.Handler.Monad.{
  M, Handler, Statement, pure, fail, some_or, now, call, must, success, reading, writing, ◌>>=◌,
  ctrl_error, ctrl_success,
}
use mv_chat.Invites.{
  InviteEnv, public_of, finding, using, opening_dm, check_token, require_token, connect,
  redeem_verified, redeem_row, handle_redeem_invite_existing,
}

abbrev next : World → Database → World
next w db = record w { calls = suc w.calls; db = db }

module _ {A : Type 0} (st : Statement A) (w : World) (works : w.faults w.calls ≡ false) where
  must-works :
      (id : Text) (code : ℕ) (text : String) (a : A) (db : Database) (k : A → Handler)
      → st (w.uuids w.calls) w.now w.db ≡ some (a, db)
      → (must st id code text >>= k) w ≡ k a (next w db)
  unfolding must some_or pure ◌>>=◌ call
  must-works id code text a db k e = rw (works, e) refl

  call-then :
      {B : Type 0} (a : A) (db : Database) (k : Option A → M B)
      → st (w.uuids w.calls) w.now w.db ≡ some (a, db)
      → (call st >>= k) w ≡ k (some a) (next w db)
  unfolding ◌>>=◌ call
  call-then a db k e = rw (works, e) refl

  must-fails :
      (id : Text) (code : ℕ) (text : String) (k : A → Handler)
      → st (w.uuids w.calls) w.now w.db ≡ none
      → ((must st id code text >>= k) w).1
        ≡ record w { calls = suc w.calls; sent = reply (ctrl_error id code text w.now) ∷ w.sent }
  unfolding must some_or fail pure ◌>>=◌ call
  must-fails id code text k e = rw (works, e) refl

module _ (e : InviteEnv) (code : Text) (w : World) where
  finding-missing :
      find? (λ i. text_eq i.code code && is_open w.now i) w.db.invite_codes ≡ none
      → finding e code (w.uuids w.calls) w.now w.db ≡ (if e.is_sql then some (none, w.db) else none)
  unfolding get_invite_by_code
  finding-missing gone = elim (Bool-cases e.is_sql) [
    | inl q ↦ rw (gone, finding) (rw q refl)
    | inr q ↦ rw (gone, finding) (rw q refl)
  ]

-- Where no open invite has the code, and the connection works, nothing changes but that one error is
-- answered: 404 if the error that the driver gives for a missing row is sql.ErrNoRows itself, and
-- otherwise 500.
pub redeem_missing :
    (env : Env) (e : InviteEnv) (s : Session) (id code : Text) (w : World)
    → w.faults w.calls ≡ false
    → find? (λ i. text_eq i.code code && is_open w.now i) w.db.invite_codes ≡ none
    → (handle_redeem_invite_existing env e s id code w).1 ≡ record w {
      calls = suc w.calls;
      sent =
          reply (
            if e.is_sql
            then ctrl_error id 404 "invite not found or already used" w.now
            else ctrl_error id 500 "failed to verify invite" w.now)
          ∷ w.sent;
    }
unfolding handle_redeem_invite_existing redeem_row some_or fail ◌>>=◌
redeem_missing env e s id code w works gone = elim (Bool-cases e.is_sql) [
  | inl q ↦
      ap (λ r. r.1)
        (must-works (finding e code) w works id 500 "failed to verify invite" none w.db
          (redeem_row env e s id) (finding-missing e code w gone ∙ rw q refl))
      ∙ rw q refl
  | inr q ↦
      must-fails (finding e code) w works id 500 "failed to verify invite" (redeem_row env e s id)
        (finding-missing e code w gone ∙ rw q refl)
      ∙ rw q refl
]

module _ (env : Env) (e : InviteEnv) (s : Session) (id code : Text) (w : World) (i : InviteCode)
    (used_db dm_db : Database) (taken : InviteCode) (made : Conversation × Bool)
    (works : (k : ℕ) → w.faults k ≡ false) where
  abbrev contact_db : Database
  contact_db = add_contact w.now i.inviter_id s.user_id (codes "invite") (some i.id) dm_db

  abbrev told : World
  told = record w {
    calls = suc (suc (suc (suc (suc w.calls))));
    db = contact_db;
    sent =
        reply (
          ctrl_success id 200
            (fields (
              ("inviter", uuid i.inviter_id)
              ∷ ("inviterPublic", raw (public_of (some (get_user_by_id i.inviter_id contact_db))))
              ∷ ("conv", uuid made.0.id)
              ∷ []))
            w.now)
        ∷ w.sent;
  }

  connect-works :
      create_dm (w.uuids (suc (suc w.calls))) w.now i.inviter_id s.user_id used_db
        ≡ some (made, dm_db)
      → (connect env e s id i (next (next w w.db) used_db)).1 ≡ told
  unfolding connect success
  connect-works dm =
      let w2 = next (next w w.db) used_db in
      let w3 = next w2 dm_db in
      let w4 = next w3 contact_db in
      ap (λ r. r.1)
        (must-works (opening_dm i.inviter_id s.user_id) w2 (works (suc (suc w.calls))) id 500 _ made
            dm_db _ dm
          ∙ call-then
              (writing (λ n. add_contact n i.inviter_id s.user_id (codes "invite") (some i.id))) w3
              (works (suc (suc (suc w.calls)))) tt contact_db _ refl
          ∙ call-then (reading (get_user_by_id i.inviter_id)) w4
              (works (suc (suc (suc (suc w.calls))))) (get_user_by_id i.inviter_id contact_db)
              contact_db _ refl)

  redeem_verified-works :
      use_invite e.is_sql w.now i.id s.user_id w.db ≡ some (some taken, used_db)
      → redeem_verified env e s id i (next w w.db)
        ≡ connect env e s id i (next (next w w.db) used_db)
  unfolding redeem_verified some_or pure ◌>>=◌
  redeem_verified-works used =
      must-works (using e i.id s.user_id) (next w w.db) (works (suc w.calls)) id 500 _ (some taken)
        used_db _ used

  redeem_row-valid :
      check_token e w.now i ≡ none
      → redeem_row env e s id (some i) (next w w.db) ≡ redeem_verified env e s id i (next w w.db)
  unfolding redeem_row some_or pure now require_token ◌>>=◌
  redeem_row-valid valid = rw (valid, require_token) refl

  redeem-finds :
      get_invite_by_code e.is_sql w.now code w.db ≡ some (some i)
      → handle_redeem_invite_existing env e s id code w
        ≡ redeem_row env e s id (some i) (next w w.db)
  unfolding handle_redeem_invite_existing
  redeem-finds found =
      must-works (finding e code) w (works w.calls) id 500 _ (some i) w.db (redeem_row env e s id)
        (rw (found, finding) refl)

  redeem-told :
      get_invite_by_code e.is_sql w.now code w.db ≡ some (some i)
      → check_token e w.now i ≡ none
      → use_invite e.is_sql w.now i.id s.user_id w.db ≡ some (some taken, used_db)
      → create_dm (w.uuids (suc (suc w.calls))) w.now i.inviter_id s.user_id used_db
        ≡ some (made, dm_db)
      → (handle_redeem_invite_existing env e s id code w).1 ≡ told
  redeem-told found valid used dm =
      ap (λ r. r.1) (redeem-finds found ∙ redeem_row-valid valid ∙ redeem_verified-works used)
      ∙ connect-works dm

add_contact-both :
    (now u c : ℕ) (source : Text) (invite : Option ℕ) (db : Database)
    → (is_contact u c (add_contact now u c source invite db) ≡ true)
      × (is_contact c u (add_contact now u c source invite db) ≡ true)
add_contact-both now u c source invite db =
    let there = is_contact-add_contact now u c u c source invite db in
    let back = is_contact-add_contact now u c c u source invite db in
    ground (arith, there, back, ==_refl u, ==_refl c)

-- With a connection that works: where the code is that of an open invite, whose id no other row has and
-- whose token is valid, the inviter is somebody else, the id drawn for a conversation is new, and the
-- rows of DMs name conversations, redeeming it has this effect. The invite stands as used by the user
-- at the time of the call; there is a DM of the two users; each is a contact of the other; and the one
-- reply is a success that names the inviter and the conversation of that DM.
pub redeem_works :
    (env : Env) (e : InviteEnv) (s : Session) (id code : Text) (w : World) (i : InviteCode)
    → ((k : ℕ) → w.faults k ≡ false)
    → find? (λ k. text_eq k.code code && is_open w.now k) w.db.invite_codes ≡ some i
    → row i.id w.db ≡ some i
    → check_token e w.now i ≡ none
    → (i.inviter_id == s.user_id) ≡ false
    → any (λ (d : Conversation). d.id == w.uuids (suc (suc w.calls))) w.db.conversations ≡ false
    → HasConversations w.db
    → let u = s.user_id in
      let other = i.inviter_id in
      let w' = (handle_redeem_invite_existing env e s id code w).1 in
      (conv : ℕ) × (row i.id w'.db ≡ some (taken w.now u i))
      × IsDmOf conv (if ltb u other then u else other) (if ltb u other then other else u) w'.db
      × (is_contact other u w'.db ≡ true)
      × (is_contact u other w'.db ≡ true)
      × (w'.sent
          ≡ reply (
              ctrl_success id 200
                (fields (
                  ("inviter", uuid other)
                  ∷ ("inviterPublic", raw (public_of (some (get_user_by_id other w'.db))))
                  ∷ ("conv", uuid conv)
                  ∷ []))
                w.now)
            ∷ w.sent)
unfolding get_invite_by_code get_conversation_by_id find_dm add_contact
redeem_works env e s id code w i works found unique valid differ fresh known =
    let opened =
      (&&-true (text_eq i.code code) (is_open w.now i)
        (find?-sound (λ k. text_eq k.code code && is_open w.now k) w.db.invite_codes i found)).1 in
    let used_db : Database = record w.db {
      invite_codes = update_where (has_id i.id) (taken w.now s.user_id) w.db.invite_codes;
    } in
    let used = use_invite-open e.is_sql w.now i.id s.user_id w.db i unique opened in
    let (j, row_is, open_is, taken_is, stands) =
      use_invite_sound e.is_sql w.now i.id s.user_id w.db used_db (taken w.now s.user_id i) used in
    let (made, dm_db, dm, is_dm, codes_kept) =
      create_dm-Opens (w.uuids (suc (suc w.calls))) w.now i.inviter_id s.user_id used_db differ
        fresh known in
    let all =
      redeem-told env e s id code w i used_db dm_db (taken w.now s.user_id i) made works
        (rw found refl) valid used dm in
    let contacts =
      add_contact-both w.now i.inviter_id s.user_id (codes "invite") (some i.id) dm_db in
    let u = s.user_id in
    let other = i.inviter_id in
    (
      made.0.id,
      ap (λ (v : World). row i.id v.db) all ∙ ap (find? (has_id i.id)) codes_kept ∙ stands,
      subst
          (λ (v : World).
            IsDmOf made.0.id (if ltb u other then u else other) (if ltb u other then other else u)
              v.db)
          (sym all) is_dm,
      ap (λ (v : World). is_contact other u v.db) all ∙ contacts.0,
      ap (λ (v : World). is_contact u other v.db) all ∙ contacts.1,
      subst
          (λ (v : World).
            v.sent
            ≡ reply (
                ctrl_success id 200
                  (fields (
                    ("inviter", uuid other)
                    ∷ ("inviterPublic", raw (public_of (some (get_user_by_id other v.db))))
                    ∷ ("conv", uuid made.0.id)
                    ∷ []))
                  w.now)
              ∷ w.sent)
          (sym all) refl,
    )
