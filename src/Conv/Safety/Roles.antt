-- ===== src/Conv/Safety/Roles.antt =====
-- The roles of the members under the requests of handlers_conv.go.
use mv_chat.Prelude.{
  ℕ, ◌≡◌, refl, sym, subst, ◌∙◌, ◌⊎◌, inl, inr, Option, none, some, Bool, false, ◌&&◌, Text, arith,
  ◌==◌, ==_iff, if◌then◌else◌, Bool-cases, &&-true,
}
use mv_chat.Store.Types.{Database, Conversation, Role, owner, member}
use mv_chat.Store.Conversations.{
  get_conversation_by_id, update_disappearing_ttl, update_no_screenshots, update_room_public,
}
use mv_chat.Store.Members.{get_member_role, add_room_member, remove_member}
use mv_chat.Store.Messages.{edit_message, unsend_message, delete_message_for_everyone}
use mv_chat.Store.Roles.{
  role-remove, role-add, role-settings, role-read, role-recv, role-clear, role-create_dm,
  role-create_room,
}
use mv_chat.Handler.World.{Session, Env, World}
use mv_chat.Conv.Requests.{Request}
use mv_chat.Conv.Room.{is_owner}
use mv_chat.Conv.Dispatch.{dispatch}
use mv_chat.Store.Contacts.{add_contact, remove_contact, update_contact_nickname}
use mv_chat.Conv.Step.{
  Step, Marks, CanManage, CanKick, by_rank, same, made_dm, made_room, set_settings, invited, left,
  kicked, sent, reacted, deleted_for_user, read_to, received_to, cleared_to, pinned,
}
use mv_chat.Conv.Outcome.{Outcome, silent, refused, done}
use mv_chat.Conv.Refines.Dispatch.{dispatch-Outcome}
use mv_chat.Conv.Safety.Untouched.{
  sent-members, react-members, Marks-members, delete_for_user-members, pinned-members,
}

-- What a request of `u` can do to the role of `o` in the conversation `k`.
pub data RoleChange (u k o : ℕ) (db : Database) (after : Option Role) : Type 0 where
  unchanged : after ≡ get_member_role k o db → RoleChange u k o db after
  by_leaving :
      (r : Role)
      → o ≡ u
      → get_member_role k u db ≡ some r
      → is_owner r ≡ false
      → after ≡ none
      → RoleChange u k o db after
  by_kick : CanKick u k o db → after ≡ none → RoleChange u k o db after
  by_invitation : CanManage u k db → after ≡ some member → RoleChange u k o db after

role-of-Marks :
    {u now : ℕ} {db db' : Database} (k o : ℕ)
    → Marks u now db db'
    → get_member_role k o db' ≡ get_member_role k o db
unfolding get_member_role
role-of-Marks k o marks = rw (Marks-members marks)

module _ (u k o : ℕ) (db : Database) where
  same-members :
      (db' : Database) → db'.members ≡ db.members → RoleChange u k o db (get_member_role k o db')
  unfolding get_member_role
  same-members db' e = unchanged (rw e)

  -- Same member or another one.
  hit_or_miss :
      (conv user : ℕ) (r after : Option Role)
      → after ≡ (if k == conv && o == user then r else get_member_role k o db)
      → ((k ≡ conv) × (o ≡ user) × (after ≡ r)) ⊎ (after ≡ get_member_role k o db)
  hit_or_miss conv user r after h = elim (Bool-cases (k == conv && o == user)) [
    | inl hit ↦
        inl (
          (==_iff k conv).0 (&&-true _ _ hit).0,
          (==_iff o user).0 (&&-true _ _ hit).1,
          rw hit at h,
        )
    | inr miss ↦ inr (rw miss at h)
  ]

  left-RoleChange :
      (now conv : ℕ) (r : Role)
      → get_member_role conv u db ≡ some r
      → is_owner r ≡ false
      → RoleChange u k o db (get_member_role k o (remove_member now conv u db))
  left-RoleChange now conv r is low =
      elim (hit_or_miss conv u none _ (role-remove now conv u k o db)) [
        | inl (ek, eo, e) ↦
            by_leaving r eo (subst (λ c. get_member_role c u db ≡ some r) (sym ek) is) low e
        | inr e ↦ unchanged e
      ]

  kicked-RoleChange :
      (now conv target : ℕ)
      → CanKick u conv target db
      → RoleChange u k o db (get_member_role k o (remove_member now conv target db))
  kicked-RoleChange now conv target may =
      elim (hit_or_miss conv target none _ (role-remove now conv target k o db)) [
        | inl (ek, eo, e) ↦ by_kick (rw (ek, eo) may) e
        | inr e ↦ unchanged e
      ]

  invited-RoleChange :
      (now conv target : ℕ)
      → CanManage u conv db
      → RoleChange u k o db (get_member_role k o (add_room_member now conv target member db))
  invited-RoleChange now conv target may =
      elim (hit_or_miss conv target (some member) _ (role-add now conv target member k o db)) [
        | inl (ek, eo, e) ↦ by_invitation (rw ek may) e
        | inr e ↦ unchanged e
      ]

Step-RoleChange :
    {u now : ℕ} {faults : ℕ → Bool} {db db' : Database} (k o : ℕ) (c : Conversation)
    → get_conversation_by_id k db ≡ some c
    → Step u now faults db db'
    → RoleChange u k o db (get_member_role k o db')
unfolding add_contact remove_contact update_contact_nickname edit_message unsend_message
    delete_message_for_everyone update_disappearing_ttl update_no_screenshots update_room_public
Step-RoleChange k o c is same = unchanged refl
Step-RoleChange {u = u} {now = now} {db = db} {db' = db'} k o c is
      (made_dm i other user made _ _ e) =
    unchanged (role-create_dm i now u other made db db' k o c e is)
Step-RoleChange {u = u} {now = now} {db = db} {db' = db'} k o c is (made_room i public x e) =
    unchanged (role-create_room i now u public x db db' k o c e is)
Step-RoleChange {u = u} {now = now} {db = db} k o c is (set_settings conv settings _) =
    unchanged (role-settings now conv u settings k o db)
Step-RoleChange {u = u} {now = now} {db = db} k o c is (invited conv target user may _) =
    invited-RoleChange u k o db now conv target may
Step-RoleChange {u = u} {now = now} {db = db} k o c is (left conv r role low) =
    left-RoleChange u k o db now conv r role low
Step-RoleChange {u = u} {now = now} {db = db} k o c is (kicked conv target may) =
    kicked-RoleChange u k o db now conv target may
Step-RoleChange {u = u} {now = now} {db = db} {db' = db'} k o c is
      (sent id conv content head once ttl row x m _ _ _ e) =
    same-members u k o db db' (sent-members id now conv u content head once ttl m db db' e)
Step-RoleChange {u = u} {now = now} {db = db} {db' = db'} k o c is (reacted conv seq emoji _ e) =
    same-members u k o db db' (react-members now conv seq u emoji db db' e)
Step-RoleChange {u = u} {now = now} {db = db} k o c is (deleted_for_user conv seq m _) =
    same-members u k o db _ (delete_for_user-members now m.id u db)
Step-RoleChange {u = u} {now = now} {db = db} {db' = db'} k o c is (read_to conv seq marks) =
    unchanged (role-of-Marks k o marks ∙ role-read now conv u seq k o db)
Step-RoleChange {u = u} {now = now} {db = db} k o c is (received_to conv seq) =
    unchanged (role-recv now conv u seq k o db)
Step-RoleChange {u = u} {now = now} {db = db} k o c is (cleared_to conv seq _) =
    unchanged (role-clear now conv u seq k o db)
Step-RoleChange {u = u} {now = now} {db = db} k o c is (pinned conv id x r _ _ _ _) =
    same-members u k o db _ (pinned-members now conv u id db)
Step-RoleChange {u = u} {db = db} k o c is _ = same-members u k o db _ refl

Outcome-RoleChange :
    {q : Bool} {u : ℕ} {w w' : World} (k o : ℕ) (c : Conversation)
    → get_conversation_by_id k w.db ≡ some c
    → Outcome q u w w'
    → RoleChange u k o w.db (get_member_role k o w'.db)
Outcome-RoleChange k o c is (silent _ e _) = unchanged (rw e)
Outcome-RoleChange k o c is (refused _ _ e _) = unchanged (rw e)
Outcome-RoleChange k o c is (done d) = Step-RoleChange k o c is d.step

-- In a conversation that exists, a conversation or contact request of a session changes the role of a user only in these ways:
-- the session's user, who is not the owner, leaves; a user is removed by one who may kick them, which
-- is never an owner's removal and never an admin's by an admin; or an owner or admin invites a user,
-- who then has the role of a plain member.
pub dispatch-RoleChange :
    (env : Env) (s : Session) (id : Text) (r : Request) (w : World) (k o : ℕ) (c : Conversation)
    → get_conversation_by_id k w.db ≡ some c
    → RoleChange s.user_id k o w.db (get_member_role k o (dispatch env s id r w).1.db)
dispatch-RoleChange env s id r w k o c is =
    Outcome-RoleChange k o c is (dispatch-Outcome env s id r w)

-- An owner of a conversation that exists is still its owner after any conversation or contact request, unless it
-- comes from a user who may manage the conversation and leaves the owner a plain member.
pub dispatch-owner :
    (env : Env) (s : Session) (id : Text) (r : Request) (w : World) (k o : ℕ) (c : Conversation)
    → get_conversation_by_id k w.db ≡ some c
    → get_member_role k o w.db ≡ some owner
    → (get_member_role k o (dispatch env s id r w).1.db ≡ some owner)
      ⊎ (CanManage s.user_id k w.db
          × (get_member_role k o (dispatch env s id r w).1.db ≡ some member))
dispatch-owner env s id r w k o c is own = elim (dispatch-RoleChange env s id r w k o c is) [
  | unchanged e ↦ inl (e ∙ own)
  | by_leaving r' eo role low e ↦ absurd (ground arith)
  | by_kick (by_rank a b ra rb pa pb pc) e ↦ absurd (ground arith)
  | by_invitation may e ↦ inr (may, e)
]
