-- ===== src/Store/Roles.antt =====
-- The roles of the members under the statements that write the `members` table.
use mv_chat.Prelude.{
  ℕ, ◌≡◌, refl, List, [], ◌∷◌, Option, none, some, Bool, true, false, ◌&&◌, Text, arith, ◌==◌,
  if◌then◌else◌, find?, any, update_where,
}
use mv_chat.Store.Types.{Database, Conversation, Member, Role}
use mv_chat.Store.Conversations.{get_conversation_by_id, create_dm, insert_dm, create_room}
use mv_chat.Store.Members.{
  is_row, is_active, role_or_none, get_member_role, add_room_member, remove_member, MemberSettings,
  update_member_settings, update_read_seq, update_recv_seq, update_clear_seq,
}
use mv_chat.Store.Numbering.{none-any}

abbrev has_role : ℕ → ℕ → Member → Bool
has_role k o m = is_row k o m && is_active m

abbrev role_in : ℕ → ℕ → List Member → Option Role
role_in k o ms = role_or_none (find? (has_role k o) ms)

-- An update that touches neither the key, nor the role, nor the removal.
abbrev Neutral : (Member → Member) → Type 0
Neutral f =
    (m : Member)
    → ((f m).conversation_id ≡ m.conversation_id)
      × ((f m).user_id ≡ m.user_id)
      × ((f m).role ≡ m.role)
      × ((f m).deleted_at ≡ m.deleted_at)

role-Neutral :
    (p : Member → Bool) (f : Member → Member)
    → Neutral f
    → (k o : ℕ) (ms : List Member) → role_in k o (update_where p f ms) ≡ role_in k o ms
unfolding find? update_where
role-Neutral p f keeps k o [] = refl
role-Neutral p f keeps k o (m ∷ ms) = ground (arith, keeps m, role-Neutral p f keeps k o ms)

role-remove_list :
    (now conv user k o : ℕ) (ms : List Member)
    → role_in k o (
        update_where
          (λ m. is_row conv user m && is_active m)
          (λ m. record m { deleted_at = some now; updated_at = now })
          ms)
      ≡ (if k == conv && o == user then none else role_in k o ms)
unfolding find? update_where
role-remove_list now conv user k o [] = ground arith
role-remove_list now conv user k o (m ∷ ms) = ground (arith, role-remove_list now conv user k o ms)

-- A removal takes the role of that member, and no other.
pub role-remove :
    (now conv user k o : ℕ) (db : Database)
    → get_member_role k o (remove_member now conv user db)
      ≡ (if k == conv && o == user then none else get_member_role k o db)
unfolding get_member_role remove_member
role-remove now conv user k o db = role-remove_list now conv user k o db.members

abbrev revive : ℕ → Role → Member → Member
revive now r m = record m { deleted_at = none; role = r; updated_at = now }

role-revive_other :
    (now conv user : ℕ) (r : Role) (k o : ℕ) (ms : List Member)
    → (k == conv && o == user) ≡ false
    → role_in k o (update_where (is_row conv user) (revive now r) ms) ≡ role_in k o ms
unfolding find? update_where
role-revive_other now conv user r k o [] h = refl
role-revive_other now conv user r k o (m ∷ ms) h =
    ground (arith, role-revive_other now conv user r k o ms)

role-revive :
    (now conv user : ℕ) (r : Role) (ms : List Member)
    → any (is_row conv user) ms ≡ true
    → role_in conv user (update_where (is_row conv user) (revive now r) ms) ≡ some r
unfolding find? update_where any
role-revive now conv user r [] h = cc
role-revive now conv user r (m ∷ ms) h = ground (arith, role-revive now conv user r ms)

-- An added member has the given role, and all others keep theirs.
pub role-add :
    (now conv user : ℕ) (r : Role) (k o : ℕ) (db : Database)
    → get_member_role k o (add_room_member now conv user r db)
      ≡ (if k == conv && o == user then some r else get_member_role k o db)
unfolding get_member_role add_room_member find?
role-add now conv user r k o db = ground (
  arith,
  role-revive now conv user r db.members,
  role-revive_other now conv user r k o db.members,
)

pub role-settings :
    (now conv u : ℕ) (s : MemberSettings) (k o : ℕ) (db : Database)
    → get_member_role k o (update_member_settings now conv u s db) ≡ get_member_role k o db
unfolding get_member_role update_member_settings
role-settings now conv u s k o db = role-Neutral _ _ (λ m. (refl, refl, refl, refl)) k o db.members

pub role-read :
    (now conv u seq k o : ℕ) (db : Database)
    → get_member_role k o (update_read_seq now conv u seq db) ≡ get_member_role k o db
unfolding get_member_role update_read_seq
role-read now conv u seq k o db = role-Neutral _ _ (λ m. (refl, refl, refl, refl)) k o db.members

pub role-recv :
    (now conv u seq k o : ℕ) (db : Database)
    → get_member_role k o (update_recv_seq now conv u seq db) ≡ get_member_role k o db
unfolding get_member_role update_recv_seq
role-recv now conv u seq k o db = role-Neutral _ _ (λ m. (refl, refl, refl, refl)) k o db.members

pub role-clear :
    (now conv u seq k o : ℕ) (db : Database)
    → get_member_role k o (update_clear_seq now conv u seq db) ≡ get_member_role k o db
unfolding get_member_role update_clear_seq
role-clear now conv u seq k o db = role-Neutral _ _ (λ m. (refl, refl, refl, refl)) k o db.members

-- A conversation that is there does not have the id of a new one.
other_id :
    (i k : ℕ) (c : Conversation) (db : Database)
    → get_conversation_by_id k db ≡ some c
    → any (λ d. d.id == i) db.conversations ≡ false
    → (i == k) ≡ false
unfolding get_conversation_by_id
other_id i k c db found fresh = ground (arith, none-any i db.conversations)

pub role-create_dm :
    (i now a b : ℕ) (x : Conversation × Bool) (db db' : Database) (k o : ℕ) (c : Conversation)
    → create_dm i now a b db ≡ some (x, db')
    → get_conversation_by_id k db ≡ some c
    → get_member_role k o db' ≡ get_member_role k o db
unfolding create_dm insert_dm get_member_role find?
role-create_dm i now a b x db db' k o c h found = ground (arith, other_id i k c db found)

pub role-create_room :
    (i now a : ℕ) (p : Option Text) (x : Conversation) (db db' : Database) (k o : ℕ)
    (c : Conversation)
    → create_room i now a p db ≡ some (x, db')
    → get_conversation_by_id k db ≡ some c
    → get_member_role k o db' ≡ get_member_role k o db
unfolding create_room get_member_role find?
role-create_room i now a p x db db' k o c h found = ground (arith, other_id i k c db found)
