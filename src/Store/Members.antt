-- ===== src/Store/Members.antt =====
-- The `members` table of store/conversations.go.
use mv_chat.Prelude.{
  ℕ, List, ◌∷◌, map, Option, none, some, Bool, false, not, ◌&&◌, Text, max, ◌==◌, is_some, or_else,
  if◌then◌else◌, select, find?, any, update_where,
}
use mv_chat.Store.Types.{Database, Member, Role}
use mv_chat.Store.Conversations.{new_member}

abbrev pub is_active : Member → Bool
is_active m = not (is_some m.deleted_at)

abbrev pub is_row : ℕ → ℕ → Member → Bool
is_row conv user m = m.conversation_id == conv && m.user_id == user

-- The row also when it is soft-deleted.
unfoldable pub get_member : ℕ → ℕ → Database → Option Member
get_member conv user db = find? (is_row conv user) db.members

unfoldable pub get_conversation_members : ℕ → Database → List ℕ
get_conversation_members conv db =
    map (λ m. m.user_id) (select (λ m. m.conversation_id == conv && is_active m) db.members)

unfoldable pub is_member : ℕ → ℕ → Database → Bool
is_member conv user db = any (λ m. is_row conv user m && is_active m) db.members

unfoldable pub is_blocked : ℕ → ℕ → Database → Bool
is_blocked conv blocker db = elim (get_member conv blocker db) [ none ↦ false | some m ↦ m.blocked ]

-- `none` is the empty role.
abbrev pub role_or_none : Option Member → Option Role
role_or_none none = none
role_or_none (some m) = some m.role

unfoldable pub get_member_role : ℕ → ℕ → Database → Option Role
get_member_role conv user db =
    role_or_none (find? (λ m. is_row conv user m && is_active m) db.members)

abbrev pub update_member : ℕ → ℕ → (Member → Member) → Database → Database
update_member conv user f db = record db { members = update_where (is_row conv user) f db.members }

pub record MemberSettings : Type 0 where
  pub favorite : Option Bool
  pub muted : Option Bool
  pub blocked : Option Bool
  pub private : Option Text

abbrev or_keep {ℓ} : {A : Type ℓ} → Option A → Option A → Option A
or_keep none old = old
or_keep (some a) old = some a

unfoldable pub update_member_settings : ℕ → ℕ → ℕ → MemberSettings → Database → Database
update_member_settings now conv user s = update_member conv user λ m. record m {
  favorite = or_else s.favorite m.favorite;
  muted = or_else s.muted m.muted;
  blocked = or_else s.blocked m.blocked;
  private = or_keep s.private m.private;
  updated_at = now;
}

unfoldable pub update_read_seq : ℕ → ℕ → ℕ → ℕ → Database → Database
update_read_seq now conv user seq =
    update_member conv user
      λ m. record m { read_seq = seq; recv_seq = max m.recv_seq seq; updated_at = now }

unfoldable pub update_recv_seq : ℕ → ℕ → ℕ → ℕ → Database → Database
update_recv_seq now conv user seq =
    update_member conv user λ m. record m { recv_seq = max m.recv_seq seq; updated_at = now }

unfoldable pub update_clear_seq : ℕ → ℕ → ℕ → ℕ → Database → Database
update_clear_seq now conv user seq =
    update_member conv user λ m. record m { clear_seq = seq; updated_at = now }

pub record ReadReceipt : Type 0 where
  pub user_id : ℕ
  pub read_seq : ℕ
  pub recv_seq : ℕ

unfoldable pub get_read_receipts : ℕ → Database → List ReadReceipt
get_read_receipts conv db =
    map (λ m. record { user_id = m.user_id; read_seq = m.read_seq; recv_seq = m.recv_seq })
      (select (λ m. m.conversation_id == conv && is_active m) db.members)

-- The upsert: a row that is there, soft-deleted or not, becomes active with the given role.
unfoldable pub add_room_member : ℕ → ℕ → ℕ → Role → Database → Database
add_room_member now conv user role db =
    if any (is_row conv user) db.members
    then update_member conv user
        (λ m. record m { deleted_at = none; role = role; updated_at = now }) db
    else record db { members = new_member conv user now role ∷ db.members }

unfoldable pub remove_member : ℕ → ℕ → ℕ → Database → Database
remove_member now conv user db = record db {
  members =
      update_where (λ m. is_row conv user m && is_active m)
        (λ m. record m { deleted_at = some now; updated_at = now }) db.members;
}
