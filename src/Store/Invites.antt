-- ===== src/Store/Invites.antt =====
-- The statements of store/invites.go. A query whose row is missing gives the driver's own error, and
-- the code asks whether that is sql.ErrNoRows: the first argument `is_sql` says so. A value
-- `none` is an error.
use mv_chat.Prelude.{
  ℕ, ◌+◌, ◌*◌, List, [], ◌∷◌, Option, none, some, Bool, true, false, ◌&&◌, ◌||◌, Text, ◌==◌, leb,
  ltb, text_eq, length, if◌then◌else◌, select, find?, any, update_where,
}
use mv_chat.Store.Types.{Database, InviteCode, Status, pending, used, expired, revoked, minute}

abbrev pub is_pending : Status → Bool
is_pending pending = true
is_pending used = false
is_pending expired = false
is_pending revoked = false

abbrev days : ℕ → ℕ
days n = n * (24 * (60 * minute))

-- The code is UNIQUE, and the id is the primary key.
unfoldable pub create_invite_code :
    ℕ → ℕ → ℕ → Text → Text → Text → Option Text → Database → Option (InviteCode × Database)
create_invite_code id now inviter code token email name db =
    let invite : InviteCode = record {
      id = id;
      inviter_id = inviter;
      code = code;
      token = token;
      email = email;
      invitee_name = name;
      status = pending;
      used_at = none;
      used_by = none;
      created_at = now;
      expires_at = now + days 7;
    } in
    if any (λ i. i.id == id || text_eq i.code code) db.invite_codes
    then none
    else some (invite, record db { invite_codes = invite ∷ db.invite_codes })

abbrev pub has_id : ℕ → InviteCode → Bool
has_id id i = i.id == id

-- What Scan leaves of a row that may be missing.
abbrev pub scanned : Bool → Option InviteCode → Option (Option InviteCode)
scanned is_sql (some i) = some (some i)
scanned true none = some none
scanned false none = none

unfoldable pub get_invite_by_id : Bool → ℕ → Database → Option (Option InviteCode)
get_invite_by_id is_sql id db = scanned is_sql (find? (has_id id) db.invite_codes)

-- status = 'pending' AND expires_at > NOW()
abbrev pub is_open : ℕ → InviteCode → Bool
is_open now i = is_pending i.status && ltb now i.expires_at

unfoldable pub get_invite_by_code : Bool → ℕ → Text → Database → Option (Option InviteCode)
get_invite_by_code is_sql now code db =
    scanned is_sql (find? (λ i. text_eq i.code code && is_open now i) db.invite_codes)

abbrev pub taken : ℕ → ℕ → InviteCode → InviteCode
taken now user i = record i { status = used; used_at = some now; used_by = some user }

-- An id is that of one row at most.
unfoldable pub use_invite : Bool → ℕ → ℕ → ℕ → Database → Option (Option InviteCode × Database)
use_invite is_sql now id user db =
    let missing : Option (Option InviteCode × Database) =
      if is_sql then some (none, db) else none in
    elim (find? (has_id id) db.invite_codes) [
      | none ↦ missing
      | some i ↦
          if is_open now i
          then some (
            some (taken now user i),
            record db { invite_codes = update_where (has_id id) (taken now user) db.invite_codes },
          )
          else missing
    ]

-- ORDER BY created_at DESC, where later rows stand first among equals.
unfoldable pub insert_latest : InviteCode → List InviteCode → List InviteCode
insert_latest i [] = i ∷ []
insert_latest i (j ∷ rest) =
    let later = insert_latest i rest in
    if leb j.created_at i.created_at then i ∷ j ∷ rest else j ∷ later

unfoldable pub latest_first : List InviteCode → List InviteCode
latest_first [] = []
latest_first (i ∷ rest) = insert_latest i (latest_first rest)

unfoldable pub get_user_invites : ℕ → Database → List InviteCode
get_user_invites user db = latest_first (select (λ i. i.inviter_id == user) db.invite_codes)

abbrev pub may_revoke : ℕ → ℕ → InviteCode → Bool
may_revoke id inviter i = i.id == id && (i.inviter_id == inviter && is_pending i.status)

-- Without a row to change, the error is ErrInviteNotFound.
unfoldable pub revoke_invite : ℕ → ℕ → Database → Option Database
revoke_invite id inviter db =
    if any (may_revoke id inviter) db.invite_codes
    then some (record db {
      invite_codes =
          update_where (may_revoke id inviter) (λ i. record i { status = revoked }) db.invite_codes;
    })
    else none

abbrev pub is_overdue : ℕ → InviteCode → Bool
is_overdue now i = is_pending i.status && ltb i.expires_at now

unfoldable pub expire_old_invites : ℕ → Database → ℕ × Database
expire_old_invites now db = (
  length (select (is_overdue now) db.invite_codes),
  record db {
    invite_codes =
        update_where (is_overdue now) (λ i. record i { status = expired }) db.invite_codes;
  },
)
