-- ===== src/Store/Contacts.antt =====
-- The statements of store/contacts.go.
use mv_chat.Prelude.{
  ℕ, List, [], ◌∷◌, Option, none, Bool, not, ◌&&◌, ◌||◌, Text, ◌==◌, leb, text_eq, if◌then◌else◌,
  select, any, update_where,
}
use mv_chat.Store.Types.{Database, Contact, InviteCode}
use mv_chat.Store.Invites.{is_open}

abbrev pub is_row : ℕ → ℕ → Contact → Bool
is_row user contact c = c.user_id == user && c.contact_id == contact

unfoldable pub is_contact : ℕ → ℕ → Database → Bool
is_contact user contact db = any (is_row user contact) db.contacts

-- INSERT … ON CONFLICT (user_id, contact_id) DO NOTHING
unfoldable pub insert_contact : ℕ → ℕ → ℕ → Text → Option ℕ → List Contact → List Contact
insert_contact now user contact source invite contacts =
    if any (is_row user contact) contacts
    then contacts
    else record {
      user_id = user;
      contact_id = contact;
      source = source;
      nickname = none;
      invite_id = invite;
      created_at = now;
    }
      ∷ contacts

unfoldable pub add_contact : ℕ → ℕ → ℕ → Text → Option ℕ → Database → Database
add_contact now user contact source invite db =
    let there = insert_contact now user contact source invite db.contacts in
    record db { contacts = insert_contact now contact user source invite there }

-- ORDER BY created_at DESC, where later rows stand first among equals.
unfoldable pub insert_newest : Contact → List Contact → List Contact
insert_newest c [] = c ∷ []
insert_newest c (d ∷ rest) =
    let later = insert_newest c rest in
    if leb d.created_at c.created_at then c ∷ d ∷ rest else d ∷ later

unfoldable pub newest_first : List Contact → List Contact
newest_first [] = []
newest_first (c ∷ rest) = insert_newest c (newest_first rest)

unfoldable pub get_contacts : ℕ → Database → List Contact
get_contacts user db = newest_first (select (λ c. c.user_id == user) db.contacts)

unfoldable pub update_contact_nickname : ℕ → ℕ → Option Text → Database → Database
update_contact_nickname user contact nickname db = record db {
  contacts = update_where (is_row user contact) (λ c. record c { nickname = nickname }) db.contacts;
}

unfoldable pub remove_contact : ℕ → ℕ → Database → Database
remove_contact user contact db = record db {
  contacts = select (λ c. not (is_row user contact c || is_row contact user c)) db.contacts;
}

unfoldable pub get_pending_invites_by_email : ℕ → Text → Database → List InviteCode
get_pending_invites_by_email now email db =
    select (λ i. text_eq i.email email && is_open now i) db.invite_codes
