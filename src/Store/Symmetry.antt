-- ===== src/Store/Symmetry.antt =====
-- Who is whose contact after the statements of store/contacts.go.
use mv_chat.Prelude.{
  ℕ, ◌≡◌, refl, sym, subst, ◌∙◌, inl, inr, List, [], ◌∷◌, Option, Bool, true, not, ◌&&◌, ◌||◌, Text,
  arith, ◌==◌, ==_iff, &&-true, Bool-cases, select, any, update_where,
}
use mv_chat.Store.Types.{Database, Contact}
use mv_chat.Store.Contacts.{
  is_row, is_contact, insert_contact, add_contact, update_contact_nickname, remove_contact,
}

-- The pair (a, b) is (u, c).
abbrev pub is_pair : ℕ → ℕ → ℕ → ℕ → Bool
is_pair u c a b = u == a && c == b

any-insert_contact :
    (now u c a b : ℕ) (source : Text) (invite : Option ℕ) (rows : List Contact)
    → any (is_row a b) (insert_contact now u c source invite rows)
      ≡ (any (is_row a b) rows || is_pair u c a b)
unfolding insert_contact any
any-insert_contact now u c a b source invite rows = elim (Bool-cases (any (is_row u c) rows)) [
  | inl there ↦ rw there (elim (Bool-cases (is_pair u c a b)) [
    | inl same ↦
        let pair = &&-true (u == a) (c == b) same in
        let row =
          subst (λ k. any (is_row k b) rows ≡ true) ((==_iff u a).0 pair.0)
            (subst (λ k. any (is_row u k) rows ≡ true) ((==_iff c b).0 pair.1) there) in
        rw row refl
    | inr other ↦ rw other (ground arith)
  ])
  | inr gone ↦ rw gone (ground arith)
]

-- A contact that is added is one of each user for the other, and all other pairs are as they were.
pub is_contact-add_contact :
    (now u c a b : ℕ) (source : Text) (invite : Option ℕ) (db : Database)
    → is_contact a b (add_contact now u c source invite db)
      ≡ (is_contact a b db || (is_pair u c a b || is_pair c u a b))
unfolding add_contact is_contact
is_contact-add_contact now u c a b source invite db =
    let there = insert_contact now u c source invite db.contacts in
    let first = any-insert_contact now u c a b source invite db.contacts in
    let second = any-insert_contact now c u a b source invite there in ground (arith, first, second)

any-select :
    (p keep : Contact → Bool) (rows : List Contact) (kept : Bool)
    → ((r : Contact) → p r ≡ true → keep r ≡ kept)
    → any p (select keep rows) ≡ (any p rows && kept)
unfolding any select
any-select p keep [] kept h = refl
any-select p keep (r ∷ rows) kept h = elim (Bool-cases (p r)) [
  | inl hit ↦ ground (arith, h r hit, any-select p keep rows kept h)
  | inr miss ↦ ground (arith, miss, any-select p keep rows kept h)
]

is_contact-remove_contact :
    (u c a b : ℕ) (db : Database)
    → is_contact a b (remove_contact u c db)
      ≡ (is_contact a b db && not (is_pair u c a b || is_pair c u a b))
unfolding is_contact remove_contact
is_contact-remove_contact u c a b db =
    any-select (is_row a b) _ db.contacts (not (is_pair u c a b || is_pair c u a b))
      (λ r h. ground (arith, h))

any-update :
    (p q : Contact → Bool) (f : Contact → Contact) (rows : List Contact)
    → ((r : Contact) → p (f r) ≡ p r)
    → any p (update_where q f rows) ≡ any p rows
unfolding any update_where
any-update p q f [] keeps = refl
any-update p q f (r ∷ rows) keeps = ground (arith, keeps r, any-update p q f rows keeps)

is_contact-update_contact_nickname :
    (u c a b : ℕ) (nickname : Option Text) (db : Database)
    → is_contact a b (update_contact_nickname u c nickname db) ≡ is_contact a b db
unfolding is_contact update_contact_nickname
is_contact-update_contact_nickname u c a b nickname db =
    any-update (is_row a b) (is_row u c) (λ r. record r { nickname = nickname }) db.contacts
      (λ r. refl)

-- Everybody is a contact of their contacts.
abbrev pub IsSymmetric : Database → Type 0
IsSymmetric db = (a b : ℕ) → is_contact a b db ≡ is_contact b a db

pub add_contact-IsSymmetric :
    (now u c : ℕ) (source : Text) (invite : Option ℕ) (db : Database)
    → IsSymmetric db
    → IsSymmetric (add_contact now u c source invite db)
add_contact-IsSymmetric now u c source invite db s a b =
    let there = is_contact-add_contact now u c a b source invite db in
    let back = is_contact-add_contact now u c b a source invite db in
    ground (arith, there, back, s a b)

pub remove_contact-IsSymmetric :
    (u c : ℕ) (db : Database) → IsSymmetric db → IsSymmetric (remove_contact u c db)
remove_contact-IsSymmetric u c db s a b =
    let there = is_contact-remove_contact u c a b db in
    let back = is_contact-remove_contact u c b a db in ground (arith, there, back, s a b)

pub update_contact_nickname-IsSymmetric :
    (u c : ℕ) (nickname : Option Text) (db : Database)
    → IsSymmetric db
    → IsSymmetric (update_contact_nickname u c nickname db)
update_contact_nickname-IsSymmetric u c nickname db s a b =
    is_contact-update_contact_nickname u c a b nickname db
    ∙ s a b
    ∙ sym (is_contact-update_contact_nickname u c b a nickname db)
