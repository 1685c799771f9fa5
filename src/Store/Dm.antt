-- ===== src/Store/Dm.antt =====
-- `CreateDM` of store/conversations.go called a second time.
use mv_chat.Prelude.{
  ltb→lt, Bool-cases, none, List, ℕ, ◌≡◌, ◌<◌, refl, sym, inl, inr, Option, some, Bool, true, false,
  arith, ◌==◌, ==_iff, ltb, ◌&&◌, Option-cases, find?, find?-sound, any, ◌∷◌, if◌then◌else◌,
}
use mv_chat.Store.Types.{Database, Conversation, DmParticipants, dm, member}
use mv_chat.Store.Conversations.{
  get_conversation_by_id, insert_dm, find_dm, create_dm_sorted, create_dm, new_conversation,
  new_member,
}

sorted-again :
    (i j t t' x y : ℕ) (db db' : Database) (made : Conversation × Bool)
    → create_dm_sorted i t x y db ≡ some (made, db')
    → create_dm_sorted j t' x y db' ≡ some ((made.0, false), db')
unfolding create_dm_sorted find_dm insert_dm get_conversation_by_id find?
sorted-again i j t t' x y db db' made h = elim (Option-cases (find_dm x y db)) [
  | inl gone ↦ ground arith
  | inr (p, found) ↦ ground arith
]

-- After an opening of a DM between two users has succeeded, opening it again, from either side, finds the conversation
-- of the first time and changes nothing.
pub create_dm_again :
    (i j t t' a b : ℕ) (db db' : Database) (made : Conversation × Bool)
    → create_dm i t a b db ≡ some (made, db')
    → create_dm j t' b a db' ≡ some ((made.0, false), db')
unfolding create_dm
create_dm_again i j t t' a b db db' made h =
    let up = sorted-again i j t t' a b db db' made in
    let down = sorted-again i j t t' b a db db' made in ground arith

-- Each row of dm_participants names a conversation, as the schema's foreign key says.
abbrev pub HasConversations : Database → Type 0
HasConversations db =
    (p : DmParticipants) (x y : ℕ)
    → find_dm x y db ≡ some p
    → (c : Conversation) × (get_conversation_by_id p.conversation_id db ≡ some c)

-- The conversation is that of the DM of the two users, of which the first is the lesser.
abbrev pub IsDmOf : ℕ → ℕ → ℕ → Database → Type 0
IsDmOf conv x y db = (p : DmParticipants) × (find_dm x y db ≡ some p) × (p.conversation_id ≡ conv)

get_conversation_by_id_sound :
    (conv : ℕ) (db : Database) (c : Conversation)
    → get_conversation_by_id conv db ≡ some c
    → c.id ≡ conv
unfolding get_conversation_by_id
get_conversation_by_id_sound conv db c h =
    (==_iff c.id conv).0 (find?-sound (λ d. d.id == conv) db.conversations c h)

abbrev Opens : Option ((Conversation × Bool) × Database) → ℕ → ℕ → Database → Type 0
Opens result x y db =
    (made : Conversation × Bool) × (db' : Database) × (result ≡ some (made, db'))
    × IsDmOf made.0.id x y db'
    × (db'.invite_codes ≡ db.invite_codes)

first_row :
    (x y : ℕ) (r : DmParticipants) (rows : List DmParticipants)
    → r.user1_id ≡ x
    → r.user2_id ≡ y
    → find? (λ (p : DmParticipants). p.user1_id == x && p.user2_id == y) (r ∷ rows) ≡ some r
unfolding find?
first_row x y r rows h k = ground (arith, h, k)

sorted-Opens :
    (i t x y : ℕ) (db : Database)
    → x < y
    → any (λ (d : Conversation). d.id == i) db.conversations ≡ false
    → HasConversations db
    → Opens (create_dm_sorted i t x y db) x y db
unfolding create_dm_sorted insert_dm IsDmOf find_dm
sorted-Opens i t x y db less fresh known = elim (Option-cases (find_dm x y db)) [
  | inr (p, found) ↦
      let (c, row) = known p x y found in
      (
        (c, false),
        db,
        rw (found, create_dm_sorted) (rw row refl),
        (p, found, sym (get_conversation_by_id_sound p.conversation_id db c row)),
        refl,
      )
  | inl gone ↦
      let row : DmParticipants = record { conversation_id = i; user1_id = x; user2_id = y } in
      let c = new_conversation i t dm none none in
      let opened : Database = record db {
        conversations = c ∷ db.conversations;
        dm_participants = row ∷ db.dm_participants;
        members = new_member i x t member ∷ new_member i y t member ∷ db.members;
      } in
      (
        (c, true),
        opened,
        rw (gone, create_dm_sorted) (ground (arith, fresh, less)),
        (row, first_row x y row db.dm_participants refl refl, refl),
        refl,
      )
]

-- With a fresh id, a DM of two different users is opened, or found: it is then that of the two, and the
-- invite codes are as they were.
pub create_dm-Opens :
    (i t a b : ℕ) (db : Database)
    → (a == b) ≡ false
    → any (λ (d : Conversation). d.id == i) db.conversations ≡ false
    → HasConversations db
    → Opens (create_dm i t a b db) (if ltb b a then b else a) (if ltb b a then a else b) db
unfolding create_dm
create_dm-Opens i t a b db differ fresh known = elim (Bool-cases (ltb b a)) [
  | inl down ↦ rw down (sorted-Opens i t b a db (ltb→lt b a down) fresh known)
  | inr up ↦ rw up (sorted-Opens i t a b db (ground (arith, differ, up)) fresh known)
]
