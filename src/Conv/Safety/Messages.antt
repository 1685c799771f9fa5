-- ===== src/Conv/Safety/Messages.antt =====
-- The messages table under the steps of the contract.
use mv_chat.Prelude.{
  ℕ, ◌≡◌, ◌≢◌, refl, sym, ap, subst, ◌∙◌, inl, inr, List, [], ◌∷◌, Option, some, Bool, true, false,
  ◌||◌, Text, ℤ, pos, arith, ◌==◌, Bool-cases, Option-cases, All, All-map, All-of, find?, any,
  update_where,
}
use mv_chat.Store.Types.{Database, Message, Head}
use mv_chat.Store.Conversations.{update_room_public, update_disappearing_ttl, update_no_screenshots}
use mv_chat.Store.Members.{
  update_member_settings, update_read_seq, update_recv_seq, update_clear_seq, remove_member,
}
use mv_chat.Store.Messages.{
  is_message, insert_message, create_message_with_view_once, get_message_by_seq, edit_message,
  unsend_message, delete_message_for_everyone, head_of,
}
use mv_chat.Store.Reactions.{add_reaction, toggle}
use mv_chat.Store.Unique.{Unique, SamePlace, Unique-found}
use mv_chat.Store.Contacts.{add_contact, remove_contact, update_contact_nickname}
use mv_chat.Conv.Step.{
  Step, made_dm, made_room, sent, edited, unsent, deleted_for_everyone, deleted_for_user, reacted,
  read_to, pinned, invited, same,
}
use mv_chat.Conv.Safety.Untouched.{
  create_dm-messages, create_room-messages, Marks-messages, delete_for_user-messages,
  add_room_member-messages, pinned-messages,
}

-- A message `m` of a user other than `u` keeps its content and is neither removed nor restored; and
-- where a message stands, who sent it and when never changes.
pub record Kept (u : ℕ) (m m' : Message) : Type 0 where
  pub id_is : m'.id ≡ m.id
  pub place : SamePlace m m'
  pub author : m'.from_user_id ≡ m.from_user_id
  pub birth : m'.created_at ≡ m.created_at
  pub content_is : m.from_user_id ≢ u → m'.content ≡ m.content
  pub removal_is : m.from_user_id ≢ u → m'.deleted_at ≡ m.deleted_at

-- The table grows only by messages of `u`, loses no row, and keeps the others.
pub data Evolves (u : ℕ) : List Message → List Message → Type 0 where
  ended : Evolves u [] []
  kept :
      {m m' : Message} {ms ms' : List Message}
      → Kept u m m'
      → Evolves u ms ms'
      → Evolves u (m ∷ ms) (m' ∷ ms')
  added :
      {ms ms' : List Message} (m : Message)
      → m.from_user_id ≡ u
      → Evolves u ms ms'
      → Evolves u ms (m ∷ ms')

Kept-refl : (u : ℕ) (m : Message) → Kept u m m
Kept-refl u m = record {
  id_is = refl;
  place = (refl, refl);
  author = refl;
  birth = refl;
  content_is = λ _. refl;
  removal_is = λ _. refl;
}

pub Evolves-refl : (u : ℕ) (ms : List Message) → Evolves u ms ms
Evolves-refl u [] = ended
Evolves-refl u (m ∷ ms) = kept (Kept-refl u m) (Evolves-refl u ms)

Evolves-same : (u : ℕ) (ms ms' : List Message) → ms' ≡ ms → Evolves u ms ms'
Evolves-same u ms ms' e = subst (Evolves u ms) (sym e) (Evolves-refl u ms)

module _ (u : ℕ) (p : Message → Bool) (f : Message → Message) where
  Evolves-update :
      (ms : List Message)
      → All (λ m. p m ≡ true → Kept u m (f m)) ms
      → Evolves u ms (update_where p f ms)
  unfolding update_where
  Evolves-update [] h = ended
  Evolves-update (m ∷ ms) h =
      kept (elim (Bool-cases (p m)) [ inl e ↦ rw e (h.0 e) | inr e ↦ rw e (Kept-refl u m) ])
        (Evolves-update ms h.1)

-- What a new message looks like.
pub create_message-row :
    (id now conv u : ℕ) (content : Text) (head : Option Head) (once : Bool) (ttl : Option ℤ)
    (m : Message) (db db' : Database)
    → create_message_with_view_once id now conv u content head once ttl db ≡ some (m, db')
    → (db'.messages ≡ m ∷ db.messages)
      × (m.from_user_id ≡ u)
      × (any (λ n. n.id == m.id || is_message m.conversation_id m.seq n) db.messages ≡ false)
unfolding create_message_with_view_once insert_message
create_message-row id now conv u content head once ttl m db db' h = ground arith

own_rows :
    (u conv seq : ℕ) (m : Message) (db : Database)
    → Unique db.messages
    → get_message_by_seq conv (pos seq) db ≡ some m
    → m.from_user_id ≡ u
    → All (λ n. is_message conv seq n ≡ true → n.from_user_id ≡ u) db.messages
unfolding get_message_by_seq
own_rows u conv seq m db unique found own =
    All-map {P = λ n. is_message conv seq n ≡ true → n ≡ m}
      (λ n same_row at. ap (λ (k : Message). k.from_user_id) (same_row at) ∙ own) db.messages
      (Unique-found conv seq db.messages m unique found)

module _ (u now conv seq : ℕ) (db : Database) where
  Owned : Type 0
  Owned = All (λ n. is_message conv seq n ≡ true → n.from_user_id ≡ u) db.messages

  edit-Evolves :
      (content : Text)
      → Owned
      → Evolves u db.messages (edit_message now conv seq content db).messages
  unfolding Owned edit_message
  edit-Evolves content own = Evolves-update u _ _ db.messages (
      All-map {P = λ n. is_message conv seq n ≡ true → n.from_user_id ≡ u}
        (λ n is_own at. record {
          id_is = refl;
          place = (refl, refl);
          author = refl;
          birth = refl;
          content_is = λ other. absurd (other (is_own (ground arith)));
          removal_is = λ _. refl;
        })
        db.messages own)

  unsend-Evolves : Owned → Evolves u db.messages (unsend_message now conv seq db).messages
  unfolding Owned unsend_message
  unsend-Evolves own = Evolves-update u _ _ db.messages (
      All-map {P = λ n. is_message conv seq n ≡ true → n.from_user_id ≡ u}
        (λ n is_own at. record {
          id_is = refl;
          place = (refl, refl);
          author = refl;
          birth = refl;
          content_is = λ _. refl;
          removal_is = λ other. absurd (other (is_own at));
        })
        db.messages own)

  delete-Evolves :
      Owned → Evolves u db.messages (delete_message_for_everyone now conv seq db).messages
  unfolding Owned delete_message_for_everyone
  delete-Evolves own = Evolves-update u _ _ db.messages (
      All-map {P = λ n. is_message conv seq n ≡ true → n.from_user_id ≡ u}
        (λ n is_own at. record {
          id_is = refl;
          place = (refl, refl);
          author = refl;
          birth = refl;
          content_is = λ _. refl;
          removal_is = λ other. absurd (other (is_own at));
        })
        db.messages own)

-- A reaction rewrites the head alone.
pub react-shape :
    (now conv seq u : ℕ) (e : Text) (db db' : Database)
    → add_reaction now conv seq u e db ≡ some db'
    → (h : Head) × (db'.messages
        ≡ update_where
            (is_message conv seq)
            (λ n. record n { head = some h; updated_at = now })
            db.messages)
unfolding add_reaction
react-shape now conv seq u e db db' h =
    elim (Option-cases (find? (is_message conv seq) db.messages)) [
      | inl gone ↦ absurd (ground arith)
      | inr (m, found) ↦
          ((let o = head_of m in record o { reactions = toggle e u o.reactions }), ground arith)
    ]

react-Evolves :
    (u now conv seq : ℕ) (e : Text) (db db' : Database)
    → add_reaction now conv seq u e db ≡ some db'
    → Evolves u db.messages db'.messages
react-Evolves u now conv seq e db db' h =
    let (head, shape) = react-shape now conv seq u e db db' h in
    subst (Evolves u db.messages) (sym shape) (
      Evolves-update u _ _ db.messages (
        All-of
          (λ n at. record {
            id_is = refl;
            place = (refl, refl);
            author = refl;
            birth = refl;
            content_is = λ _. refl;
            removal_is = λ _. refl;
          })
          db.messages))

-- The messages after one permitted step of `u`, where no two messages of a conversation share a number.
pub Step-Evolves :
    {u now : ℕ} {faults : ℕ → Bool} {db db' : Database}
    → Unique db.messages
    → Step u now faults db db'
    → Evolves u db.messages db'.messages
unfolding add_contact remove_contact update_contact_nickname Owned update_disappearing_ttl
    update_member_settings update_no_screenshots update_room_public remove_member update_recv_seq
    update_clear_seq update_read_seq
Step-Evolves {u = u} {db = db} q same = Evolves-refl u db.messages
Step-Evolves {u = u} {now = now} {db = db} {db' = db'} q (made_dm id other user made _ _ e) =
    Evolves-same u _ _ (create_dm-messages id now u other made db db' e)
Step-Evolves {u = u} {now = now} {db = db} {db' = db'} q (made_room id public c e) =
    Evolves-same u _ _ (create_room-messages id now u public c db db' e)
Step-Evolves {u = u} {now = now} {db = db} {db' = db'} q
      (sent id conv content head once ttl row c m _ _ _ e) =
    let (rows, by, _) = create_message-row id now conv u content head once ttl m db db' e in
    subst (Evolves u db.messages) (sym rows) (added m by (Evolves-refl u db.messages))
Step-Evolves {u = u} {now = now} {db = db} q (edited conv seq content m found own _ _) =
    edit-Evolves u now conv seq db content (own_rows u conv seq m db q found own)
Step-Evolves {u = u} {now = now} {db = db} q (unsent conv seq m found own _) =
    unsend-Evolves u now conv seq db (own_rows u conv seq m db q found own)
Step-Evolves {u = u} {now = now} {db = db} q (deleted_for_everyone conv seq m found own) =
    delete-Evolves u now conv seq db (own_rows u conv seq m db q found own)
Step-Evolves {u = u} {now = now} {db = db} q (deleted_for_user conv seq m _) =
    Evolves-same u _ _ (delete_for_user-messages now m.id u db)
Step-Evolves {u = u} {now = now} {db = db} {db' = db'} q (reacted conv seq emoji _ e) =
    react-Evolves u now conv seq emoji db db' e
Step-Evolves {u = u} {now = now} {db = db} q (read_to conv seq marks) =
    Evolves-same u _ _ (Marks-messages marks)
Step-Evolves {u = u} {now = now} {db = db} q (invited conv target user _ _) =
    Evolves-same u _ _ (add_room_member-messages now conv target _ db)
Step-Evolves {u = u} {now = now} {db = db} q (pinned conv id c r _ _ _ _) =
    Evolves-same u _ _ (pinned-messages now conv u id db)
Step-Evolves {u = u} {db = db} q _ = Evolves-refl u db.messages
