-- ===== src/Conv/Safety/Contacts.antt =====
-- Contacts (handlers_contact.go, store/contacts.go) under conversation and contact requests.
use mv_chat.Prelude.{ℕ, ◌≡◌, refl, sym, subst, ◌∙◌, Option, none, some, Bool, Text, arith}
use mv_chat.Store.Types.{Database, Conversation, Message, MessageRead, member}
use mv_chat.Store.Conversations.{
  create_dm, create_room, insert_dm, set_pinned_message, update_room_public,
  update_disappearing_ttl, update_no_screenshots,
}
use mv_chat.Store.Members.{
  add_room_member, remove_member, update_member_settings, update_read_seq, update_recv_seq,
  update_clear_seq,
}
use mv_chat.Store.Messages.{
  insert_message, create_message_with_view_once, delete_message_for_user, edit_message,
  unsend_message, delete_message_for_everyone,
}
use mv_chat.Store.Reactions.{add_reaction}
use mv_chat.Store.Reads.{record_message_read, insert_read}
use mv_chat.Store.Contacts.{is_contact}
use mv_chat.Store.Symmetry.{
  IsSymmetric, add_contact-IsSymmetric, remove_contact-IsSymmetric,
  update_contact_nickname-IsSymmetric,
}
use mv_chat.Handler.World.{World}
use mv_chat.Conv.Step.{
  Step, Marks, unmarked, marked, made_dm, made_room, invited, sent, reacted, deleted_for_user,
  read_to, pinned, made_contact, dropped_contact, named_contact,
}
use mv_chat.Conv.Outcome.{Outcome, silent, refused, done}

pub create_dm-contacts :
    (i now a b : ℕ) (x : Conversation × Bool) (db db' : Database)
    → create_dm i now a b db ≡ some (x, db')
    → db'.contacts ≡ db.contacts
unfolding create_dm insert_dm
create_dm-contacts i now a b x db db' h = ground arith

create_room-contacts :
    (i now a : ℕ) (p : Option Text) (c : Conversation) (db db' : Database)
    → create_room i now a p db ≡ some (c, db')
    → db'.contacts ≡ db.contacts
unfolding create_room
create_room-contacts i now a p c db db' h = ground arith

sent-contacts :
    (id now conv u : ℕ) (content : Text) (head : _) (once : Bool) (ttl : _) (m : Message)
    (db db' : Database)
    → create_message_with_view_once id now conv u content head once ttl db ≡ some (m, db')
    → db'.contacts ≡ db.contacts
unfolding create_message_with_view_once insert_message
sent-contacts id now conv u content head once ttl m db db' h = ground arith

react-contacts :
    (now conv seq u : ℕ) (emoji : Text) (db db' : Database)
    → add_reaction now conv seq u emoji db ≡ some db'
    → db'.contacts ≡ db.contacts
unfolding add_reaction
react-contacts now conv seq u emoji db db' h = ground arith

record_read-contacts :
    (now id u : ℕ) (r : Option MessageRead) (db db' : Database)
    → record_message_read now id u db ≡ some (r, db')
    → db'.contacts ≡ db.contacts
unfolding record_message_read insert_read
record_read-contacts now id u r db db' h = ground arith

Marks-contacts : {u now : ℕ} {db db' : Database} → Marks u now db db' → db'.contacts ≡ db.contacts
Marks-contacts unmarked = refl
Marks-contacts (marked {db' = d} id r marks e) =
    record_read-contacts _ id _ r d _ e ∙ Marks-contacts marks

delete_for_user-contacts :
    (now id u : ℕ) (db : Database) → (delete_message_for_user now id u db).contacts ≡ db.contacts
unfolding delete_message_for_user
delete_for_user-contacts now id u db = ground arith

add_room_member-contacts :
    (now conv u : ℕ) (r : _) (db : Database)
    → (add_room_member now conv u r db).contacts ≡ db.contacts
unfolding add_room_member
add_room_member-contacts now conv u r db = ground arith

pinned-contacts :
    (now conv u : ℕ) (id : Option ℕ) (db : Database)
    → (set_pinned_message now conv id u db).contacts ≡ db.contacts
unfolding set_pinned_message
pinned-contacts now conv u none db = refl
pinned-contacts now conv u (some id) db = refl

pub IsSymmetric-same :
    (db db' : Database) → db'.contacts ≡ db.contacts → IsSymmetric db → IsSymmetric db'
unfolding is_contact
IsSymmetric-same db db' e s a b = rw e (s a b)

Step-IsSymmetric :
    {u now : ℕ} {faults : ℕ → Bool} {db db' : Database}
    → IsSymmetric db
    → Step u now faults db db'
    → IsSymmetric db'
unfolding edit_message unsend_message delete_message_for_everyone update_disappearing_ttl
    update_member_settings update_no_screenshots update_room_public remove_member update_recv_seq
    update_clear_seq update_read_seq
Step-IsSymmetric {u = u} {now = now} {db = db} {db' = db'} v (made_dm i other user made _ _ e) =
    IsSymmetric-same db db' (create_dm-contacts i now u other made db db' e) v
Step-IsSymmetric {u = u} {now = now} {db = db} {db' = db'} v (made_room i public c e) =
    IsSymmetric-same db db' (create_room-contacts i now u public c db db' e) v
Step-IsSymmetric {now = now} {db = db} v (invited conv target user _ _) =
    IsSymmetric-same db (add_room_member now conv target member db)
      (add_room_member-contacts now conv target member db) v
Step-IsSymmetric {u = u} {now = now} {db = db} {db' = db'} v
      (sent id conv content head once ttl row c m _ _ _ e) =
    IsSymmetric-same db db' (sent-contacts id now conv u content head once ttl m db db' e) v
Step-IsSymmetric {u = u} {now = now} {db = db} {db' = db'} v (reacted conv seq emoji _ e) =
    IsSymmetric-same db db' (react-contacts now conv seq u emoji db db' e) v
Step-IsSymmetric {u = u} {now = now} {db = db} v (deleted_for_user conv seq m _) =
    IsSymmetric-same db (delete_message_for_user now m.id u db)
      (delete_for_user-contacts now m.id u db) v
Step-IsSymmetric {u = u} {now = now} {db = db} {db' = db'} v (read_to conv seq marks) =
    IsSymmetric-same db db' (Marks-contacts marks) v
Step-IsSymmetric {u = u} {now = now} {db = db} v (pinned conv id c r _ _ _ _) =
    IsSymmetric-same db (set_pinned_message now conv id u db) (pinned-contacts now conv u id db) v
Step-IsSymmetric {u = u} {now = now} {db = db} v (made_contact other user _ _) =
    add_contact-IsSymmetric now u other _ none db v
Step-IsSymmetric {u = u} {db = db} v (dropped_contact other) =
    remove_contact-IsSymmetric u other db v
Step-IsSymmetric {u = u} {db = db} v (named_contact other nickname) =
    update_contact_nickname-IsSymmetric u other nickname db v
Step-IsSymmetric {db = db} v _ = IsSymmetric-same db _ refl v

pub Outcome-IsSymmetric :
    {q : Bool} {u : ℕ} {w w' : World} → IsSymmetric w.db → Outcome q u w w' → IsSymmetric w'.db
Outcome-IsSymmetric v (silent _ e _) = subst IsSymmetric (sym e) v
Outcome-IsSymmetric v (refused _ _ e _) = subst IsSymmetric (sym e) v
Outcome-IsSymmetric v (done d) = Step-IsSymmetric v d.step
