-- ===== src/Conv/Safety/Numbering.antt =====
-- The sequence numbers of the messages under the requests of handlers_conv.go.
use mv_chat.Prelude.{
  ℕ, ◌≤◌, ◌≡◌, refl, sym, ap, subst, ◌∙◌, List, [], ◌∷◌, Option, some, Bool, Text, arith, All,
  All-map, All-update_where, update_where,
}
use mv_chat.Store.Types.{Database, Message, MessageRead}
use mv_chat.Store.Conversations.{
  get_conversation_by_id, update_disappearing_ttl, update_no_screenshots, update_room_public,
}
use mv_chat.Store.Members.{
  update_member_settings, update_read_seq, update_recv_seq, update_clear_seq, add_room_member,
  remove_member,
}
use mv_chat.Store.Messages.{
  edit_message, unsend_message, delete_message_for_everyone, delete_message_for_user,
}
use mv_chat.Store.Reactions.{add_reaction}
use mv_chat.Store.Reads.{record_message_read, insert_read}
use mv_chat.Store.Unique.{Unique, SamePlace, Unique-update}
use mv_chat.Store.Numbering.{
  last_seq, IsNumbered, create_message-IsNumbered, last_seq-create_dm, last_seq-create_room,
  last_seq-public, last_seq-ttl, last_seq-screenshots, last_seq-pinned,
}
use mv_chat.Handler.World.{Env, World}
use mv_chat.Store.Contacts.{add_contact, remove_contact, update_contact_nickname}
use mv_chat.Conv.Step.{
  Step, Marks, unmarked, marked, same, made_dm, made_room, set_ttl, set_ttl_managed,
  set_screenshots, set_public, invited, sent, edited, unsent, deleted_for_everyone,
  deleted_for_user, reacted, read_to, pinned,
}
use mv_chat.Conv.Outcome.{Outcome, silent, refused, done}
use mv_chat.Conv.Dispatch.{Arrival, at_time, serve}
use mv_chat.Conv.Refines.Dispatch.{dispatch-Outcome}
use mv_chat.Conv.Safety.Untouched.{
  create_dm-messages, create_room-messages, delete_for_user-messages, add_room_member-messages,
  pinned-messages, Marks-messages,
}
use mv_chat.Conv.Safety.Messages.{react-shape}

IsNumbered-same :
    (db db' : Database)
    → db'.messages ≡ db.messages
    → ((k : ℕ) → last_seq k db' ≡ last_seq k db)
    → IsNumbered db
    → IsNumbered db'
IsNumbered-same db db' ms seqs v = record {
  unique = subst Unique (sym ms) v.unique;
  bounded = subst (All (λ m. m.seq ≤ last_seq m.conversation_id db')) (sym ms) (
      All-map {P = λ (m : Message). m.seq ≤ last_seq m.conversation_id db}
        (λ m le. omega (arith, seqs m.conversation_id)) db.messages v.bounded);
}

-- An update of messages that leaves each in its place.
IsNumbered-update :
    (p : Message → Bool) (f : Message → Message) (db db' : Database)
    → ((m : Message) → SamePlace m (f m))
    → db'.messages ≡ update_where p f db.messages
    → db'.conversations ≡ db.conversations
    → IsNumbered db
    → IsNumbered db'
unfolding last_seq get_conversation_by_id
IsNumbered-update p f db db' keeps ms cs v = record {
  unique = subst Unique (sym ms) (Unique-update p f keeps db.messages v.unique);
  bounded = subst (All (λ m. m.seq ≤ last_seq m.conversation_id db')) (sym ms) (
      All-update_where (λ m. m.seq ≤ last_seq m.conversation_id db)
        (λ m. m.seq ≤ last_seq m.conversation_id db') p f db.messages (λ m le _. rw cs (moved m le))
        (λ m le _. rw cs le) v.bounded);
}
  where
    moved :
        (m : Message)
        → m.seq ≤ last_seq m.conversation_id db
        → (f m).seq ≤ last_seq (f m).conversation_id db
    moved m le = omega (arith, (keeps m).1, ap (λ k. last_seq k db) (keeps m).0)

react-conversations :
    (now conv seq u : ℕ) (e : Text) (db db' : Database)
    → add_reaction now conv seq u e db ≡ some db'
    → db'.conversations ≡ db.conversations
unfolding add_reaction
react-conversations now conv seq u e db db' h = ground arith

record_read-conversations :
    (now id u : ℕ) (r : Option MessageRead) (db db' : Database)
    → record_message_read now id u db ≡ some (r, db')
    → db'.conversations ≡ db.conversations
unfolding record_message_read insert_read
record_read-conversations now id u r db db' h = ground arith

Marks-conversations :
    {u now : ℕ} {db db' : Database} → Marks u now db db' → db'.conversations ≡ db.conversations
Marks-conversations unmarked = refl
Marks-conversations (marked {db' = d} id r marks e) =
    record_read-conversations _ id _ r d _ e ∙ Marks-conversations marks

last_seq-same :
    (db db' : Database)
    → db'.conversations ≡ db.conversations
    → (k : ℕ) → last_seq k db' ≡ last_seq k db
unfolding last_seq get_conversation_by_id
last_seq-same db db' e k = rw e

add_room_member-conversations :
    (now conv u : ℕ) (r : _) (db : Database)
    → (add_room_member now conv u r db).conversations ≡ db.conversations
unfolding add_room_member
add_room_member-conversations now conv u r db = ground arith

delete_for_user-conversations :
    (now id u : ℕ) (db : Database)
    → (delete_message_for_user now id u db).conversations ≡ db.conversations
unfolding delete_message_for_user
delete_for_user-conversations now id u db = ground arith

-- A step that leaves both tables alone.
IsNumbered-others :
    (db db' : Database)
    → db'.messages ≡ db.messages
    → db'.conversations ≡ db.conversations
    → IsNumbered db
    → IsNumbered db'
IsNumbered-others db db' ms cs v = IsNumbered-same db db' ms (last_seq-same db db' cs) v

Step-IsNumbered :
    {u now : ℕ} {faults : ℕ → Bool} {db db' : Database}
    → IsNumbered db
    → Step u now faults db db'
    → IsNumbered db'
unfolding add_contact remove_contact update_contact_nickname edit_message unsend_message
    delete_message_for_everyone update_disappearing_ttl update_member_settings update_no_screenshots
    update_room_public remove_member update_recv_seq update_clear_seq update_read_seq
Step-IsNumbered v same = v
Step-IsNumbered {u = u} {now = now} {db = db} {db' = db'} v (made_dm i other user made _ _ e) =
    IsNumbered-same db db' (create_dm-messages i now u other made db db' e)
      (λ k. last_seq-create_dm i now u other made db db' k e) v
Step-IsNumbered {u = u} {now = now} {db = db} {db' = db'} v (made_room i public c e) =
    IsNumbered-same db db' (create_room-messages i now u public c db db' e)
      (λ k. last_seq-create_room i now u public c db db' k e) v
Step-IsNumbered {now = now} {db = db} v (set_ttl conv ttl _) =
    IsNumbered-same db _ refl (λ k. last_seq-ttl now conv ttl k db) v
Step-IsNumbered {now = now} {db = db} v (set_ttl_managed conv ttl _) =
    IsNumbered-same db _ refl (λ k. last_seq-ttl now conv ttl k db) v
Step-IsNumbered {now = now} {db = db} v (set_screenshots conv flag _) =
    IsNumbered-same db _ refl (λ k. last_seq-screenshots now conv flag k db) v
Step-IsNumbered {now = now} {db = db} v (set_public conv public _) =
    IsNumbered-same db _ refl (λ k. last_seq-public now conv public k db) v
Step-IsNumbered {u = u} {now = now} {db = db} v (pinned conv id c r _ _ _ _) =
    IsNumbered-same db _ (pinned-messages now conv u id db)
      (λ k. last_seq-pinned now conv id u k db) v
Step-IsNumbered {now = now} {db = db} v (invited conv target user _ _) =
    IsNumbered-others db _ (add_room_member-messages now conv target _ db)
      (add_room_member-conversations now conv target _ db) v
Step-IsNumbered {u = u} {now = now} {db = db} {db' = db'} v
      (sent id conv content head once ttl row c m _ _ _ e) =
    create_message-IsNumbered id now conv u content head once ttl db m db' e v
Step-IsNumbered {db = db} v (edited conv seq content m _ _ _ _) =
    IsNumbered-update _ _ db _ (λ m. (refl, refl)) refl refl v
Step-IsNumbered {db = db} v (unsent conv seq m _ _ _) =
    IsNumbered-update _ _ db _ (λ m. (refl, refl)) refl refl v
Step-IsNumbered {db = db} v (deleted_for_everyone conv seq m _ _) =
    IsNumbered-update _ _ db _ (λ m. (refl, refl)) refl refl v
Step-IsNumbered {u = u} {now = now} {db = db} v (deleted_for_user conv seq m _) =
    IsNumbered-others db _ (delete_for_user-messages now m.id u db)
      (delete_for_user-conversations now m.id u db) v
Step-IsNumbered {u = u} {now = now} {db = db} {db' = db'} v (reacted conv seq emoji _ e) =
    let (h, shape) = react-shape now conv seq u emoji db db' e in
    IsNumbered-update _ _ db db' (λ m. (refl, refl)) shape
      (react-conversations now conv seq u emoji db db' e) v
Step-IsNumbered {db = db} {db' = db'} v (read_to conv seq marks) =
    IsNumbered-others db db' (Marks-messages marks) (Marks-conversations marks) v
Step-IsNumbered {db = db} v _ = IsNumbered-others db _ refl refl v

-- Only the database matters.
Outcome-IsNumbered :
    {q : Bool} {u : ℕ} {w w' : World} → Outcome q u w w' → IsNumbered w.db → IsNumbered w'.db
Outcome-IsNumbered (silent _ e _) v = subst IsNumbered (sym e) v
Outcome-IsNumbered (refused c _ e _) v = subst IsNumbered (sym e) v
Outcome-IsNumbered (done d) v = Step-IsNumbered v d.step

-- Whatever conversation and contact requests arrive, in whatever order, from whatever sessions, and
-- whatever calls of the store
-- fail: if the numbers of each conversation are distinct and none is above the counter `last_seq`,
-- then so it is after all the requests.
pub serve-IsNumbered :
    (env : Env) (rest : List Arrival) (w : World)
    → IsNumbered w.db
    → IsNumbered (serve env rest w).db
unfolding serve
serve-IsNumbered env [] w v = v
serve-IsNumbered env (a ∷ rest) w v =
    serve-IsNumbered env rest _
      (Outcome-IsNumbered (dispatch-Outcome env a.session a.id a.request (at_time a.time w)) v)
