-- ===== src/Conv/Safety/Receipts.antt =====
-- `read_seq` and `recv_seq` of the members under the requests of handlers_conv.go.
use mv_chat.Prelude.{
  ℕ, ◌≤◌, ◌≡◌, ◌⊎◌, inl, inr, sym, subst, List, [], ◌∷◌, Option, some, Bool, Text, arith, any,
  update_where, Bool-cases, All, All-update_where,
}
use mv_chat.Store.Types.{Database, Conversation, Member, Role, owner, member}
use mv_chat.Store.Conversations.{
  create_dm, create_dm_sorted, insert_dm, create_room, new_member, set_pinned_message,
  update_disappearing_ttl, update_no_screenshots, update_room_public,
}
use mv_chat.Store.Members.{
  update_member_settings, update_read_seq, update_recv_seq, update_clear_seq, add_room_member,
  remove_member, MemberSettings, is_row,
}
use mv_chat.Store.Messages.{
  edit_message, unsend_message, delete_message_for_everyone, delete_message_for_user,
}
use mv_chat.Handler.World.{World, Env}
use mv_chat.Store.Contacts.{add_contact, remove_contact, update_contact_nickname}
use mv_chat.Conv.Step.{
  Step, made_dm, made_room, set_settings, invited, left, kicked, sent, reacted, deleted_for_user,
  read_to, received_to, cleared_to, pinned,
}
use mv_chat.Conv.Outcome.{Outcome, silent, refused, done}
use mv_chat.Conv.Dispatch.{Arrival, serve, at_time}
use mv_chat.Conv.Refines.Dispatch.{dispatch-Outcome}
use mv_chat.Conv.Safety.Untouched.{
  sent-members, react-members, Marks-members, delete_for_user-members, pinned-members,
}

abbrev pub IsReceived : Database → Type 0
IsReceived db = All (λ m. m.read_seq ≤ m.recv_seq) db.members

IsReceived-same : (db db' : Database) → db'.members ≡ db.members → IsReceived db → IsReceived db'
IsReceived-same db db' e v = subst (All (λ (m : Member). m.read_seq ≤ m.recv_seq)) (sym e) v

create_dm-members :
    (i now a b : ℕ) (x : Conversation × Bool) (db db' : Database)
    → create_dm i now a b db ≡ some (x, db')
    → (db'.members ≡ db.members)
      ⊎ (db'.members ≡ new_member i a now member ∷ new_member i b now member ∷ db.members)
      ⊎ (db'.members ≡ new_member i b now member ∷ new_member i a now member ∷ db.members)
unfolding create_dm create_dm_sorted insert_dm
create_dm-members i now a b x db db' h = ground arith

create_room-members :
    (i now a : ℕ) (p : Option Text) (c : Conversation) (db db' : Database)
    → create_room i now a p db ≡ some (c, db')
    → db'.members ≡ new_member i a now owner ∷ db.members
unfolding create_room
create_room-members i now a p c db db' h = ground arith

create_dm-IsReceived :
    (i now a b : ℕ) (x : Conversation × Bool) (db db' : Database)
    → create_dm i now a b db ≡ some (x, db')
    → IsReceived db
    → IsReceived db'
create_dm-IsReceived i now a b x db db' h v = elim (create_dm-members i now a b x db db' h) [
  | inl e ↦ IsReceived-same db db' e v
  | inr (inl e) ↦ subst (All _) (sym e) (omega arith, (omega arith, v))
  | inr (inr e) ↦ subst (All _) (sym e) (omega arith, (omega arith, v))
]

module _ (p : Member → Bool) (f : Member → Member) (db : Database)
    (keeps : (m : Member) → m.read_seq ≤ m.recv_seq → (f m).read_seq ≤ (f m).recv_seq) where
  IsReceived-update :
      IsReceived db → All (λ m. m.read_seq ≤ m.recv_seq) (update_where p f db.members)
  IsReceived-update v =
      All-update_where (λ (m : Member). m.read_seq ≤ m.recv_seq)
        (λ (m : Member). m.read_seq ≤ m.recv_seq) p f db.members (λ m le _. keeps m le)
        (λ m le _. le) v

module _ (now conv u seq : ℕ) (db : Database) (v : IsReceived db) where
  settings-IsReceived : (s : MemberSettings) → IsReceived (update_member_settings now conv u s db)
  unfolding update_member_settings
  settings-IsReceived s = IsReceived-update _ _ db (λ m le. le) v

  read-IsReceived : IsReceived (update_read_seq now conv u seq db)
  unfolding update_read_seq
  read-IsReceived = IsReceived-update _ _ db (λ m le. omega arith) v

  recv-IsReceived : IsReceived (update_recv_seq now conv u seq db)
  unfolding update_recv_seq
  recv-IsReceived = IsReceived-update _ _ db (λ m le. omega (arith, le)) v

  clear-IsReceived : IsReceived (update_clear_seq now conv u seq db)
  unfolding update_clear_seq
  clear-IsReceived = IsReceived-update _ _ db (λ m le. le) v

  remove-IsReceived : IsReceived (remove_member now conv u db)
  unfolding remove_member
  remove-IsReceived = IsReceived-update _ _ db (λ m le. le) v

  add-IsReceived : (r : Role) → IsReceived (add_room_member now conv u r db)
  unfolding add_room_member
  add-IsReceived r = elim (Bool-cases (any (is_row conv u) db.members)) [
    | inl there ↦ rw (there, add_room_member) (IsReceived-update _ _ db (λ m le. le) v)
    | inr absent ↦ rw (absent, add_room_member) (omega arith, v)
  ]

Step-IsReceived :
    {u now : ℕ} {faults : ℕ → Bool} {db db' : Database}
    → IsReceived db
    → Step u now faults db db'
    → IsReceived db'
unfolding add_contact remove_contact update_contact_nickname edit_message unsend_message
    delete_message_for_everyone update_disappearing_ttl update_no_screenshots update_room_public
Step-IsReceived {u = u} {now = now} {db = db} {db' = db'} v (made_dm i other user made _ _ e) =
    create_dm-IsReceived i now u other made db db' e v
Step-IsReceived {u = u} {now = now} {db = db} {db' = db'} v (made_room i public c e) =
    subst (All _) (sym (create_room-members i now u public c db db' e)) (omega arith, v)
Step-IsReceived {u = u} {now = now} {db = db} v (set_settings conv settings _) =
    settings-IsReceived now conv u 0 db v settings
Step-IsReceived {u = u} {now = now} {db = db} v (invited conv target user _ _) =
    add-IsReceived now conv target 0 db v member
Step-IsReceived {u = u} {now = now} {db = db} v (left conv r _ _) =
    remove-IsReceived now conv u 0 db v
Step-IsReceived {u = u} {now = now} {db = db} v (kicked conv target _) =
    remove-IsReceived now conv target 0 db v
Step-IsReceived {u = u} {now = now} {db = db} {db' = db'} v
      (sent id conv content head once ttl row x m _ _ _ e) =
    IsReceived-same db db' (sent-members id now conv u content head once ttl m db db' e) v
Step-IsReceived {u = u} {now = now} {db = db} {db' = db'} v (reacted conv seq emoji _ e) =
    IsReceived-same db db' (react-members now conv seq u emoji db db' e) v
Step-IsReceived {u = u} {now = now} {db = db} v (deleted_for_user conv seq m _) =
    IsReceived-same db (delete_message_for_user now m.id u db)
      (delete_for_user-members now m.id u db) v
Step-IsReceived {u = u} {now = now} {db = db} {db' = db'} v (read_to conv seq marks) =
    IsReceived-same (update_read_seq now conv u seq db) db' (Marks-members marks)
      (read-IsReceived now conv u seq db v)
Step-IsReceived {u = u} {now = now} {db = db} v (received_to conv seq) =
    recv-IsReceived now conv u seq db v
Step-IsReceived {u = u} {now = now} {db = db} v (cleared_to conv seq _) =
    clear-IsReceived now conv u seq db v
Step-IsReceived {u = u} {now = now} {db = db} v (pinned conv id x r _ _ _ _) =
    IsReceived-same db (set_pinned_message now conv id u db) (pinned-members now conv u id db) v
Step-IsReceived v _ = v

Outcome-IsReceived :
    {q : Bool} {u : ℕ} {w w' : World} → IsReceived w.db → Outcome q u w w' → IsReceived w'.db
Outcome-IsReceived v (silent _ e _) = subst IsReceived (sym e) v
Outcome-IsReceived v (refused _ _ e _) = subst IsReceived (sym e) v
Outcome-IsReceived v (done d) = Step-IsReceived v d.step

-- Whatever conversation and contact requests arrive, in whatever order, from whatever sessions, and
-- whatever calls of the store
-- fail: if no member has read further than received in any conversation, then so it is after all the
-- requests.
pub serve-IsReceived :
    (env : Env) (rest : List Arrival) (w : World)
    → IsReceived w.db
    → IsReceived (serve env rest w).db
unfolding serve
serve-IsReceived env [] w v = v
serve-IsReceived env (a ∷ rest) w v =
    serve-IsReceived env rest _
      (Outcome-IsReceived v (dispatch-Outcome env a.session a.id a.request (at_time a.time w)))
