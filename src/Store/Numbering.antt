-- ===== src/Store/Numbering.antt =====
-- The sequence numbers of the messages against the counter `last_seq` of their conversation.
use mv_chat.Prelude.{
  ℕ, ◌+◌, ◌≤◌, ◌<◌, ◌≡◌, refl, sym, ap, subst, ◌∙◌, inl, inr, List, [], ◌∷◌, Option, none, some,
  Bool, false, ◌||◌, Text, ℤ, arith, ◌==◌, Option-cases, All, All-map, find?, any, update_where,
}
use mv_chat.Store.Types.{Database, Conversation, Message, Head}
use mv_chat.Store.Conversations.{
  get_conversation_by_id, update_conversation, create_dm, insert_dm, create_room,
  update_room_public, set_pinned_message, update_disappearing_ttl, update_no_screenshots,
}
use mv_chat.Store.Messages.{is_message, new_message, insert_message, create_message_with_view_once}
use mv_chat.Store.Unique.{Unique, Unique-insert}

abbrev pub seq_or_zero : Option Conversation → ℕ
seq_or_zero none = 0
seq_or_zero (some c) = c.last_seq

-- The counter of a conversation, 0 where there is none.
unfoldable pub last_seq : ℕ → Database → ℕ
last_seq conv db = seq_or_zero (get_conversation_by_id conv db)

-- The numbers of a conversation are distinct, and none is above its counter.
pub record IsNumbered (db : Database) : Type 0 where
  pub unique : Unique db.messages
  pub bounded : All (λ m. m.seq ≤ last_seq m.conversation_id db) db.messages

-- An update that keeps the id and the counter.
module _ (f : Conversation → Conversation) (j : ℕ) where
  seq-update :
      ((c : Conversation) → ((f c).id ≡ c.id) × ((f c).last_seq ≡ c.last_seq))
      → (k : ℕ) (cs : List Conversation)
      → seq_or_zero (find? (λ c. c.id == k) (update_where (λ c. c.id == j) f cs))
        ≡ seq_or_zero (find? (λ c. c.id == k) cs)
  unfolding find? update_where
  seq-update keeps k [] = refl
  seq-update keeps k (c ∷ cs) = ground (arith, keeps c, seq-update keeps k cs)

-- The update that takes the next number.
seq-next :
    (f : Conversation → Conversation) (j : ℕ)
    → ((c : Conversation) → ((f c).id ≡ c.id) × ((f c).last_seq ≡ c.last_seq + 1))
    → (k : ℕ) (cs : List Conversation)
    → seq_or_zero (find? (λ c. c.id == k) cs)
      ≤ seq_or_zero (find? (λ c. c.id == k) (update_where (λ c. c.id == j) f cs))
unfolding find? update_where
seq-next f j keeps k [] = omega arith
seq-next f j keeps k (c ∷ cs) = ground (arith, keeps c, seq-next f j keeps k cs)

found-next :
    (f : Conversation → Conversation) (j : ℕ)
    → ((c : Conversation) → ((f c).id ≡ c.id) × ((f c).last_seq ≡ c.last_seq + 1))
    → (cs : List Conversation) (c : Conversation) → find? (λ c. c.id == j) cs ≡ some c
    → seq_or_zero (find? (λ c. c.id == j) (update_where (λ c. c.id == j) f cs)) ≡ c.last_seq + 1
unfolding find? update_where
found-next f j keeps [] c h = cc
found-next f j keeps (x ∷ cs) c h = ground (arith, keeps x, found-next f j keeps cs c)

pub none-any :
    (k : ℕ) (cs : List Conversation)
    → any (λ c. c.id == k) cs ≡ false
    → find? (λ c. c.id == k) cs ≡ none
unfolding any find?
none-any k [] h = refl
none-any k (c ∷ cs) h = ground (arith, none-any k cs)

pub last_seq-create_dm :
    (i now a b : ℕ) (x : Conversation × Bool) (db db' : Database) (k : ℕ)
    → create_dm i now a b db ≡ some (x, db')
    → last_seq k db' ≡ last_seq k db
unfolding create_dm insert_dm last_seq get_conversation_by_id find?
last_seq-create_dm i now a b x db db' k h = ground (arith, none-any i db.conversations)

pub last_seq-create_room :
    (i now a : ℕ) (p : Option Text) (c : Conversation) (db db' : Database) (k : ℕ)
    → create_room i now a p db ≡ some (c, db')
    → last_seq k db' ≡ last_seq k db
unfolding create_room last_seq get_conversation_by_id find?
last_seq-create_room i now a p c db db' k h = ground (arith, none-any i db.conversations)

abbrev Touched : (Conversation → Conversation) → Type 0
Touched f = (c : Conversation) → ((f c).id ≡ c.id) × ((f c).last_seq ≡ c.last_seq)

last_seq-update :
    (f : Conversation → Conversation) (j : ℕ)
    → Touched f
    → (k : ℕ) (db : Database) → last_seq k (update_conversation j f db) ≡ last_seq k db
unfolding last_seq get_conversation_by_id
last_seq-update f j keeps k db = seq-update f j keeps k db.conversations

pub last_seq-public :
    (now conv : ℕ) (p : Option Text) (k : ℕ) (db : Database)
    → last_seq k (update_room_public now conv p db) ≡ last_seq k db
unfolding update_room_public
last_seq-public now conv p k db = last_seq-update _ conv (λ c. ground arith) k db

pub last_seq-ttl :
    (now conv : ℕ) (t : Option ℕ) (k : ℕ) (db : Database)
    → last_seq k (update_disappearing_ttl now conv t db) ≡ last_seq k db
unfolding update_disappearing_ttl
last_seq-ttl now conv t k db = last_seq-update _ conv (λ c. (refl, refl)) k db

pub last_seq-screenshots :
    (now conv : ℕ) (b : Bool) (k : ℕ) (db : Database)
    → last_seq k (update_no_screenshots now conv b db) ≡ last_seq k db
unfolding update_no_screenshots
last_seq-screenshots now conv b k db = last_seq-update _ conv (λ c. (refl, refl)) k db

pub last_seq-pinned :
    (now conv : ℕ) (id : Option ℕ) (u k : ℕ) (db : Database)
    → last_seq k (set_pinned_message now conv id u db) ≡ last_seq k db
unfolding set_pinned_message
last_seq-pinned now conv none u k db = last_seq-update _ conv (λ c. (refl, refl)) k db
last_seq-pinned now conv (some id) u k db = last_seq-update _ conv (λ c. (refl, refl)) k db

abbrev count_up : ℕ → Conversation → Conversation
count_up now d = record d { last_seq = d.last_seq + 1; last_msg_at = some now; updated_at = now }

module _ (id now conv u : ℕ) (content : Text) (head : Option Head) (once : Bool) (ttl : Option ℤ)
    (db : Database) where
  abbrev counted : Database
  counted = update_conversation conv (count_up now) db

  -- The parts of a creation that succeeds.
  create-parts :
      (m : Message) (db' : Database)
      → create_message_with_view_once id now conv u content head once ttl db ≡ some (m, db')
      → (c : Conversation) × (get_conversation_by_id conv db ≡ some c)
        × (m ≡ new_message id conv (c.last_seq + 1) u now content head once ttl)
        × (db' ≡ record counted { messages = m ∷ db.messages })
        × (any (λ n. n.id == m.id || is_message m.conversation_id m.seq n) db.messages ≡ false)
  unfolding create_message_with_view_once insert_message
  create-parts m db' h = elim (Option-cases (get_conversation_by_id conv db)) [
    | inl gone ↦ absurd (ground arith)
    | inr (c, found) ↦ (c, found, ground arith, ground arith, ground arith)
  ]

  last_seq-counted : (k : ℕ) → last_seq k db ≤ last_seq k counted
  unfolding last_seq get_conversation_by_id
  last_seq-counted k = seq-next (count_up now) conv (λ c. (refl, refl)) k db.conversations

  last_seq-counted_self :
      (c : Conversation)
      → get_conversation_by_id conv db ≡ some c
      → last_seq conv counted ≡ c.last_seq + 1
  unfolding last_seq get_conversation_by_id
  last_seq-counted_self c h =
      found-next (count_up now) conv (λ c. (refl, refl)) db.conversations c h

  -- A creation keeps the numbering.
  pub create_message-IsNumbered :
      (m : Message) (db' : Database)
      → create_message_with_view_once id now conv u content head once ttl db ≡ some (m, db')
      → IsNumbered db
      → IsNumbered db'
  unfolding last_seq get_conversation_by_id
  create_message-IsNumbered m db' h v =
      let (c, found, row, shape, fresh) = create-parts m db' h in
      subst IsNumbered (sym shape) (record {
        unique = Unique-insert m db.messages fresh v.unique;
        bounded = (
          subst (λ (n : Message). n.seq ≤ last_seq n.conversation_id counted) (sym row)
              (omega (arith, last_seq-counted_self c found)),
          All-map {P = λ (n : Message). n.seq ≤ last_seq n.conversation_id db}
              (λ n le. omega (arith, last_seq-counted n.conversation_id)) db.messages v.bounded,
        );
      })

  place-free :
      (n : ℕ) (ms : List Message)
      → any (λ (m : Message). m.id == id) ms ≡ false
      → All (λ (m : Message). m.conversation_id ≡ conv → m.seq < n) ms
      → any (λ m. m.id == id || is_message conv n m) ms ≡ false
  unfolding any
  place-free n [] h b = refl
  place-free n (m ∷ ms) h b = ground (arith, b.0, place-free n ms (ground arith) b.1)

  -- Where the numbers of each conversation are distinct and none is above the counter `last_seq`, a
  -- creation of a message under a new id in a conversation that exists never runs into the constraint
  -- on the numbers: it succeeds, and both the message's number and the counter are then the old
  -- counter plus one.
  pub create_message-next :
      (c : Conversation)
      → IsNumbered db
      → get_conversation_by_id conv db ≡ some c
      → any (λ (m : Message). m.id == id) db.messages ≡ false
      → (m : Message) × (db' : Database) × (create_message_with_view_once id now conv u content head
            once ttl db
          ≡ some (m, db'))
        × (m.seq ≡ c.last_seq + 1)
        × (last_seq conv db' ≡ c.last_seq + 1)
  unfolding create_message_with_view_once insert_message last_seq get_conversation_by_id
  create_message-next c v found fresh =
      let m = new_message id conv (c.last_seq + 1) u now content head once ttl in
      let free : any (λ n. n.id == id || is_message conv (c.last_seq + 1) n) db.messages ≡ false =
        place-free (c.last_seq + 1) db.messages fresh (
          All-map {P = λ (n : Message). n.seq ≤ last_seq n.conversation_id db}
            (λ n le at. omega (arith, ap (λ k. last_seq k db) at ∙ ap seq_or_zero found))
            db.messages v.bounded) in
      (
        m,
        record counted { messages = m ∷ db.messages },
        ground arith,
        refl,
        last_seq-counted_self c found,
      )
