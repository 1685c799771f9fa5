-- ===== src/Store/Expiry.antt =====
-- `RecordMessageRead` and `ExpireReadMessages` of store/messages.go.
use mv_chat.Prelude.{
  ℕ, ◌≤◌, ◌≡◌, ◌≢◌, refl, sym, subst, ◌∙◌, List, [], ◌∷◌, some, Bool, true, ◌&&◌, arith, ◌==◌,
  is_some, ℤ, if◌then◌else◌, All, All-map, find?, any, find?-update_where, or_else, false, inl, inr,
  Bool-cases, Option-cases, &&-true, ==_iff, ==_refl, ap,
}
use mathlib.Core.Path.{subst₂}
use mv_chat.Store.Types.{Database, Message, MessageRead}
use mv_chat.Store.Messages.{get_messages, is_visible, is_expired_for}
use mv_chat.Store.Reads.{
  is_read_row, insert_read, record_message_read, get_message_read, must_expire,
  expire_read_messages,
}
use mv_chat.Store.Pages.{get_messages_sound}

any-find? : (p : MessageRead → Bool) (rs : List MessageRead) → any p rs ≡ is_some (find? p rs)
unfolding any find?
any-find? p [] = refl
any-find? p (r ∷ rs) = ground (arith, any-find? p rs)

-- The look-up of a read after one was inserted.
find-insert_read_own :
    (r : MessageRead) (db : Database)
    → get_message_read r.message_id r.user_id (insert_read r db)
      ≡ some (or_else (get_message_read r.message_id r.user_id db) r)
unfolding insert_read get_message_read find?
find-insert_read_own r db =
    let rows = db.message_reads in
    let p = is_read_row r.message_id r.user_id in
    elim (Option-cases (find? p rows)) [
      | inl gone ↦
          let stored : any p rows ≡ false = any-find? p rows ∙ ap is_some gone in
          ground (arith, stored, gone, ==_refl r.message_id, ==_refl r.user_id)
      | inr (k, there) ↦
          let stored : any p rows ≡ true = any-find? p rows ∙ ap is_some there in
          ground (arith, stored, there)
    ]

find-insert_read_other :
    (r : MessageRead) (db : Database) (id u : ℕ)
    → is_read_row id u r ≡ false
    → get_message_read id u (insert_read r db) ≡ get_message_read id u db
unfolding insert_read get_message_read find?
find-insert_read_other r db id u other = ground (arith, other)

recorded :
    (now id u : ℕ) (db db' : Database) (r : MessageRead)
    → record_message_read now id u db ≡ some (some r, db')
    → (r.message_id ≡ id)
      × (r.user_id ≡ u)
      × (r.read_at ≡ now)
      × (r.expired ≡ false)
      × (db' ≡ insert_read r db)
unfolding record_message_read
recorded now id u db db' r h = ground arith

-- A read that is recorded, of a message that is not the user's own, has the time of the call and is
-- not expired. Afterwards the stored read of the message by the user is that one, unless there was one
-- before, which then stands with its time and its expiry; and all other reads are as they were.
pub record_message_read-first :
    (now id u id' u' : ℕ) (db db' : Database) (r : MessageRead)
    → record_message_read now id u db ≡ some (some r, db')
    → (r.read_at ≡ now)
      × (r.expired ≡ false)
      × (get_message_read id' u' db' ≡ (
          if id == id' && u == u'
          then some (or_else (get_message_read id u db) r)
          else get_message_read id' u' db))
record_message_read-first now id u id' u' db db' r h =
    let (of_message, of_user, at_now, fresh, same) = recorded now id u db db' r h in
    (
      at_now,
      fresh,
      elim (Bool-cases (id == id' && u == u')) [
        | inl own ↦
            let ids = &&-true (id == id') (u == u') own in
            let message = (==_iff id id').0 ids.0 in
            let user = (==_iff u u').0 ids.1 in
            let read = find-insert_read_own r db in
            rw own (
              subst₂ (λ i k. get_message_read i k db' ≡ some (or_else (get_message_read id u db) r))
                message user
                (subst₂
                  (λ i k. get_message_read i k db' ≡ some (or_else (get_message_read i k db) r))
                  of_message of_user (ap (get_message_read r.message_id r.user_id) same ∙ read)))
        | inr other ↦ rw other (
            ap (get_message_read id' u') same
            ∙ find-insert_read_other r db id' u' (ground (arith, of_message, of_user, other)))
      ],
    )

-- Where a read has its expiry time reached, the sweep marks it as expired.
expire-read :
    (now id u t : ℕ) (db : Database) (r : MessageRead)
    → get_message_read id u db ≡ some r
    → r.expires_at ≡ some t
    → t ≤ now
    → (r' : MessageRead) × (get_message_read id u (expire_read_messages now db).1 ≡ some r')
      × (r'.expired ≡ true)
unfolding get_message_read expire_read_messages
expire-read now id u t db r had due le =
    let row : find? (is_read_row id u) db.message_reads ≡ some r = had in
    (
      (if must_expire now r then record r { expired = true } else r),
      find?-update_where _ _ _ db.message_reads (λ k. refl) ∙ rw row refl,
      ground arith,
    )

expired-row :
    (id u : ℕ) (rs : List MessageRead) (r : MessageRead)
    → find? (is_read_row id u) rs ≡ some r
    → r.expired ≡ true
    → any (λ k. k.message_id == id && k.user_id == u && k.expired) rs ≡ true
unfolding find? any
expired-row id u [] r h e = cc
expired-row id u (k ∷ rs) r h e = ground (arith, expired-row id u rs r)

-- A visible message of the page is not the expired one.
not_expired :
    (conv u id : ℕ) (before : ℤ) (clear_seq : ℕ) (db : Database) (m : Message)
    → is_expired_for id u db ≡ true
    → is_visible conv u before clear_seq db m ≡ true
    → m.id ≢ id
unfolding is_visible
not_expired conv u id before clear_seq db m gone seen same =
    let here : is_expired_for m.id u db ≡ true =
      subst (λ k. is_expired_for k u db ≡ true) (sym same) gone in
    ground arith

-- After the sweep at a time `now`, no page that a user asks for holds a message whose read by the user
-- has an expiry time that is not later than `now`.
pub expire-hides :
    (now id u t : ℕ) (db : Database) (r : MessageRead) (conv : ℕ) (before limit : ℤ) (clear_seq : ℕ)
    → get_message_read id u db ≡ some r
    → r.expires_at ≡ some t
    → t ≤ now
    → All
        (λ m. m.id ≢ id)
        (get_messages conv u before limit clear_seq (expire_read_messages now db).1)
unfolding get_message_read
expire-hides now id u t db r conv before limit clear_seq had due le =
    let swept = (expire_read_messages now db).1 in
    let (r', row, expired) = expire-read now id u t db r had due le in
    All-map {P = λ m. is_visible conv u before clear_seq swept m ≡ true}
      (λ m seen.
        not_expired conv u id before clear_seq swept m
          (expired-row id u swept.message_reads r' row expired) seen)
      _ (get_messages_sound conv u before limit clear_seq swept)
