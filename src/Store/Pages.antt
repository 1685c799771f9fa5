-- ===== src/Store/Pages.antt =====
-- The pages of `GetMessages` and `GetMessagesMentioningUser` (store/messages.go), against what
-- `Store.Visible` says they are to hold.
use mv_chat.Prelude.{
  ℕ, ◌≤◌, ◌≡◌, ◌⊎◌, inl, inr, List, true, Text, ℤ, length, All, All-map, In, Descending,
  length-page_le, page-Descending, page_sound, page-In, page_complete,
}
use mv_chat.Store.Types.{Database, Message}
use mv_chat.Store.Messages.{page_size, is_visible, get_messages}
use mv_chat.Store.Queries.{mention_limit, is_mention, get_messages_mentioning_user}
use mv_chat.Store.Visible.{
  PageSize, page_size-PageSize, mention_limit-PageSize, Visible, is_visible-Visible,
  Visible-is_visible, Mentioned, is_mention-Mentioned, Mentioned-is_mention,
}

-- Rows of the table that are as `P` says, by descending keys, no more than the limit has room for.
abbrev pub IsPage : (Message → ℕ) → ℤ → (Message → Type 0) → List Message → List Message → Type 0
IsPage key limit P rows ms =
    ((room : ℕ) × PageSize limit room × (length ms ≤ room))
    × Descending key ms
    × All (λ m. In m rows) ms
    × All P ms

-- The message is on the page, or the page has all the entries it has room for, none with a lower key.
abbrev pub IsTold : (Message → ℕ) → ℤ → Message → List Message → Type 0
IsTold key limit m ms =
    In m ms ⊎ ((room : ℕ) × PageSize limit room × (length ms ≡ room) × All (λ k. key m ≤ key k) ms)

module _ (conv user : ℕ) (before limit : ℤ) (clear_seq : ℕ) (db : Database) where
  pub get_messages_sound :
      All
        (λ m. is_visible conv user before clear_seq db m ≡ true)
        (get_messages conv user before limit clear_seq db)
  unfolding get_messages
  get_messages_sound = page_sound _ (page_size limit) _ db.messages

-- A page of messages holds rows of the table, in descending order of the sequence numbers, at most
-- as many as the limit that is asked for, or 50 where that is not from 1 to 100. Each is of the
-- conversation, later than the user's clear point, before the bound if that is positive, not deleted
-- for the user by a row of the deletions, and no read of it by the user is marked as expired.
pub get_messages-IsPage :
    (conv user : ℕ) (before limit : ℤ) (clear_seq : ℕ) (db : Database)
    → IsPage
        (λ m. m.seq)
        limit
        (Visible conv user before clear_seq db)
        db.messages
        (get_messages conv user before limit clear_seq db)
unfolding get_messages
get_messages-IsPage conv user before limit clear_seq db =
    let size = page_size limit in
    (
      (size, page_size-PageSize limit, length-page_le _ size _ db.messages),
      page-Descending _ size _ db.messages,
      page-In _ size _ db.messages,
      All-map (λ m. is_visible-Visible conv user before clear_seq db m) _
          (get_messages_sound conv user before limit clear_seq db),
    )

-- A row of the table that a page is to show (of the conversation, past the clear point, before the
-- bound, neither deleted for the user nor expired) is on the page, unless the page has as many entries
-- as the limit allows, which is what was asked for or else 50, and none with a lower number.
pub get_messages_complete :
    (conv user : ℕ) (before limit : ℤ) (clear_seq : ℕ) (db : Database) (m : Message)
    → In m db.messages
    → Visible conv user before clear_seq db m
    → IsTold (λ k. k.seq) limit m (get_messages conv user before limit clear_seq db)
unfolding get_messages
get_messages_complete conv user before limit clear_seq db m i v =
    elim (page_complete (λ (k : Message). k.seq) (page_size limit)
      (is_visible conv user before clear_seq db) db.messages m i
      (Visible-is_visible conv user before clear_seq db m v)) [
        | inl on ↦ inl on
        | inr (full, below) ↦ inr (page_size limit, page_size-PageSize limit, full, below)
      ]

-- The messages that mention a user are rows of the table, latest first, at most as many as the limit
-- that is asked for, or 50 where that is not from 1 to 100. For each there is a membership of the user
-- in its conversation that has not ended, its head holds a mention of the user's id, and it is not
-- marked as deleted.
pub get_messages_mentioning_user-IsPage :
    (user : ℕ) (text : Text) (limit : ℤ) (db : Database)
    → IsPage
        (λ m. m.created_at)
        limit
        (Mentioned user text db)
        db.messages
        (get_messages_mentioning_user user text limit db)
unfolding get_messages_mentioning_user
get_messages_mentioning_user-IsPage user text limit db =
    let size = mention_limit limit in
    (
      (size, mention_limit-PageSize limit, length-page_le _ size _ db.messages),
      page-Descending _ size _ db.messages,
      page-In _ size _ db.messages,
      All-map (λ m. is_mention-Mentioned user text db m) _ (page_sound _ size _ db.messages),
    )

-- A row of the table that mentions the user in its head, is not marked as deleted, and is of a
-- conversation of which the user has a membership that has not ended is told, unless as many are told
-- as the limit allows, which is what was asked for or else 50, and none was created earlier.
pub get_messages_mentioning_user_complete :
    (user : ℕ) (text : Text) (limit : ℤ) (db : Database) (m : Message)
    → In m db.messages
    → Mentioned user text db m
    → IsTold (λ k. k.created_at) limit m (get_messages_mentioning_user user text limit db)
unfolding get_messages_mentioning_user
get_messages_mentioning_user_complete user text limit db m i v =
    elim (page_complete (λ (k : Message). k.created_at) (mention_limit limit)
      (is_mention user text db) db.messages m i (Mentioned-is_mention user text db m v)) [
        | inl on ↦ inl on
        | inr (full, below) ↦ inr (mention_limit limit, mention_limit-PageSize limit, full, below)
      ]
