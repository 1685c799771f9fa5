-- ===== src/Store/Visible.antt =====
-- What the pages of store/messages.go are to hold, said of the rows of the tables and not by the tests
-- of the queries.
use mv_chat.Prelude.{
  ℕ, ◌≡◌, ◌≤◌, ◌<◌, refl, sym, subst, ◌↔◌, inl, inr, Option, none, some, Bool, true, false, not,
  ◌&&◌, Text, ltb, ◌==◌, ==_iff, &&-true, ltb→lt, text_eq, text_eq_sound, text_eq_refl, leb, leb→le,
  ℤ, pos, negsuc, zero, suc, arith, is_some, Bool-cases, any, In, any-In, In-any,
}
use mv_chat.Store.Types.{Database, Message, Member, MessageDeletion, MessageRead, Mention, Head}
use mv_chat.Store.Messages.{below, is_deleted_for, is_expired_for, is_visible, page_size}
use mv_chat.Store.Queries.{mentions_user, is_present, is_mention, mention_limit}

-- How many entries a page has room for, by the limit that is asked for: that many from 1 to 100, and
-- otherwise 50.
pub data PageSize : ℤ → ℕ → Type 0 where
  asked : (n : ℕ) → 1 ≤ n → n ≤ 100 → PageSize (pos n) n
  no_limit : PageSize (pos 0) 50
  too_many : (n : ℕ) → 100 < n → PageSize (pos n) 50
  negative : (n : ℕ) → PageSize (negsuc n) 50

-- `before` is no bound unless it is positive.
abbrev pub IsBefore : ℤ → ℕ → Type 0
IsBefore (pos zero) seq = Unit
IsBefore (pos (suc n)) seq = seq < suc n
IsBefore (negsuc n) seq = Unit

-- A message that a page of a conversation is to show to a user.
pub record Visible (conv user : ℕ) (before : ℤ) (clear_seq : ℕ) (db : Database) (m : Message)
    : Type 0 where
  pub of_conversation : m.conversation_id ≡ conv
  pub after_clear : clear_seq < m.seq
  pub is_before : IsBefore before m.seq
  pub not_deleted :
      (d : MessageDeletion) → In d db.message_deletions → d.message_id ≡ m.id → ¬ (d.user_id ≡ user)
  pub not_expired :
      (r : MessageRead)
      → In r db.message_reads
      → r.message_id ≡ m.id
      → r.user_id ≡ user
      → r.expired ≡ false

-- A message that mentions the user of this id, whose text is given, in a conversation that the user is
-- in and has not left.
pub record Mentioned (user : ℕ) (text : Text) (db : Database) (m : Message) : Type 0 where
  pub membership : Member
  pub is_row : In membership db.members
  pub of_conversation : membership.conversation_id ≡ m.conversation_id
  pub of_user : membership.user_id ≡ user
  pub not_left : membership.deleted_at ≡ none
  pub head : Head
  pub has_head : m.head ≡ some head
  pub mention : Mention
  pub in_head : In mention head.mentions
  pub names_user : mention.user_id ≡ text
  pub not_deleted : m.deleted_at ≡ none

pub page_size-PageSize : (limit : ℤ) → PageSize limit (page_size limit)
unfolding page_size
page_size-PageSize (pos zero) = no_limit
page_size-PageSize (pos (suc n)) = elim (Bool-cases (leb (suc n) 100)) [
  | inl few ↦ rw few (asked (suc n) (omega arith) (leb→le (suc n) 100 few))
  | inr many ↦ rw many (too_many (suc n) (ground (arith, many)))
]
page_size-PageSize (negsuc n) = negative n

pub mention_limit-PageSize : (limit : ℤ) → PageSize limit (mention_limit limit)
mention_limit-PageSize (pos zero) = no_limit
mention_limit-PageSize (pos (suc n)) =
    let positive : (suc n == 0) ≡ false = ground arith in
    elim (Bool-cases (ltb 100 (suc n))) [
      | inl many ↦ rw (positive, many) (too_many (suc n) (ltb→lt 100 (suc n) many))
      | inr few ↦ rw (positive, few) (asked (suc n) (omega arith) (ground (arith, few)))
    ]
mention_limit-PageSize (negsuc n) = negative n

below_iff : (before : ℤ) (seq : ℕ) → (below before seq ≡ true) ↔ IsBefore before seq
below_iff (pos zero) seq = (λ h. tt, λ h. refl)
below_iff (pos (suc n)) seq = (ltb→lt seq (suc n), λ h. ground arith)
below_iff (negsuc n) seq = (λ h. tt, λ h. refl)

all_five :
    (a b c d e : Bool)
    → (a && b && c && not d && not e) ≡ true
    → (a ≡ true) × (b ≡ true) × (c ≡ true) × (d ≡ false) × (e ≡ false)
all_five a b c d e h = ground arith

module _ (conv user : ℕ) (before : ℤ) (clear_seq : ℕ) (db : Database) (m : Message) where
  pub is_visible-Visible :
      is_visible conv user before clear_seq db m ≡ true → Visible conv user before clear_seq db m
  unfolding is_visible
  is_visible-Visible h =
      let p =
        all_five (m.conversation_id == conv) (ltb clear_seq m.seq) (below before m.seq)
          (is_deleted_for m.id user db) (is_expired_for m.id user db) h in
      record {
        of_conversation = (==_iff m.conversation_id conv).0 p.0;
        after_clear = ltb→lt clear_seq m.seq p.1;
        is_before = (below_iff before m.seq).0 p.2;
        not_deleted = λ d i id u.
            let hit =
              In-any (λ d. d.message_id == m.id && d.user_id == user) d db.message_deletions i
                (ground (arith, id, u)) in
            cc (hit, p.3);
        not_expired = λ r i id u. elim (Bool-cases r.expired) [
          | inr e ↦ e
          | inl e ↦
              let hit =
                In-any (λ r. r.message_id == m.id && r.user_id == user && r.expired) r
                  db.message_reads i (ground (arith, id, u, e)) in
              cc (hit, p.4)
        ];
      }

  pub Visible-is_visible :
      Visible conv user before clear_seq db m → is_visible conv user before clear_seq db m ≡ true
  unfolding is_visible
  Visible-is_visible v =
      let kept : is_deleted_for m.id user db ≡ false =
        elim (Bool-cases (is_deleted_for m.id user db)) [
          | inr e ↦ e
          | inl e ↦
              let (d, i, q) = any-In _ db.message_deletions e in
              let both = &&-true (d.message_id == m.id) (d.user_id == user) q in
              absurd (v.not_deleted d i ((==_iff _ _).0 both.0) ((==_iff _ _).0 both.1))
        ] in
      let unexpired : is_expired_for m.id user db ≡ false =
        elim (Bool-cases (is_expired_for m.id user db)) [
          | inr e ↦ e
          | inl e ↦
              let (r, i, q) = any-In _ db.message_reads e in
              let both = &&-true (r.message_id == m.id && r.user_id == user) r.expired q in
              let ids = &&-true (r.message_id == m.id) (r.user_id == user) both.0 in
              let live = v.not_expired r i ((==_iff _ _).0 ids.0) ((==_iff _ _).0 ids.1) in
              cc (live, both.1)
        ] in
      let here = (==_iff m.conversation_id conv).1 v.of_conversation in
      let bound = (below_iff before m.seq).1 v.is_before in
      let after = v.after_clear in ground (arith, kept, unexpired, here, bound, after)

mentions_user_sound :
    (text : Text) (o : Option Head)
    → mentions_user text o ≡ true
    → (h : Head) × (o ≡ some h) × (k : Mention) × (In k h.mentions) × (k.user_id ≡ text)
mentions_user_sound text none h = cc
mentions_user_sound text (some head) h =
    let (k, i, e) = any-In (λ (k : Mention). text_eq k.user_id text) head.mentions h in
    (head, refl, k, i, text_eq_sound k.user_id text e)

not_set : (o : Option ℕ) → not (is_some o) ≡ true → o ≡ none
not_set none h = refl
not_set (some t) h = cc

module _ (user : ℕ) (text : Text) (db : Database) (m : Message) where
  pub is_mention-Mentioned : is_mention user text db m ≡ true → Mentioned user text db m
  is_mention-Mentioned h =
      let p =
        &&-true (any (is_present m.conversation_id user) db.members)
          (mentions_user text m.head && not (is_some m.deleted_at)) h in
      let q = &&-true (mentions_user text m.head) (not (is_some m.deleted_at)) p.1 in
      let (r, i, e) = any-In (is_present m.conversation_id user) db.members p.0 in
      let row =
        &&-true (r.conversation_id == m.conversation_id)
          (r.user_id == user && not (is_some r.deleted_at)) e in
      let rest = &&-true (r.user_id == user) (not (is_some r.deleted_at)) row.1 in
      let (head, has, k, inside, names) = mentions_user_sound text m.head q.0 in
      record {
        membership = r;
        is_row = i;
        of_conversation = (==_iff r.conversation_id m.conversation_id).0 row.0;
        of_user = (==_iff r.user_id user).0 rest.0;
        not_left = not_set r.deleted_at rest.1;
        head = head;
        has_head = has;
        mention = k;
        in_head = inside;
        names_user = names;
        not_deleted = not_set m.deleted_at q.1;
      }

  pub Mentioned-is_mention : Mentioned user text db m → is_mention user text db m ≡ true
  Mentioned-is_mention v =
      let member : any (is_present m.conversation_id user) db.members ≡ true =
        In-any (is_present m.conversation_id user) v.membership db.members v.is_row (
          let c = v.of_conversation in
          let u = v.of_user in let l = v.not_left in rw l (ground (arith, c, u))) in
      let named : mentions_user text m.head ≡ true = rw (v.has_head) (
        In-any (λ (k : Mention). text_eq k.user_id text) v.mention v.head.mentions v.in_head
          (subst (λ t. text_eq t text ≡ true) (sym v.names_user) (text_eq_refl text))) in
      let live = v.not_deleted in rw (member, named, live) refl
