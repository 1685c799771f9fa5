-- ===== src/Store/Toggles.antt =====
-- `AddReaction` of store/messages.go seen as a set of users for each emoji.
use mv_chat.Prelude.{
  ℕ, ◌≡◌, refl, subst, ◌∙◌, inl, inr, List, [], ◌∷◌, ◌++◌, some, Bool, true, false, not, ◌&&◌, Text,
  arith, ◌==◌, text_eq, text_eq_refl, text_eq_sound, entry, erase, assign, entry-erase,
  entry-erase_other, is_empty, if◌then◌else◌, Bool-cases, select, find?, any, pos, find?-sound,
  find?-update_where,
}
use mv_chat.Store.Types.{Database, Message}
use mv_chat.Store.Messages.{is_message, update_message, get_message_by_seq, head_of}
use mv_chat.Store.Reactions.{Reactions, toggle_user, toggle, add_reaction}

-- The user stands under the emoji.
abbrev pub reacted : ℕ → Text → Reactions → Bool
reacted user e rs = any (λ u. u == user) (entry e rs)

any-append :
    (p : ℕ → Bool) (us : List ℕ) (v : ℕ) → any p (us ++ v ∷ []) ≡ (if p v then true else any p us)
unfolding any
any-append p [] v = ground arith
any-append p (u ∷ us) v = ground (arith, any-append p us v)

any-others :
    (v u : ℕ) (us : List ℕ)
    → any (λ w. w == v) (select (λ w. not (w == u)) us)
      ≡ (if v == u then false else any (λ w. w == v) us)
unfolding any select
any-others v u [] = ground arith
any-others v u (w ∷ us) = ground (arith, any-others v u us)

any-toggle_user :
    (v u : ℕ) (us : List ℕ)
    → any (λ w. w == v) (toggle_user u us)
      ≡ (if v == u then not (any (λ w. w == u) us) else any (λ w. w == v) us)
unfolding toggle_user
any-toggle_user v u us =
    let others = any-others v u us in
    let longer = any-append (λ w. w == v) (select (λ w. not (w == u)) us) u in ground arith

entry-stored :
    (e : Text) (us : List ℕ) (rs : Reactions)
    → entry e (if is_empty us then erase e rs else assign e us rs) ≡ us
unfolding assign entry
entry-stored e [] rs = entry-erase e rs
entry-stored e (u ∷ us) rs = rw (text_eq_refl e) refl

entry-toggle :
    (e : Text) (u : ℕ) (rs : Reactions) → entry e (toggle e u rs) ≡ toggle_user u (entry e rs)
unfolding toggle
entry-toggle e u rs = entry-stored e (toggle_user u (entry e rs)) rs

entry-toggle_other :
    (f e : Text) (u : ℕ) (rs : Reactions)
    → text_eq e f ≡ false
    → entry f (toggle e u rs) ≡ entry f rs
unfolding toggle assign entry
entry-toggle_other f e u rs h = let other = entry-erase_other f e rs h in ground arith

-- A reaction is taken back where it stood and added where it did not, and no other reaction changes.
pub reacted-toggle :
    (e : Text) (u : ℕ) (rs : Reactions) (f : Text) (v : ℕ)
    → reacted v f (toggle e u rs)
      ≡ (if text_eq e f && v == u then not (reacted u e rs) else reacted v f rs)
reacted-toggle e u rs f v = elim (Bool-cases (text_eq e f)) [
  | inl t ↦
      subst
        (λ g.
          reacted v g (toggle e u rs)
          ≡ (if text_eq e g && v == u then not (reacted u e rs) else reacted v g rs))
        (text_eq_sound e f t)
        (rw (entry-toggle e u rs, text_eq_refl e) (any-toggle_user v u (entry e rs)))
  | inr t ↦ rw (entry-toggle_other f e u rs t, t) refl
]

-- A reaction to a message that is there succeeds, and the message then has the same reactions, but that
-- the user's reaction with this emoji is taken back where it stood and added where it did not.
pub add_reaction-toggles :
    (now conv seq u : ℕ) (e : Text) (db : Database) (m : Message)
    → get_message_by_seq conv (pos seq) db ≡ some m
    → (db' : Database) × (m' : Message) × (add_reaction now conv seq u e db ≡ some db')
      × (get_message_by_seq conv (pos seq) db' ≡ some m')
      × ((f : Text) (v : ℕ)
          → reacted v f (head_of m').reactions ≡ (
              if text_eq e f && v == u
              then not (reacted u e (head_of m).reactions)
              else reacted v f (head_of m).reactions))
unfolding add_reaction get_message_by_seq
add_reaction-toggles now conv seq u e db m found =
    let head = (let h = head_of m in record h { reactions = toggle e u h.reactions }) in
    let g : Message → Message = (λ n. record n { head = some head; updated_at = now }) in
    let row : find? (is_message conv seq) db.messages ≡ some m = found in
    (
      update_message conv seq g db,
      g m,
      rw (row, add_reaction) refl,
      find?-update_where _ _ g db.messages (λ k. refl)
          ∙ rw row (rw (find?-sound (is_message conv seq) db.messages m row) refl),
      reacted-toggle e u (head_of m).reactions,
    )
