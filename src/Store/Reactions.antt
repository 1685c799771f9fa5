-- ===== src/Store/Reactions.antt =====
-- `AddReaction` of store/messages.go: the users of an emoji are toggled in the message's head.
use mv_chat.Prelude.{
  ℕ, List, [], ◌∷◌, ◌++◌, Option, none, some, not, Text, ◌==◌, Slices, entry, erase, assign,
  is_empty, if◌then◌else◌, select, find?, any,
}
use mv_chat.Store.Types.{Database}
use mv_chat.Store.Messages.{is_message, update_message, head_of}

abbrev pub Reactions : Type 0
Reactions = Slices

-- The loop over the users, and the append when the user was not found.
unfoldable pub toggle_user : ℕ → List ℕ → List ℕ
toggle_user user us =
    let others = select (λ u. not (u == user)) us in
    if any (λ u. u == user) us then others else others ++ user ∷ []

unfoldable pub toggle : Text → ℕ → Reactions → Reactions
toggle e user rs =
    let us = toggle_user user (entry e rs) in if is_empty us then erase e rs else assign e us rs

-- A message that is not there is an error.
unfoldable pub add_reaction : ℕ → ℕ → ℕ → ℕ → Text → Database → Option Database
add_reaction now conv seq user e db = elim (find? (is_message conv seq) db.messages) [
  | none ↦ none
  | some m ↦
      let h = head_of m in
      some (
        update_message conv seq
          (λ n. record n {
            head = some (record h { reactions = toggle e user h.reactions });
            updated_at = now;
          })
          db)
]
