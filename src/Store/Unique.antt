-- ===== src/Store/Unique.antt =====
-- UNIQUE(conversation_id, seq), and what it says of the rows that a search finds.
use mv_chat.Prelude.{
  ℕ, ◌≡◌, refl, inl, inr, List, [], ◌∷◌, some, Bool, true, false, ◌||◌, arith, ◌==◌, if◌then◌else◌,
  Bool-cases, All, All-map, find?, any, update_where,
}
use mv_chat.Store.Types.{Message}
use mv_chat.Store.Messages.{is_message}

-- No later row has the conversation and number of an earlier one.
abbrev pub Unique : List Message → Type 0
Unique [] = Unit
Unique (m ∷ ms) = All (λ n. is_message m.conversation_id m.seq n ≡ false) ms × Unique ms

abbrev pub SamePlace : Message → Message → Type 0
SamePlace m n = (n.conversation_id ≡ m.conversation_id) × (n.seq ≡ m.seq)

is_message-cong :
    (m m' n n' : Message)
    → SamePlace m m'
    → SamePlace n n'
    → is_message m.conversation_id m.seq n ≡ false
    → is_message m'.conversation_id m'.seq n' ≡ false
is_message-cong m m' n n' p q h = ground arith

module _ (p : Message → Bool) (f : Message → Message)
    (keeps : (m : Message) → SamePlace m (f m)) where
  place-if : (m : Message) → SamePlace m (if p m then f m else m)
  place-if m = elim (Bool-cases (p m)) [ inl e ↦ rw e (keeps m) | inr e ↦ rw e (refl, refl) ]

  apart-update :
      (m m' : Message) (ms : List Message)
      → SamePlace m m'
      → All (λ n. is_message m.conversation_id m.seq n ≡ false) ms
      → All (λ n. is_message m'.conversation_id m'.seq n ≡ false) (update_where p f ms)
  unfolding update_where
  apart-update m m' [] q h = tt
  apart-update m m' (n ∷ ms) q h = (
    is_message-cong m m' n (if p n then f n else n) q (place-if n) h.0,
    apart-update m m' ms q h.1,
  )

  -- An update that leaves a row in its place keeps the constraint.
  pub Unique-update : (ms : List Message) → Unique ms → Unique (update_where p f ms)
  unfolding update_where
  Unique-update [] h = tt
  Unique-update (m ∷ ms) h =
      (apart-update m (if p m then f m else m) ms (place-if m) h.0, Unique-update ms h.1)

any-All : {A : Type 0} (p : A → Bool) (xs : List A) → any p xs ≡ false → All (λ x. p x ≡ false) xs
unfolding any
any-All p [] h = tt
any-All p (x ∷ xs) h = (ground arith, any-All p xs (ground arith))

-- A row that passes the check of an insertion keeps the constraint.
pub Unique-insert :
    (m : Message) (ms : List Message)
    → any (λ n. n.id == m.id || is_message m.conversation_id m.seq n) ms ≡ false
    → Unique ms
    → Unique (m ∷ ms)
Unique-insert m ms h u = (
  All-map {P = λ n. (n.id == m.id || is_message m.conversation_id m.seq n) ≡ false}
      (λ n e. ground arith) ms (any-All _ ms h),
  u,
)

-- All rows at the place of the row found are that row.
pub Unique-found :
    (conv seq : ℕ) (ms : List Message) (m : Message)
    → Unique ms
    → find? (is_message conv seq) ms ≡ some m
    → All (λ n. is_message conv seq n ≡ true → n ≡ m) ms
unfolding find?
Unique-found conv seq [] m u h = tt
Unique-found conv seq (x ∷ ms) m u h = elim (Bool-cases (is_message conv seq x)) [
  | inl hit ↦ (
    (λ _. ground arith),
    All-map {P = λ n. is_message x.conversation_id x.seq n ≡ false}
        (λ n apart at. absurd (ground arith)) ms u.0,
  )
  | inr miss ↦ ((λ e. absurd (ground arith)), Unique-found conv seq ms m u.1 (ground arith))
]
