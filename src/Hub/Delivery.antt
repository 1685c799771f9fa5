-- ===== src/Hub/Delivery.antt =====
-- `SendToUsers` of hub.go: whom a message reaches.
use mv_chat.Prelude.{
  ℕ, ◌≡◌, refl, subst, ◌∙◌, inl, inr, List, [], ◌∷◌, ◌++◌, Bool, not, ◌&&◌, ◌||◌, Text, arith,
  text_eq, text_eq_refl, text_eq_sound, Bool-cases, select, any,
}
use mv_chat.Hub.{Hub, send_to_users}

any-split : (p : Text → Bool) (xs ys : List Text) → any p (xs ++ ys) ≡ (any p xs || any p ys)
unfolding any
any-split p [] ys = refl
any-split p (x ∷ xs) ys = ground (arith, any-split p xs ys)

-- The session is in the list.
abbrev pub lists : Text → List Text → Bool
lists x xs = any (λ y. text_eq y x) xs

lists-others :
    (x skip : Text) (xs : List Text)
    → lists x (select (λ y. not (text_eq y skip)) xs) ≡ (not (text_eq x skip) && lists x xs)
unfolding any select
lists-others x skip [] = ground arith
lists-others x skip (y ∷ ys) = elim (Bool-cases (text_eq y x)) [
  | inl same ↦
      subst
        (λ z.
          lists z (select (λ y. not (text_eq y skip)) (y ∷ ys))
          ≡ (not (text_eq z skip) && lists z (y ∷ ys)))
        (text_eq_sound y x same) (self (lists-others y skip ys))
  | inr other ↦ ground (arith, lists-others x skip ys)
]
  where
    self :
        lists y (select (λ z. not (text_eq z skip)) ys) ≡ (not (text_eq y skip) && lists y ys)
        → lists y (select (λ z. not (text_eq z skip)) (y ∷ ys))
          ≡ (not (text_eq y skip) && lists y (y ∷ ys))
    self rest = let me = text_eq_refl y in ground arith

-- Some user of the list has the session.
abbrev pub has_session : Text → List ℕ → Hub → Bool
has_session x us h = any (λ u. lists x (h.user_sessions u)) us

-- A message to users reaches exactly the sessions that the hub lists for one of the users, but not the
-- session to be skipped.
pub send_to_users_exact :
    (us : List ℕ) (skip : Text) (h : Hub) (x : Text)
    → lists x (send_to_users us skip h) ≡ (not (text_eq x skip) && has_session x us h)
unfolding send_to_users any
send_to_users_exact [] skip h x = ground arith
send_to_users_exact (u ∷ us) skip h x =
    let here = lists-others x skip (h.user_sessions u) in
    let there = send_to_users_exact us skip h x in
    any-split (λ y. text_eq y x) (select (λ y. not (text_eq y skip)) (h.user_sessions u))
      (send_to_users us skip h)
    ∙ ground arith
