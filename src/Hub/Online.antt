-- ===== src/Hub/Online.antt =====
-- The online set of hub.go against the sessions of each user, in histories of the hub.
use mv_chat.Prelude.{
  ℕ, ◌≡◌, refl, ap, inl, inr, List, [], ◌∷◌, ◌++◌, true, false, not, ◌&&◌, Text, arith, ◌==◌,
  ==_iff, is_empty, Bool-cases,
}
use mv_chat.Store.Types.{uuid_nil}
use mv_chat.Hub.{
  Hub, drop_first, new_hub, attach, detach, add_session, remove_session, close_all_sessions,
  authenticate_session, is_online, get_user_sessions,
}

pub data Event : Type 0 where
  connected disconnected : Text → Event
  logged_in : Text → ℕ → Event
  shut_down : Event

abbrev pub after : Event → Hub → Hub
after (connected x) h = add_session x h
after (disconnected x) h = (remove_session x h).1
after (logged_in x u) h = (authenticate_session x u h).1
after shut_down h = close_all_sessions h

unfoldable pub run : List Event → Hub → Hub
run [] h = h
run (e ∷ es) h = run es (after e h)

abbrev pub IsConsistent : Hub → Type 0
IsConsistent h = (u : ℕ) → h.online u ≡ not (is_empty (h.user_sessions u))

append-is_empty : (xs : List Text) (x : Text) → is_empty (xs ++ x ∷ []) ≡ false
append-is_empty [] x = refl
append-is_empty (y ∷ ys) x = refl

attach-IsConsistent :
    (x : Text) (user : ℕ) (h : Hub) → IsConsistent h → IsConsistent (attach x user h)
attach-IsConsistent x user h c u =
    let longer = append-is_empty (h.user_sessions user) x in let before = c u in ground arith

drop_first-is_empty :
    (x : Text) (xs : List Text) → is_empty xs ≡ true → is_empty (drop_first x xs) ≡ true
unfolding drop_first
drop_first-is_empty x [] h = refl
drop_first-is_empty x (y ∷ ys) h = cc

detach-IsConsistent :
    (x : Text) (user : ℕ) (h : Hub) → IsConsistent h → IsConsistent (detach x user h)
detach-IsConsistent x user h c u = elim (Bool-cases (u == user)) [
  | inl same ↦
      let at : u ≡ user = (==_iff u user).0 same in
      let nothing = drop_first-is_empty x (h.user_sessions user) in
      let before = c u in let moved = ap h.user_sessions at in ground arith
  | inr other ↦ let before = c u in ground arith
]

after-IsConsistent : (e : Event) (h : Hub) → IsConsistent h → IsConsistent (after e h)
unfolding add_session remove_session authenticate_session close_all_sessions
after-IsConsistent (connected x) h c = elim (Bool-cases (h.user_of x == uuid_nil)) [
  | inl nobody ↦ rw nobody c
  | inr someone ↦ rw someone (attach-IsConsistent x (h.user_of x) h c)
]
after-IsConsistent (disconnected x) h c = elim (Bool-cases (h.user_of x == uuid_nil)) [
  | inl nobody ↦ rw (nobody, after) c
  | inr someone ↦ rw (someone, after) (detach-IsConsistent x (h.user_of x) h c)
]
after-IsConsistent (logged_in x user) h c =
    elim (Bool-cases (not (h.user_of x == uuid_nil) && not (h.user_of x == user))) [
      | inl moves ↦ rw moves (
          attach-IsConsistent x user (detach x (h.user_of x) h)
            (detach-IsConsistent x (h.user_of x) h c))
      | inr stays ↦ rw stays (attach-IsConsistent x user h c)
    ]
after-IsConsistent shut_down h c = λ u. refl

run-IsConsistent : (es : List Event) (h : Hub) → IsConsistent h → IsConsistent (run es h)
unfolding run
run-IsConsistent [] h c = c
run-IsConsistent (e ∷ es) h c = run-IsConsistent es (after e h) (after-IsConsistent e h c)

-- Whatever sessions connect, log in, disconnect or are closed, in whatever order: a user is online
-- exactly if the hub lists a session of the user.
pub run-is_online :
    (es : List Event) (users : Text → ℕ) (u : ℕ)
    → is_online u (run es (new_hub users))
      ≡ not (is_empty (get_user_sessions u (run es (new_hub users))))
unfolding is_online get_user_sessions new_hub
run-is_online es users u = run-IsConsistent es (new_hub users) (λ k. refl) u
