-- ===== src/Hub.antt =====
-- hub.go: which sessions are connected, whose they are, who is online, and who gets a message.
-- A Go map is a function, an absent key reading the zero value, so that the sizes of the maps
-- (`SessionCount`, `OnlineCount`) are not seen. The mutex makes each operation one step. A session is
-- its id, and `user_of` is the field `userID` of the session objects.
use mv_chat.Prelude.{
  ℕ, List, [], ◌∷◌, ◌++◌, Option, none, some, Bool, true, false, not, ◌&&◌, Text, ◌==◌, text_eq,
  is_empty, if◌then◌else◌, select,
}
use mv_chat.Store.Types.{uuid_nil}
pub mod Online
pub mod Delivery
mod Tests

pub record Hub : Type 0 where
  pub sessions : Text → Bool
  pub user_sessions : ℕ → List Text
  pub online : ℕ → Bool
  pub user_of : Text → ℕ

-- What the presence manager is told.
pub data Notice : Type 0 where
  user_online user_offline : ℕ → Notice

abbrev pub set_at : {A : Type 0} → ℕ → A → (ℕ → A) → ℕ → A
set_at u a f k = if k == u then a else f k

abbrev pub set_at_text : {A : Type 0} → Text → A → (Text → A) → Text → A
set_at_text x a f y = if text_eq y x then a else f y

-- The loop that cuts the first entry of the session out of the slice.
unfoldable pub drop_first : Text → List Text → List Text
drop_first x [] = []
drop_first x (y ∷ ys) = if text_eq y x then ys else y ∷ drop_first x ys

unfoldable pub new_hub : (Text → ℕ) → Hub
new_hub users = record {
  sessions = λ x. false;
  user_sessions = λ u. [];
  online = λ u. false;
  user_of = users;
}

-- Another session of a user that has logged in.
abbrev pub attach : Text → ℕ → Hub → Hub
attach x user h = record h {
  user_sessions = set_at user (h.user_sessions user ++ x ∷ []) h.user_sessions;
  online = set_at user true h.online;
}

-- One session of a user less; without another the user is offline.
abbrev pub detach : Text → ℕ → Hub → Hub
detach x user h =
    let left = drop_first x (h.user_sessions user) in
    record h {
      user_sessions = set_at user left h.user_sessions;
      online = if is_empty left then set_at user false h.online else h.online;
    }

unfoldable pub add_session : Text → Hub → Hub
add_session x h =
    let k = record h { sessions = set_at_text x true h.sessions } in
    if h.user_of x == uuid_nil then k else attach x (h.user_of x) k

unfoldable pub remove_session : Text → Hub → List Notice × Hub
remove_session x h =
    let k = record h { sessions = set_at_text x false h.sessions } in
    let user = h.user_of x in
    if user == uuid_nil then ([], k) else (
      if is_empty (drop_first x (h.user_sessions user)) then user_offline user ∷ [] else [],
      detach x user k,
    )

unfoldable pub close_all_sessions : Hub → Hub
close_all_sessions h = record h {
  sessions = λ x. false;
  user_sessions = λ u. [];
  online = λ u. false;
}

unfoldable pub authenticate_session : Text → ℕ → Hub → List Notice × Hub
authenticate_session x user h =
    let old = h.user_of x in
    let k = if not (old == uuid_nil) && not (old == user) then detach x old h else h in
    let l = record k { user_of = set_at_text x user k.user_of } in
    (if h.online user then [] else user_online user ∷ [], attach x user l)

unfoldable pub is_online : ℕ → Hub → Bool
is_online u h = h.online u

unfoldable pub get_user_sessions : ℕ → Hub → List Text
get_user_sessions u h = h.user_sessions u

-- The local sessions that the message goes to.
unfoldable pub send_to_users : List ℕ → Text → Hub → List Text
send_to_users [] skip h = []
send_to_users (u ∷ us) skip h =
    select (λ x. not (text_eq x skip)) (h.user_sessions u) ++ send_to_users us skip h

-- The users that the message is published for, where Redis says who is online on any node.
unfoldable pub publish_to_users : List ℕ → (ℕ → Option Bool) → Hub → List ℕ
publish_to_users [] redis h = []
publish_to_users (u ∷ us) redis h =
    let rest = publish_to_users us redis h in
    if is_empty (h.user_sessions u)
    then elim (redis u) [ none ↦ rest | some there ↦ if there then u ∷ rest else rest ]
    else rest
