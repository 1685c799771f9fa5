-- ===== src/Hub/Tests.antt =====
-- Two sessions of a hub (hub.go).
use mv_chat.Prelude.{◌≡◌, refl, List, [], ◌∷◌, true, not, ◌&&◌, Text, text_eq, is_empty}
use mv_chat.Hub.{
  Hub, new_hub, add_session, remove_session, authenticate_session, drop_first, is_online,
  get_user_sessions, send_to_users,
}
use mv_chat.Hub.Online.{Event, connected, disconnected, logged_in, run, run-is_online}
use mv_chat.Hub.Delivery.{lists, has_session, send_to_users_exact}

abbrev phone : Text
phone = 1 ∷ []

abbrev laptop : Text
laptop = 2 ∷ []

abbrev empty_hub : Hub
empty_hub = new_hub (λ x. 0)

abbrev events : List Event
events =
    connected phone
    ∷ connected laptop
    ∷ logged_in phone 7
    ∷ logged_in laptop 7
    ∷ disconnected phone
    ∷ []

-- A session that logs in twice as the same user is listed twice, and its user stays online without it.
twice_test :
    is_online 7 (
      run
        (connected phone ∷ logged_in phone 7 ∷ logged_in phone 7 ∷ disconnected phone ∷ [])
        empty_hub)
    ≡ true
unfolding is_online run new_hub add_session authenticate_session remove_session drop_first
twice_test = refl

run-is_online_example :
    is_online 7 (run events empty_hub) ≡ not (is_empty (get_user_sessions 7 (run events empty_hub)))
run-is_online_example = run-is_online events (λ x. 0) 7

send_to_users_exact_example :
    lists laptop (send_to_users (7 ∷ []) phone (run events empty_hub))
    ≡ (not (text_eq laptop phone) && has_session laptop (7 ∷ []) (run events empty_hub))
send_to_users_exact_example = send_to_users_exact (7 ∷ []) phone (run events empty_hub) laptop
