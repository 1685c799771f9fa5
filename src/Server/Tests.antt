-- ===== src/Server/Tests.antt =====
-- Examples of the server's histories.
use mv_chat.Prelude.{◌≡◌, refl, List, [], ◌∷◌, some, false, codes, any}
use mv_chat.Store.Contacts.{is_contact}
use mv_chat.Store.Symmetry.{IsSymmetric}
use mv_chat.Conv.Fixture.{env, session, id, befriend}
use mv_chat.Conv.Safety.Auth.{turned_away}
use mv_chat.Invites.Fixture.{invite_env, open_world}
use mv_chat.Server.{ClientMessage, Event, message, joined, handle_message, serve_all}
use mv_chat.Server.Auth.{handle_message-unauthenticated}
use mv_chat.Server.Contacts.{serve_all-IsSymmetric}

abbrev redeem : ClientMessage
redeem = ClientMessage.invite (some (record { list = false; revoke = []; redeem = codes "abc" }))

-- The owner adds the member, who redeems a code of the owner; then an account is made with the code.
abbrev events : List Event
events =
    message (session 1) id 0 (ClientMessage.conversation befriend)
    ∷ message (session 3) id 60 redeem
    ∷ joined 4 61 (codes "abc") (codes "b")
    ∷ []

open_world-IsSymmetric : IsSymmetric open_world.db
unfolding is_contact any
open_world-IsSymmetric a b = refl

serve_all-IsSymmetric_example : IsSymmetric (serve_all env invite_env events open_world).db
serve_all-IsSymmetric_example =
    serve_all-IsSymmetric env invite_env events open_world open_world-IsSymmetric

handle_message-unauthenticated_example :
    (handle_message env invite_env (session 0) id redeem open_world).1 ≡ turned_away id open_world
handle_message-unauthenticated_example =
    handle_message-unauthenticated env invite_env (session 0) id redeem open_world refl
