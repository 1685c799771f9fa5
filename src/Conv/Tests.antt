-- ===== src/Conv/Tests.antt =====
-- Requests to a small server, and the theorems applied to them.
use mv_chat.Prelude.{any, false, ◌≡◌, ◌⊎◌, refl, none, some, find?, any, update_where, arith}
use mv_chat.Store.Types.{owner, member}
use mv_chat.Store.Conversations.{get_conversation_by_id, get_user_by_id}
use mv_chat.Store.Members.{get_member_role, add_room_member, remove_member}
use mv_chat.Store.Unique.{Unique}
use mv_chat.Store.Numbering.{IsNumbered, last_seq}
use mv_chat.Handler.Monad.{
  ◌>>=◌, require_auth, need, pure, some_or, must, call, now, success, parse_uuid, broadcast,
  send_to_users,
}
use mv_chat.Conv.Room.{
  handle_room, dispatch_room, handle_kick_from_room, handle_invite_to_room, require_role,
}
use mv_chat.Conv.Step.{CanManage}
use mv_chat.Conv.Outcome.{Outcome}
use mv_chat.Conv.Dispatch.{dispatch, serve}
use mv_chat.Conv.Refines.Dispatch.{dispatch-Outcome}
use mv_chat.Conv.Safety.Messages.{Evolves}
use mv_chat.Conv.Safety.Content.{dispatch-Evolves}
use mv_chat.Conv.Safety.Numbering.{serve-IsNumbered}
use mv_chat.Conv.Safety.Roles.{RoleChange, dispatch-RoleChange, dispatch-owner}
use mv_chat.Conv.Safety.Receipts.{IsReceived, serve-IsReceived}
use mv_chat.Conv.Fixture.{env, the_room, db, world, session, id, kick, invite, unsend, arrivals}

-- The admin removes the member.
kick_test : get_member_role 9 3 (dispatch env (session 2) id kick world).1.db ≡ none
unfolding get_member_role remove_member update_where find? dispatch handle_room ◌>>=◌ require_auth
    need pure some_or dispatch_room handle_kick_from_room parse_uuid require_role must call now
    success broadcast send_to_users
kick_test = refl

-- An admin who invites the owner makes the owner a plain member.
invite_test : get_member_role 9 1 (dispatch env (session 2) id invite world).1.db ≡ some member
unfolding get_member_role add_room_member update_where find? any get_user_by_id dispatch handle_room
    ◌>>=◌ require_auth need pure some_or dispatch_room handle_invite_to_room parse_uuid require_role
    must call now success broadcast send_to_users
invite_test = refl

dispatch-Outcome_example : Outcome false 2 world (dispatch env (session 2) id kick world).1
dispatch-Outcome_example = dispatch-Outcome env (session 2) id kick world

db-Unique : Unique db.messages
db-Unique = ((refl, tt), (tt, tt))

db-IsNumbered : IsNumbered db
unfolding last_seq get_conversation_by_id find?
db-IsNumbered = record { unique = db-Unique; bounded = (omega arith, (omega arith, tt)) }

room_found : get_conversation_by_id 9 db ≡ some the_room
unfolding get_conversation_by_id find?
room_found = refl

dispatch-RoleChange_example :
    RoleChange 2 9 3 db (get_member_role 9 3 (dispatch env (session 2) id kick world).1.db)
dispatch-RoleChange_example =
    dispatch-RoleChange env (session 2) id kick world 9 3 the_room room_found

owner_is : get_member_role 9 1 db ≡ some owner
unfolding get_member_role find?
owner_is = refl

dispatch-owner_example :
    (get_member_role 9 1 (dispatch env (session 2) id invite world).1.db ≡ some owner)
    ⊎ (CanManage 2 9 db
        × (get_member_role 9 1 (dispatch env (session 2) id invite world).1.db ≡ some member))
dispatch-owner_example =
    dispatch-owner env (session 2) id invite world 9 1 the_room room_found owner_is

dispatch-Evolves_example :
    Evolves 3 db.messages (dispatch env (session 3) id unsend world).1.db.messages
dispatch-Evolves_example = dispatch-Evolves env (session 3) id unsend world db-Unique

serve-IsNumbered_example : IsNumbered (serve env arrivals world).db
serve-IsNumbered_example = serve-IsNumbered env arrivals world db-IsNumbered

db-IsReceived : IsReceived db
db-IsReceived = (omega arith, (omega arith, (omega arith, tt)))

serve-IsReceived_example : IsReceived (serve env arrivals world).db
serve-IsReceived_example = serve-IsReceived env arrivals world db-IsReceived
