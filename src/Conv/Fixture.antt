-- ===== src/Conv/Fixture.antt =====
-- A small server for the examples: a room of an owner, an admin and a member, with two messages.
use mv_chat.Prelude.{ℕ, List, [], ◌∷◌, Option, none, some, true, false, Text, pos}
use mv_chat.Store.Types.{
  Database, User, Conversation, Member, Message, Role, owner, admin, member, room, minute,
}
use mv_chat.Handler.World.{Session, Env, World}
use mv_chat.Conv.Requests.{Request}
use mv_chat.Conv.Dispatch.{Arrival}

-- A text of one byte names the user or conversation of that number.
abbrev first_byte : Text → Option ℕ
first_byte [] = none
first_byte (b ∷ bs) = some b

abbrev rest_of : Text → Option Text
rest_of [] = none
rest_of (b ∷ bs) = some bs

abbrev pub env : Env
env = record {
  parse_uuid = first_byte;
  uuid_text = λ u. u ∷ [];
  encrypt = λ t. some (0 ∷ t);
  decrypt = rest_of;
  mentions_of = λ t. none;
  has_hub = true;
  is_online = λ u. false;
}

abbrev pub a_user : ℕ → User
a_user i = record { id = i; is_deleted = false; public = none; last_seen = none }

abbrev pub the_room : Conversation
the_room = record {
  id = 9;
  created_at = 0;
  updated_at = 0;
  kind = room;
  owner_id = some 1;
  public = none;
  last_seq = 2;
  last_msg_at = none;
  disappearing_ttl = none;
  pinned_message_id = none;
  pinned_at = none;
  pinned_by = none;
  no_screenshots = false;
}

abbrev pub a_member : ℕ → Role → Member
a_member u r = record {
  conversation_id = 9;
  user_id = u;
  created_at = 0;
  updated_at = 0;
  role = r;
  read_seq = 0;
  recv_seq = 0;
  clear_seq = 0;
  favorite = false;
  muted = false;
  blocked = false;
  private = none;
  deleted_at = none;
}

abbrev pub a_message : ℕ → ℕ → ℕ → Message
a_message id seq from = record {
  id = id;
  conversation_id = 9;
  seq = seq;
  from_user_id = from;
  created_at = 0;
  updated_at = 0;
  content = 0 ∷ 7 ∷ [];
  head = none;
  deleted_at = none;
  view_once = false;
  view_once_ttl = none;
}

abbrev pub db : Database
db = record {
  users = a_user 1 ∷ a_user 2 ∷ a_user 3 ∷ [];
  conversations = the_room ∷ [];
  dm_participants = [];
  members = a_member 1 owner ∷ a_member 2 admin ∷ a_member 3 member ∷ [];
  messages = a_message 52 2 3 ∷ a_message 51 1 2 ∷ [];
  message_deletions = [];
  message_reads = [];
  contacts = [];
  invite_codes = [];
}

abbrev pub world : World
world = record {
  db = db;
  now = minute;
  calls = 0;
  faults = λ k. false;
  uuids = λ k. 100;
  sent = [];
}

abbrev pub session : ℕ → Session
session u = record { id = u ∷ []; user_id = u }

abbrev pub id : Text
id = 1 ∷ []

abbrev pub kick : Request
kick = Request.room (
    some (record {
      id = 9 ∷ [];
      action = "kick";
      user = 3 ∷ [];
      desc = none;
      disappearing_ttl = none;
      no_screenshots = none;
    }))

abbrev pub invite : Request
invite = Request.room (
    some (record {
      id = 9 ∷ [];
      action = "invite";
      user = 1 ∷ [];
      desc = none;
      disappearing_ttl = none;
      no_screenshots = none;
    }))

abbrev pub unsend : Request
unsend = Request.unsend (some (record { conversation_id = 9 ∷ []; seq = pos 2 }))

abbrev pub send : Request
send = Request.send (
    some (record {
      conversation_id = 9 ∷ [];
      content = some (5 ∷ []);
      reply_to = pos 0;
      view_once = false;
      view_once_ttl = pos 0;
    }))

abbrev pub read : Request
read = Request.read (some (record { conversation_id = 9 ∷ []; seq = pos 2 }))

abbrev pub befriend : Request
befriend = Request.contact (some (record { add = 3 ∷ []; remove = []; user = []; nickname = none }))

abbrev pub arrivals : List Arrival
arrivals =
    (record { session = session 3; id = id; time = minute; request = send })
    ∷ (record { session = session 3; id = id; time = minute; request = unsend })
    ∷ (record { session = session 1; id = id; time = minute; request = read })
    ∷ []
