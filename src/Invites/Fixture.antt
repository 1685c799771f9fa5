-- ===== src/Invites/Fixture.antt =====
-- An invite code for the examples, with a server that holds it.
use mv_chat.Prelude.{◌*◌, [], ◌∷◌, ◌++◌, none, false, codes}
use mv_chat.Store.Types.{InviteCode, pending, second}
use mv_chat.Crypto.InviteToken.{signature}
use mv_chat.Crypto.Fixture.{plain, generator, signed_payload}
use mv_chat.Handler.World.{World}
use mv_chat.Conv.Fixture.{world, db}
use mv_chat.Invites.{InviteEnv}

abbrev pub invite_env : InviteEnv
invite_env = record { is_sql = false; tokens = generator; storage = plain }

abbrev pub an_invite : InviteCode
an_invite = record {
  id = 70;
  inviter_id = 1;
  code = codes "abc";
  token = 7 ∷ 1 ∷ 2 ∷ 9 ∷ 7 ∷ (signed_payload ++ signature generator signed_payload);
  email = codes "b";
  invitee_name = none;
  status = pending;
  used_at = none;
  used_by = none;
  created_at = 0;
  expires_at = 90 * second;
}

abbrev pub open_world : World
open_world = record world { db = record db { invite_codes = an_invite ∷ [] } }
