-- ===== src/Conv/Room.antt =====
-- handlers_conv.go: the room actions.
use Prim.Native.String.{String}
use text.Mathlib.Text.{◌==◌ as str_eq}
use mv_chat.Prelude.{
  ℕ, [], ◌∷◌, Option, none, some, Bool, true, false, not, ◌&&◌, ◌||◌, Text, ℤ, if◌then◌else◌,
}
use mv_chat.Store.Types.{Role, owner, admin, member, Conversation}
use mv_chat.Store.Conversations.{
  get_user_by_id, create_room, update_room_public, update_no_screenshots,
}
use mv_chat.Store.Members.{get_member_role, add_room_member, remove_member}
use mv_chat.Handler.World.{uuid, time, flag, raw, fields, Session, Env}
use mv_chat.Handler.Monad.{
  Handler, M, Statement, fail, need, some_or, now, must, success, reading, writing, ◌>>=◌, ◌>>◌,
  broadcast, parse_uuid, require_auth, info_of, code_ok, code_created, code_bad_request,
  code_forbidden, code_not_found, code_internal_error,
}
use mv_chat.Conv.Requests.{MsgRoom}
use mv_chat.Conv.Dm.{update_ttl}

abbrev pub is_owner : Role → Bool
is_owner owner = true
is_owner admin = false
is_owner member = false

abbrev pub is_admin : Role → Bool
is_admin owner = false
is_admin admin = true
is_admin member = false

abbrev pub is_privileged : Role → Bool
is_privileged r = is_owner r || is_admin r

abbrev creating_room : ℕ → Option Text → Statement Conversation
creating_room user public id t = create_room id t user public

module _ (env : Env) (s : Session) (id : Text) where
  unfoldable pub handle_create_room : MsgRoom → Handler
  handle_create_room m = do
    conv ← must (creating_room s.user_id m.desc) id code_internal_error "failed to create room"
    success id code_created (fields (("conv", uuid conv.id) ∷ ("public", raw conv.public) ∷ []))

  -- The role of an active member; an empty role is refused.
  unfoldable pub require_role : ℕ → M Role
  require_role conv = do
    found ← must (reading (get_member_role conv s.user_id)) id code_internal_error "database error"
    some_or found id code_forbidden "not a member"

  unfoldable pub handle_invite_to_room : MsgRoom → Handler
  handle_invite_to_room m = do
    conv ← parse_uuid env id m.id "invalid room id"
    target ← parse_uuid env id m.user "invalid user id"
    role ← require_role conv
    need (is_privileged role) id code_forbidden "only owner or admin can invite"
    found ← must (reading (get_user_by_id target)) id code_internal_error "database error"
    user ← some_or found id code_not_found "user not found"
    _ ←
        must (writing (λ n. add_room_member n conv target member)) id code_internal_error
          "failed to add member"
    n ← now
    success id code_ok (
        fields (
          ("conv", uuid conv)
          ∷ ("user", uuid target)
          ∷ ("public", raw user.public)
          ∷ ("ts", time n)
          ∷ []))
    broadcast env conv
        (let i = info_of conv s.user_id "member_joined" n in record i { user = some target }) []

  unfoldable pub handle_leave_room : MsgRoom → Handler
  handle_leave_room m = do
    conv ← parse_uuid env id m.id "invalid room id"
    role ← require_role conv
    need (not (is_owner role)) id code_forbidden "owner cannot leave room"
    _ ←
        must (writing (λ n. remove_member n conv s.user_id)) id code_internal_error
          "failed to leave room"
    n ← now
    success id code_ok (fields (("conv", uuid conv) ∷ ("ts", time n) ∷ []))
    broadcast env conv (info_of conv s.user_id "member_left" n) s.id

  unfoldable pub handle_kick_from_room : MsgRoom → Handler
  handle_kick_from_room m = do
    conv ← parse_uuid env id m.id "invalid room id"
    target ← parse_uuid env id m.user "invalid user id"
    role ← require_role conv
    need (is_privileged role) id code_forbidden "only owner or admin can kick"
    found ← must (reading (get_member_role conv target)) id code_internal_error "database error"
    target_role ← some_or found id code_not_found "user not a member"
    need (not (is_owner target_role)) id code_forbidden "cannot kick owner"
    need (not (is_admin role && is_admin target_role)) id code_forbidden "admin cannot kick admin"
    _ ←
        must (writing (λ n. remove_member n conv target)) id code_internal_error
          "failed to kick member"
    n ← now
    success id code_ok (fields (("conv", uuid conv) ∷ ("user", uuid target) ∷ ("ts", time n) ∷ []))
    broadcast env conv
        (let i = info_of conv s.user_id "member_kicked" n in record i { user = some target }) []

  unfoldable pub update_screenshots : ℕ → Bool → Handler
  update_screenshots conv b = do
    _ ←
        must (writing (λ n. update_no_screenshots n conv b)) id code_internal_error
          "failed to update no-screenshots"
    n ← now
    success id code_ok (fields (("conv", uuid conv) ∷ ("noScreenshots", flag b) ∷ []))
    broadcast env conv (info_of conv s.user_id "room_updated" n) []

  unfoldable pub update_public : ℕ → Option Text → Handler
  update_public conv public = do
    _ ←
        must (writing (λ n. update_room_public n conv public)) id code_internal_error
          "failed to update room"
    n ← now
    success id code_ok (fields (("conv", uuid conv) ∷ ("public", raw public) ∷ []))
    broadcast env conv
        (let i = info_of conv s.user_id "room_updated" n in record i { content = public }) s.id

  -- The branches after the check of the role.
  unfoldable pub update_fields : ℕ → MsgRoom → Option ℤ → Option Bool → Handler
  update_fields conv m (some t) shots = update_ttl env s id conv t
  update_fields conv m none (some b) = update_screenshots conv b
  update_fields conv m none none = update_public conv m.desc

  unfoldable pub handle_update_room : MsgRoom → Handler
  handle_update_room m = do
    conv ← parse_uuid env id m.id "invalid room id"
    role ← require_role conv
    need (is_privileged role) id code_forbidden "only owner or admin can update"
    update_fields conv m m.disappearing_ttl m.no_screenshots

  unfoldable pub dispatch_room : String → MsgRoom → Handler
  dispatch_room action m =
      if str_eq action "create"
      then handle_create_room m
      else if str_eq action "invite"
      then handle_invite_to_room m
      else if str_eq action "leave"
      then handle_leave_room m
      else if str_eq action "kick"
      then handle_kick_from_room m
      else if str_eq action "update"
      then handle_update_room m
      else fail id code_bad_request "unknown room action"

  unfoldable pub handle_room : Option MsgRoom → Handler
  handle_room req = do
    require_auth s id
    m ← some_or req id code_bad_request "missing room data"
    dispatch_room m.action m
