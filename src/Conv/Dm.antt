-- ===== src/Conv/Dm.antt =====
-- handlers_conv.go: `handleDM`, `handleStartDM`, `handleManageDM`.
use mv_chat.Prelude.{
  ℕ, zero, suc, List, [], ◌∷◌, Option, none, some, Bool, true, false, not, ◌||◌, String, Text, ℤ,
  pos, negsuc, ◌==◌, is_empty, is_some, if◌then◌else◌,
}
use mv_chat.Store.Types.{Conversation}
use mv_chat.Store.Conversations.{get_user_by_id, create_dm, update_disappearing_ttl}
use mv_chat.Store.Members.{MemberSettings, update_member_settings}
use mv_chat.Handler.World.{Value, uuid, flag, raw, ttl, user_info, fields, Session, Env}
use mv_chat.Handler.Monad.{
  Handler, Statement, fail, need, some_or, now, must, success, reading, writing, ◌>>=◌, ◌>>◌,
  broadcast, parse_uuid, require_auth, require_member, info_of, code_ok, code_created,
  code_bad_request, code_not_found, code_internal_error,
}
use mv_chat.Conv.Requests.{MsgDm}

-- The keys of the map `validTTLs`, but for 0.
unfoldable pub is_ttl : ℕ → Bool
is_ttl t = t == 10 || t == 30 || t == 60 || t == 300 || t == 3600 || t == 86400 || t == 604800

-- `validTTLs` with 0, which turns the setting off.
unfoldable pub is_ttl_or_off : ℤ → Bool
unfolding is_ttl
is_ttl_or_off (pos zero) = true
is_ttl_or_off (pos (suc n)) = is_ttl (suc n)
is_ttl_or_off (negsuc n) = false

-- `nil` unless the TTL is above 0
abbrev pub ttl_value : ℤ → Option ℕ
ttl_value (pos zero) = none
ttl_value (pos (suc n)) = some (suc n)
ttl_value (negsuc n) = none

abbrev pub with_flag : String → Option Bool → List (String × Value) → List (String × Value)
with_flag k none vs = vs
with_flag k (some b) vs = (k, flag b) ∷ vs

abbrev pub with_raw : String → Option Text → List (String × Value) → List (String × Value)
with_raw k none vs = vs
with_raw k (some t) vs = (k, raw (some t)) ∷ vs

abbrev creating_dm : ℕ → ℕ → Statement (Conversation × Bool)
creating_dm user other id t = create_dm id t user other

abbrev pub settings_of : MsgDm → MemberSettings
settings_of m = record {
  favorite = m.favorite;
  muted = m.muted;
  blocked = m.blocked;
  private = m.private;
}

abbrev pub has_settings : MsgDm → Bool
has_settings m = is_some m.favorite || is_some m.muted || is_some m.blocked || is_some m.private

module _ (env : Env) (s : Session) (id : Text) where
  unfoldable pub handle_start_dm : MsgDm → Handler
  handle_start_dm m = do
    other ← parse_uuid env id m.user "invalid user id"
    need (not (other == s.user_id)) id code_bad_request "cannot DM yourself"
    found ← must (reading (get_user_by_id other)) id code_internal_error "database error"
    user ← some_or found id code_not_found "user not found"
    made ← must (creating_dm s.user_id other) id code_internal_error "failed to create dm"
    success id (if made.1 then code_created else code_ok) (
        fields (
          ("conv", uuid made.0.id)
          ∷ ("created", flag made.1)
          ∷ ("user", user_info user.id user.public (env.is_online user.id))
          ∷ []))

  -- The part that `handleManageDM` and `handleUpdateRoom` have in common: the TTL of a conversation.
  unfoldable pub update_ttl : ℕ → ℤ → Handler
  update_ttl conv t = do
    need (is_ttl_or_off t) id code_bad_request "invalid TTL value"
    _ ←
        must (writing (λ n. update_disappearing_ttl n conv (ttl_value t))) id code_internal_error
          "failed to update disappearing TTL"
    n ← now
    success id code_ok (fields (("conv", uuid conv) ∷ ("disappearingTTL", ttl (ttl_value t)) ∷ []))
    broadcast env conv
        (let i = info_of conv s.user_id "disappearing_updated" n in record i { ttl = ttl_value t })
        []

  unfoldable pub update_settings : ℕ → MsgDm → Handler
  update_settings conv m = do
    _ ←
        must (writing (λ n. update_member_settings n conv s.user_id (settings_of m))) id
          code_internal_error "failed to update"
    success id code_ok (
        fields (
          ("conv", uuid conv)
          ∷ with_flag "favorite" m.favorite (
              with_flag "muted" m.muted
                (with_flag "blocked" m.blocked (with_raw "private" m.private [])))))

  -- The branches after the membership check.
  unfoldable pub manage_member : ℕ → MsgDm → Option ℤ → Handler
  manage_member conv m (some t) = update_ttl conv t
  manage_member conv m none =
      if has_settings m
      then update_settings conv m
      else success id code_ok (fields (("conv", uuid conv) ∷ []))

  unfoldable pub handle_manage_dm : MsgDm → Handler
  handle_manage_dm m = do
    conv ← parse_uuid env id m.conversation_id "invalid conv id"
    require_member s id conv
    manage_member conv m m.disappearing_ttl

  unfoldable pub handle_dm : Option MsgDm → Handler
  handle_dm req = do
    require_auth s id
    m ← some_or req id code_bad_request "missing dm data"
    if not (is_empty m.user)
        then handle_start_dm m
        else if not (is_empty m.conversation_id)
        then handle_manage_dm m
        else fail id code_bad_request "missing user or conv"
