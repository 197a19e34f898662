-- ===== src/Web/Waiting.antt =====
-- rust/apps/web/src/realtime_session.rs: the end of the task that `resolve_waiting` spawns, with what the
-- server answers, and the room that a receiver enters.
use p2p_transmission.Prelude.{Bool, if◌then◌else◌, none, some, Result, ok, err}
use p2p_transmission.Prelude.Text.{Text, text}
use p2p_transmission.Protocol.Http.{
  RoomBootstrapResponse, JoinRequestStateWire, pending, approved, rejected, cancelled, expired,
}
use p2p_transmission.Web.State.{receiver}
use p2p_transmission.Web.Model.{room}
use p2p_transmission.Web.App.{AppEvent, navigate, set_error, upgrade_required}
use p2p_transmission.Web.Reducer.{join_rejected_notice}
use p2p_transmission.Web.Effects.{Client, dispatch_app_event, leave_to_lobby}
use p2p_transmission.Web.Target.{member_target}

-- An error of the platform, as `requires_upgrade` and `friendly_error` see it.
pub record PlatformError : Type 0 where
  pub requires_upgrade : Bool
  pub friendly : Text

abbrev pub platform_error_event : PlatformError → AppEvent
platform_error_event error =
    if error.requires_upgrade then upgrade_required else set_error (some error.friendly)

abbrev pub dispatch_on : Client → AppEvent → Client
dispatch_on client event = record client { model = dispatch_app_event client.model event }

-- Without the session that it stores in the browser.
unfoldable pub enter_receiver_room : Client → RoomBootstrapResponse → Text → Client
enter_receiver_room client snapshot peer_id = record {
  model =
      dispatch_app_event
        (dispatch_app_event client.model (
          navigate (
            room (record {
              role = receiver;
              snapshot = snapshot;
              invite = none;
              invite_request_id = none;
            }))))
        (set_error none);
  target = some (member_target snapshot.room_code snapshot.revision peer_id);
}

abbrev pub status_error_event : PlatformError → AppEvent
status_error_event error =
    if error.requires_upgrade
    then platform_error_event error
    else set_error (some (text "暂时无法确认申请状态，正在等待重连"))

abbrev pub enter_with : Client → Text → Result PlatformError RoomBootstrapResponse → Client
enter_with client peer_id (ok snapshot) = enter_receiver_room client snapshot peer_id
enter_with client peer_id (err error) = dispatch_on client (platform_error_event error)

-- `bootstrap` is the answer of `bootstrap_room`, which is asked for once the request is approved.
unfoldable pub finish_waiting :
    Client
    → Text
    → Result PlatformError JoinRequestStateWire
    → Result PlatformError RoomBootstrapResponse
    → Client
finish_waiting client peer_id (err error) bootstrap = dispatch_on client (status_error_event error)
finish_waiting client peer_id (ok pending) bootstrap = client
finish_waiting client peer_id (ok approved) bootstrap = enter_with client peer_id bootstrap
finish_waiting client peer_id (ok rejected) bootstrap =
    leave_to_lobby client (some join_rejected_notice)
finish_waiting client peer_id (ok cancelled) bootstrap =
    leave_to_lobby client (some (text "加入申请已失效，请重新申请"))
finish_waiting client peer_id (ok expired) bootstrap =
    leave_to_lobby client (some (text "加入申请已失效，请重新申请"))
