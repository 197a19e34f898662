-- ===== src/Web/Effects.antt =====
-- rust/apps/web/src/realtime_session.rs: what is done on the effects that a reducer returns, and the end of
-- `resolve_waiting`. The peers and the socket are a parameter, with what their functions do to the model
-- before they return. A task that is spawned ends later, as a step of its own.
use p2p_transmission.Prelude.{Bool, false, ℕ, ◌≡◌, if◌then◌else◌, Option, none, some, List, [], ◌∷◌}
use p2p_transmission.Prelude.Text.{Text, text}
use p2p_transmission.OrdMap.Order.{text_order}
use p2p_transmission.OrdMap.Remove.{remove}
use p2p_transmission.Protocol.Realtime.{Signal}
use p2p_transmission.Web.State.{
  realtime_disconnected, realtime_reconnecting, realtime_superseded, idle, text_idle,
}
use p2p_transmission.Web.Model.{AppModel, Screen, lobby, room, is_receiver}
use p2p_transmission.Web.App.{
  AppEvent, navigate, set_realtime, set_notice, set_error, reduce_app_event,
}
use p2p_transmission.Web.Aggregate.{
  refresh_aggregate_rtc, clear_peer_rtc_error, deactivate_rtc_config,
}
use p2p_transmission.Web.Reducer.{
  RealtimeEffect, set_realtime_phase, mark_target_revision_applied, resolve_waiting,
  return_to_lobby, sync_rtc_peers, refresh_room_snapshot, remove_rtc_peer,
  suppress_realtime_connection, reconnect_socket, accept_rtc_signal,
}
use p2p_transmission.Web.Reducer
use p2p_transmission.Web.Target.{RealtimeTarget, reconcile_applied, update_revision}

pub record Client : Type 0 where
  pub model : AppModel
  pub target : Option RealtimeTarget

-- The functions of rtc_session.rs, browser_lifecycle.rs and realtime_connection.rs that are called here:
-- what they do to the model, and what they answer. `keeps_peer` is whether the channel of a peer is ready
-- or its transfer can be resumed.
pub record Browser : Type 0 where
  pub sync_peers : AppModel → AppModel
  pub reset_all_peers : AppModel → AppModel
  pub accept_signal : Text → Text → Signal → AppModel → AppModel
  pub complete_recovery : Bool → AppModel → AppModel × Bool
  pub keeps_peer : Text → Bool
  pub suppresses_lease : Bool
  pub marks_connected : Bool

-- None of them writes `screen`.
pub record KeepsScreen (b : Browser) : Type 0 where
  pub sync : (model : AppModel) → (b.sync_peers model).screen ≡ model.screen
  pub reset : (model : AppModel) → (b.reset_all_peers model).screen ≡ model.screen
  pub accept :
      (peer_id negotiation_id : Text) (signal : Signal) (model : AppModel)
      → (b.accept_signal peer_id negotiation_id signal model).screen ≡ model.screen
  pub recover :
      (member : Bool) (model : AppModel)
      → (b.complete_recovery member model).0.screen ≡ model.screen

-- `dispatch_app_event`; the prompt that `upgrade_required` asks for is output.
abbrev pub dispatch_app_event : AppModel → AppEvent → AppModel
dispatch_app_event model event = (reduce_app_event model event).0

abbrev pub mark_event : Option RealtimeTarget → ℕ → Option RealtimeTarget
mark_event none revision = none
mark_event (some target) revision =
    some (update_revision (λ cursor. reconcile_applied cursor revision) target)

unfoldable pub forget_rooms : AppModel → AppModel
forget_rooms model = record model {
  transfer = idle;
  text_transfer = text_idle;
  pending_signals = [];
  rtc_peer_states = [];
  rtc_error = none;
  transfers_by_peer = [];
  text_transfers_by_peer = [];
  decision_request_id = none;
  busy = false;
  lobby_action_error = none;
  error = none;
  entering_receivers = [];
}

-- `return_to_lobby`, without the storage of the browser that it clears.
unfoldable pub leave_to_lobby : Client → Option Text → Client
leave_to_lobby client notice =
    let away = dispatch_app_event client.model (navigate (lobby [] none)) in
    let idle_model =
      deactivate_rtc_config (dispatch_app_event away (set_realtime realtime_disconnected)) in
    record {
      model =
          refresh_aggregate_rtc (dispatch_app_event (forget_rooms idle_model) (set_notice notice));
      target = none;
    }

abbrev pub quiet_receiver : AppModel → Screen → AppModel
quiet_receiver model (room r) =
    if is_receiver r.role
    then record model { transfer = idle; text_transfer = text_idle }
    else model
quiet_receiver model _ = model

-- `remove_rtc_peer` of rtc_session.rs on the model.
unfoldable pub drop_peer : AppModel → Text → AppModel
drop_peer model peer_id =
    let cleared = clear_peer_rtc_error model peer_id in
    refresh_aggregate_rtc (
      quiet_receiver
        (record cleared {
          rtc_peer_states = remove peer_id cleared.rtc_peer_states;
          transfers_by_peer = remove peer_id cleared.transfers_by_peer;
          text_transfers_by_peer = remove peer_id cleared.text_transfers_by_peer;
        })
        cleared.screen)

-- The block of `suppress_realtime_connection` that writes the model.
unfoldable pub supersede : AppModel → AppModel
supersede model =
    let superseded = dispatch_app_event model (set_realtime realtime_superseded) in
    let deactivated = record (deactivate_rtc_config superseded) { pending_signals = [] } in
    dispatch_app_event
      (dispatch_app_event deactivated (set_notice (some (text "此房间已在另一个标签页中打开，本页面已停止重连"))))
      (set_error none)

abbrev pub suppress : Browser → AppModel → AppModel
suppress b model = if b.suppresses_lease then supersede (b.reset_all_peers model) else model

-- `resolve_waiting` and `refresh_room_snapshot` spawn a task here. A return to the lobby and a suppression
-- leave the loop.
unfoldable pub apply_realtime_effects : Browser → Client → List RealtimeEffect → Client
apply_realtime_effects b client [] = client
apply_realtime_effects b client (return_to_lobby notice ∷ rest) =
    leave_to_lobby client (some notice)
apply_realtime_effects b client (suppress_realtime_connection ∷ rest) = record client {
  model = suppress b client.model;
}
apply_realtime_effects b client (set_realtime_phase phase ∷ rest) =
    apply_realtime_effects b
      (record client { model = dispatch_app_event client.model (set_realtime phase) }) rest
apply_realtime_effects b client (Reducer.set_error error ∷ rest) =
    apply_realtime_effects b
      (record client { model = dispatch_app_event client.model (set_error (some error)) }) rest
apply_realtime_effects b client (mark_target_revision_applied revision ∷ rest) =
    apply_realtime_effects b (record client { target = mark_event client.target revision }) rest
apply_realtime_effects b client (resolve_waiting ∷ rest) = apply_realtime_effects b client rest
apply_realtime_effects b client (sync_rtc_peers ∷ rest) =
    apply_realtime_effects b (record client { model = b.sync_peers client.model }) rest
apply_realtime_effects b client (refresh_room_snapshot ∷ rest) =
    apply_realtime_effects b client rest
apply_realtime_effects b client (remove_rtc_peer peer_id ∷ rest) =
    apply_realtime_effects b
      (record client {
        model = if b.keeps_peer peer_id then client.model else drop_peer client.model peer_id;
      })
      rest
apply_realtime_effects b client (reconnect_socket ∷ rest) =
    apply_realtime_effects b
      (record client {
        model = dispatch_app_event client.model (set_realtime realtime_reconnecting);
      })
      rest
apply_realtime_effects b client (accept_rtc_signal peer_id negotiation_id signal ∷ rest) =
    apply_realtime_effects b
      (record client { model = b.accept_signal peer_id negotiation_id signal client.model }) rest
