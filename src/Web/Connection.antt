-- ===== src/Web/Connection.antt =====
-- rust/apps/web/src/rtc_transition.rs: what a change of the browser's connection does to a peer.
use p2p_transmission.Prelude.{Bool, true, false, ◌&&◌, if◌then◌else◌, none, some}
use p2p_transmission.Prelude.Text.{Text}
use p2p_transmission.OrdMap.Order.{text_order}
use p2p_transmission.Web.State.{
  RoomRole, owner, receiver, connecting, ready, disconnected, disconnected_deadline, PeerRtcState,
  link_waiting,
}
use p2p_transmission.Web.Model.{AppModel, is_receiver}
use p2p_transmission.Web.Work.{arm_work, invalidate_work}
use p2p_transmission.Web.Aggregate.{
  refresh_aggregate_rtc, set_peer_transfer_link_state, is_ready, is_failed,
}
use p2p_transmission.Web.Events.{RtcConnectionPhase, link_disconnected, link_failed, link_closed}
use p2p_transmission.Web.Rtc.{
  RtcRecoveryAction, no_action, restart_offer, arm_passive_deadline, wait_for_reconnect, set_peer,
  find_peer, is_none,
}

-- The peer's state, the action and `terminal`.
pub record ConnectionStep : Type 0 where
  pub peer : PeerRtcState
  pub action : RtcRecoveryAction
  pub terminal : Bool

abbrev pub recovery_action : RoomRole → RtcRecoveryAction
recovery_action owner = restart_offer
recovery_action receiver = arm_passive_deadline

abbrev pub lost_step : RoomRole → PeerRtcState → ConnectionStep
lost_step role peer = record {
  peer = record (invalidate_work peer) { phase = disconnected };
  action = recovery_action role;
  terminal = true;
}

abbrev pub interrupted_step : PeerRtcState → ConnectionStep
interrupted_step peer =
    let dropped = record peer { phase = disconnected } in
    let armed = arm_work dropped disconnected_deadline in
    if is_none peer.pending_work
    then record { peer = armed.0; action = wait_for_reconnect armed.1; terminal = false }
    else record { peer = dropped; action = no_action; terminal = false }

abbrev pub progress_step : PeerRtcState → ConnectionStep
progress_step peer = record {
  peer = record peer { phase = if is_ready peer.phase then ready else connecting };
  action = no_action;
  terminal = false;
}

abbrev pub connection_step : RoomRole → PeerRtcState → RtcConnectionPhase → ConnectionStep
connection_step role peer link_failed = lost_step role peer
connection_step role peer link_closed = lost_step role peer
connection_step role peer link_disconnected = interrupted_step peer
connection_step role peer _ = progress_step peer

unfoldable pub reduce_connection_state :
    AppModel → Text → RoomRole → RtcConnectionPhase → AppModel × RtcRecoveryAction
reduce_connection_state model peer_id role phase = elim (find_peer model peer_id) [
  | none ↦ (model, no_action)
  | some peer ↦
      if is_receiver role && is_failed peer.phase
      then (model, no_action)
      else let step = connection_step role peer phase in
        let placed = set_peer model peer_id step.peer in
        let linked =
          if step.terminal
          then (set_peer_transfer_link_state placed peer_id link_waiting).0
          else placed in
        (refresh_aggregate_rtc linked, step.action)
]
