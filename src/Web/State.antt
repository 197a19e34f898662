-- ===== src/Web/State.antt =====
-- rust/apps/web/src/app_state.rs: the phases and the states of transfers. The arguments of a
-- constructor stand in the order of the source's fields.
use p2p_transmission.Prelude.{
  ℕ, Bool, true, false, not, ◌==◌, ◌||◌, if◌then◌else◌, Option, none, some, List,
}
use p2p_transmission.Prelude.Text.{Text}
use p2p_transmission.Transfer.{TransferDirection, TransferFile}
use p2p_transmission.Protocol.Control.{TransferMode, CancelReason, StreamPauseReason}
use p2p_transmission.Protocol.Realtime.{Signal}

pub data RoomRole : Type 0 where
  owner receiver : RoomRole

pub record StoredRoomSession : Type 0 where
  pub room_code : Text
  pub role : RoomRole
  pub join_request_id : Option Text
  pub invite_request_id : Option Text
  pub peer_id : Text

pub data RealtimePhase : Type 0 where
  realtime_disconnected realtime_connecting realtime_connected : RealtimePhase
  realtime_reconnecting realtime_superseded : RealtimePhase

pub data RtcPhase : Type 0 where
  inactive waiting_peer connecting ready disconnected failed : RtcPhase

pub data RtcConfigPhase : Type 0 where
  config_inactive config_loading config_ready config_failed : RtcConfigPhase

pub data OutgoingRecoveryPhase : Type 0 where
  pending checking complete : OutgoingRecoveryPhase

pub data PendingRtcWork : Type 0 where
  owner_offer_timeout : ℕ → PendingRtcWork
  owner_retry_delay : ℕ → PendingRtcWork
  passive_deadline : PendingRtcWork
  disconnected_deadline : PendingRtcWork

pub record PeerRtcError : Type 0 where
  pub peer_id : Text
  pub message : Text

pub data LobbyActionError : Type 0 where
  join create : Text → LobbyActionError

pub record PendingRtcSignal : Type 0 where
  pub from_peer_id : Text
  pub negotiation_id : Text
  pub signal : Signal

pub record PeerRtcState : Type 0 where
  pub phase : RtcPhase
  pub instance_generation : ℕ
  pub work_generation : ℕ
  pub pending_work : Option PendingRtcWork
  pub outgoing_recovery : OutgoingRecoveryPhase

-- `PeerRtcState::new`.
abbrev pub new_peer_state : ℕ → PeerRtcState
new_peer_state instance = record {
  phase = waiting_peer;
  instance_generation = instance;
  work_generation = 0;
  pending_work = none;
  outgoing_recovery = pending;
}

abbrev pub is_pending_recovery : OutgoingRecoveryPhase → Bool
is_pending_recovery pending = true
is_pending_recovery _ = false

abbrev pub is_checking : OutgoingRecoveryPhase → Bool
is_checking checking = true
is_checking _ = false

-- The two methods return the changed state beside their result.
unfoldable pub begin_recovery : PeerRtcState → PeerRtcState × Option ℕ
begin_recovery peer =
    if not (is_pending_recovery peer.outgoing_recovery)
    then (peer, none)
    else (record peer { outgoing_recovery = checking }, some peer.instance_generation)

unfoldable pub finish_recovery : PeerRtcState → ℕ → PeerRtcState × Bool
finish_recovery peer instance =
    if not (peer.instance_generation == instance) || not (is_checking peer.outgoing_recovery)
    then (peer, false)
    else (record peer { outgoing_recovery = complete }, true)

abbrev pub outgoing_recovery_is_checking : PeerRtcState → Bool
outgoing_recovery_is_checking peer = is_checking peer.outgoing_recovery

pub data TransferLinkState : Type 0 where
  link_ready link_waiting link_paused : TransferLinkState

-- The fields of `TransferState::Active`.
pub record ActiveTransfer : Type 0 where
  pub transfer_id : Text
  pub direction : TransferDirection
  pub streamed : Bool
  pub file : TransferFile
  pub files : List TransferFile
  pub completed_bytes : ℕ
  pub awaiting_verification : Bool
  pub link_state : TransferLinkState
  pub storage_pause : Option StreamPauseReason

pub data TransferState : Type 0 where
  idle : TransferState
  offering : Text → TransferFile → List TransferFile → TransferState
  outgoing_recovery : Text → TransferFile → List TransferFile → TransferState
  incoming : Text → TransferMode → TransferFile → List TransferFile → Bool → TransferState
  active : ActiveTransfer → TransferState
  rejected : TransferDirection → TransferFile → List TransferFile → TransferState
  completed :
      TransferDirection → TransferFile → List TransferFile → Text → Option Text → TransferState
  cancelled : Option TransferFile → CancelReason → TransferState
  failed_transfer : Option TransferFile → Text → TransferState

pub data TextTransferState : Type 0 where
  text_idle : TextTransferState
  text_offering text_incoming text_sending text_receiving : Text → ℕ → ℕ → TextTransferState
  text_rejected : TransferDirection → TextTransferState
  text_delivered : ℕ → ℕ → TextTransferState
  text_received : Text → TextTransferState
  text_cancelled : TextTransferState
  text_failed : Text → TextTransferState
