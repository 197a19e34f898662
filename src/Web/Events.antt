-- ===== src/Web/Events.antt =====
-- rust/crates/browser-platform/src/rtc.rs: the events of a peer's connection; and
-- rust/apps/web/src/rtc_transfer_events/transition/mod.rs: what the client plans for them. The arguments
-- of a constructor stand in the order of the source's fields.
use p2p_transmission.Prelude.{ℕ, Bool, false, Option, none, some, List}
use p2p_transmission.Prelude.Text.{Text}
use p2p_transmission.Transfer.{TransferDirection, TransferFile}
use p2p_transmission.Protocol.Control.{TransferMode, CancelReason, StreamPauseReason}
use p2p_transmission.Protocol.Realtime.{Signal}
use p2p_transmission.Web.State.{TransferState}

pub data RtcConnectionPhase : Type 0 where
  link_new link_connecting link_connected : RtcConnectionPhase
  link_disconnected link_failed link_closed : RtcConnectionPhase

pub data RtcEvent : Type 0 where
  outbound_signal : Text → Text → Signal → RtcEvent
  connection_state : RtcConnectionPhase → RtcEvent
  data_channel_ready : RtcEvent
  negotiation_failed : Text → RtcEvent
  text_outgoing_offered text_incoming_offered : Text → ℕ → ℕ → RtcEvent
  text_transfer_accepted text_transfer_rejected : Text → TransferDirection → RtcEvent
  text_transfer_received : Text → Text → RtcEvent
  text_transfer_delivered text_transfer_cancelled : Text → RtcEvent
  text_transfer_failed : Option Text → Text → RtcEvent
  outgoing_offered outgoing_recovery_offered : Text → TransferFile → List TransferFile → RtcEvent
  incoming_offered : Text → TransferMode → TransferFile → List TransferFile → Bool → RtcEvent
  transfer_started :
      Text → TransferDirection → TransferMode → TransferFile → List TransferFile → RtcEvent
  transfer_progress : Text → TransferDirection → ℕ → ℕ → RtcEvent
  awaiting_verification : Text → TransferFile → List TransferFile → RtcEvent
  transfer_rejected : Text → TransferDirection → TransferFile → List TransferFile → RtcEvent
  transfer_completed :
      Text → TransferDirection → TransferFile → List TransferFile → Text → Option Text → RtcEvent
  transfer_cancelled : Text → CancelReason → RtcEvent
  transfer_paused : Text → TransferDirection → StreamPauseReason → ℕ → ℕ → RtcEvent
  transfer_failed : Option Text → Text → RtcEvent

pub record NotificationEffect : Type 0 where
  pub title : Text
  pub body : Text
  pub tag : Text

-- The peer, the new state, the notice, and `clear_error`; or the peer, the transfer, its direction and
-- its bytes.
pub data TransferMutation : Type 0 where
  set_transfer : Text → TransferState → Option Text → Bool → TransferMutation
  progress : Text → Text → TransferDirection → ℕ → TransferMutation

pub record PlannedTransferEvent : Type 0 where
  pub mutation : Option TransferMutation
  pub notification : Option NotificationEffect

abbrev pub no_plan : PlannedTransferEvent
no_plan = record { mutation = none; notification = none }

abbrev pub plan_transfer : Text → TransferState → PlannedTransferEvent
plan_transfer peer_id transfer = record {
  mutation = some (set_transfer peer_id transfer none false);
  notification = none;
}
