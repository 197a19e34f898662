-- ===== src/Web/Model.antt =====
-- rust/apps/web/src/app_state.rs: the screen and the model of the client.
use p2p_transmission.Prelude.{ℕ, Bool, true, false, Option, none, List, []}
use p2p_transmission.Prelude.Text.{Text}
use p2p_transmission.OrdMap.Map.{OrdMap}
use p2p_transmission.Protocol.Http.{SessionResponse, RoomBootstrapResponse, CreateInviteResponse}
use p2p_transmission.Web.State.{
  RoomRole, owner, receiver, RealtimePhase, realtime_disconnected, RtcConfigPhase, config_inactive,
  RtcPhase, inactive, PeerRtcError, LobbyActionError, PendingRtcSignal, PeerRtcState, TransferState,
  idle, TextTransferState, text_idle,
}

-- The fields of `Screen::Waiting` and of `Screen::Room`.
pub record WaitingScreen : Type 0 where
  pub room_code : Text
  pub request_id : Text
  pub peer_id : Text
  pub revision : ℕ
  pub expires_at_ms : ℕ

pub record RoomScreen : Type 0 where
  pub role : RoomRole
  pub snapshot : RoomBootstrapResponse
  pub invite : Option CreateInviteResponse
  pub invite_request_id : Option Text

pub data Screen : Type 0 where
  booting : Screen
  lobby : Text → Option Text → Screen
  waiting : WaitingScreen → Screen
  room : RoomScreen → Screen

pub record AppModel : Type 0 where
  pub session : Option SessionResponse
  pub screen : Screen
  pub realtime : RealtimePhase
  pub rtc_config_phase : RtcConfigPhase
  pub rtc_aggregate_phase : RtcPhase
  pub transfer : TransferState
  pub text_transfer : TextTransferState
  pub busy : Bool
  pub lobby_action_error : Option LobbyActionError
  pub error : Option Text
  pub notice : Option Text
  pub about_open : Bool
  pub decision_request_id : Option Text
  pub entering_receivers : List Text
  pub pending_signals : List PendingRtcSignal
  pub rtc_peer_generation : ℕ
  pub rtc_peer_states : OrdMap Text PeerRtcState
  pub rtc_config_error : Option Text
  pub rtc_error : Option PeerRtcError
  pub transfers_by_peer : OrdMap Text TransferState
  pub text_transfers_by_peer : OrdMap Text TextTransferState

abbrev pub default_model : AppModel
default_model = record {
  session = none;
  screen = booting;
  realtime = realtime_disconnected;
  rtc_config_phase = config_inactive;
  rtc_aggregate_phase = inactive;
  transfer = idle;
  text_transfer = text_idle;
  busy = false;
  lobby_action_error = none;
  error = none;
  notice = none;
  about_open = false;
  decision_request_id = none;
  entering_receivers = [];
  pending_signals = [];
  rtc_peer_generation = 0;
  rtc_peer_states = [];
  rtc_config_error = none;
  rtc_error = none;
  transfers_by_peer = [];
  text_transfers_by_peer = [];
}

abbrev pub is_receiver : RoomRole → Bool
is_receiver receiver = true
is_receiver owner = false

-- `matches!(screen, Screen::Room { .. })`, and with the receiver's role.
abbrev pub is_room : Screen → Bool
is_room (room _) = true
is_room _ = false

abbrev pub is_receiver_room : Screen → Bool
is_receiver_room (room r) = is_receiver r.role
is_receiver_room _ = false
