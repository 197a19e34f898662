-- ===== src/Web/Aggregate.antt =====
-- rust/apps/web/src/rtc_transition.rs: the errors, the phase of the whole room and the link of a
-- transfer, which the transitions of one peer refresh.
use p2p_transmission.Prelude.{Bool, true, false, ◌||◌, if◌then◌else◌, Option, none, some, [], ◌∷◌}
use p2p_transmission.Prelude.Text.{Text}
use p2p_transmission.OrdMap.Map.{OrdMap, get, insert}
use p2p_transmission.OrdMap.Values.{any_value}
use p2p_transmission.OrdMap.Order.{text_order, same}
use p2p_transmission.Web.State.{
  RtcPhase, inactive, waiting_peer, connecting, ready, disconnected, failed, config_inactive,
  config_loading, config_ready, config_failed, PeerRtcState, TransferLinkState, link_waiting,
  TransferState, active, ActiveTransfer,
}
use p2p_transmission.Web.Model.{AppModel, is_room, is_receiver_room}

-- `as_deref() == Some(value)`.
abbrev pub is_text : Text → Option Text → Bool
is_text value none = false
is_text value (some current) = same current value

abbrev pub is_ready : RtcPhase → Bool
is_ready ready = true
is_ready _ = false

abbrev pub is_connecting : RtcPhase → Bool
is_connecting connecting = true
is_connecting _ = false

abbrev pub is_disconnected : RtcPhase → Bool
is_disconnected disconnected = true
is_disconnected _ = false

abbrev pub is_failed : RtcPhase → Bool
is_failed failed = true
is_failed _ = false

abbrev pub any_phase : (RtcPhase → Bool) → OrdMap Text PeerRtcState → Bool
any_phase p peers = any_value (λ peer. p peer.phase) peers

abbrev pub aggregate_phase : Bool → OrdMap Text PeerRtcState → RtcPhase
aggregate_phase in_room [] = if in_room then waiting_peer else inactive
aggregate_phase in_room (p ∷ rest) =
    let peers = p ∷ rest in
    if any_phase is_ready peers
    then ready
    else if any_phase is_connecting peers
    then connecting
    else if any_phase is_disconnected peers
    then disconnected
    else if any_phase is_failed peers
    then failed
    else waiting_peer

unfoldable pub refresh_aggregate_rtc : AppModel → AppModel
refresh_aggregate_rtc model = record model {
  rtc_aggregate_phase = aggregate_phase (is_room model.screen) model.rtc_peer_states;
}

-- `rtc_error.filter(|rtc_error| rtc_error.peer_id == peer_id)` and what follows it.
abbrev pub drop_rtc_error : AppModel → Text → AppModel
drop_rtc_error model message = record model {
  rtc_error = none;
  error = if is_text message model.error then none else model.error;
}

unfoldable pub clear_peer_rtc_error : AppModel → Text → AppModel
clear_peer_rtc_error model peer_id = elim model.rtc_error [
  | none ↦ model
  | some e ↦ if same e.peer_id peer_id then drop_rtc_error model e.message else model
]

unfoldable pub set_peer_rtc_error : AppModel → Text → Text → AppModel
set_peer_rtc_error model peer_id message = record model {
  error = some message;
  rtc_error = some (record { peer_id = peer_id; message = message });
}

unfoldable pub clear_rtc_config_error : AppModel → AppModel
clear_rtc_config_error model = elim model.rtc_config_error [
  | none ↦ model
  | some message ↦ record model {
    rtc_config_error = none;
    error = if is_text message model.error then none else model.error;
  }
]

unfoldable pub begin_rtc_config_loading : AppModel → AppModel
begin_rtc_config_loading model = record (clear_rtc_config_error model) {
  rtc_config_phase = config_loading;
}

unfoldable pub mark_rtc_config_ready : AppModel → AppModel
mark_rtc_config_ready model = record (clear_rtc_config_error model) {
  rtc_config_phase = config_ready;
}

unfoldable pub mark_rtc_config_failed : AppModel → Text → AppModel
mark_rtc_config_failed model message = record model {
  rtc_config_phase = config_failed;
  error = some message;
  rtc_config_error = some message;
}

unfoldable pub deactivate_rtc_config : AppModel → AppModel
deactivate_rtc_config model = record (clear_rtc_config_error model) {
  rtc_config_phase = config_inactive;
}

-- The entry of the peer, and the model's own transfer in a receiver's room.
unfoldable pub put_transfer : AppModel → Text → TransferState → AppModel
put_transfer model peer_id transfer = record model {
  transfers_by_peer = insert peer_id transfer model.transfers_by_peer;
  transfer = if is_receiver_room model.screen then transfer else model.transfer;
}

-- The streamed transfer that `set_peer_transfer_link_state` changes.
abbrev pub streamed_transfer : Option TransferState → Option ActiveTransfer
streamed_transfer (some (active a)) = if a.streamed then some a else none
streamed_transfer _ = none

abbrev pub set_link : AppModel → Text → TransferLinkState → Option ActiveTransfer → AppModel × Bool
set_link model peer_id link none = (model, false)
set_link model peer_id link (some a) =
    (put_transfer model peer_id (active (record a { link_state = link })), true)

unfoldable pub set_peer_transfer_link_state : AppModel → Text → TransferLinkState → AppModel × Bool
set_peer_transfer_link_state model peer_id link =
    set_link model peer_id link (streamed_transfer (get peer_id model.transfers_by_peer))

-- The loop over the peers, with `updated |= ..`.
unfoldable pub mark_waiting : AppModel → OrdMap Text TransferState → AppModel × Bool
mark_waiting model [] = (model, false)
mark_waiting model ((peer_id, transfer) ∷ rest) =
    let here = set_peer_transfer_link_state model peer_id link_waiting in
    let later = mark_waiting here.0 rest in (later.0, here.1 || later.1)

abbrev pub mark_streamed_transfers_waiting : AppModel → AppModel × Bool
mark_streamed_transfers_waiting model = mark_waiting model model.transfers_by_peer
