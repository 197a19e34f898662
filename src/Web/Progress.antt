-- ===== src/Web/Progress.antt =====
-- rust/apps/web/src/rtc_transfer_events/transition/progress.rs: the progress of a transfer.
use p2p_transmission.Prelude.{
  ℕ, Bool, true, false, not, ◌&&◌, leb, if◌then◌else◌, Option, none, some,
}
use p2p_transmission.Prelude.Text.{Text}
use p2p_transmission.OrdMap.Map.{get, insert}
use p2p_transmission.OrdMap.Order.{text_order, same}
use p2p_transmission.Transfer.{TransferDirection, send, receive}
use p2p_transmission.Web.State.{ActiveTransfer, TransferState, active}
use p2p_transmission.Web.Model.{AppModel, is_receiver_room}
use p2p_transmission.Web.Rtc.{is_link_ready, is_none}
use p2p_transmission.Web.Events.{progress, PlannedTransferEvent, no_plan}

-- `==` of the derived instance.
abbrev pub same_direction : TransferDirection → TransferDirection → Bool
same_direction send send = true
same_direction receive receive = true
same_direction _ _ = false

unfoldable pub is_progress_of : ActiveTransfer → Text → TransferDirection → ℕ → Bool
is_progress_of a transfer_id direction completed_bytes =
    same a.transfer_id transfer_id
    && same_direction a.direction direction
    && not a.awaiting_verification
    && is_link_ready a.link_state
    && is_none a.storage_pause
    && leb a.completed_bytes completed_bytes
    && leb completed_bytes a.file.size_bytes

abbrev pub transfer_progress_is_valid : TransferState → Text → TransferDirection → ℕ → Bool
transfer_progress_is_valid (active a) transfer_id direction bytes =
    is_progress_of a transfer_id direction bytes
transfer_progress_is_valid _ transfer_id direction bytes = false

abbrev pub plan_found :
    Option TransferState → Text → Text → TransferDirection → ℕ → PlannedTransferEvent
plan_found none peer_id transfer_id direction bytes = no_plan
plan_found (some current) peer_id transfer_id direction bytes =
    if not (transfer_progress_is_valid current transfer_id direction bytes)
    then no_plan
    else record {
      mutation = some (progress peer_id transfer_id direction bytes);
      notification = none;
    }

unfoldable pub plan_progress : AppModel → Text → Text → TransferDirection → ℕ → PlannedTransferEvent
plan_progress model peer_id transfer_id direction bytes =
    plan_found (get peer_id model.transfers_by_peer) peer_id transfer_id direction bytes

unfoldable pub apply_transfer_progress :
    TransferState → Text → TransferDirection → ℕ → TransferState × Bool
apply_transfer_progress (active a) transfer_id direction bytes =
    if is_progress_of a transfer_id direction bytes
    then (active (record a { completed_bytes = bytes }), true)
    else (active a, false)
apply_transfer_progress current transfer_id direction bytes = (current, false)

-- The receiver's own transfer follows: by the same progress, or else by a copy.
abbrev pub follow : Bool → TransferState × Bool → TransferState → TransferState → TransferState
follow false own updated current = current
follow true (own, true) updated current = own
follow true (own, false) updated current = updated

abbrev pub put_progress :
    AppModel → Text → Text → TransferDirection → ℕ → TransferState × Bool → AppModel × Bool
put_progress model peer_id transfer_id direction bytes (updated, false) = (model, false)
put_progress model peer_id transfer_id direction bytes (updated, true) = (
  record model {
    transfers_by_peer = insert peer_id updated model.transfers_by_peer;
    transfer =
        follow (is_receiver_room model.screen)
          (apply_transfer_progress model.transfer transfer_id direction bytes) updated
          model.transfer;
  },
  true,
)

abbrev pub progress_found :
    AppModel → Text → Text → TransferDirection → ℕ → Option TransferState → AppModel × Bool
progress_found model peer_id transfer_id direction bytes none = (model, false)
progress_found model peer_id transfer_id direction bytes (some current) =
    put_progress model peer_id transfer_id direction bytes
      (apply_transfer_progress current transfer_id direction bytes)

unfoldable pub apply_peer_transfer_progress :
    AppModel → Text → Text → TransferDirection → ℕ → AppModel × Bool
apply_peer_transfer_progress model peer_id transfer_id direction bytes =
    progress_found model peer_id transfer_id direction bytes (get peer_id model.transfers_by_peer)
