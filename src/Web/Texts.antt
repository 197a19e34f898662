-- ===== src/Web/Texts.antt =====
-- rust/apps/web/src/rtc_transfer_events/text_transition.rs: the transfers of text.
use p2p_transmission.Prelude.{
  ℕ, Bool, true, false, ◌==◌, ◌&&◌, ◌||◌, if◌then◌else◌, Option, none, some, [], ◌∷◌, ◌++◌,
}
use p2p_transmission.Prelude.Text.{Text, text}
use p2p_transmission.OrdMap.Map.{get, insert}
use p2p_transmission.OrdMap.Order.{text_order, same}
use p2p_transmission.Transfer.{TransferDirection, send, receive}
use p2p_transmission.Web.State.{
  TextTransferState, text_offering, text_incoming, text_sending, text_receiving, text_rejected,
  text_delivered, text_received, text_cancelled, text_failed,
}
use p2p_transmission.Web.Model.{AppModel, is_receiver_room}
use p2p_transmission.Web.Events.{
  RtcEvent, text_outgoing_offered, text_incoming_offered, text_transfer_accepted,
  text_transfer_rejected, text_transfer_received, text_transfer_delivered, text_transfer_cancelled,
  text_transfer_failed, NotificationEffect,
}

abbrev pub is_text_event : RtcEvent → Bool
is_text_event (text_outgoing_offered id characters bytes) = true
is_text_event (text_incoming_offered id characters bytes) = true
is_text_event (text_transfer_accepted id direction) = true
is_text_event (text_transfer_rejected id direction) = true
is_text_event (text_transfer_received id content) = true
is_text_event (text_transfer_delivered id) = true
is_text_event (text_transfer_cancelled id) = true
is_text_event (text_transfer_failed id message) = true
is_text_event _ = false

-- `str::contains`.
abbrev pub starts_with : Text → Text → Bool
starts_with s [] = true
starts_with [] (d ∷ t) = false
starts_with (c ∷ s) (d ∷ t) = c == d && starts_with s t

unfoldable pub contains : Text → Text → Bool
contains [] t = starts_with [] t
contains (c ∷ s) t = let later = contains s t in starts_with (c ∷ s) t || later

unfoldable pub friendly_text_error : Text → Text
friendly_text_error message =
    if contains message (text "timed out")
    then text "文本送达超时，请重新发送"
    else if contains message (text "metadata does not match")
        || contains message (text "exceeds the supported limit")
    then text "文本校验失败，正文未被接收"
    else if contains message (text "DataChannel") || contains message (text "channel")
    then text "点对点连接已断开，请重新发送"
    else text "文本传输失败，请重试"

-- The counts of characters and bytes of a transfer with this id.
abbrev pub text_metadata_for : Option TextTransferState → Text → Option (ℕ × ℕ)
text_metadata_for (some (text_offering id characters bytes)) transfer_id =
    if same id transfer_id then some (characters, bytes) else none
text_metadata_for (some (text_incoming id characters bytes)) transfer_id =
    if same id transfer_id then some (characters, bytes) else none
text_metadata_for (some (text_sending id characters bytes)) transfer_id =
    if same id transfer_id then some (characters, bytes) else none
text_metadata_for (some (text_receiving id characters bytes)) transfer_id =
    if same id transfer_id then some (characters, bytes) else none
text_metadata_for _ transfer_id = none

-- `(next, notice, notification)`.
pub record TextStep : Type 0 where
  pub next : TextTransferState
  pub notice : Option Text
  pub notification : Option NotificationEffect

abbrev pub quiet_step : TextTransferState → TextStep
quiet_step next = record { next = next; notice = none; notification = none }

abbrev pub noted_step : TextTransferState → Text → TextStep
noted_step next notice = record { next = next; notice = some notice; notification = none }

abbrev pub accepted_step : Text → TransferDirection → Option (ℕ × ℕ) → Option TextStep
accepted_step id direction none = none
accepted_step id send (some (characters, bytes)) =
    some (quiet_step (text_sending id characters bytes))
accepted_step id receive (some (characters, bytes)) =
    some (quiet_step (text_receiving id characters bytes))

abbrev pub delivered_step : Option (ℕ × ℕ) → Option TextStep
delivered_step none = none
delivered_step (some (characters, bytes)) =
    some (noted_step (text_delivered characters bytes) (text "文本已送达接收方"))

abbrev pub rejected_notice : TransferDirection → Text
rejected_notice send = text "接收方已拒绝文本"
rejected_notice receive = text "已拒绝接收文本"

abbrev pub received_step : Text → Text → TextStep
received_step peer_id content = record {
  next = text_received content;
  notice = some (text "文本已通过加密通道接收");
  notification = some (record {
    title = text "文本接收完成";
    body = text "文本已通过点对点加密通道送达";
    tag = text "text-received-" ++ peer_id;
  });
}

-- The `match event`; none stands for its `?`, and for the panic on an event of another kind.
unfoldable pub text_step : AppModel → Text → RtcEvent → Option TextStep
text_step model peer_id (text_outgoing_offered id characters bytes) =
    some (quiet_step (text_offering id characters bytes))
text_step model peer_id (text_incoming_offered id characters bytes) =
    some (quiet_step (text_incoming id characters bytes))
text_step model peer_id (text_transfer_accepted id direction) =
    accepted_step id direction (text_metadata_for (get peer_id model.text_transfers_by_peer) id)
text_step model peer_id (text_transfer_rejected id direction) =
    some (noted_step (text_rejected direction) (rejected_notice direction))
text_step model peer_id (text_transfer_received id content) = some (received_step peer_id content)
text_step model peer_id (text_transfer_delivered id) =
    delivered_step (text_metadata_for (get peer_id model.text_transfers_by_peer) id)
text_step model peer_id (text_transfer_cancelled id) =
    some (noted_step text_cancelled (text "文本传输已取消"))
text_step model peer_id (text_transfer_failed id message) =
    some (quiet_step (text_failed (friendly_text_error message)))
text_step model peer_id _ = none

abbrev pub notice_or : Option Text → Option Text → Option Text
notice_or none current = current
notice_or (some notice) current = some notice

abbrev pub put_text_step : AppModel → Text → Option TextStep → AppModel × Option NotificationEffect
put_text_step model peer_id none = (model, none)
put_text_step model peer_id (some step) = (
  record model {
    notice = notice_or step.notice model.notice;
    text_transfers_by_peer = insert peer_id step.next model.text_transfers_by_peer;
    text_transfer = if is_receiver_room model.screen then step.next else model.text_transfer;
  },
  step.notification,
)

unfoldable pub apply_text_event : AppModel → Text → RtcEvent → AppModel × Option NotificationEffect
apply_text_event model peer_id event = put_text_step model peer_id (text_step model peer_id event)
