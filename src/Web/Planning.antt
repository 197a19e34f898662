-- ===== src/Web/Planning.antt =====
-- rust/apps/web/src/rtc_transfer_events/transition: what is planned for each event of a transfer, and
-- how a plan is applied. The decimal digits of a count are written by the standard library, a
-- parameter.
use p2p_transmission.Prelude.{
  ℕ, max, Bool, true, false, not, ◌==◌, if◌then◌else◌, Option, none, some, List, length, ◌++◌,
}
use p2p_transmission.Prelude.Text.{Text, text}
use p2p_transmission.OrdMap.Map.{get}
use p2p_transmission.OrdMap.Order.{text_order, same}
use p2p_transmission.Transfer.{TransferDirection, send, receive, TransferFile}
use p2p_transmission.Protocol.Control.{TransferMode, buffered, streamed, StreamPauseReason}
use p2p_transmission.Web.State.{
  link_ready, ActiveTransfer, TransferState, idle, offering, outgoing_recovery, incoming, active,
  rejected, completed, cancelled, failed_transfer,
}
use p2p_transmission.Web.Model.{AppModel}
use p2p_transmission.Web.Aggregate.{put_transfer}
use p2p_transmission.Web.Rtc.{is_none}
use p2p_transmission.Web.Events.{
  RtcEvent, outgoing_offered, outgoing_recovery_offered, incoming_offered, transfer_started,
  transfer_progress, awaiting_verification, transfer_rejected, transfer_completed,
  transfer_cancelled, transfer_paused, transfer_failed, NotificationEffect, TransferMutation,
  set_transfer, progress, PlannedTransferEvent, no_plan, plan_transfer,
}
use p2p_transmission.Web.Progress.{plan_progress, apply_peer_transfer_progress}

-- rust/apps/web/src/transfer_presentation.rs.
abbrev pub transfer_file : TransferState → Option TransferFile
transfer_file (offering id file files) = some file
transfer_file (outgoing_recovery id file files) = some file
transfer_file (incoming id mode file files available) = some file
transfer_file (active a) = some a.file
transfer_file (rejected direction file files) = some file
transfer_file (completed direction file files blake3 url) = some file
transfer_file (cancelled file reason) = file
transfer_file (failed_transfer file message) = file
transfer_file idle = none

abbrev pub is_streamed : TransferMode → Bool
is_streamed (streamed segment_bytes) = true
is_streamed buffered = false

abbrev pub transfer_is_streamed : TransferState → Bool
transfer_is_streamed (outgoing_recovery id file files) = true
transfer_is_streamed (incoming id mode file files available) = is_streamed mode
transfer_is_streamed (active a) = a.streamed
transfer_is_streamed (completed receive file files blake3 url) = is_none url
transfer_is_streamed _ = false

-- `transfers_by_peer.get(&peer_id).and_then(transfer_file)`.
abbrev pub file_of : Option TransferState → Option TransferFile
file_of none = none
file_of (some transfer) = transfer_file transfer

abbrev pub streams : Option TransferState → Bool
streams none = false
streams (some transfer) = transfer_is_streamed transfer

-- The bytes of an active transfer with the same id, or 0.
abbrev pub bytes_so_far : Text → Option TransferState → ℕ
bytes_so_far transfer_id (some (active a)) =
    if same a.transfer_id transfer_id then a.completed_bytes else 0
bytes_so_far transfer_id _ = 0

module _ (to_string : ℕ → Text) where
  abbrev pub file_count : List TransferFile → ℕ
  file_count files = max (length files) 1

  unfoldable pub plan_incoming :
      Text → Text → TransferMode → TransferFile → List TransferFile → Bool → PlannedTransferEvent
  plan_incoming peer_id transfer_id mode file files available = record {
    mutation =
        some (set_transfer peer_id (incoming transfer_id mode file files available) none false);
    notification = some (record {
      title = text "收到文件请求";
      body =
          if file_count files == 1
          then text "收到文件：" ++ file.name
          else text "收到 " ++ file.name ++ text " 等 " ++ to_string (file_count files) ++ text " 个文件";
      tag = text "file-" ++ transfer_id;
    });
  }

  abbrev pub completed_notice : TransferDirection → Option Text → Text
  completed_notice send url = text "文件已发送并通过接收端校验"
  completed_notice receive none = text "文件已保存并通过完整性校验"
  completed_notice receive (some url) = text "文件已接收并通过完整性校验"

  abbrev pub completed_notification :
      Text → TransferDirection → TransferFile → List TransferFile → Option NotificationEffect
  completed_notification peer_id send file files = none
  completed_notification peer_id receive file files = some (record {
    title = text "文件接收完成";
    body =
        if file_count files == 1
        then file.name ++ text " 已通过完整性校验"
        else to_string (file_count files) ++ text " 个文件已通过完整性校验";
    tag = text "file-received-" ++ peer_id;
  })

  unfoldable pub plan_completed :
      Text
      → TransferDirection
      → TransferFile
      → List TransferFile
      → Text
      → Option Text
      → PlannedTransferEvent
  plan_completed peer_id direction file files blake3 url = record {
    mutation = some (
        set_transfer peer_id (completed direction file files blake3 url)
          (some (completed_notice direction url)) false);
    notification = completed_notification peer_id direction file files;
  }

abbrev pub started_transfer :
    Option TransferState
    → Text
    → TransferDirection
    → TransferMode
    → TransferFile
    → List TransferFile
    → ActiveTransfer
started_transfer current transfer_id direction mode file files = record {
  transfer_id = transfer_id;
  direction = direction;
  streamed = is_streamed mode;
  file = file;
  files = files;
  completed_bytes = bytes_so_far transfer_id current;
  awaiting_verification = false;
  link_state = link_ready;
  storage_pause = none;
}

abbrev pub verified_transfer :
    Option TransferState → Text → TransferFile → List TransferFile → ActiveTransfer
verified_transfer current transfer_id file files = record {
  transfer_id = transfer_id;
  direction = send;
  streamed = streams current;
  file = file;
  files = files;
  completed_bytes = file.size_bytes;
  awaiting_verification = true;
  link_state = link_ready;
  storage_pause = none;
}

abbrev pub pause_notice : TransferDirection → Text
pause_notice receive = text "传输已暂停，最后一个校验检查点已保留"
pause_notice send = text "接收方已暂停传输，当前进度已保留"

abbrev pub paused_transfer :
    ActiveTransfer → TransferDirection → StreamPauseReason → ℕ → ActiveTransfer
paused_transfer a direction reason bytes = record a {
  direction = direction;
  completed_bytes = bytes;
  awaiting_verification = false;
  link_state = link_ready;
  storage_pause = some reason;
}

unfoldable pub plan_pause :
    Option TransferState
    → Text
    → Text
    → TransferDirection
    → StreamPauseReason
    → ℕ
    → PlannedTransferEvent
plan_pause (some (active a)) peer_id transfer_id direction reason bytes =
    if not (same a.transfer_id transfer_id) then no_plan else record {
      mutation = some (
          set_transfer peer_id (active (paused_transfer a direction reason bytes))
            (some (pause_notice direction)) true);
      notification = none;
    }
plan_pause _ peer_id transfer_id direction reason bytes = no_plan

-- None stands for the panic of `unreachable!`.
unfoldable pub plan_transfer_event :
    (ℕ → Text) → AppModel → Text → RtcEvent → Option PlannedTransferEvent
plan_transfer_event to_string model peer_id (outgoing_offered id file files) =
    some (plan_transfer peer_id (offering id file files))
plan_transfer_event to_string model peer_id (outgoing_recovery_offered id file files) =
    some (plan_transfer peer_id (outgoing_recovery id file files))
plan_transfer_event to_string model peer_id (incoming_offered id mode file files available) =
    some (plan_incoming to_string peer_id id mode file files available)
plan_transfer_event to_string model peer_id (transfer_started id direction mode file files) = some (
    plan_transfer peer_id (
      active (started_transfer (get peer_id model.transfers_by_peer) id direction mode file files)))
plan_transfer_event to_string model peer_id (awaiting_verification id file files) = some (
    plan_transfer peer_id
      (active (verified_transfer (get peer_id model.transfers_by_peer) id file files)))
plan_transfer_event to_string model peer_id (transfer_progress id direction bytes total) =
    some (plan_progress model peer_id id direction bytes)
plan_transfer_event to_string model peer_id (transfer_paused id direction reason bytes total) =
    some (plan_pause (get peer_id model.transfers_by_peer) peer_id id direction reason bytes)
plan_transfer_event to_string model peer_id (transfer_rejected id direction file files) =
    some (plan_transfer peer_id (rejected direction file files))
plan_transfer_event to_string model peer_id (transfer_completed id direction file files hash url) =
    some (plan_completed to_string peer_id direction file files hash url)
plan_transfer_event to_string model peer_id (transfer_cancelled id reason) =
    some (plan_transfer peer_id (cancelled (file_of (get peer_id model.transfers_by_peer)) reason))
plan_transfer_event to_string model peer_id (transfer_failed id message) = some (
    plan_transfer peer_id (failed_transfer (file_of (get peer_id model.transfers_by_peer)) message))
plan_transfer_event to_string model peer_id _ = none

abbrev pub with_notice : AppModel → Option Text → AppModel
with_notice model none = model
with_notice model (some notice) = record model { notice = some notice }

abbrev pub with_clear_error : AppModel → Bool → AppModel
with_clear_error model false = model
with_clear_error model true = record model { error = none }

-- `set_peer_transfer` of the source is `put_transfer`.
unfoldable pub apply_mutation : AppModel → Option TransferMutation → AppModel
apply_mutation model none = model
apply_mutation model (some (set_transfer peer_id transfer notice clear_error)) =
    put_transfer (with_notice (with_clear_error model clear_error) notice) peer_id transfer
apply_mutation model (some (progress peer_id transfer_id direction bytes)) =
    (apply_peer_transfer_progress model peer_id transfer_id direction bytes).0
