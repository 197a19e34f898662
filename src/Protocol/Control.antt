-- ===== src/Protocol/Control.antt =====
-- The control messages of rust/crates/protocol/src/data_channel.rs and their validation. The text
-- of a message is read by serde_json, which is a parameter of `parse_control_message`.
pub mod Files
pub mod Fields
pub mod Accepted
pub mod Summary
use p2p_transmission.Prelude.{
  ℕ, ◌%◌, Bool, true, false, not, ◌==◌, ◌&&◌, ◌||◌, ltb, leb, if◌then◌else◌, List, [], ◌∷◌, length,
  any, all, Option, none, some, Result, ok, err, ◌>>=◌, ◌>>◌, reject_if, ok_or, map_err,
}
use p2p_transmission.Prelude.Text.{Text, text, byte_len, is_ascii_hexdigit}
use p2p_transmission.Prelude.Words.{checked_add}
use p2p_transmission.OrdMap.Map.{OrdMap, contains_key, insert}
use p2p_transmission.OrdMap.Order.{text_order}
use p2p_transmission.Protocol.Limits.{
  Checked, ProtocolError, frame_too_large, invalid_field, invalid_json, invalid_file_count,
  duplicate_file_id, transfer_too_large, offset_overflow, max_control_frame_bytes,
  max_files_per_manifest, max_buffered_transfer_bytes, max_transfer_bytes, min_stream_segment_bytes,
  max_stream_segment_bytes, max_stream_ack_window_bytes, max_chunk_bytes, max_text_transfer_chars,
  max_text_transfer_bytes, max_file_name_bytes, max_mime_bytes, max_error_message_bytes,
  validate_text, validate_token, validate_multiline_text,
}
use p2p_transmission.Protocol.Version.{ProtocolVersion, validate_version}

pub record FileManifest : Type 0 where
  pub file_id : Text
  pub name : Text
  pub mime : Option Text
  pub size_bytes : ℕ

pub data TransferMode : Type 0 where
  buffered : TransferMode
  streamed : ℕ → TransferMode

pub record ResumeCursor : Type 0 where
  pub file_id : Text
  pub committed_bytes : ℕ
  pub last_segment_blake3 : Option Text

pub record FileDigest : Type 0 where
  pub file_id : Text
  pub size_bytes : ℕ
  pub blake3 : Text

pub data CancelReason : Type 0 where
  sender_cancelled receiver_cancelled timeout peer_closed : CancelReason

pub data StreamPauseReason : Type 0 where
  destination_quota_exceeded destination_permission_denied : StreamPauseReason

-- What a message carries beside the version and the transfer id that every message has. The
-- arguments stand in the order of the source's fields.
pub data ControlBody : Type 0 where
  text_offer : ℕ → ℕ → ControlBody
  text_decision : Bool → ControlBody
  text_payload : Text → ControlBody
  text_receipt text_cancel : ControlBody
  manifest : TransferMode → List FileManifest → ControlBody
  decision : Bool → ControlBody
  start : ControlBody
  stream_ready : ℕ → ℕ → List ResumeCursor → ControlBody
  segment_commit : Text → ℕ → ℕ → ℕ → Text → ControlBody
  segment_ack : Text → ℕ → ℕ → Text → ControlBody
  stream_paused : StreamPauseReason → ControlBody
  cancel : CancelReason → ControlBody
  complete : ℕ → Text → ControlBody
  stream_complete : ℕ → List FileDigest → ControlBody
  error : Text → Text → ControlBody

pub record ControlMessage : Type 0 where
  pub version : ProtocolVersion
  pub transfer_id : Text
  pub body : ControlBody

unfoldable pub validate_blake3 : Text → Text → Checked
validate_blake3 value field =
    reject_if (not (byte_len value == 64) || not (all is_ascii_hexdigit value))
      (invalid_field field)

abbrev pub is_separator : ℕ → Bool
is_separator c = c == b'/' || c == b'\\'

abbrev pub validate_mime : Option Text → Checked
validate_mime none = ok tt
validate_mime (some mime) = validate_text mime (text "mime") max_mime_bytes

unfoldable pub validate_file : FileManifest → Checked
unfolding validate_token validate_text
validate_file file = do
  validate_token file.file_id (text "file_id")
  validate_text file.name (text "file_name") max_file_name_bytes
  reject_if (any is_separator file.name) (invalid_field (text "file_name"))
  validate_mime file.mime

-- `TransferMode::max_transfer_bytes`.
abbrev pub mode_max_bytes : TransferMode → ℕ
mode_max_bytes buffered = max_buffered_transfer_bytes
mode_max_bytes (streamed _) = max_transfer_bytes

unfoldable pub validate_mode : TransferMode → Checked
validate_mode buffered = ok tt
validate_mode (streamed segment_bytes) =
    reject_if
      (not
          (leb min_stream_segment_bytes segment_bytes && leb segment_bytes max_stream_segment_bytes)
        || not (segment_bytes % max_chunk_bytes == 0))
      (invalid_field (text "segment_bytes"))

abbrev pub validate_cursor_hash : ℕ → Option Text → Checked
validate_cursor_hash committed none =
    reject_if (not (committed == 0)) (invalid_field (text "last_segment_blake3"))
validate_cursor_hash committed (some blake3) = do
  reject_if (committed == 0) (invalid_field (text "last_segment_blake3"))
  validate_blake3 blake3 (text "last_segment_blake3")

unfoldable pub validate_cursor : ResumeCursor → Checked
unfolding validate_blake3
validate_cursor cursor = do
  validate_token cursor.file_id (text "file_id")
  reject_if (ltb max_transfer_bytes cursor.committed_bytes) transfer_too_large
  validate_cursor_hash cursor.committed_bytes cursor.last_segment_blake3

unfoldable pub validate_digest : FileDigest → Checked
validate_digest digest = do
  validate_token digest.file_id (text "file_id")
  reject_if (ltb max_transfer_bytes digest.size_bytes) transfer_too_large
  validate_blake3 digest.blake3 (text "blake3")

-- The loop that `validate_unique_files` and the check of a manifest share: every file is valid, no
-- id occurs twice, and the sizes are added up. A `BTreeSet` is a map to the unit type.
unfoldable pub add_files :
    {T : Type 0}
    → (T → Text)
    → (T → ℕ)
    → (T → Checked)
    → OrdMap Text (Unit {0})
    → ℕ
    → List T
    → Result ProtocolError ℕ
add_files file_id file_size validate ids total [] = ok total
add_files file_id file_size validate ids total (file ∷ rest) = do
  validate file
  reject_if (contains_key (file_id file) ids) duplicate_file_id
  sum ← ok_or (checked_add total (file_size file)) transfer_too_large
  add_files file_id file_size validate (insert (file_id file) tt ids) sum rest

unfoldable pub validate_unique_files :
    {T : Type 0} → List T → (T → Text) → (T → ℕ) → (T → Checked) → Result ProtocolError ℕ
validate_unique_files files file_id file_size validate = do
  reject_if (ltb max_files_per_manifest (length files)) invalid_file_count
  add_files file_id file_size validate [] 0 files

-- `files.is_empty()`.
abbrev pub no_files : {T : Type 0} → List T → Bool
no_files files = length files == 0

unfoldable pub validate_manifest : TransferMode → List FileManifest → Checked
validate_manifest mode files = do
  validate_mode mode
  reject_if (no_files files || ltb max_files_per_manifest (length files)) invalid_file_count
  total ← add_files (λ file. file.file_id) (λ file. file.size_bytes) validate_file [] 0 files
  reject_if (ltb (mode_max_bytes mode) total) transfer_too_large

unfoldable pub validate_stream_ready : ℕ → ℕ → List ResumeCursor → Checked
validate_stream_ready chunk_bytes window resume = do
  reject_if (chunk_bytes == 0 || ltb max_chunk_bytes chunk_bytes)
      (invalid_field (text "max_chunk_bytes"))
  reject_if (ltb window chunk_bytes || ltb max_stream_ack_window_bytes window)
      (invalid_field (text "ack_window_bytes"))
  total ← validate_unique_files resume (λ cursor. cursor.file_id) (λ cursor. 0) validate_cursor
  ok tt

unfoldable pub validate_stream_complete : ℕ → List FileDigest → Checked
validate_stream_complete total_bytes files = do
  reject_if (no_files files) invalid_file_count
  actual_total ←
      validate_unique_files files (λ digest. digest.file_id) (λ digest. digest.size_bytes)
        validate_digest
  reject_if (not (actual_total == total_bytes) || ltb max_transfer_bytes total_bytes)
      (invalid_field (text "total_bytes"))

unfoldable pub validate_segment_commit : Text → ℕ → ℕ → Text → Checked
validate_segment_commit file_id offset bytes blake3 = do
  validate_token file_id (text "file_id")
  reject_if (bytes == 0 || ltb max_stream_segment_bytes bytes)
      (invalid_field (text "segment_bytes"))
  end ← ok_or (checked_add offset bytes) offset_overflow
  reject_if (ltb max_transfer_bytes end) transfer_too_large
  validate_blake3 blake3 (text "blake3")

-- The `match` of `ControlMessage::validate`.
unfoldable pub validate_body : ControlBody → Checked
validate_body (text_offer character_count byte_length) = do
  reject_if (character_count == 0 || ltb max_text_transfer_chars character_count)
      (invalid_field (text "character_count"))
  reject_if (byte_length == 0 || ltb max_text_transfer_bytes byte_length)
      (invalid_field (text "byte_length"))
validate_body (text_payload value) = do
  validate_multiline_text value (text "text") max_text_transfer_bytes
  reject_if (ltb max_text_transfer_chars (length value)) (invalid_field (text "text"))
validate_body (manifest mode files) = validate_manifest mode files
validate_body (complete bytes blake3) = do
  reject_if (ltb max_buffered_transfer_bytes bytes) transfer_too_large
  validate_blake3 blake3 (text "blake3")
validate_body (stream_ready chunk_bytes window resume) =
    validate_stream_ready chunk_bytes window resume
validate_body (segment_commit file_id segment_index offset bytes blake3) =
    validate_segment_commit file_id offset bytes blake3
validate_body (segment_ack file_id segment_index committed_bytes blake3) = do
  validate_token file_id (text "file_id")
  reject_if (committed_bytes == 0 || ltb max_transfer_bytes committed_bytes)
      (invalid_field (text "committed_bytes"))
  validate_blake3 blake3 (text "blake3")
validate_body (stream_complete total_bytes files) = validate_stream_complete total_bytes files
validate_body (error code message) = do
  validate_token code (text "error_code")
  validate_text message (text "error_message") max_error_message_bytes
validate_body _ = ok tt

unfoldable pub validate_message : ControlMessage → Checked
validate_message message = do
  validate_version message.version
  validate_token message.transfer_id (text "transfer_id")
  validate_body message.body

-- `from_str` is `serde_json::from_str` with the text of its error.
unfoldable pub parse_control_message :
    (Text → Result Text ControlMessage) → Text → Result ProtocolError ControlMessage
parse_control_message from_str input = do
  reject_if (ltb max_control_frame_bytes (byte_len input))
      (frame_too_large (byte_len input) max_control_frame_bytes)
  message ← map_err invalid_json (from_str input)
  validate_message message
  ok message
