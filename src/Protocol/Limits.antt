-- ===== src/Protocol/Limits.antt =====
-- rust/crates/protocol/src/limits.rs: the limits, the errors and the field validators. The name of a
-- field in an error is a text.
use p2p_transmission.Prelude.{
  ℕ, ◌*◌, Bool, not, ◌==◌, ◌&&◌, ◌||◌, ltb, length, any, all, Result, ◌>>◌, reject_if,
}
use p2p_transmission.Prelude.Text.{Text, text, byte_len, trim, is_ascii_alphanumeric, is_control}

abbrev pub max_json_frame_bytes : ℕ
max_json_frame_bytes = 64 * 1024

abbrev pub max_http_body_bytes : ℕ
max_http_body_bytes = 64 * 1024

abbrev pub max_signal_bytes : ℕ
max_signal_bytes = 32 * 1024

abbrev pub max_control_frame_bytes : ℕ
max_control_frame_bytes = 64 * 1024

abbrev pub max_files_per_manifest : ℕ
max_files_per_manifest = 10

abbrev pub max_buffered_transfer_bytes : ℕ
max_buffered_transfer_bytes = 100 * 1024 * 1024

abbrev pub max_transfer_bytes : ℕ
max_transfer_bytes = 5 * 1024 * 1024 * 1024

abbrev pub min_stream_segment_bytes : ℕ
min_stream_segment_bytes = 1024 * 1024

abbrev pub max_stream_segment_bytes : ℕ
max_stream_segment_bytes = 16 * 1024 * 1024

abbrev pub max_stream_ack_window_bytes : ℕ
max_stream_ack_window_bytes = 64 * 1024 * 1024

abbrev pub max_chunk_bytes : ℕ
max_chunk_bytes = 64 * 1024

abbrev pub max_display_name_chars : ℕ
max_display_name_chars = 48

abbrev pub max_text_transfer_chars : ℕ
max_text_transfer_chars = 500

abbrev pub max_text_transfer_bytes : ℕ
max_text_transfer_bytes = 4 * 1024

abbrev pub max_id_bytes : ℕ
max_id_bytes = 64

abbrev pub max_file_name_bytes : ℕ
max_file_name_bytes = 1024

abbrev pub max_mime_bytes : ℕ
max_mime_bytes = 128

abbrev pub max_error_message_bytes : ℕ
max_error_message_bytes = 512

pub data ProtocolError : Type 0 where
  frame_too_large : ℕ → ℕ → ProtocolError
  unsupported_version : ℕ → ℕ → ProtocolError
  empty_field : Text → ProtocolError
  field_too_long : Text → ℕ → ℕ → ProtocolError
  invalid_field : Text → ProtocolError
  invalid_json : Text → ProtocolError
  invalid_file_count duplicate_file_id transfer_too_large binary_frame_too_short : ProtocolError
  invalid_magic : ProtocolError
  unsupported_frame_type : ℕ → ProtocolError
  chunk_too_large binary_length_mismatch offset_overflow : ProtocolError

abbrev pub Checked : Type 0
Checked = Result ProtocolError (Unit {0})

abbrev pub is_empty : Text → Bool
is_empty value = byte_len value == 0

unfoldable pub validate_text : Text → Text → ℕ → Checked
validate_text value field max_bytes = do
  reject_if (is_empty value) (empty_field field)
  reject_if (ltb max_bytes (byte_len value)) (field_too_long field (byte_len value) max_bytes)
  reject_if (any is_control value) (invalid_field field)

abbrev pub is_token_char : ℕ → Bool
is_token_char c = is_ascii_alphanumeric c || c == b'_' || c == b'-'

unfoldable pub validate_token : Text → Text → Checked
unfolding validate_text
validate_token value field = do
  validate_text value field max_id_bytes
  reject_if (any (λ c. not (is_token_char c)) value) (invalid_field field)

unfoldable pub validate_room_code : Text → Checked
validate_room_code value =
    reject_if (not (byte_len value == 6) || not (all is_ascii_alphanumeric value))
      (invalid_field (text "room_code"))

unfoldable pub validate_display_name : Text → Checked
validate_display_name input = do
  let value = trim input
  reject_if (is_empty value) (empty_field (text "display_name"))
  reject_if (ltb max_display_name_chars (length value)) (invalid_field (text "display_name"))
  reject_if (any is_control value) (invalid_field (text "display_name"))

abbrev pub is_line_char : ℕ → Bool
is_line_char c = c == 13 || c == 10 || c == 9

unfoldable pub validate_multiline_text : Text → Text → ℕ → Checked
validate_multiline_text value field max_bytes = do
  reject_if (is_empty value) (empty_field field)
  reject_if (ltb max_bytes (byte_len value)) (field_too_long field (byte_len value) max_bytes)
  reject_if (any (λ c. is_control c && not (is_line_char c)) value) (invalid_field field)
