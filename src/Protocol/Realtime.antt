-- ===== src/Protocol/Realtime.antt =====
-- rust/crates/protocol/src/realtime.rs: the messages between a browser and the server over a
-- WebSocket. The arguments of a message stand in the order of the source's fields. The text of a
-- message is read by serde_json, which is a parameter of `parse_client_message`.
pub mod Accepted
use p2p_transmission.Prelude.{
  ℕ, Bool, ltb, List, Option, none, some, Result, ok, err, ◌>>=◌, ◌>>◌, reject_if, map_err,
}
use p2p_transmission.Prelude.Text.{Text, text, byte_len}
use p2p_transmission.Protocol.Limits.{
  Checked, ProtocolError, frame_too_large, invalid_json, max_json_frame_bytes, max_signal_bytes,
  max_error_message_bytes, validate_text, validate_token, validate_room_code,
  validate_multiline_text,
}
use p2p_transmission.Protocol.Version.{ProtocolVersion, validate_version}

pub data Signal : Type 0 where
  offer : Text → Signal
  answer : Text → Signal
  ice_candidate : Text → Option Text → Option ℕ → Signal

abbrev pub validate_sdp_mid : Option Text → Checked
validate_sdp_mid none = ok tt
validate_sdp_mid (some sdp_mid) = validate_text sdp_mid (text "sdp_mid") 256

unfoldable pub validate_signal : Signal → Checked
validate_signal (offer sdp) = validate_multiline_text sdp (text "sdp") max_signal_bytes
validate_signal (answer sdp) = validate_multiline_text sdp (text "sdp") max_signal_bytes
validate_signal (ice_candidate candidate sdp_mid sdp_m_line_index) = do
  validate_text candidate (text "candidate") max_signal_bytes
  validate_sdp_mid sdp_mid

pub data ClientRealtimeMessage : Type 0 where
  attach_room : ProtocolVersion → Text → Text → Option ℕ → ClientRealtimeMessage
  watch_join_request : ProtocolVersion → Text → Text → Option ℕ → ClientRealtimeMessage
  detach_room : ProtocolVersion → Text → ClientRealtimeMessage
  signal : ProtocolVersion → Text → Text → Text → Signal → ClientRealtimeMessage
  heartbeat : ProtocolVersion → Text → ClientRealtimeMessage
  ack_event : ProtocolVersion → Text → ClientRealtimeMessage

abbrev pub client_version : ClientRealtimeMessage → ProtocolVersion
client_version (attach_room version _ _ _) = version
client_version (watch_join_request version _ _ _) = version
client_version (detach_room version _) = version
client_version (signal version _ _ _ _) = version
client_version (heartbeat version _) = version
client_version (ack_event version _) = version

-- The second `match` of `ClientRealtimeMessage::validate`.
unfoldable pub validate_client_fields : ClientRealtimeMessage → Checked
validate_client_fields (attach_room version room_code peer_id last_revision) = do
  validate_room_code room_code
  validate_token peer_id (text "peer_id")
validate_client_fields (watch_join_request version room_code request_id last_revision) = do
  validate_room_code room_code
  validate_token request_id (text "request_id")
validate_client_fields (detach_room version room_code) = validate_room_code room_code
validate_client_fields (signal version room_code to_peer_id negotiation_id body) = do
  validate_room_code room_code
  validate_token to_peer_id (text "to_peer_id")
  validate_token negotiation_id (text "negotiation_id")
  validate_signal body
validate_client_fields (heartbeat version nonce) = validate_token nonce (text "nonce")
validate_client_fields (ack_event version event_id) = validate_token event_id (text "event_id")

unfoldable pub validate_client : ClientRealtimeMessage → Checked
validate_client message = do
  validate_version (client_version message)
  validate_client_fields message

-- `from_str` is `serde_json::from_str` with the text of its error.
unfoldable pub parse_client_message :
    (Text → Result Text ClientRealtimeMessage) → Text → Result ProtocolError ClientRealtimeMessage
parse_client_message from_str input = do
  reject_if (ltb max_json_frame_bytes (byte_len input))
      (frame_too_large (byte_len input) max_json_frame_bytes)
  message ← map_err invalid_json (from_str input)
  validate_client message
  ok message

pub data ParticipantRoleWire : Type 0 where
  owner receiver : ParticipantRoleWire

pub record ParticipantSnapshot : Type 0 where
  pub session_id : Text
  pub display_name : Text
  pub role : ParticipantRoleWire
  pub online : Bool
  pub peer_id : Option Text

pub data JoinDecisionWire : Type 0 where
  approved rejected : JoinDecisionWire

pub record JoinRequestSnapshot : Type 0 where
  pub request_id : Text
  pub session_id : Text
  pub display_name : Text
  pub expires_at_ms : ℕ

pub data ServerRealtimeMessage : Type 0 where
  attached : ProtocolVersion → Text → Text → ℕ → ServerRealtimeMessage
  join_watching : ProtocolVersion → Text → Text → Text → ℕ → ServerRealtimeMessage
  room_snapshot :
      ProtocolVersion
      → Text
      → Text
      → Text
      → ℕ
      → ℕ
      → List ParticipantSnapshot
      → List JoinRequestSnapshot
      → ServerRealtimeMessage
  join_requested : ProtocolVersion → Text → ℕ → JoinRequestSnapshot → ServerRealtimeMessage
  join_decided : ProtocolVersion → Text → ℕ → Text → JoinDecisionWire → ServerRealtimeMessage
  peer_online : ProtocolVersion → Text → ℕ → Text → Text → ServerRealtimeMessage
  peer_offline : ProtocolVersion → Text → ℕ → Text → ServerRealtimeMessage
  server_signal : ProtocolVersion → Text → Text → Text → Signal → ServerRealtimeMessage
  room_expired : ProtocolVersion → Text → ℕ → ServerRealtimeMessage
  server_error : ProtocolVersion → Text → Text → Bool → ServerRealtimeMessage

abbrev pub server_version : ServerRealtimeMessage → ProtocolVersion
server_version (attached version _ _ _) = version
server_version (join_watching version _ _ _ _) = version
server_version (room_snapshot version _ _ _ _ _ _ _) = version
server_version (join_requested version _ _ _) = version
server_version (join_decided version _ _ _ _) = version
server_version (peer_online version _ _ _ _) = version
server_version (peer_offline version _ _ _) = version
server_version (server_signal version _ _ _ _) = version
server_version (room_expired version _ _) = version
server_version (server_error version _ _ _) = version

unfoldable pub validate_server_fields : ServerRealtimeMessage → Checked
validate_server_fields (server_signal version event_id from_peer_id negotiation_id body) = do
  validate_token event_id (text "event_id")
  validate_token from_peer_id (text "from_peer_id")
  validate_token negotiation_id (text "negotiation_id")
  validate_signal body
validate_server_fields (server_error version code message retryable) = do
  validate_token code (text "error_code")
  validate_text message (text "error_message") max_error_message_bytes
validate_server_fields _ = ok tt

unfoldable pub validate_server : ServerRealtimeMessage → Checked
validate_server message = do
  validate_version (server_version message)
  validate_server_fields message
