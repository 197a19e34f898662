-- ===== src/Protocol/Http.antt =====
-- rust/crates/protocol/src/http.rs: the bodies of the requests and responses of the server. The bytes
-- of a body are read by serde_json, which is a parameter of `parse_http_body`.
use p2p_transmission.Prelude.{
  ℕ, Bool, ◌==◌, ltb, List, length, Option, none, some, Result, ok, ◌>>=◌, ◌>>◌, reject_if, map_err,
}
use p2p_transmission.Prelude.Text.{Text, text}
use p2p_transmission.Protocol.Limits.{
  Checked, ProtocolError, frame_too_large, invalid_json, invalid_field, max_http_body_bytes,
  validate_text, validate_token, validate_room_code, validate_display_name,
}
use p2p_transmission.Protocol.Version.{ProtocolVersion, validate_version}
use p2p_transmission.Protocol.Realtime.{ParticipantSnapshot, JoinRequestSnapshot}

abbrev pub max_public_error_message_bytes : ℕ
max_public_error_message_bytes = 512

pub record CreateSessionRequest : Type 0 where
  pub version : ProtocolVersion
  pub display_name : Text

unfoldable pub validate_create_session : CreateSessionRequest → Checked
validate_create_session request = do
  validate_version request.version
  validate_display_name request.display_name

pub record SessionResponse : Type 0 where
  pub version : ProtocolVersion
  pub session_id : Text
  pub display_name : Text
  pub expires_at_ms : ℕ

pub record CreateRoomRequest : Type 0 where
  pub version : ProtocolVersion
  pub request_id : Text

pub record CreateRoomResponse : Type 0 where
  pub version : ProtocolVersion
  pub room_id : Text
  pub room_code : Text
  pub revision : ℕ
  pub expires_at_ms : ℕ

unfoldable pub validate_create_room : CreateRoomRequest → Checked
validate_create_room request = do
  validate_version request.version
  validate_token request.request_id (text "request_id")

unfoldable pub validate_optional_revision : Option ℕ → Checked
validate_optional_revision none = ok tt
validate_optional_revision (some revision) =
    reject_if (revision == 0) (invalid_field (text "expected_revision"))

abbrev pub validate_optional_token : Option Text → Text → Checked
validate_optional_token none field = ok tt
validate_optional_token (some value) field = validate_token value field

pub record RequestJoinRequest : Type 0 where
  pub version : ProtocolVersion
  pub request_id : Text
  pub room_code : Text
  pub expected_revision : Option ℕ
  pub invite_capability : Option Text

unfoldable pub validate_request_join : RequestJoinRequest → Checked
validate_request_join request = do
  validate_version request.version
  validate_token request.request_id (text "request_id")
  validate_room_code request.room_code
  validate_optional_revision request.expected_revision
  validate_optional_token request.invite_capability (text "invite_capability")

pub data JoinDecisionRequest : Type 0 where
  approve reject : JoinDecisionRequest

pub record DecideJoinRequest : Type 0 where
  pub version : ProtocolVersion
  pub request_id : Text
  pub decision : JoinDecisionRequest
  pub expected_revision : Option ℕ

unfoldable pub validate_decide_join : DecideJoinRequest → Checked
validate_decide_join request = do
  validate_version request.version
  validate_token request.request_id (text "request_id")
  validate_optional_revision request.expected_revision

pub record LeaveRoomRequest : Type 0 where
  pub version : ProtocolVersion
  pub request_id : Text
  pub expected_revision : Option ℕ

unfoldable pub validate_leave_room : LeaveRoomRequest → Checked
validate_leave_room request = do
  validate_version request.version
  validate_token request.request_id (text "request_id")
  validate_optional_revision request.expected_revision

pub data JoinRequestStateWire : Type 0 where
  pending approved rejected cancelled expired : JoinRequestStateWire

pub record JoinRequestResponse : Type 0 where
  pub version : ProtocolVersion
  pub room_id : Text
  pub request_id : Text
  pub state : JoinRequestStateWire
  pub revision : ℕ
  pub expires_at_ms : ℕ

pub record RoomMutationResponse : Type 0 where
  pub version : ProtocolVersion
  pub room_id : Text
  pub revision : ℕ

pub record CreateInviteRequest : Type 0 where
  pub version : ProtocolVersion
  pub request_id : Text

unfoldable pub validate_create_invite : CreateInviteRequest → Checked
validate_create_invite request = do
  validate_version request.version
  validate_token request.request_id (text "request_id")

pub record CreateInviteResponse : Type 0 where
  pub version : ProtocolVersion
  pub room_code : Text
  pub capability : Text
  pub expires_at_ms : ℕ

pub record RoomBootstrapResponse : Type 0 where
  pub version : ProtocolVersion
  pub room_id : Text
  pub room_code : Text
  pub revision : ℕ
  pub expires_at_ms : ℕ
  pub participants : List ParticipantSnapshot
  pub pending_join_requests : List JoinRequestSnapshot

pub record IceServer : Type 0 where
  pub urls : List Text
  pub username : Option Text
  pub credential : Option Text

pub record RtcConfigResponse : Type 0 where
  pub version : ProtocolVersion
  pub ice_servers : List IceServer
  pub expires_at_ms : ℕ
  pub ttl_ms : ℕ

pub data ApiErrorCode : Type 0 where
  upgrade_required invalid_request unauthorized forbidden not_found conflict : ApiErrorCode
  rate_limited unavailable internal : ApiErrorCode

pub record ApiErrorBody : Type 0 where
  pub code : ApiErrorCode
  pub message : Text
  pub request_id : Option Text
  pub retryable : Bool

unfoldable pub validate_error_body : ApiErrorBody → Checked
validate_error_body body = do
  validate_text body.message (text "error_message") max_public_error_message_bytes
  validate_optional_token body.request_id (text "request_id")

pub record ErrorEnvelope : Type 0 where
  pub error : ApiErrorBody

-- `from_slice` is `serde_json::from_slice` with the text of its error.
unfoldable pub parse_http_body :
    {T : Type 0} → (T → Checked) → (List ℕ → Result Text T) → List ℕ → Result ProtocolError T
parse_http_body validate from_slice input = do
  reject_if (ltb max_http_body_bytes (length input))
      (frame_too_large (length input) max_http_body_bytes)
  value ← map_err invalid_json (from_slice input)
  validate value
  ok value
