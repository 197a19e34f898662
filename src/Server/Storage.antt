-- ===== src/Server/Storage.antt =====
-- rust/apps/server/src/storage: how rooms are written to rows and read from them. SQLite keeps the rows;
-- a row here has the values of its columns as `try_get` gives them.
pub mod Database
pub mod Rows
pub mod Writing
pub mod RoundTrip
pub mod Sessions
use p2p_transmission.Prelude.{
  ℕ, ◌-◌, ◌+◌, min, Bool, true, false, leb, if◌then◌else◌, Option, none, some, List, [], ◌∷◌,
  Result, ok, err, ◌>>=◌, ◌>>◌, map_err,
}
use p2p_transmission.Prelude.Text.{Text, text}
use p2p_transmission.OrdMap.Order.{text_order, same}
use p2p_transmission.Domain.Ids.{
  IdError, RoomCodeError, parse_id, parse_room_code, SessionId, RoomId, RoomCode, RequestId,
}
use p2p_transmission.Domain.Session.{DisplayNameError}
use p2p_transmission.Domain.Time.{EpochMillis, Revision}
use p2p_transmission.Domain.Room.State.{
  RoomState, active, expired, MembershipRole, owner, receiver, MembershipState, offline, online,
  left, JoinRequestState, pending, approved, rejected, cancelled, request_expired, Room, RoomError,
}
use p2p_transmission.Domain.Room.Restore.{
  RoomRestoreError, RoomMembershipSnapshot, RoomJoinRequestSnapshot, membership_snapshots,
  join_request_snapshots, restore,
}

-- An INTEGER of SQLite; `negative n` is -n - 1.
pub data SqlInteger : Type 0 where
  nonnegative negative : ℕ → SqlInteger

-- What the message of corrupt data is formatted from.
pub data CorruptData : Type 0 where
  unknown_text : Text → Text → CorruptData
  invalid_id : Text → Text → IdError → CorruptData
  invalid_code : Text → Text → RoomCodeError → CorruptData
  invalid_name : Text → Text → DisplayNameError → CorruptData
  negative_value : Text → SqlInteger → CorruptData
  invalid_combination : CorruptData

-- The errors of the libraries are their texts.
pub data StorageError : Type 0 where
  create_directory database migration invalid_configuration : Text → StorageError
  integer_out_of_range : ℕ → StorageError
  corrupt_data : CorruptData → StorageError
  corrupt_room : RoomRestoreError → StorageError
  room_not_found unique_conflict foreign_key_violation : StorageError
  revision_conflict : ℕ → ℕ → StorageError
  room : RoomError → StorageError

abbrev pub i64_max : ℕ
i64_max = 9223372036854775807

unfoldable pub sql_integer : ℕ → Result StorageError SqlInteger
sql_integer value =
    if leb value i64_max then ok (nonnegative value) else err (integer_out_of_range value)

abbrev pub unsigned_sql_integer : SqlInteger → Text → Result StorageError ℕ
unsigned_sql_integer (nonnegative n) field = ok n
unsigned_sql_integer (negative n) field = err (corrupt_data (negative_value field (negative n)))

abbrev pub room_state_text : RoomState → Text
room_state_text active = text "active"
room_state_text expired = text "expired"

unfoldable pub parse_room_state : Text → Result StorageError RoomState
parse_room_state value =
    if same value (text "active")
    then ok active
    else if same value (text "expired")
    then ok expired
    else err (corrupt_data (unknown_text (text "rooms.state") value))

abbrev pub membership_role_text : MembershipRole → Text
membership_role_text owner = text "owner"
membership_role_text receiver = text "receiver"

unfoldable pub parse_membership_role : Text → Result StorageError MembershipRole
parse_membership_role value =
    if same value (text "owner")
    then ok owner
    else if same value (text "receiver")
    then ok receiver
    else err (corrupt_data (unknown_text (text "room_members.role") value))

abbrev pub membership_state_parts : MembershipState → Text × Option Text
membership_state_parts offline = (text "offline", none)
membership_state_parts (online peer_id) = (text "online", some peer_id)
membership_state_parts left = (text "left", none)

abbrev pub join_request_state_text : JoinRequestState → Text
join_request_state_text pending = text "pending"
join_request_state_text approved = text "approved"
join_request_state_text rejected = text "rejected"
join_request_state_text cancelled = text "cancelled"
join_request_state_text request_expired = text "expired"

unfoldable pub parse_join_request_state : Text → Result StorageError JoinRequestState
parse_join_request_state value =
    if same value (text "pending")
    then ok pending
    else if same value (text "approved")
    then ok approved
    else if same value (text "rejected")
    then ok rejected
    else if same value (text "cancelled")
    then ok cancelled
    else if same value (text "expired")
    then ok request_expired
    else err (corrupt_data (unknown_text (text "join_requests.state") value))

-- `T::parse(value.clone()).map_err(|error| corrupt(field, value, error))`.
abbrev pub decode_id : Text → Text → Text → Result StorageError Text
decode_id kind field value =
    map_err (λ (e : IdError). corrupt_data (invalid_id field value e)) (parse_id kind value)

abbrev pub decode_code : Text → Result StorageError RoomCode
decode_code value =
    map_err (λ (e : RoomCodeError). corrupt_data (invalid_code (text "rooms.code") value e))
      (parse_room_code value)

pub record RoomRow : Type 0 where
  pub id : Text
  pub code : Text
  pub owner_session_id : Text
  pub state : Text
  pub revision : SqlInteger
  pub created_at_ms : SqlInteger
  pub expires_at_ms : SqlInteger
  pub updated_at_ms : SqlInteger

pub record MemberRow : Type 0 where
  pub session_id : Text
  pub role : Text
  pub state : Text
  pub peer_id : Option Text
  pub created_at_ms : SqlInteger
  pub updated_at_ms : SqlInteger

pub record RequestRow : Type 0 where
  pub id : Text
  pub session_id : Text
  pub state : Text
  pub created_at_ms : SqlInteger
  pub expires_at_ms : SqlInteger
  pub updated_at_ms : SqlInteger

pub record DecodedRoom : Type 0 where
  pub id : RoomId
  pub code : RoomCode
  pub owner : SessionId
  pub state : RoomState
  pub revision : Revision
  pub expires_at : EpochMillis

unfoldable pub decode_room : RoomRow → Result StorageError DecodedRoom
decode_room row = do
  id ← decode_id (text "room id") (text "rooms.id") row.id
  code ← decode_code row.code
  owner_id ← decode_id (text "session id") (text "rooms.owner_session_id") row.owner_session_id
  state ← parse_room_state row.state
  revision ← unsigned_sql_integer row.revision (text "rooms.revision")
  expires_at ← unsigned_sql_integer row.expires_at_ms (text "rooms.expires_at_ms")
  ok (record {
    id = id;
    code = code;
    owner = owner_id;
    state = state;
    revision = revision;
    expires_at = expires_at;
  })

-- The `match` on the text of the state and the peer.
unfoldable pub decode_membership_state : Text → Option Text → Result StorageError MembershipState
decode_membership_state state none =
    if same state (text "offline")
    then ok offline
    else if same state (text "left")
    then ok left
    else err (corrupt_data invalid_combination)
decode_membership_state state (some peer) =
    if same state (text "online")
    then (do
      peer_id ← decode_id (text "peer id") (text "room_members.peer_id") peer
      ok (online peer_id))
    else err (corrupt_data invalid_combination)

unfoldable pub decode_membership : MemberRow → Result StorageError RoomMembershipSnapshot
decode_membership row = do
  session_id ← decode_id (text "session id") (text "room_members.session_id") row.session_id
  role ← parse_membership_role row.role
  state ← decode_membership_state row.state row.peer_id
  ok (record { session_id = session_id; role = role; state = state })

unfoldable pub decode_join_request : RequestRow → Result StorageError RoomJoinRequestSnapshot
decode_join_request row = do
  request_id ← decode_id (text "request id") (text "join_requests.id") row.id
  session_id ← decode_id (text "session id") (text "join_requests.session_id") row.session_id
  state ← parse_join_request_state row.state
  expires_at ← unsigned_sql_integer row.expires_at_ms (text "join_requests.expires_at_ms")
  ok (record {
    request_id = request_id;
    session_id = session_id;
    expires_at = expires_at;
    state = state;
  })
