-- ===== src/Server/Storage/Rows.antt =====
-- rust/apps/server/src/storage/mod.rs: the rows that the statements of `insert_room` and
-- `persist_room_children` bind for a new room, and the room that `load_room_on` builds from what its three
-- queries give. The id of the request that created the room and the room's id in the rows of its children
-- select rows only and are not kept.
use p2p_transmission.Prelude.{ℕ, ◌-◌, min, List, [], ◌∷◌, Result, ok, ◌>>=◌, ◌>>◌, map_err}
use p2p_transmission.Domain.Ids.{RoomId, RequestId}
use p2p_transmission.Domain.Room.State.{Room}
use p2p_transmission.Domain.Room.Restore.{
  RoomMembershipSnapshot, RoomJoinRequestSnapshot, membership_snapshots, join_request_snapshots,
  restore,
}
use p2p_transmission.Server.Storage.{
  StorageError, corrupt_room, sql_integer, room_state_text, membership_role_text,
  membership_state_parts, join_request_state_text, RoomRow, MemberRow, RequestRow, decode_room,
  decode_membership, decode_join_request,
}
use p2p_transmission.Server.Storage.Database.{
  Database, insert_room_row, upsert_member, upsert_request, execute, committed,
}

unfoldable pub room_row : Room → ℕ → Result StorageError RoomRow
room_row r now = do
  revision ← sql_integer r.revision
  created_at ← sql_integer now
  expires_at ← sql_integer r.expires_at
  updated_at ← sql_integer now
  ok (record {
    id = r.id;
    code = r.code;
    owner_session_id = r.owner_id;
    state = room_state_text r.state;
    revision = revision;
    created_at_ms = created_at;
    expires_at_ms = expires_at;
    updated_at_ms = updated_at;
  })

unfoldable pub member_row : ℕ → RoomMembershipSnapshot → Result StorageError MemberRow
member_row now m = do
  created_at ← sql_integer now
  updated_at ← sql_integer now
  ok (record {
    session_id = m.session_id;
    role = membership_role_text m.role;
    state = (membership_state_parts m.state).0;
    peer_id = (membership_state_parts m.state).1;
    created_at_ms = created_at;
    updated_at_ms = updated_at;
  })

unfoldable pub request_row : ℕ → RoomJoinRequestSnapshot → Result StorageError RequestRow
request_row now request = do
  created_at ← sql_integer (min now (request.expires_at - 1))
  expires_at ← sql_integer request.expires_at
  updated_at ← sql_integer now
  ok (record {
    id = request.request_id;
    session_id = request.session_id;
    state = join_request_state_text request.state;
    created_at_ms = created_at;
    expires_at_ms = expires_at;
    updated_at_ms = updated_at;
  })

-- `?` in a loop, and `collect::<Result<Vec<_>, _>>`.
unfoldable pub collect :
    {A B : Type 0} → (A → Result StorageError B) → List A → Result StorageError (List B)
collect f [] = ok []
collect f (a ∷ rest) = do b ← f a; bs ← collect f rest; ok (b ∷ bs)

-- The rows of a room in its three tables.
pub record StoredRoom : Type 0 where
  pub room : RoomRow
  pub members : List MemberRow
  pub requests : List RequestRow

unfoldable pub write_room : Database → Room → RequestId → ℕ → Result StorageError RoomRow
write_room db r create_request_id now = do
  row ← room_row r now
  execute db (insert_room_row create_request_id row)
  ok row

unfoldable pub write_member :
    Database → RoomId → ℕ → RoomMembershipSnapshot → Result StorageError MemberRow
write_member db room_id now m = do
  row ← member_row now m
  execute db (upsert_member room_id row)
  ok row

unfoldable pub write_request :
    Database → RoomId → ℕ → RoomJoinRequestSnapshot → Result StorageError RequestRow
write_request db room_id now q = do
  row ← request_row now q
  execute db (upsert_request room_id row)
  ok row

-- `insert_room` with `persist_room_children`: the rows that are there after the commit. An error rolls back.
unfoldable pub store_room : Database → Room → RequestId → ℕ → Result StorageError StoredRoom
store_room db r create_request_id now = do
  row ← write_room db r create_request_id now
  members ← collect (write_member db r.id now) (membership_snapshots r)
  requests ← collect (write_request db r.id now) (join_request_snapshots r)
  committed db.commit
  ok (record { room = row; members = members; requests = requests })

unfoldable pub load_room : StoredRoom → Result StorageError Room
load_room stored = do
  decoded ← decode_room stored.room
  memberships ← collect decode_membership stored.members
  requests ← collect decode_join_request stored.requests
  map_err corrupt_room (
      restore decoded.id decoded.code decoded.owner decoded.expires_at decoded.state
        decoded.revision memberships requests)
