-- ===== src/Server/Storage/Writing.antt =====
-- What the writes of a room leave in its tables (rust/apps/server/src/storage).
use p2p_transmission.Prelude.{
  ℕ, ◌-◌, min, ◌≤◌, ◌<◌, ◌≡◌, refl, true, none, List, [], ◌∷◌, All, ok, le→leb, arith,
}
use p2p_transmission.Prelude.Text.{Text, text}
use p2p_transmission.OrdMap.Order.{text_order, same, text_cmp}
use p2p_transmission.Domain.Ids.{parse_id, parse_room_code}
use p2p_transmission.Domain.Room.State.{MembershipState, offline, online, left, Room}
use p2p_transmission.Domain.Room.Restore.{
  RoomMembershipSnapshot, RoomJoinRequestSnapshot, membership_snapshots, join_request_snapshots,
}
use p2p_transmission.Server.Storage.{
  nonnegative, i64_max, sql_integer, room_state_text, membership_role_text, membership_state_parts,
  join_request_state_text, MemberRow, RequestRow,
}
use p2p_transmission.Server.Storage.Rows.{
  room_row, member_row, request_row, collect, StoredRoom, store_room,
}
use p2p_transmission.Domain.Ids.{RequestId, RoomId}
use p2p_transmission.Server.Storage.Database.{
  Statement, insert_room_row, upsert_member, upsert_request, peer_fits, row_fits, Database, execute,
}
use p2p_transmission.Server.Storage.Rows.{write_room, write_member, write_request}

-- An identifier that `parse` accepts.
abbrev pub IsId : Text → Text → Type 0
IsId kind value = parse_id kind value ≡ ok value

abbrev pub IsPeer : MembershipState → Type 0
IsPeer (online peer_id) = IsId (text "peer id") peer_id
IsPeer _ = Unit

abbrev pub IsStorableMember : RoomMembershipSnapshot → Type 0
IsStorableMember m = IsId (text "session id") m.session_id × IsPeer m.state

abbrev pub IsStorableRequest : RoomJoinRequestSnapshot → Type 0
IsStorableRequest q =
    (IsId (text "request id") q.request_id × IsId (text "session id") q.session_id)
    × ((0 < q.expires_at) × (q.expires_at ≤ i64_max))

-- Identifiers and codes that have been parsed, and numbers that SQLite can hold, with no request that
-- is due at 0.
pub record IsStorable (r : Room) : Type 0 where
  pub id_parsed : IsId (text "room id") r.id
  pub code_parsed : parse_room_code r.code ≡ ok r.code
  pub owner_parsed : IsId (text "session id") r.owner_id
  pub revision_fits : r.revision ≤ i64_max
  pub deadline_fits : r.expires_at ≤ i64_max
  pub members : All IsStorableMember (membership_snapshots r)
  pub requests : All IsStorableRequest (join_request_snapshots r)

pub sql_integer-fits : (n : ℕ) → n ≤ i64_max → sql_integer n ≡ ok (nonnegative n)
unfolding sql_integer
sql_integer-fits n h = rw (le→leb n i64_max h) refl

-- What the clock writes.
abbrev pub created : ℕ → RoomJoinRequestSnapshot → ℕ
created now q = min now (q.expires_at - 1)

abbrev pub stored_member : ℕ → RoomMembershipSnapshot → MemberRow
stored_member now m = record {
  session_id = m.session_id;
  role = membership_role_text m.role;
  state = (membership_state_parts m.state).0;
  peer_id = (membership_state_parts m.state).1;
  created_at_ms = nonnegative now;
  updated_at_ms = nonnegative now;
}

abbrev pub stored_members : ℕ → List RoomMembershipSnapshot → List MemberRow
stored_members now [] = []
stored_members now (m ∷ rest) = stored_member now m ∷ stored_members now rest

abbrev pub stored_request : ℕ → RoomJoinRequestSnapshot → RequestRow
stored_request now q = record {
  id = q.request_id;
  session_id = q.session_id;
  state = join_request_state_text q.state;
  created_at_ms = nonnegative (created now q);
  expires_at_ms = nonnegative q.expires_at;
  updated_at_ms = nonnegative now;
}

abbrev pub stored_requests : ℕ → List RoomJoinRequestSnapshot → List RequestRow
stored_requests now [] = []
stored_requests now (q ∷ rest) = stored_request now q ∷ stored_requests now rest

created-fits : (now : ℕ) → now ≤ i64_max → (q : RoomJoinRequestSnapshot) → created now q ≤ i64_max
created-fits now fits q = omega arith

abbrev pub stored : Room → ℕ → StoredRoom
stored r now = record {
  room = record {
    id = r.id;
    code = r.code;
    owner_session_id = r.owner_id;
    state = room_state_text r.state;
    revision = nonnegative r.revision;
    created_at_ms = nonnegative now;
    expires_at_ms = nonnegative r.expires_at;
    updated_at_ms = nonnegative now;
  };
  members = stored_members now (membership_snapshots r);
  requests = stored_requests now (join_request_snapshots r);
}

-- The database answers each statement for the room without a conflict, and commits.
pub record IsAccepted (db : Database) (r : Room) (create_request_id : RequestId) (now : ℕ)
    : Type 0 where
  pub room : db.answer (insert_room_row create_request_id (stored r now).room) ≡ none
  pub members :
      All
        (λ m. db.answer (upsert_member r.id (stored_member now m)) ≡ none)
        (membership_snapshots r)
  pub requests :
      All
        (λ q. db.answer (upsert_request r.id (stored_request now q)) ≡ none)
        (join_request_snapshots r)
  pub commit : db.commit ≡ none

execute-accepted :
    (db : Database) (statement : Statement)
    → row_fits statement ≡ true
    → db.answer statement ≡ none
    → execute db statement ≡ ok tt
unfolding execute
execute-accepted db statement fits free = rw (fits, free) refl

stored_room-fits :
    (r : Room) (create_request_id : RequestId) (now : ℕ)
    → 0 < r.revision
    → now < r.expires_at
    → row_fits (insert_room_row create_request_id (stored r now).room) ≡ true
unfolding row_fits
stored_room-fits r create_request_id now revision early = ground (arith, revision, early)

peer_fits-state :
    (s : MembershipState)
    → peer_fits (membership_state_parts s).0 (membership_state_parts s).1 ≡ true
unfolding peer_fits same text_cmp
peer_fits-state offline = refl
peer_fits-state (online peer_id) = refl
peer_fits-state left = refl

stored_member-fits :
    (room_id : RoomId) (now : ℕ) (m : RoomMembershipSnapshot)
    → row_fits (upsert_member room_id (stored_member now m)) ≡ true
unfolding row_fits
stored_member-fits room_id now m = rw (peer_fits-state m.state) (ground arith)

stored_request-fits :
    (room_id : RoomId) (now : ℕ) (q : RoomJoinRequestSnapshot)
    → 0 < q.expires_at
    → row_fits (upsert_request room_id (stored_request now q)) ≡ true
unfolding row_fits
stored_request-fits room_id now q later = ground (arith, later)

write_room-stored :
    (db : Database) (r : Room) (create_request_id : RequestId) (now : ℕ)
    → now ≤ i64_max
    → IsStorable r
    → row_fits (insert_room_row create_request_id (stored r now).room) ≡ true
    → db.answer (insert_room_row create_request_id (stored r now).room) ≡ none
    → write_room db r create_request_id now ≡ ok (stored r now).room
unfolding write_room room_row
write_room-stored db r create_request_id now fits s row free =
    rw
      (
        sql_integer-fits r.revision s.revision_fits,
        sql_integer-fits now fits,
        sql_integer-fits r.expires_at s.deadline_fits,
        execute-accepted db _ row free,
      )
      refl

write_members-stored :
    (db : Database) (room_id : RoomId) (now : ℕ)
    → now ≤ i64_max
    → (ms : List RoomMembershipSnapshot)
    → All (λ m. db.answer (upsert_member room_id (stored_member now m)) ≡ none) ms
    → collect (write_member db room_id now) ms ≡ ok (stored_members now ms)
unfolding collect write_member member_row
write_members-stored db room_id now fits [] free = refl
write_members-stored db room_id now fits (m ∷ rest) free =
    rw
      (
        sql_integer-fits now fits,
        execute-accepted db _ (stored_member-fits room_id now m) free.0,
        write_members-stored db room_id now fits rest free.1,
      )
      refl

write_requests-stored :
    (db : Database) (room_id : RoomId) (now : ℕ)
    → now ≤ i64_max
    → (qs : List RoomJoinRequestSnapshot) → All IsStorableRequest qs
    → All (λ q. db.answer (upsert_request room_id (stored_request now q)) ≡ none) qs
    → collect (write_request db room_id now) qs ≡ ok (stored_requests now qs)
unfolding collect write_request request_row
write_requests-stored db room_id now fits [] a free = refl
write_requests-stored db room_id now fits (q ∷ rest) a free =
    rw
      (
        sql_integer-fits (created now q) (created-fits now fits q),
        sql_integer-fits q.expires_at a.0.1.1,
        sql_integer-fits now fits,
        execute-accepted db _ (stored_request-fits room_id now q a.0.1.0) free.0,
        write_requests-stored db room_id now fits rest a.1 free.1,
      )
      refl

pub store_room-stored :
    (db : Database) (r : Room) (create_request_id : RequestId) (now : ℕ)
    → now ≤ i64_max
    → now < r.expires_at
    → 0 < r.revision
    → IsStorable r
    → IsAccepted db r create_request_id now
    → store_room db r create_request_id now ≡ ok (stored r now)
unfolding store_room
store_room-stored db r create_request_id now fits early revision s a =
    rw
      (
        write_room-stored db r create_request_id now fits s
            (stored_room-fits r create_request_id now revision early) a.room,
        write_members-stored db r.id now fits (membership_snapshots r) a.members,
        write_requests-stored db r.id now fits (join_request_snapshots r) s.requests a.requests,
        a.commit,
      )
      refl
