-- ===== src/Server/Storage/RoundTrip.antt =====
-- A stored room is loaded as it was (rust/apps/server/src/storage).
use p2p_transmission.Prelude.{ℕ, ◌≤◌, ◌<◌, ◌≡◌, refl, List, [], ◌∷◌, All, ok}
use p2p_transmission.OrdMap.Order.{text_order, same, text_cmp}
use p2p_transmission.Domain.Room.State.{
  RoomState, active, expired, MembershipRole, owner, receiver, MembershipState, offline, online,
  left, JoinRequestState, pending, approved, rejected, cancelled, request_expired, Room,
}
use p2p_transmission.Domain.Room.Restore.{
  RoomMembershipSnapshot, RoomJoinRequestSnapshot, membership_snapshots, join_request_snapshots,
}
use p2p_transmission.Domain.Room.Invariant.{IsValid}
use p2p_transmission.Domain.Room.Storage.{restore-snapshots}
use p2p_transmission.Server.Storage.{
  i64_max, room_state_text, parse_room_state, membership_role_text, parse_membership_role,
  membership_state_parts, join_request_state_text, parse_join_request_state, decode_room,
  decode_membership_state, decode_membership, decode_join_request,
}
use p2p_transmission.Server.Storage.Rows.{collect, StoredRoom, store_room, load_room}
use p2p_transmission.Domain.Ids.{RequestId}
use p2p_transmission.Server.Storage.Database.{Database}
use p2p_transmission.Server.Storage.Writing.{
  IsPeer, IsStorableMember, IsStorableRequest, IsStorable, stored_member, stored_members,
  stored_requests, stored, IsAccepted, store_room-stored,
}

parse-room_state_text : (s : RoomState) → parse_room_state (room_state_text s) ≡ ok s
unfolding parse_room_state same text_cmp
parse-room_state_text active = refl
parse-room_state_text expired = refl

parse-membership_role_text :
    (m : MembershipRole) → parse_membership_role (membership_role_text m) ≡ ok m
unfolding parse_membership_role same text_cmp
parse-membership_role_text owner = refl
parse-membership_role_text receiver = refl

parse-join_request_state_text :
    (s : JoinRequestState) → parse_join_request_state (join_request_state_text s) ≡ ok s
unfolding parse_join_request_state same text_cmp
parse-join_request_state_text pending = refl
parse-join_request_state_text approved = refl
parse-join_request_state_text rejected = refl
parse-join_request_state_text cancelled = refl
parse-join_request_state_text request_expired = refl

decode-membership_state_parts :
    (s : MembershipState)
    → IsPeer s
    → decode_membership_state (membership_state_parts s).0 (membership_state_parts s).1 ≡ ok s
unfolding decode_membership_state same text_cmp
decode-membership_state_parts offline p = refl
decode-membership_state_parts left p = refl
decode-membership_state_parts (online peer_id) p = rw p refl

decode-stored_member :
    (now : ℕ)
    → (m : RoomMembershipSnapshot) → IsStorableMember m
    → decode_membership (stored_member now m) ≡ ok m
unfolding decode_membership
decode-stored_member now m (session, peer) =
    rw (session, parse-membership_role_text m.role, decode-membership_state_parts m.state peer) refl

decode-stored_members :
    (now : ℕ)
    → (ms : List RoomMembershipSnapshot) → All IsStorableMember ms
    → collect decode_membership (stored_members now ms) ≡ ok ms
unfolding collect
decode-stored_members now [] a = refl
decode-stored_members now (m ∷ rest) a =
    rw (decode-stored_member now m a.0, decode-stored_members now rest a.1) refl

decode-stored_requests :
    (now : ℕ)
    → (qs : List RoomJoinRequestSnapshot) → All IsStorableRequest qs
    → collect decode_join_request (stored_requests now qs) ≡ ok qs
unfolding collect decode_join_request
decode-stored_requests now [] a = refl
decode-stored_requests now (q ∷ rest) (((id, session), fits), a) =
    rw (id, session, parse-join_request_state_text q.state, decode-stored_requests now rest a) refl

load_room-stored :
    (r : Room) → (now : ℕ) → IsStorable r → IsValid r → load_room (stored r now) ≡ ok r
unfolding load_room decode_room
load_room-stored r now s v =
    rw
      (
        s.id_parsed,
        s.code_parsed,
        s.owner_parsed,
        parse-room_state_text r.state,
        decode-stored_members now (membership_snapshots r) s.members,
        decode-stored_requests now (join_request_snapshots r) s.requests,
        restore-snapshots r v,
      )
      refl

-- A room is written without an error, and it is the one that is loaded from its rows. Conditions: the room is
-- well-formed; its identifiers and its code are ones that `parse` accepts; its revision, its deadlines and
-- the time of writing are at most 2^63 - 1, and no request is due at 0; the time is before the deadline
-- of the room; the database has no conflict with the rows and commits.
pub load_room-store_room :
    (db : Database) (r : Room) (create_request_id : RequestId) (now : ℕ)
    → now ≤ i64_max
    → now < r.expires_at
    → IsValid r
    → IsStorable r
    → IsAccepted db r create_request_id now
    → (rows : StoredRoom) × (store_room db r create_request_id now ≡ ok rows)
      × (load_room rows ≡ ok r)
load_room-store_room db r create_request_id now fits early v s a = (
  stored r now,
  store_room-stored db r create_request_id now fits early v.revision_pos s a,
  load_room-stored r now s v,
)
