-- ===== src/Domain/Room/Restore.antt =====
-- `Room::verify_invariants`, the snapshots and `Room::restore`.
use p2p_transmission.Prelude.{
  ◌==◌, not, ◌&&◌, ◌||◌, ltb, if◌then◌else◌, none, some, List, [], ◌∷◌, map, Result, ok, err, ◌>>=◌,
  ◌>>◌, reject_if, ok_or, map_err,
}
use p2p_transmission.OrdMap.Map.{OrdMap, get, insert}
use p2p_transmission.OrdMap.Order.{text_order, same}
use p2p_transmission.Domain.Ids.{SessionId, RoomId, RequestId, RoomCode}
use p2p_transmission.Domain.Time.{EpochMillis, Revision}
use p2p_transmission.Domain.Room.State.{
  MembershipRole, MembershipState, Membership, JoinRequestState, JoinRequest, RoomState, Room,
  is_owner, is_left, is_approved,
}

pub data RoomInvariantError : Type 0 where
  zero_revision missing_owner invalid_owner invalid_receiver_role : RoomInvariantError
  approved_request_without_membership : RoomInvariantError

pub data RoomRestoreError : Type 0 where
  duplicate_membership : SessionId → RoomRestoreError
  duplicate_join_request : RequestId → RoomRestoreError
  request_outlives_room : RequestId → RoomRestoreError
  invariant : RoomInvariantError → RoomRestoreError

pub record RoomMembershipSnapshot : Type 0 where
  pub session_id : SessionId
  pub role : MembershipRole
  pub state : MembershipState

pub record RoomJoinRequestSnapshot : Type 0 where
  pub request_id : RequestId
  pub session_id : SessionId
  pub expires_at : EpochMillis
  pub state : JoinRequestState

-- The loop over the memberships.
unfoldable pub verify_receivers :
    SessionId → OrdMap SessionId Membership → Result RoomInvariantError (Unit {0})
verify_receivers owner_id [] = ok tt
verify_receivers owner_id ((session_id, membership) ∷ rest) = do
  reject_if (not (same session_id owner_id) && is_owner membership.role) invalid_receiver_role
  verify_receivers owner_id rest

-- The loop over the join requests.
unfoldable pub verify_approved :
    OrdMap SessionId Membership
    → OrdMap RequestId JoinRequest
    → Result RoomInvariantError (Unit {0})
verify_approved memberships [] = ok tt
verify_approved memberships ((request_id, request) ∷ rest) = do
  if is_approved request.state
      then (do
        membership ← ok_or (get request.session_id memberships) approved_request_without_membership
        reject_if (is_owner membership.role) approved_request_without_membership)
      else ok tt
  verify_approved memberships rest

unfoldable pub verify_invariants : Room → Result RoomInvariantError (Unit {0})
unfolding verify_receivers verify_approved
verify_invariants r = do
  reject_if (r.revision == 0) zero_revision
  owner_entry ← ok_or (get r.owner_id r.memberships) missing_owner
  reject_if (not (is_owner owner_entry.role) || is_left owner_entry.state) invalid_owner
  verify_receivers r.owner_id r.memberships
  verify_approved r.memberships r.join_requests

unfoldable pub membership_snapshots : Room → List RoomMembershipSnapshot
membership_snapshots r =
    map (λ entry. record { session_id = entry.0; role = entry.1.role; state = entry.1.state })
      r.memberships

unfoldable pub join_request_snapshots : Room → List RoomJoinRequestSnapshot
join_request_snapshots r =
    map
      (λ entry. record {
        request_id = entry.0;
        session_id = entry.1.session_id;
        expires_at = entry.1.expires_at;
        state = entry.1.state;
      })
      r.join_requests

unfoldable pub restore_memberships :
    OrdMap SessionId Membership
    → List RoomMembershipSnapshot
    → Result RoomRestoreError (OrdMap SessionId Membership)
restore_memberships restored [] = ok restored
restore_memberships restored (snapshot ∷ rest) =
    let restored' =
      insert snapshot.session_id (record { role = snapshot.role; state = snapshot.state })
        restored in
    elim (get snapshot.session_id restored) [
      | some _ ↦ err (duplicate_membership snapshot.session_id)
      | none ↦ restore_memberships restored' rest
    ]

unfoldable pub restore_requests :
    EpochMillis
    → OrdMap RequestId JoinRequest
    → List RoomJoinRequestSnapshot
    → Result RoomRestoreError (OrdMap RequestId JoinRequest)
restore_requests room_deadline restored [] = ok restored
restore_requests room_deadline restored (snapshot ∷ rest) =
    let rest_restored =
      restore_requests room_deadline
        (insert snapshot.request_id
          (record {
            session_id = snapshot.session_id;
            expires_at = snapshot.expires_at;
            state = snapshot.state;
          })
          restored)
        rest in
    if ltb room_deadline snapshot.expires_at
    then err (request_outlives_room snapshot.request_id)
    else elim (get snapshot.request_id restored) [
      | some _ ↦ err (duplicate_join_request snapshot.request_id)
      | none ↦ rest_restored
    ]

-- `room.verify_invariants()?; Ok(room)`.
unfoldable pub checked : Room → Result RoomRestoreError Room
unfolding verify_invariants
checked room = do map_err invariant (verify_invariants room); ok room

unfoldable pub restore :
    RoomId
    → RoomCode
    → SessionId
    → EpochMillis
    → RoomState
    → Revision
    → List RoomMembershipSnapshot
    → List RoomJoinRequestSnapshot
    → Result RoomRestoreError Room
unfolding restore_memberships restore_requests checked
restore id code owner_id expires_at state revision members requests = do
  memberships ← restore_memberships [] members
  join_requests ← restore_requests expires_at [] requests
  checked (record {
    id = id;
    code = code;
    owner_id = owner_id;
    expires_at = expires_at;
    state = state;
    revision = revision;
    memberships = memberships;
    join_requests = join_requests;
  })
