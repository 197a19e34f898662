-- ===== src/Domain/Room/Commands.antt =====
-- `Room::create` and the commands of `Room::handle`. A method on `&mut self` returns the room as it
-- leaves it, on every error path too, beside the `Result` that it returns.
use p2p_transmission.Prelude.{
  ◌==◌, Bool, true, false, not, ◌&&◌, ◌||◌, ltb, leb, if◌then◌else◌, Option, none, some, [], ◌∷◌,
  Result, ok, err,
}
use p2p_transmission.OrdMap.Map.{get, insert}
use p2p_transmission.OrdMap.Values.{any_value, find_value, map_values}
use p2p_transmission.OrdMap.Order.{text_order, same}
use p2p_transmission.Domain.Ids.{SessionId, RoomId, PeerId, RequestId, RoomCode}
use p2p_transmission.Domain.Time.{EpochMillis, next}
use p2p_transmission.Domain.Room.State.{
  active, expired, owner, receiver, offline, online, left, pending, approved, rejected, cancelled,
  request_expired, approve, reject, request_join, decide_join, expire_join_request, attach, detach,
  leave, expire, invalid_expiry, inactive, invalid_request_expiry, idempotency_conflict,
  already_member, pending_request_exists, unauthorized, request_not_found, request_past_deadline,
  request_expiry_not_reached, terminal_request, membership_not_found, membership_left,
  expiry_not_reached, revision_overflow, Membership, JoinRequestState, JoinRequest, JoinDecision,
  RoomCommand, RoomCommandOutcome, Room, RoomError, is_active, is_left, is_pending, is_online_as,
}

abbrev pub Reply : Type 0
Reply = Room × Result RoomError RoomCommandOutcome

abbrev pub changed_outcome : RoomCommandOutcome
changed_outcome = record { changed = true }

abbrev pub unchanged_outcome : RoomCommandOutcome
unchanged_outcome = record { changed = false }

-- The room that `create` builds.
abbrev pub new_room : RoomId → RoomCode → SessionId → EpochMillis → Room
new_room id code owner_id expires_at = record {
  id = id;
  code = code;
  owner_id = owner_id;
  expires_at = expires_at;
  state = active;
  revision = 1;
  memberships = (owner_id, record { role = owner; state = offline }) ∷ [];
  join_requests = [];
}

unfoldable pub create :
    RoomId
    → RoomCode
    → SessionId
    → EpochMillis
    → EpochMillis
    → Result RoomError (Room × RoomCommandOutcome)
create id code owner_id now expires_at =
    if leb expires_at now
    then err invalid_expiry
    else ok (new_room id code owner_id expires_at, changed_outcome)

-- `Err(e)`, the room as it is.
abbrev pub refuse : Room → RoomError → Reply
refuse r e = (r, err e)

abbrev pub unchanged : Room → Reply
unchanged r = (r, ok unchanged_outcome)

-- The counter is written last: on overflow the room keeps what the command has changed.
unfoldable pub commit : Room → Reply
unfolding next
commit r = elim (next r.revision) [
  | ok revision ↦ (record r { revision = revision }, ok changed_outcome)
  | err _ ↦ (r, err revision_overflow)
]

-- The test of `ensure_active`.
abbrev pub is_live : Room → EpochMillis → Bool
is_live r now = is_active r.state && ltb now r.expires_at

abbrev pub is_current_member : Option Membership → Bool
is_current_member none = false
is_current_member (some membership) = not (is_left membership.state)

abbrev pub is_pending_of : SessionId → JoinRequest → Bool
is_pending_of session request = same request.session_id session && is_pending request.state

abbrev pub set_membership : Room → SessionId → Membership → Room
set_membership r session membership = record r {
  memberships = insert session membership r.memberships;
}

abbrev pub set_request : Room → RequestId → JoinRequest → Room
set_request r request_id request = record r {
  join_requests = insert request_id request r.join_requests;
}

unfoldable pub do_request_join : Room → RequestId → SessionId → EpochMillis → EpochMillis → Reply
unfolding commit
do_request_join r request_id session_id now expires_at =
    if not (is_live r now)
    then refuse r inactive
    else if leb expires_at now || ltb r.expires_at expires_at
    then refuse r invalid_request_expiry
    else elim (get request_id r.join_requests) [
      | some existing ↦
          if same existing.session_id session_id && existing.expires_at == expires_at
          then unchanged r
          else refuse r idempotency_conflict
      | none ↦
          if is_current_member (get session_id r.memberships)
          then refuse r already_member
          else if any_value (is_pending_of session_id) r.join_requests
          then refuse r pending_request_exists
          else commit (
              set_request r request_id
                (record { session_id = session_id; expires_at = expires_at; state = pending }))
    ]

-- The `match (request.state, decision)` of `decide_join`.
abbrev pub decide : Room → RequestId → JoinRequest → JoinRequestState → JoinDecision → Reply
decide r request_id request pending approve = commit (
    set_membership (set_request r request_id (record request { state = approved }))
      request.session_id (record { role = receiver; state = offline }))
decide r request_id request pending reject =
    commit (set_request r request_id (record request { state = rejected }))
decide r request_id request approved approve = unchanged r
decide r request_id request rejected reject = unchanged r
decide r request_id request _ _ = refuse r terminal_request

unfoldable pub do_decide_join : Room → SessionId → RequestId → JoinDecision → EpochMillis → Reply
unfolding commit
do_decide_join r actor request_id decision now =
    if not (is_live r now)
    then refuse r inactive
    else if not (same actor r.owner_id)
    then refuse r unauthorized
    else elim (get request_id r.join_requests) [
      | none ↦ refuse r request_not_found
      | some request ↦
          if leb request.expires_at now
          then refuse r request_past_deadline
          else decide r request_id request request.state decision
    ]

unfoldable pub do_expire_join_request : Room → RequestId → EpochMillis → Reply
unfolding commit
do_expire_join_request r request_id now =
    if not (is_live r now) then refuse r inactive else elim (get request_id r.join_requests) [
      | none ↦ refuse r request_not_found
      | some request ↦
          if not (is_pending request.state)
          then unchanged r
          else if ltb now request.expires_at
          then refuse r request_expiry_not_reached
          else commit (set_request r request_id (record request { state = request_expired }))
    ]

unfoldable pub do_attach : Room → SessionId → PeerId → EpochMillis → Reply
unfolding commit
do_attach r session_id peer_id now =
    if not (is_live r now) then refuse r inactive else elim (get session_id r.memberships) [
      | none ↦ refuse r membership_not_found
      | some membership ↦
          if is_online_as peer_id membership.state
          then unchanged r
          else if is_left membership.state
          then refuse r membership_left
          else commit (set_membership r session_id (record membership { state = online peer_id }))
    ]

unfoldable pub do_detach : Room → SessionId → PeerId → Reply
unfolding commit
do_detach r session_id peer_id = elim (get session_id r.memberships) [
  | none ↦ refuse r membership_not_found
  | some membership ↦
      if is_online_as peer_id membership.state
      then commit (set_membership r session_id (record membership { state = offline }))
      else if is_left membership.state
      then refuse r membership_left
      else unchanged r
]

unfoldable pub do_leave : Room → SessionId → Reply
unfolding commit
do_leave r session_id =
    if same session_id r.owner_id
    then (if is_active r.state then commit (record r { state = expired }) else unchanged r)
    else elim (get session_id r.memberships) [
      | some membership ↦
          if is_left membership.state
          then unchanged r
          else commit (set_membership r session_id (record membership { state = left }))
      | none ↦ elim (find_value (is_pending_of session_id) r.join_requests) [
        | some (request_id, request) ↦
            commit (set_request r request_id (record request { state = cancelled }))
        | none ↦ refuse r membership_not_found
      ]
    ]

abbrev pub expire_pending : JoinRequest → JoinRequest
expire_pending request =
    if is_pending request.state then record request { state = request_expired } else request

unfoldable pub do_expire : Room → EpochMillis → Reply
unfolding commit
do_expire r now =
    if not (is_active r.state)
    then unchanged r
    else if ltb now r.expires_at
    then refuse r expiry_not_reached
    else commit
        (record r { state = expired; join_requests = map_values expire_pending r.join_requests })

unfoldable pub handle : Room → RoomCommand → Reply
handle r (request_join request_id session_id now expires_at) =
    do_request_join r request_id session_id now expires_at
handle r (decide_join actor request_id decision now) =
    do_decide_join r actor request_id decision now
handle r (expire_join_request request_id now) = do_expire_join_request r request_id now
handle r (attach session_id peer_id now) = do_attach r session_id peer_id now
handle r (detach session_id peer_id) = do_detach r session_id peer_id
handle r (leave session_id) = do_leave r session_id
handle r (expire now) = do_expire r now
