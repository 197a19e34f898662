-- ===== src/Domain/Room/State.antt =====
-- The data types of rust/crates/domain/src/room.rs and their tests by `==`.
use p2p_transmission.Prelude.{Bool, true, false}
use p2p_transmission.OrdMap.Map.{OrdMap}
use p2p_transmission.OrdMap.Order.{text_order, same}
use p2p_transmission.Domain.Ids.{SessionId, RoomId, PeerId, RequestId, RoomCode}
use p2p_transmission.Domain.Time.{EpochMillis, Revision}

pub data RoomState : Type 0 where
  active expired : RoomState

pub data MembershipRole : Type 0 where
  owner receiver : MembershipRole

pub data MembershipState : Type 0 where
  offline : MembershipState
  online : PeerId → MembershipState
  left : MembershipState

pub record Membership : Type 0 where
  pub role : MembershipRole
  pub state : MembershipState

pub data JoinRequestState : Type 0 where
  pending approved rejected cancelled request_expired : JoinRequestState

pub record JoinRequest : Type 0 where
  pub session_id : SessionId
  pub expires_at : EpochMillis
  pub state : JoinRequestState

pub data JoinDecision : Type 0 where
  approve reject : JoinDecision

-- The arguments stand in the order of the source's fields.
pub data RoomCommand : Type 0 where
  request_join : RequestId → SessionId → EpochMillis → EpochMillis → RoomCommand
  decide_join : SessionId → RequestId → JoinDecision → EpochMillis → RoomCommand
  expire_join_request : RequestId → EpochMillis → RoomCommand
  attach : SessionId → PeerId → EpochMillis → RoomCommand
  detach : SessionId → PeerId → RoomCommand
  leave : SessionId → RoomCommand
  expire : EpochMillis → RoomCommand

pub record RoomCommandOutcome : Type 0 where
  pub changed : Bool

pub record Room : Type 0 where
  pub id : RoomId
  pub code : RoomCode
  pub owner_id : SessionId
  pub expires_at : EpochMillis
  pub state : RoomState
  pub revision : Revision
  pub memberships : OrdMap SessionId Membership
  pub join_requests : OrdMap RequestId JoinRequest

pub data RoomError : Type 0 where
  invalid_expiry inactive invalid_request_expiry idempotency_conflict already_member : RoomError
  pending_request_exists unauthorized request_not_found request_past_deadline : RoomError
  request_expiry_not_reached terminal_request membership_not_found membership_left : RoomError
  expiry_not_reached revision_overflow : RoomError

abbrev pub is_active : RoomState → Bool
is_active active = true
is_active expired = false

abbrev pub is_owner : MembershipRole → Bool
is_owner owner = true
is_owner receiver = false

abbrev pub is_left : MembershipState → Bool
is_left left = true
is_left _ = false

abbrev pub is_pending : JoinRequestState → Bool
is_pending pending = true
is_pending _ = false

abbrev pub is_approved : JoinRequestState → Bool
is_approved approved = true
is_approved _ = false

-- `Room::membership_state` is the state of the membership that this finds.
abbrev pub is_online_as : PeerId → MembershipState → Bool
is_online_as peer (online current) = same current peer
is_online_as peer _ = false
