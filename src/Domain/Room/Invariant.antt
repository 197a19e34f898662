-- ===== src/Domain/Room/Invariant.antt =====
-- The well-formedness of a room, which `create` establishes and every command keeps.
use p2p_transmission.Prelude.{
  ℕ, ◌≤◌, ◌<◌, ◌≡◌, ◌≢◌, false, Option, none, some, All, arith, sym, ◌∙◌, subst,
}
use p2p_transmission.Prelude.Words.{u64_max}
use p2p_transmission.OrdMap.Map.{OrdMap, get, insert, get-insert}
use p2p_transmission.OrdMap.Values.{map_values, All-map_values, All-mono, map_values-Sorted}
use p2p_transmission.OrdMap.Sorted.{Sorted, insert-Sorted, All-insert, All-get}
use p2p_transmission.OrdMap.Order.{text_order, same_iff}
use p2p_transmission.Domain.Ids.{SessionId, RequestId}
use p2p_transmission.Domain.Time.{EpochMillis}
use p2p_transmission.Domain.Room.State.{
  expired, owner, receiver, approved, Membership, MembershipState, JoinRequest, Room, is_left,
}
use p2p_transmission.Domain.Room.Commands.{set_membership, set_request, expire_pending}

-- The entry of the owner: present, with its role, never left.
abbrev pub OwnerEntry : Option Membership → Type 0
OwnerEntry none = ⊥
OwnerEntry (some m) = (m.role ≡ owner) × (is_left m.state ≡ false)

-- An entry that is present with the role of a receiver.
abbrev pub ReceiverEntry : Option Membership → Type 0
ReceiverEntry none = ⊥
ReceiverEntry (some m) = m.role ≡ receiver

-- The property of a membership beside the owner's, and of a request.
abbrev pub IsReceiverOf : SessionId → SessionId × Membership → Type 0
IsReceiverOf owner_id p = p.0 ≢ owner_id → p.1.role ≡ receiver

abbrev pub IsBacked : OrdMap SessionId Membership → RequestId × JoinRequest → Type 0
IsBacked memberships p = p.1.state ≡ approved → ReceiverEntry (get p.1.session_id memberships)

abbrev pub IsNotFrom : SessionId → RequestId × JoinRequest → Type 0
IsNotFrom owner_id p = p.1.session_id ≢ owner_id

abbrev pub IsWithin : EpochMillis → RequestId × JoinRequest → Type 0
IsWithin deadline p = p.1.expires_at ≤ deadline

pub record IsValid (r : Room) : Type 0 where
  pub revision_pos : 0 < r.revision
  pub revision_fits : r.revision ≤ u64_max
  pub memberships_sorted : Sorted r.memberships
  pub requests_sorted : Sorted r.join_requests
  pub owner_entry : OwnerEntry (get r.owner_id r.memberships)
  pub receivers : All (IsReceiverOf r.owner_id) r.memberships
  pub approved_members : All (IsBacked r.memberships) r.join_requests
  pub requests_of_others : All (IsNotFrom r.owner_id) r.join_requests
  pub requests_within : All (IsWithin r.expires_at) r.join_requests

pub set_membership-IsValid :
    (r : Room) (s : SessionId) (m : Membership)
    → IsValid r
    → OwnerEntry (get r.owner_id (insert s m r.memberships))
    → (s ≢ r.owner_id → m.role ≡ receiver)
    → ((x : SessionId)
        → ReceiverEntry (get x r.memberships)
        → ReceiverEntry (get x (insert s m r.memberships)))
    → IsValid (set_membership r s m)
set_membership-IsValid r s m v o f g = record {
  revision_pos = v.revision_pos;
  revision_fits = v.revision_fits;
  memberships_sorted = insert-Sorted s m r.memberships v.memberships_sorted;
  requests_sorted = v.requests_sorted;
  owner_entry = o;
  receivers = All-insert (IsReceiverOf r.owner_id) s m r.memberships v.receivers f;
  approved_members =
      All-mono (IsBacked r.memberships) (IsBacked (insert s m r.memberships)) r.join_requests
        (λ k q h e. g q.session_id (h e)) v.approved_members;
  requests_of_others = v.requests_of_others;
  requests_within = v.requests_within;
}

-- A member changes its state, and an owner does not leave.
pub member_state-IsValid :
    (r : Room) (s : SessionId) (m : Membership) (state : MembershipState)
    → IsValid r
    → get s r.memberships ≡ some m
    → (s ≡ r.owner_id → is_left state ≡ false)
    → IsValid (set_membership r s (record m { state = state }))
member_state-IsValid r s m state v e h =
    set_membership-IsValid r s (record m { state = state }) v
      (ground (
        arith,
        get-insert r.owner_id s (record m { state = state }) r.memberships,
        same_iff s r.owner_id,
        v.owner_entry,
        h,
      ))
      (All-get (IsReceiverOf r.owner_id) s r.memberships v.receivers e)
      (λ x n.
        ground (arith, get-insert x s (record m { state = state }) r.memberships, same_iff s x, n))

pub set_request-IsValid :
    (r : Room) (k : RequestId) (q : JoinRequest)
    → IsValid r
    → (q.state ≡ approved → ReceiverEntry (get q.session_id r.memberships))
    → q.session_id ≢ r.owner_id
    → q.expires_at ≤ r.expires_at
    → IsValid (set_request r k q)
set_request-IsValid r k q v a n w = record {
  revision_pos = v.revision_pos;
  revision_fits = v.revision_fits;
  memberships_sorted = v.memberships_sorted;
  requests_sorted = insert-Sorted k q r.join_requests v.requests_sorted;
  owner_entry = v.owner_entry;
  receivers = v.receivers;
  approved_members = All-insert (IsBacked r.memberships) k q r.join_requests v.approved_members a;
  requests_of_others = All-insert (IsNotFrom r.owner_id) k q r.join_requests v.requests_of_others n;
  requests_within = All-insert (IsWithin r.expires_at) k q r.join_requests v.requests_within w;
}

-- A stored request changes its state to one other than approved.
pub request_state-IsValid :
    (r : Room) (k : RequestId) (q q' : JoinRequest)
    → IsValid r
    → get k r.join_requests ≡ some q
    → q'.session_id ≡ q.session_id
    → q'.expires_at ≡ q.expires_at
    → q'.state ≢ approved
    → IsValid (set_request r k q')
request_state-IsValid r k q q' v e s w n =
    set_request-IsValid r k q' v (λ a. absurd (n a))
      (λ h. All-get (IsNotFrom r.owner_id) k r.join_requests v.requests_of_others e (sym s ∙ h))
      (subst (λ (t : ℕ). t ≤ r.expires_at) (sym w)
        (All-get (IsWithin r.expires_at) k r.join_requests v.requests_within e))

-- The state field alone does not matter.
pub closed-IsValid : (r : Room) → IsValid r → IsValid (record r { state = expired })
closed-IsValid r v = record {
  revision_pos = v.revision_pos;
  revision_fits = v.revision_fits;
  memberships_sorted = v.memberships_sorted;
  requests_sorted = v.requests_sorted;
  owner_entry = v.owner_entry;
  receivers = v.receivers;
  approved_members = v.approved_members;
  requests_of_others = v.requests_of_others;
  requests_within = v.requests_within;
}

pub expired_requests-IsValid :
    (r : Room)
    → IsValid r
    → IsValid (record r { join_requests = map_values expire_pending r.join_requests })
expired_requests-IsValid r v = record {
  revision_pos = v.revision_pos;
  revision_fits = v.revision_fits;
  memberships_sorted = v.memberships_sorted;
  requests_sorted = map_values-Sorted expire_pending r.join_requests v.requests_sorted;
  owner_entry = v.owner_entry;
  receivers = v.receivers;
  approved_members =
      All-map_values (IsBacked r.memberships) (IsBacked r.memberships) expire_pending
        r.join_requests (λ k q h. ground arith) v.approved_members;
  requests_of_others =
      All-map_values (IsNotFrom r.owner_id) (IsNotFrom r.owner_id) expire_pending r.join_requests
        (λ k q h. ground arith) v.requests_of_others;
  requests_within =
      All-map_values (IsWithin r.expires_at) (IsWithin r.expires_at) expire_pending r.join_requests
        (λ k q h. ground arith) v.requests_within;
}
