-- ===== src/Domain/Room/Storage.antt =====
-- Stored rooms: `verify_invariants` against the well-formedness of a room, and restoring a room
-- from its own snapshots.
use p2p_transmission.Prelude.{
  ◌≡◌, refl, ◌≢◌, ◌↔◌, List, [], ◌∷◌, ◌++◌, append_assoc, append-nil, map, All, ok, >>=-eq-ok,
  Option-cases, Bool-cases, inl, inr, ltb, arith, sym, ap, subst,
}
use p2p_transmission.OrdMap.Map.{OrdMap, get, insert}
use p2p_transmission.OrdMap.Order.{text_order, same_iff}
use p2p_transmission.OrdMap.Sorted.{Sorted, insert-Sorted, All-insert, Sorted-append_last}
use p2p_transmission.Domain.Ids.{SessionId, RoomId, RoomCode, RequestId}
use p2p_transmission.Domain.Time.{EpochMillis, Revision}
use p2p_transmission.Domain.Room.State.{Membership, JoinRequest, Room, RoomState}
use p2p_transmission.Domain.Room.Restore.{
  RoomMembershipSnapshot, RoomJoinRequestSnapshot, verify_receivers, verify_approved,
  verify_invariants, membership_snapshots, join_request_snapshots, restore_memberships,
  restore_requests, checked, restore,
}
use p2p_transmission.Domain.Room.Invariant.{IsValid, OwnerEntry, IsReceiverOf, IsBacked, IsWithin}

-- What `verify_invariants` accepts.
pub record IsVerified (r : Room) : Type 0 where
  pub revision_pos : r.revision ≢ 0
  pub owner_entry : OwnerEntry (get r.owner_id r.memberships)
  pub receivers : All (IsReceiverOf r.owner_id) r.memberships
  pub approved_members : All (IsBacked r.memberships) r.join_requests

verify_receivers_iff :
    (owner_id : SessionId) (m : OrdMap SessionId Membership)
    → (verify_receivers owner_id m ≡ ok tt) ↔ All (IsReceiverOf owner_id) m
unfolding verify_receivers
verify_receivers_iff owner_id [] = (λ h. tt, λ h. refl)
verify_receivers_iff owner_id ((k, v) ∷ m) = (
  λ h. ground (arith, same_iff k owner_id, (verify_receivers_iff owner_id m).0),
  λ a. ground (arith, same_iff k owner_id, a.0, (verify_receivers_iff owner_id m).1 a.1),
)

verify_approved_iff :
    (memberships : OrdMap SessionId Membership) (m : OrdMap RequestId JoinRequest)
    → (verify_approved memberships m ≡ ok tt) ↔ All (IsBacked memberships) m
unfolding verify_approved
verify_approved_iff memberships [] = (λ h. tt, λ h. refl)
verify_approved_iff memberships ((k, q) ∷ m) = (
  λ h. ground (arith, (verify_approved_iff memberships m).0),
  λ a. ground (arith, a.0, (verify_approved_iff memberships m).1 a.1),
)

-- `verify_invariants` accepts exactly the rooms of `IsVerified`: the revision is positive, the owner
-- has an entry with its role and has not left, all others are receivers, and the session of each
-- approved request has the entry of a receiver.
pub verify_invariants-IsVerified : (r : Room) → (verify_invariants r ≡ ok tt) ↔ IsVerified r
unfolding verify_invariants
verify_invariants-IsVerified r = (
  λ h. record {
    revision_pos = ground arith;
    owner_entry = ground arith;
    receivers = (verify_receivers_iff r.owner_id r.memberships).0 (ground arith);
    approved_members = (verify_approved_iff r.memberships r.join_requests).0 (ground arith);
  },
  λ v. ground (
    arith,
    v.owner_entry,
    (verify_receivers_iff r.owner_id r.memberships).1 v.receivers,
    (verify_approved_iff r.memberships r.join_requests).1 v.approved_members,
  ),
)

module _ (room_deadline : EpochMillis) where
  restore_requests-append :
      (acc m : OrdMap RequestId JoinRequest)
      → Sorted (acc ++ m)
      → All (IsWithin room_deadline) m
      → restore_requests room_deadline acc (
          map
            (λ entry. record {
              request_id = entry.0;
              session_id = entry.1.session_id;
              expires_at = entry.1.expires_at;
              state = entry.1.state;
            })
            m)
        ≡ ok (acc ++ m)
  unfolding restore_requests
  restore_requests-append acc [] s w = ap ok (sym (append-nil acc))
  restore_requests-append acc ((k, q) ∷ m) s w =
      let (fresh, last) = Sorted-append_last acc k q m s in
      let ih =
        restore_requests-append (acc ++ (k, q) ∷ []) m
          (subst Sorted (sym (append_assoc acc ((k, q) ∷ []) m)) s) w.1 in
      ground (arith, fresh, last, ih, append_assoc acc ((k, q) ∷ []) m, w.0)

restore_memberships-append :
    (acc m : OrdMap SessionId Membership)
    → Sorted (acc ++ m)
    → restore_memberships acc (
        map
          (λ entry. record { session_id = entry.0; role = entry.1.role; state = entry.1.state })
          m)
      ≡ ok (acc ++ m)
unfolding restore_memberships
restore_memberships-append acc [] s = ap ok (sym (append-nil acc))
restore_memberships-append acc ((k, v) ∷ m) s =
    let (fresh, last) = Sorted-append_last acc k v m s in
    let ih =
      restore_memberships-append (acc ++ (k, v) ∷ []) m
        (subst Sorted (sym (append_assoc acc ((k, v) ∷ []) m)) s) in
    ground (arith, fresh, last, ih, append_assoc acc ((k, v) ∷ []) m)

IsValid-IsVerified : (r : Room) → IsValid r → IsVerified r
IsValid-IsVerified r v = record {
  revision_pos = λ z. omega (arith, v.revision_pos);
  owner_entry = v.owner_entry;
  receivers = v.receivers;
  approved_members = v.approved_members;
}

-- A well-formed room is restored from its fields and snapshots as it was.
pub restore-snapshots :
    (r : Room)
    → IsValid r
    → restore r.id r.code r.owner_id r.expires_at r.state r.revision
        (membership_snapshots r)
        (join_request_snapshots r)
      ≡ ok r
unfolding restore membership_snapshots join_request_snapshots
restore-snapshots r v =
    rw
      (
        restore_memberships-append [] r.memberships v.memberships_sorted,
        restore_requests-append r.expires_at [] r.join_requests v.requests_sorted v.requests_within,
      )
      (rw ((verify_invariants-IsVerified r).1 (IsValid-IsVerified r v)) refl)

restore_memberships-Sorted :
    (acc : OrdMap SessionId Membership) (l : List RoomMembershipSnapshot)
    {m : OrdMap SessionId Membership}
    → Sorted acc
    → restore_memberships acc l ≡ ok m
    → Sorted m
unfolding restore_memberships
restore_memberships-Sorted acc [] s e = subst Sorted (ground arith) s
restore_memberships-Sorted acc (x ∷ l) s e = elim (Option-cases (get x.session_id acc)) [
  | inl free ↦
      restore_memberships-Sorted (insert x.session_id _ acc) l
        (insert-Sorted x.session_id (record { role = x.role; state = x.state }) acc s)
        (ground arith)
  | inr (_, taken) ↦ absurd (ground arith)
]

-- The stored requests, once restored.
abbrev pub IsRestored : EpochMillis → OrdMap RequestId JoinRequest → Type 0
IsRestored room_deadline m = Sorted m × All (IsWithin room_deadline) m

restore_requests-IsRestored :
    (room_deadline : EpochMillis) (acc : OrdMap RequestId JoinRequest)
    (l : List RoomJoinRequestSnapshot) {m : OrdMap RequestId JoinRequest}
    → IsRestored room_deadline acc
    → restore_requests room_deadline acc l ≡ ok m
    → IsRestored room_deadline m
unfolding restore_requests
restore_requests-IsRestored d acc [] s e = subst (IsRestored d) (ground arith) s
restore_requests-IsRestored d acc (x ∷ l) s e = elim (Bool-cases (ltb d x.expires_at)) [
  | inl late ↦ absurd (ground arith)
  | inr fits ↦ elim (Option-cases (get x.request_id acc)) [
    | inr (_, taken) ↦ absurd (ground arith)
    | inl free ↦
        restore_requests-IsRestored d (insert x.request_id q acc) l
          (
            insert-Sorted x.request_id q acc s.0,
            All-insert (IsWithin d) x.request_id q acc s.1 (ground arith),
          )
          (ground arith)
  ]
]
  where
    q : JoinRequest
    q = record { session_id = x.session_id; expires_at = x.expires_at; state = x.state }

checked-IsVerified : (x r : Room) → checked x ≡ ok r → IsVerified r × (x ≡ r)
unfolding checked
checked-IsVerified x r e =
    (subst IsVerified same_room ((verify_invariants-IsVerified x).0 (ground arith)), same_room)
  where
    same_room : x ≡ r
    same_room = ground arith

-- Whatever `restore` accepts passes `verify_invariants`, has one entry for each key, and no request
-- that outlives the room.
pub restore-IsVerified :
    (id : RoomId) (code : RoomCode) (owner_id : SessionId) (expires_at : EpochMillis)
    (state : RoomState) (revision : Revision) (members : List RoomMembershipSnapshot)
    (requests : List RoomJoinRequestSnapshot) (r : Room)
    → restore id code owner_id expires_at state revision members requests ≡ ok r
    → IsVerified r × (Sorted r.memberships × IsRestored r.expires_at r.join_requests)
unfolding restore
restore-IsVerified id code owner_id expires_at state revision members requests r e =
    let (ms, em, e₁) = >>=-eq-ok (restore_memberships [] members) _ e in
    let (js, ej, e₂) = >>=-eq-ok (restore_requests expires_at [] requests) _ e₁ in
    let (v, same_room) = checked-IsVerified _ r e₂ in
    (
      v,
      subst (λ (x : Room). Sorted x.memberships × IsRestored x.expires_at x.join_requests) same_room
          (
            restore_memberships-Sorted [] members tt em,
            restore_requests-IsRestored expires_at [] requests (tt, tt) ej,
          ),
    )
