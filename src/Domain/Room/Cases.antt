-- ===== src/Domain/Room/Cases.antt =====
-- One case principle for each command: a property of replies holds of the command's reply if it
-- holds of the refusals, of the unchanged room and of what the command commits.
use p2p_transmission.Prelude.{
  ◌≤◌, ◌<◌, ◌≡◌, refl, ◌≢◌, Bool, true, false, none, some, arith, Option-cases, Bool-cases, ◌⊎◌,
  leb, ◌+◌, ok, err, inl, inr, ap, ◌↔◌,
}
use p2p_transmission.Prelude.Words.{u64_max}
use p2p_transmission.OrdMap.Map.{get}
use p2p_transmission.OrdMap.Values.{any_value, find_value, map_values}
use p2p_transmission.OrdMap.Order.{text_order, same_iff}
use p2p_transmission.Domain.Ids.{SessionId, PeerId, RequestId}
use p2p_transmission.Domain.Time.{EpochMillis}
use p2p_transmission.Domain.Room.State.{
  active, expired, offline, online, left, pending, cancelled, request_expired, revision_overflow,
  Membership, JoinRequest, Room, RoomError, is_left, is_online_as, JoinDecision, MembershipState,
  inactive, invalid_request_expiry, idempotency_conflict, already_member, pending_request_exists,
  unauthorized, request_not_found, request_past_deadline, request_expiry_not_reached,
  membership_not_found, membership_left, expiry_not_reached,
}
use p2p_transmission.Domain.Room.Commands.{
  Reply, changed_outcome, refuse, unchanged, commit, is_current_member, is_pending_of,
  set_membership, set_request, expire_pending, do_request_join, do_decide_join,
  do_expire_join_request, do_attach, do_detach, do_leave, do_expire, decide,
}

-- The room is open and before its deadline.
pub record Live (r : Room) (now : EpochMillis) : Type 0 where
  pub open_state : r.state ≡ active
  pub before_deadline : now < r.expires_at

abbrev pub is_overflow : RoomError → Bool
is_overflow revision_overflow = true
is_overflow _ = false

pub online_as_iff : (m : MembershipState) (p : PeerId) → (is_online_as p m ≡ true) ↔ (m ≡ online p)
online_as_iff offline p = (λ h. cc, λ h. cc)
online_as_iff (online c) p =
    (λ h. ap online ((same_iff c p).0 h), λ h. (same_iff c p).1 (ground arith))
online_as_iff left p = (λ h. cc, λ h. cc)

module _ (P : Reply → Type 0) (r : Room)
    (on_refused : (e : RoomError) → is_overflow e ≡ false → P (refuse r e))
    (on_kept : P (unchanged r)) where
  pub request_join_cases :
      (k : RequestId) (s : SessionId) (now deadline : EpochMillis)
      → (Live r now
          → now < deadline
          → deadline ≤ r.expires_at
          → get k r.join_requests ≡ none
          → is_current_member (get s r.memberships) ≡ false
          → any_value (is_pending_of s) r.join_requests ≡ false
          → P (
              commit (
                set_request r k
                  (record { session_id = s; expires_at = deadline; state = pending }))))
      → P (do_request_join r k s now deadline)
  unfolding do_request_join
  request_join_cases k s now deadline f = ground (
    arith,
    on_refused inactive refl,
    on_refused invalid_request_expiry refl,
    on_refused idempotency_conflict refl,
    on_refused already_member refl,
    on_refused pending_request_exists refl,
  )

  pub decide_join_cases :
      (actor : SessionId) (k : RequestId) (d : JoinDecision) (now : EpochMillis)
      → ((q : JoinRequest)
          → Live r now
          → actor ≡ r.owner_id
          → get k r.join_requests ≡ some q
          → now < q.expires_at
          → P (decide r k q q.state d))
      → P (do_decide_join r actor k d now)
  unfolding do_decide_join
  decide_join_cases actor k d now f = elim (Option-cases (get k r.join_requests)) [
    | inl e ↦ ground (
      arith,
      on_refused inactive refl,
      on_refused unauthorized refl,
      on_refused request_not_found refl,
    )
    | inr (q, e) ↦ ground (
      arith,
      on_refused inactive refl,
      on_refused unauthorized refl,
      on_refused request_past_deadline refl,
      same_iff actor r.owner_id,
      f q,
    )
  ]

  pub expire_join_request_cases :
      (k : RequestId) (now : EpochMillis)
      → ((q : JoinRequest)
          → Live r now
          → get k r.join_requests ≡ some q
          → q.expires_at ≤ now
          → q.state ≡ pending
          → P (commit (set_request r k (record q { state = request_expired }))))
      → P (do_expire_join_request r k now)
  unfolding do_expire_join_request
  expire_join_request_cases k now f = elim (Option-cases (get k r.join_requests)) [
    | inl e ↦ ground (arith, on_refused inactive refl, on_refused request_not_found refl)
    | inr (q, e) ↦
        ground (arith, on_refused inactive refl, on_refused request_expiry_not_reached refl, f q)
  ]

  pub attach_cases :
      (s : SessionId) (p : PeerId) (now : EpochMillis)
      → ((m : Membership)
          → Live r now
          → get s r.memberships ≡ some m
          → is_left m.state ≡ false
          → is_online_as p m.state ≡ false
          → P (commit (set_membership r s (record m { state = online p }))))
      → P (do_attach r s p now)
  unfolding do_attach
  attach_cases s p now f = elim (Option-cases (get s r.memberships)) [
    | inl e ↦ ground (arith, on_refused inactive refl, on_refused membership_not_found refl)
    | inr (m, e) ↦ ground (arith, on_refused inactive refl, on_refused membership_left refl, f m)
  ]

  pub detach_cases :
      (s : SessionId) (p : PeerId)
      → ((m : Membership)
          → get s r.memberships ≡ some m
          → m.state ≡ online p
          → P (commit (set_membership r s (record m { state = offline }))))
      → P (do_detach r s p)
  unfolding do_detach
  detach_cases s p f = elim (Option-cases (get s r.memberships)) [
    | inl e ↦ ground (arith, on_refused membership_not_found refl)
    | inr (m, e) ↦ ground (arith, on_refused membership_left refl, f m, online_as_iff m.state p)
  ]

  pub leave_cases :
      (s : SessionId)
      → (s ≡ r.owner_id → r.state ≡ active → P (commit (record r { state = expired })))
      → ((m : Membership)
          → s ≢ r.owner_id
          → get s r.memberships ≡ some m
          → is_left m.state ≡ false
          → P (commit (set_membership r s (record m { state = left }))))
      → ((k : RequestId) (q : JoinRequest)
          → s ≢ r.owner_id
          → get s r.memberships ≡ none
          → find_value (is_pending_of s) r.join_requests ≡ some (k, q)
          → P (commit (set_request r k (record q { state = cancelled }))))
      → P (do_leave r s)
  unfolding do_leave
  leave_cases s f g h = elim (Option-cases (get s r.memberships)) [
    | inr (m, e) ↦ ground (arith, same_iff s r.owner_id, f, g m)
    | inl e ↦ elim (Option-cases (find_value (is_pending_of s) r.join_requests)) [
      | inl e' ↦ ground (arith, same_iff s r.owner_id, f, on_refused membership_not_found refl)
      | inr ((k, q), e') ↦ ground (arith, same_iff s r.owner_id, f, h k q)
    ]
  ]

  pub expire_cases :
      (now : EpochMillis)
      → (r.state ≡ active
          → r.expires_at ≤ now
          → P (
              commit (record r {
                state = expired;
                join_requests = map_values expire_pending r.join_requests;
              })))
      → P (do_expire r now)
  unfolding do_expire
  expire_cases now f = ground (arith, on_refused expiry_not_reached refl)

-- `commit` counts the revision, or finds the counter at its end and leaves the room as it is.
pub commit_cases :
    (r : Room)
    → (r.revision < u64_max)
        × (commit r ≡ (record r { revision = r.revision + 1 }, ok changed_outcome))
      ⊎ (u64_max ≤ r.revision) × (commit r ≡ (r, err revision_overflow))
unfolding commit
commit_cases r = elim (Bool-cases (leb (r.revision + 1) u64_max)) [
  | inl fits ↦ inl (ground arith, ground arith)
  | inr full ↦ inr (ground arith, ground arith)
]
