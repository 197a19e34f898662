-- ===== src/Domain/Room/Effect.antt =====
-- The transitions of a room, as a relation between a room, a command of `Room::handle` and the
-- reply: what each command may change, and under which conditions.
use p2p_transmission.Prelude.{◌≤◌, ◌<◌, ◌≡◌, refl, ◌≢◌, false, none, some, arith}
use p2p_transmission.OrdMap.Map.{get}
use p2p_transmission.OrdMap.Values.{any_value, find_value, map_values}
use p2p_transmission.OrdMap.Order.{text_order, same_iff}
use p2p_transmission.Domain.Ids.{SessionId, PeerId, RequestId}
use p2p_transmission.Domain.Time.{EpochMillis}
use p2p_transmission.Domain.Room.State.{
  active, expired, receiver, offline, online, left, pending, approved, rejected, cancelled,
  request_expired, approve, reject, request_join, decide_join, expire_join_request, attach, detach,
  leave, expire, Membership, JoinRequest, RoomCommand, Room, RoomError, is_left, is_online_as,
  JoinDecision, terminal_request, JoinRequestState,
}
use p2p_transmission.Domain.Room.Commands.{
  Reply, refuse, unchanged, commit, is_current_member, is_pending_of, set_membership, set_request,
  expire_pending, do_request_join, do_decide_join, do_expire_join_request, do_attach, do_detach,
  do_leave, do_expire, handle, decide,
}
use p2p_transmission.Domain.Room.Cases.{
  online_as_iff, Live, is_overflow, request_join_cases, decide_join_cases,
  expire_join_request_cases, attach_cases, detach_cases, leave_cases, expire_cases,
}

-- The changes that a command makes, with its guards. The revision is counted afterwards.
pub data Transition (r : Room) : RoomCommand → Room → Type 0 where
  requested :
      {k : RequestId} {s : SessionId} {now deadline : EpochMillis}
      → Live r now
      → now < deadline
      → deadline ≤ r.expires_at
      → get k r.join_requests ≡ none
      → is_current_member (get s r.memberships) ≡ false
      → any_value (is_pending_of s) r.join_requests ≡ false
      → Transition r
          (request_join k s now deadline)
          (set_request r k (record { session_id = s; expires_at = deadline; state = pending }))
  admitted :
      {k : RequestId} {actor : SessionId} {now : EpochMillis} (q : JoinRequest)
      → Live r now
      → actor ≡ r.owner_id
      → get k r.join_requests ≡ some q
      → now < q.expires_at
      → q.state ≡ pending
      → Transition r (decide_join actor k approve now) (
          set_membership
            (set_request r k (record q { state = approved }))
            q.session_id
            (record { role = receiver; state = offline }))
  turned_away :
      {k : RequestId} {actor : SessionId} {now : EpochMillis} (q : JoinRequest)
      → Live r now
      → actor ≡ r.owner_id
      → get k r.join_requests ≡ some q
      → now < q.expires_at
      → q.state ≡ pending
      → Transition r
          (decide_join actor k reject now)
          (set_request r k (record q { state = rejected }))
  request_lapsed :
      {k : RequestId} {now : EpochMillis} (q : JoinRequest)
      → Live r now
      → get k r.join_requests ≡ some q
      → q.expires_at ≤ now
      → q.state ≡ pending
      → Transition r
          (expire_join_request k now)
          (set_request r k (record q { state = request_expired }))
  attached :
      {s : SessionId} {p : PeerId} {now : EpochMillis} (m : Membership)
      → Live r now
      → get s r.memberships ≡ some m
      → is_left m.state ≡ false
      → is_online_as p m.state ≡ false
      → Transition r (attach s p now) (set_membership r s (record m { state = online p }))
  detached :
      {s : SessionId} {p : PeerId} (m : Membership)
      → get s r.memberships ≡ some m
      → m.state ≡ online p
      → Transition r (detach s p) (set_membership r s (record m { state = offline }))
  closed :
      {s : SessionId}
      → s ≡ r.owner_id
      → r.state ≡ active
      → Transition r (leave s) (record r { state = expired })
  departed :
      {s : SessionId} (m : Membership)
      → s ≢ r.owner_id
      → get s r.memberships ≡ some m
      → is_left m.state ≡ false
      → Transition r (leave s) (set_membership r s (record m { state = left }))
  withdrawn :
      {s : SessionId} (k : RequestId) (q : JoinRequest)
      → s ≢ r.owner_id
      → get s r.memberships ≡ none
      → find_value (is_pending_of s) r.join_requests ≡ some (k, q)
      → Transition r (leave s) (set_request r k (record q { state = cancelled }))
  lapsed :
      {now : EpochMillis}
      → r.state ≡ active
      → r.expires_at ≤ now
      → Transition r
          (expire now)
          (record r { state = expired; join_requests = map_values expire_pending r.join_requests })

pub data Effect (r : Room) (c : RoomCommand) : Reply → Type 0 where
  refused : (e : RoomError) → is_overflow e ≡ false → Effect r c (refuse r e)
  kept : Effect r c (unchanged r)
  moved : {r' : Room} → Transition r c r' → Effect r c (commit r')

handle_decide :
    (r : Room) (actor : SessionId) (k : RequestId) (d : JoinDecision) (now : EpochMillis)
    (q : JoinRequest) (state : JoinRequestState)
    → q.state ≡ state
    → Live r now
    → actor ≡ r.owner_id
    → get k r.join_requests ≡ some q
    → now < q.expires_at
    → Effect r (decide_join actor k d now) (decide r k q state d)
handle_decide r actor k approve now q pending e l a g t = moved (admitted q l a g t e)
handle_decide r actor k reject now q pending e l a g t = moved (turned_away q l a g t e)
handle_decide r actor k approve now q approved e l a g t = kept
handle_decide r actor k reject now q rejected e l a g t = kept
handle_decide r actor k _ now q _ e l a g t = refused terminal_request refl

-- Every reply of `handle` is one that the relation allows for its room and command.
pub handle-Effect : (r : Room) (c : RoomCommand) → Effect r c (handle r c)
unfolding handle
handle-Effect r (request_join k s now deadline) =
    request_join_cases (Effect r _) r (λ e h. refused e h) kept k s now deadline
      (λ l a b g m n. moved (requested l a b g m n))
handle-Effect r (decide_join actor k d now) =
    decide_join_cases (Effect r _) r (λ e h. refused e h) kept actor k d now
      (λ q. handle_decide r actor k d now q q.state refl)
handle-Effect r (expire_join_request k now) =
    expire_join_request_cases (Effect r _) r (λ e h. refused e h) kept k now
      (λ q l g t e. moved (request_lapsed q l g t e))
handle-Effect r (attach s p now) =
    attach_cases (Effect r _) r (λ e h. refused e h) kept s p now
      (λ m l g a b. moved (attached m l g a b))
handle-Effect r (detach s p) =
    detach_cases (Effect r _) r (λ e h. refused e h) kept s p (λ m g e. moved (detached m g e))
handle-Effect r (leave s) =
    leave_cases (Effect r _) r (λ e h. refused e h) kept s (λ e a. moved (closed e a))
      (λ m e g a. moved (departed m e g a)) (λ k q e g f. moved (withdrawn k q e g f))
handle-Effect r (expire now) =
    expire_cases (Effect r _) r (λ e h. refused e h) kept now (λ a h. moved (lapsed a h))

-- Whatever the relation allows, `handle` does: the guards of a transition decide the reply.
pub Transition-handle : {r r' : Room} {c : RoomCommand} → Transition r c r' → handle r c ≡ commit r'
unfolding handle do_request_join do_decide_join do_expire_join_request do_attach do_detach do_leave
    do_expire
Transition-handle {r} (requested {k} {s} l a b g m n) = ground (arith)
Transition-handle {r} (admitted {actor = actor} q l a g t e) =
    ground (arith, same_iff actor r.owner_id)
Transition-handle {r} (turned_away {actor = actor} q l a g t e) =
    ground (arith, same_iff actor r.owner_id)
Transition-handle (request_lapsed q l g t e) = ground arith
Transition-handle (attached m l g a b) = ground arith
Transition-handle (detached {p = p} m g e) = ground (arith, online_as_iff m.state p)
Transition-handle {r} (closed {s} e a) = ground (arith, same_iff s r.owner_id)
Transition-handle {r} (departed {s} m e g a) = ground (arith, same_iff s r.owner_id)
Transition-handle {r} (withdrawn {s} k q e g f) = ground (arith, same_iff s r.owner_id)
Transition-handle (lapsed a h) = ground arith
