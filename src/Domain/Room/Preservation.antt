-- ===== src/Domain/Room/Preservation.antt =====
-- Rooms stay well formed: `create`, every transition, every command and every run.
use p2p_transmission.Prelude.{
  ◌<◌, ◌≡◌, refl, ◌≢◌, false, some, arith, List, [], ◌∷◌, ok, inl, inr, subst, sym, ◌+◌,
}
use p2p_transmission.Prelude.Words.{u64_max}
use p2p_transmission.OrdMap.Map.{get, get-insert}
use p2p_transmission.OrdMap.Values.{find_value-All}
use p2p_transmission.OrdMap.Sorted.{All-get}
use p2p_transmission.OrdMap.Order.{text_order, same_self, same_iff}
use p2p_transmission.Domain.Ids.{SessionId, RoomId, RoomCode, RequestId}
use p2p_transmission.Domain.Time.{EpochMillis}
use p2p_transmission.Domain.Room.State.{
  receiver, offline, online, left, pending, approved, cancelled, JoinRequest, RoomCommand,
  RoomCommandOutcome, Room,
}
use p2p_transmission.Domain.Room.Commands.{
  Reply, create, new_room, commit, is_current_member, set_membership, set_request, handle,
}
use p2p_transmission.Domain.Room.Cases.{commit_cases}
use p2p_transmission.Domain.Room.Effect.{
  Effect, Transition, refused, kept, moved, requested, admitted, turned_away, request_lapsed,
  attached, detached, closed, departed, withdrawn, lapsed, handle-Effect,
}
use p2p_transmission.Domain.Room.Invariant.{
  IsNotFrom, IsWithin, IsValid, set_membership-IsValid, member_state-IsValid, set_request-IsValid,
  request_state-IsValid, closed-IsValid, expired_requests-IsValid,
}

counted-IsValid :
    (r : Room) → r.revision < u64_max → IsValid r → IsValid (record r { revision = r.revision + 1 })
counted-IsValid r h v = record {
  revision_pos = omega arith;
  revision_fits = omega arith;
  memberships_sorted = v.memberships_sorted;
  requests_sorted = v.requests_sorted;
  owner_entry = v.owner_entry;
  receivers = v.receivers;
  approved_members = v.approved_members;
  requests_of_others = v.requests_of_others;
  requests_within = v.requests_within;
}

commit-IsValid : (r : Room) → IsValid r → IsValid (commit r).0
commit-IsValid r v = elim (commit_cases r) [
  | inl (fits, e) ↦ rw e (counted-IsValid r fits v)
  | inr (_, e) ↦ rw e v
]

current_member-not_owner :
    (r : Room) (s : SessionId)
    → IsValid r
    → is_current_member (get s r.memberships) ≡ false
    → s ≢ r.owner_id
current_member-not_owner r s v h e = ground (arith, v.owner_entry)

admitted-IsValid :
    (r : Room) (k : RequestId) (q : JoinRequest)
    → IsValid r
    → get k r.join_requests ≡ some q
    → IsValid (
        set_membership
          (set_request r k (record q { state = approved }))
          q.session_id
          (record { role = receiver; state = offline }))
admitted-IsValid r k q v e =
    set_request-IsValid
      (set_membership r q.session_id (record { role = receiver; state = offline })) k
      (record q { state = approved })
      (set_membership-IsValid r q.session_id (record { role = receiver; state = offline }) v
        (ground (
          arith,
          get-insert r.owner_id q.session_id (record { role = receiver; state = offline })
              r.memberships,
          same_iff q.session_id r.owner_id,
          v.owner_entry,
          not_owner,
        ))
        (λ _. refl)
        (λ x n. ground (
          arith,
          get-insert x q.session_id (record { role = receiver; state = offline }) r.memberships,
          n,
        )))
      (λ _. ground (
        arith,
        get-insert q.session_id q.session_id (record { role = receiver; state = offline })
            r.memberships,
        same_iff q.session_id q.session_id,
      ))
      not_owner (All-get (IsWithin r.expires_at) k r.join_requests v.requests_within e)
  where
    not_owner : q.session_id ≢ r.owner_id
    not_owner = All-get (IsNotFrom r.owner_id) k r.join_requests v.requests_of_others e

-- Every transition keeps the room well formed.
pub Transition-IsValid :
    {r r' : Room} {c : RoomCommand} → Transition r c r' → IsValid r → IsValid r'
Transition-IsValid {r} (requested {k} {s} {now} {deadline} l a b g m n) v =
    set_request-IsValid r k (record { session_id = s; expires_at = deadline; state = pending }) v
      (λ h. absurd cc) (current_member-not_owner r s v m) b
Transition-IsValid {r} (admitted {k} q l a g t e) v = admitted-IsValid r k q v g
Transition-IsValid {r} (turned_away {k} q l a g t e) v =
    request_state-IsValid r k q _ v g refl refl (λ h. cc)
Transition-IsValid {r} (request_lapsed {k} q l g t e) v =
    request_state-IsValid r k q _ v g refl refl (λ h. cc)
Transition-IsValid {r} (attached {s} {p} m l g a b) v =
    member_state-IsValid r s m (online p) v g (λ _. refl)
Transition-IsValid {r} (detached {s} m g e) v = member_state-IsValid r s m offline v g (λ _. refl)
Transition-IsValid {r} (closed e a) v = closed-IsValid r v
Transition-IsValid {r} (departed {s} m e g a) v =
    member_state-IsValid r s m left v g (λ h. absurd (e h))
Transition-IsValid {r} (withdrawn k q e g f) v =
    set_request-IsValid r k (record q { state = cancelled }) v (λ h. absurd cc)
      (find_value-All (IsNotFrom r.owner_id) _ r.join_requests v.requests_of_others f).0
      (find_value-All (IsWithin r.expires_at) _ r.join_requests v.requests_within f).0
Transition-IsValid {r} (lapsed a h) v = closed-IsValid _ (expired_requests-IsValid r v)

Effect-IsValid : {r : Room} {c : RoomCommand} {y : Reply} → Effect r c y → IsValid r → IsValid y.0
Effect-IsValid (refused e h) v = v
Effect-IsValid kept v = v
Effect-IsValid (moved t) v = commit-IsValid _ (Transition-IsValid t v)

-- Every command, accepted or refused, keeps the room well formed.
pub handle-IsValid : (r : Room) (c : RoomCommand) → IsValid r → IsValid (handle r c).0
handle-IsValid r c v = Effect-IsValid (handle-Effect r c) v

-- The room after a sequence of commands, whatever their replies.
unfoldable pub run : Room → List RoomCommand → Room
run r [] = r
run r (c ∷ cs) = run (handle r c).0 cs

pub run-IsValid : (r : Room) (cs : List RoomCommand) → IsValid r → IsValid (run r cs)
unfolding run
run-IsValid r [] v = v
run-IsValid r (c ∷ cs) v = run-IsValid (handle r c).0 cs (handle-IsValid r c v)

pub new_room-IsValid :
    (id : RoomId) (code : RoomCode) (owner_id : SessionId) (deadline : EpochMillis)
    → IsValid (new_room id code owner_id deadline)
unfolding get
new_room-IsValid id code owner_id deadline = record {
  revision_pos = omega arith;
  revision_fits = omega arith;
  memberships_sorted = (tt, tt);
  requests_sorted = tt;
  owner_entry = ground (arith, same_self owner_id);
  receivers = (λ h. absurd (h refl), tt);
  approved_members = tt;
  requests_of_others = tt;
  requests_within = tt;
}

pub create-new_room :
    (id : RoomId) (code : RoomCode) (owner_id : SessionId) (now deadline : EpochMillis) (r : Room)
    (o : RoomCommandOutcome)
    → create id code owner_id now deadline ≡ ok (r, o)
    → r ≡ new_room id code owner_id deadline
unfolding create
create-new_room id code owner_id now deadline r o e = ground arith

-- `create` gives a well-formed room, and any commands keep it so.
pub run-create-IsValid :
    (id : RoomId) (code : RoomCode) (owner_id : SessionId) (now deadline : EpochMillis) (r : Room)
    (o : RoomCommandOutcome) (cs : List RoomCommand)
    → create id code owner_id now deadline ≡ ok (r, o)
    → IsValid (run r cs)
run-create-IsValid id code owner_id now deadline r o cs e = run-IsValid r cs (
    subst IsValid (sym (create-new_room id code owner_id now deadline r o e))
      (new_room-IsValid id code owner_id deadline))
