-- ===== src/Domain/Room/Exclusion.antt =====
-- Membership and pending requests exclude one another.
use p2p_transmission.Prelude.{
  ◌≡◌, ◌≢◌, true, false, some, arith, inl, inr, ◌⊎◌, sym, subst, Bool-cases, Option-cases, ◌∙◌,
  List, [], ◌∷◌, ok,
}
use p2p_transmission.OrdMap.Map.{get, get-insert}
use p2p_transmission.OrdMap.Values.{any_value, get-map_values, any_value-get, map_values}
use p2p_transmission.OrdMap.Order.{text_order, same, same_iff}
use p2p_transmission.Domain.Ids.{SessionId, RequestId, RoomId, RoomCode}
use p2p_transmission.Domain.Time.{EpochMillis}
use p2p_transmission.Domain.Room.State.{
  expired, receiver, offline, pending, approved, Membership, JoinRequest, RoomCommand, Room,
  is_left, RoomCommandOutcome,
}
use p2p_transmission.Domain.Room.Commands.{
  is_current_member, is_pending_of, set_membership, set_request, expire_pending, handle, create,
  new_room,
}
use p2p_transmission.Domain.Room.Effect.{
  Transition, requested, admitted, turned_away, request_lapsed, attached, detached, closed,
  departed, withdrawn, lapsed,
}
use p2p_transmission.Domain.Room.Preservation.{run, create-new_room}
use p2p_transmission.Domain.Room.Replies.{handle_rule}

-- `k` holds a pending request of the session `s`.
abbrev pub Pends : Room → RequestId → SessionId → Type 0
Pends r k s =
    (q : JoinRequest) × (get k r.join_requests ≡ some q) × (q.session_id ≡ s) × (q.state ≡ pending)

pub record IsExclusive (r : Room) : Type 0 where
  pub one_request : (s : SessionId) (j k : RequestId) → Pends r j s → Pends r k s → j ≡ k
  pub outsider :
      (s : SessionId) (k : RequestId)
      → Pends r k s
      → is_current_member (get s r.memberships) ≡ false

-- Writing a request that is not pending adds none.
Pends-set_request :
    (r : Room) (j : RequestId) (q₁ : JoinRequest) (k : RequestId) (s : SessionId)
    → q₁.state ≢ pending
    → Pends (set_request r j q₁) k s
    → Pends r k s × (j ≢ k)
Pends-set_request r j q₁ k s n (q, g, a, b) = (
  (q, ground (arith, get-insert k j q₁ r.join_requests), a, b),
  λ e. ground (arith, get-insert k j q₁ r.join_requests, same_iff j k),
)

decided-IsExclusive :
    (r : Room) (j : RequestId) (q₁ : JoinRequest)
    → q₁.state ≢ pending
    → IsExclusive r
    → IsExclusive (set_request r j q₁)
decided-IsExclusive r j q₁ n x = record {
  one_request = λ s i k p p'.
      x.one_request s i k (Pends-set_request r j q₁ i s n p).0
        (Pends-set_request r j q₁ k s n p').0;
  outsider = λ s k p. x.outsider s k (Pends-set_request r j q₁ k s n p).0;
}

-- A member that is current changes its state.
member-IsExclusive :
    (r : Room) (j : SessionId) (m₀ m₁ : Membership)
    → get j r.memberships ≡ some m₀
    → (is_left m₀.state ≡ false) ⊎ (is_left m₁.state ≡ true)
    → IsExclusive r
    → IsExclusive (set_membership r j m₁)
member-IsExclusive r j m₀ m₁ g c x = record {
  one_request = x.one_request;
  outsider =
      λ s k p. ground (arith, get-insert s j m₁ r.memberships, same_iff j s, x.outsider s k p);
}

Pends-requested :
    (r : Room) (j : RequestId) (t : SessionId) (d : EpochMillis) (k : RequestId) (s : SessionId)
    → Pends (set_request r j (record { session_id = t; expires_at = d; state = pending })) k s
    → ((j ≡ k) × (t ≡ s)) ⊎ Pends r k s
Pends-requested r j t d k s (q, g, a, b) = elim (Bool-cases (same j k)) [
  | inl hit ↦ inl (
    (same_iff j k).0 hit,
    ground (
      arith,
      get-insert k j (record { session_id = t; expires_at = d; state = pending }) r.join_requests,
    ),
  )
  | inr miss ↦ inr (
    q,
    ground (
      arith,
      get-insert k j (record { session_id = t; expires_at = d; state = pending }) r.join_requests,
    ),
    a,
    b,
  )
]

no_pending-Pends :
    (r : Room) (s : SessionId) (k : RequestId)
    → any_value (is_pending_of s) r.join_requests ≡ false
    → ¬ Pends r k s
no_pending-Pends r s k n (q, g, a, b) =
    ground (arith, any_value-get (is_pending_of s) k r.join_requests n g, same_iff q.session_id s)

requested-IsExclusive :
    (r : Room) (j : RequestId) (t : SessionId) (d : EpochMillis)
    → any_value (is_pending_of t) r.join_requests ≡ false
    → is_current_member (get t r.memberships) ≡ false
    → IsExclusive r
    → IsExclusive (set_request r j (record { session_id = t; expires_at = d; state = pending }))
requested-IsExclusive r j t d n m x = record {
  one_request = λ s i k p p'. elim (Pends-requested r j t d i s p) [
    | inl (e, f) ↦ elim (Pends-requested r j t d k s p') [
      | inl (e', f') ↦ sym e ∙ e'
      | inr q' ↦ absurd (no_pending-Pends r t k n (subst (Pends r k) (sym f) q'))
    ]
    | inr q ↦ elim (Pends-requested r j t d k s p') [
      | inl (e', f') ↦ absurd (no_pending-Pends r t i n (subst (Pends r i) (sym f') q))
      | inr q' ↦ x.one_request s i k q q'
    ]
  ];
  outsider = λ s k p. elim (Pends-requested r j t d k s p) [
    | inl (e, f) ↦ subst (λ (y : SessionId). is_current_member (get y r.memberships) ≡ false) f m
    | inr q ↦ x.outsider s k q
  ];
}

-- The admitted session's own request no longer pends, and it had no other.
admitted-IsExclusive :
    (r : Room) (j : RequestId) (q : JoinRequest)
    → get j r.join_requests ≡ some q
    → q.state ≡ pending
    → IsExclusive r
    → IsExclusive (
        set_membership
          (set_request r j (record q { state = approved }))
          q.session_id
          (record { role = receiver; state = offline }))
admitted-IsExclusive r j q g e x = record {
  one_request = y.one_request;
  outsider = λ s k p. elim (Bool-cases (same q.session_id s)) [
    | inl hit ↦
        let (p', ne) = Pends-set_request r j (record q { state = approved }) k s (λ h. cc) p in
        absurd (ne (x.one_request s j k (q, g, (same_iff q.session_id s).0 hit, e) p'))
    | inr miss ↦ ground (
      arith,
      get-insert s q.session_id (record { role = receiver; state = offline }) r.memberships,
      y.outsider s k p,
    )
  ];
}
  where
    y : IsExclusive (set_request r j (record q { state = approved }))
    y = decided-IsExclusive r j (record q { state = approved }) (λ h. cc) x

lapsed-IsExclusive :
    (r : Room)
    → IsExclusive r
    → IsExclusive
        (record r { state = expired; join_requests = map_values expire_pending r.join_requests })
lapsed-IsExclusive r x = record {
  one_request = λ s j k p p'. absurd (none_pends s j p);
  outsider = λ s k p. absurd (none_pends s k p);
}
  where
    none_pends :
        (s : SessionId) (k : RequestId)
        → ¬ Pends
            (record r {
              state = expired;
              join_requests = map_values expire_pending r.join_requests;
            })
            k
            s
    none_pends s k (q, g, a, b) = elim (Option-cases (get k r.join_requests)) [
      | inl e ↦ ground (arith, get-map_values expire_pending k r.join_requests)
      | inr (q₀, e) ↦ ground (arith, get-map_values expire_pending k r.join_requests)
    ]

Transition-IsExclusive :
    {r r' : Room} {c : RoomCommand} → Transition r c r' → IsExclusive r → IsExclusive r'
Transition-IsExclusive {r} (requested {k = j} {s = t} {deadline = d} l a b g m n) x =
    requested-IsExclusive r j t d n m x
Transition-IsExclusive {r} (admitted {k = j} q l a g t e) x = admitted-IsExclusive r j q g e x
Transition-IsExclusive {r} (turned_away {k = j} q l a g t e) x =
    decided-IsExclusive r j _ (λ h. cc) x
Transition-IsExclusive {r} (request_lapsed {k = j} q l g t e) x =
    decided-IsExclusive r j _ (λ h. cc) x
Transition-IsExclusive {r} (attached {s = s} m l g a b) x = member-IsExclusive r s m _ g (inl a) x
Transition-IsExclusive {r} (detached {s = s} {p = p} m g e) x =
    member-IsExclusive r s m _ g (inl (ground arith)) x
Transition-IsExclusive {r} (closed e a) x = record {
  one_request = x.one_request;
  outsider = x.outsider;
}
Transition-IsExclusive {r} (departed {s = s} m e g a) x = member-IsExclusive r s m _ g (inl a) x
Transition-IsExclusive {r} (withdrawn j q e g f) x = decided-IsExclusive r j _ (λ h. cc) x
Transition-IsExclusive {r} (lapsed a h) x = lapsed-IsExclusive r x

pub handle-IsExclusive : (r : Room) (c : RoomCommand) → IsExclusive r → IsExclusive (handle r c).0
handle-IsExclusive r c x =
    handle_rule IsExclusive r c x (λ r' t. Transition-IsExclusive t x)
      (λ r' n y. record { one_request = y.one_request; outsider = y.outsider })

run-IsExclusive : (r : Room) (cs : List RoomCommand) → IsExclusive r → IsExclusive (run r cs)
unfolding run
run-IsExclusive r [] x = x
run-IsExclusive r (c ∷ cs) x = run-IsExclusive (handle r c).0 cs (handle-IsExclusive r c x)

new_room-IsExclusive :
    (id : RoomId) (code : RoomCode) (owner_id : SessionId) (deadline : EpochMillis)
    → IsExclusive (new_room id code owner_id deadline)
unfolding get
new_room-IsExclusive id code owner_id deadline = record {
  one_request = λ s j k p p'. absurd (none_pends j s p);
  outsider = λ s k p. absurd (none_pends k s p);
}
  where
    none_pends : (k : RequestId) (s : SessionId) → ¬ Pends (new_room id code owner_id deadline) k s
    none_pends k s (q, g, a, b) = cc

-- After any commands on a created room, a session has at most one pending request, and none while
-- it is a member that has not left.
pub run-create-IsExclusive :
    (id : RoomId) (code : RoomCode) (owner_id : SessionId) (now deadline : EpochMillis) (r : Room)
    (o : RoomCommandOutcome) (cs : List RoomCommand)
    → create id code owner_id now deadline ≡ ok (r, o)
    → IsExclusive (run r cs)
run-create-IsExclusive id code owner_id now deadline r o cs e = run-IsExclusive r cs (
    subst IsExclusive (sym (create-new_room id code owner_id now deadline r o e))
      (new_room-IsExclusive id code owner_id deadline))
