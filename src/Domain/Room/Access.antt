-- ===== src/Domain/Room/Access.antt =====
-- Who becomes a member, who comes online, and what an expired room still allows.
use p2p_transmission.Prelude.{
  ◌<◌, ◌≡◌, ◌≢◌, true, false, some, arith, inl, inr, ◌⊎◌, ap, Bool-cases, List, [], ◌∷◌,
}
use p2p_transmission.OrdMap.Map.{get, get-insert}
use p2p_transmission.OrdMap.Order.{text_order, same, same_iff}
use p2p_transmission.Domain.Ids.{SessionId, RequestId, PeerId}
use p2p_transmission.Domain.Time.{EpochMillis}
use p2p_transmission.Domain.Room.State.{
  expired, receiver, offline, online, left, pending, approve, Membership, JoinRequest, RoomCommand,
  Room, decide_join,
}
use p2p_transmission.Domain.Room.Commands.{is_current_member, set_membership, handle}
use p2p_transmission.Domain.Room.Cases.{Live}
use p2p_transmission.Domain.Room.Effect.{
  Transition, requested, admitted, turned_away, request_lapsed, attached, detached, closed,
  departed, withdrawn, lapsed,
}
use p2p_transmission.Domain.Room.Replies.{handle_rule}
use p2p_transmission.Domain.Room.Preservation.{run}

-- The owner approves, before both deadlines, a pending request of the session.
pub record IsAdmission (r : Room) (s : SessionId) (c : RoomCommand) : Type 0 where
  pub request_id : RequestId
  pub request : JoinRequest
  pub now : EpochMillis
  pub command : c ≡ decide_join r.owner_id request_id approve now
  pub live : Live r now
  pub stored : get request_id r.join_requests ≡ some request
  pub of_session : request.session_id ≡ s
  pub is_open : request.state ≡ pending
  pub in_time : now < request.expires_at

Transition-member :
    {r r' : Room} {c : RoomCommand} (s : SessionId)
    → Transition r c r'
    → is_current_member (get s r.memberships) ≡ false
    → (is_current_member (get s r'.memberships) ≡ false) ⊎ IsAdmission r s c
Transition-member {r} s (requested l a b g m n) h = inl h
Transition-member {r} s (admitted {k = k} {now = now} q l a g t e) h =
    elim (Bool-cases (same q.session_id s)) [
      | inl hit ↦ inr (record {
        request_id = k;
        request = q;
        now = now;
        command = ap (λ (x : SessionId). decide_join x k approve now) a;
        live = l;
        stored = g;
        of_session = (same_iff q.session_id s).0 hit;
        is_open = e;
        in_time = t;
      })
      | inr miss ↦ inl (
          ground (
            arith,
            get-insert s q.session_id (record { role = receiver; state = offline }) r.memberships,
          ))
    ]
Transition-member {r} s (turned_away q l a g t e) h = inl h
Transition-member {r} s (request_lapsed q l g t e) h = inl h
Transition-member {r} s (attached {s = j} {p = p} m l g a b) h =
    inl (ground (arith, get-insert s j (record m { state = online p }) r.memberships, same_iff j s))
Transition-member {r} s (detached {s = j} m g e) h =
    inl (ground (arith, get-insert s j (record m { state = offline }) r.memberships, same_iff j s))
Transition-member {r} s (closed e a) h = inl h
Transition-member {r} s (departed {s = j} m e g a) h =
    inl (ground (arith, get-insert s j (record m { state = left }) r.memberships, same_iff j s))
Transition-member {r} s (withdrawn k q e g f) h = inl h
Transition-member {r} s (lapsed a d) h = inl h

-- A session that is no current member becomes one by an admission only.
pub member-IsAdmission :
    (r : Room) (c : RoomCommand) (s : SessionId)
    → is_current_member (get s r.memberships) ≡ false
    → is_current_member (get s (handle r c).0.memberships) ≡ true
    → IsAdmission r s c
member-IsAdmission r c s before after =
    elim (handle_rule (λ x. (is_current_member (get s x.memberships) ≡ false) ⊎ IsAdmission r s c) r
      c (inl before) (λ r' t. Transition-member s t before) (λ r' n p. p)) [
        | inl stays ↦ absurd cc
        | inr a ↦ a
      ]

-- Nobody is online after the step who was not online before.
abbrev pub NobodyNew : Room → Room → Type 0
NobodyNew r r' =
    (s : SessionId) (p : PeerId) (m : Membership)
    → get s r'.memberships ≡ some m
    → m.state ≡ online p
    → get s r.memberships ≡ some m

-- An expired room stays expired, and nobody comes online in it.
pub record IsShut (r r' : Room) : Type 0 where
  pub stays_expired : r'.state ≡ expired
  pub nobody_new : NobodyNew r r'

insert-NobodyNew :
    (j : SessionId) (m' : Membership) (r : Room)
    → ((p : PeerId) → m'.state ≢ online p)
    → NobodyNew r (set_membership r j m')
insert-NobodyNew j m' r h s p m e o = ground (arith, get-insert s j m' r.memberships, h p)

Transition-IsShut :
    {r r' : Room} {c : RoomCommand} → r.state ≡ expired → Transition r c r' → IsShut r r'
Transition-IsShut {r} x (requested l a b g m n) = absurd (cc l.open_state)
Transition-IsShut {r} x (admitted q l a g t e) = absurd (cc l.open_state)
Transition-IsShut {r} x (turned_away q l a g t e) = absurd (cc l.open_state)
Transition-IsShut {r} x (request_lapsed q l g t e) = absurd (cc l.open_state)
Transition-IsShut {r} x (attached m l g a b) = absurd (cc l.open_state)
Transition-IsShut {r} x (detached {s = j} m g e) = record {
  stays_expired = x;
  nobody_new = insert-NobodyNew j _ r (λ p h. cc);
}
Transition-IsShut {r} x (closed e a) = absurd cc
Transition-IsShut {r} x (departed {s = j} m e g a) = record {
  stays_expired = x;
  nobody_new = insert-NobodyNew j _ r (λ p h. cc);
}
Transition-IsShut {r} x (withdrawn k q e g f) = record {
  stays_expired = x;
  nobody_new = λ s p m g o. g;
}
Transition-IsShut {r} x (lapsed a d) = absurd cc

handle-IsShut : (r : Room) (c : RoomCommand) → r.state ≡ expired → IsShut r (handle r c).0
handle-IsShut r c x =
    handle_rule (IsShut r) r c (record { stays_expired = x; nobody_new = λ s p m g o. g })
      (λ r' t. Transition-IsShut x t)
      (λ r' n h. record { stays_expired = h.stays_expired; nobody_new = h.nobody_new })

IsShut-trans : (r r' r'' : Room) → IsShut r r' → IsShut r' r'' → IsShut r r''
IsShut-trans r r' r'' first rest = record {
  stays_expired = rest.stays_expired;
  nobody_new = λ s p m g o. first.nobody_new s p m (rest.nobody_new s p m g o) o;
}

-- An expired room stays expired under any commands, and nobody comes online in it.
pub run-IsShut : (r : Room) (cs : List RoomCommand) → r.state ≡ expired → IsShut r (run r cs)
unfolding run
run-IsShut r [] x = record { stays_expired = x; nobody_new = λ s p m g o. g }
run-IsShut r (c ∷ cs) x =
    let first = handle-IsShut r c x in
    IsShut-trans r (handle r c).0 _ first (run-IsShut (handle r c).0 cs first.stays_expired)
